-- ===== src/Shell/Tool.antt =====
-- The ladder of `start_disktool` on a line in memory, against its text.
use ety_os.Base.{
  ℕ, ◌+◌, ◌<◌, ◌≤◌, ◌≡◌, ◌⊎◌, Bool, true, false, Option, none, some, List, [], ◌∷◌, if◌then◌else◌,
  codes, length, drop, arith, refl, ◌∙◌, sym, ap, ne→==, eq→==, subst,
}
use ety_os.Memory.{Ptr, Mem, store}
use ety_os.CStr.{strchr}
use ety_os.CStr.Shape.{IsStr}
use ety_os.CStr.Search.{starts, address_of, strchr-address_of}
use ety_os.Disktool.{FileSystemType, fs_fat32, fs_ext4}
use ety_os.CStr.Shape.{IsStr-frame}
use ety_os.Shell.{
  DiskCommand, blank_line, tool_help, listdisks, update, format, selectdisk, newpart, delpart,
  partinfo, exit, unknown_command, to_int, option_map, branch, number_at, parse_fs_type,
  new_partition, disk_command,
}
use ety_os.Shell.Cut.{
  before_space, after_space, address_of-none, address_of-Cut, length-before_space,
}
use ety_os.Shell.Parsing.{
  matches, number, Placed, Placed-word, length-starts, IsStr-drop, length-drop, same_lem,
  begins_lem, number_at_lem, parse_fs_type_lem,
}

unfoldable pub fs_text : List ℕ → FileSystemType
fs_text s = if matches s (codes "ext4") then fs_ext4 else fs_fat32

unfoldable pub newpart_text : List ℕ → DiskCommand
newpart_text s =
    newpart (number (before_space s))
      (elim (after_space s) [ none ↦ fs_fat32 | some rest ↦ fs_text rest ])

abbrev pub disk_words : List (List ℕ)
disk_words =
    codes "help"
    ∷ codes "listdisks"
    ∷ codes "update"
    ∷ codes "format"
    ∷ codes "format "
    ∷ codes "selectdisk "
    ∷ codes "newpart "
    ∷ codes "delpart "
    ∷ codes "partinfo"
    ∷ codes "exit"
    ∷ codes "ext4"
    ∷ []

-- The command of a text.
unfoldable pub disk_text : List ℕ → DiskCommand
disk_text [] = blank_line
disk_text (c ∷ s) =
    let text = c ∷ s in
    if matches text (codes "help")
    then tool_help
    else if matches text (codes "listdisks")
    then listdisks
    else if matches text (codes "update")
    then update
    else if matches text (codes "format")
    then format fs_ext4
    else if starts (codes "format ") text
    then format (fs_text (drop 7 text))
    else if starts (codes "selectdisk ") text
    then selectdisk (to_int (number (drop 11 text)))
    else if starts (codes "newpart ") text
    then newpart_text (drop 8 text)
    else if starts (codes "delpart ") text
    then delpart (to_int (number (drop 8 text)))
    else if matches text (codes "partinfo")
    then partinfo
    else if matches text (codes "exit")
    then exit
    else unknown_command

-- A parse that returns `v`, in a memory where only the `n` bytes from `p` on may differ from `m`.
pub record Parses (p : Ptr) (n : ℕ) (m : Mem) (o : Option (DiskCommand × Mem)) (v : DiskCommand)
    : Type 0 where
  pub memory : Mem
  pub returns : o ≡ some (v, memory)
  pub kept : (x : Ptr) → (x < p) ⊎ (p + n ≤ x) → memory x ≡ m x

module _ (p : Ptr) (n : ℕ) (m : Mem) where
  parsed : (o : Option (DiskCommand × Mem)) {v : DiskCommand} → o ≡ some (v, m) → Parses p n m o v
  parsed o e = record { memory = m; returns = e; kept = λ x out. refl }

  branch-Parses :
      (t : Option Bool) (x rest : Option (DiskCommand × Mem)) {b : Bool} {v w : DiskCommand}
      → t ≡ some b
      → (b ≡ true → Parses p n m x v)
      → Parses p n m rest w
      → Parses p n m (branch t x rest) (if b then v else w)
  branch-Parses t x rest {b} {v} {w} e h h' =
      subst (λ o. Parses p n m (branch o x rest) (if b then v else w)) (sym e) (go b h)
    where
      go :
          (b' : Bool)
          → (b' ≡ true → Parses p n m x v)
          → Parses p n m (branch (some b') x rest) (if b' then v else w)
      go true k = k refl
      go false k = h'

module _ (lit : List ℕ → Ptr) (fuel : ℕ) (text : List ℕ) (p : Ptr) (m : Mem)
    (enough : length text < fuel) (line : IsStr m p text)
    (ext4 : IsStr m (lit (codes "ext4")) (codes "ext4"))
    (apart : (lit (codes "ext4") + 4 < p) ⊎ (p + length text ≤ lit (codes "ext4"))) where
  found_lem : (o : Option Ptr) → address_of 32 p text ≡ o → strchr fuel p b' ' m ≡ some o
  found_lem o e = strchr-address_of text fuel b' ' p m enough line ∙ ap some e

  new_partition-Parses : Parses p (length text) m (new_partition lit fuel p m) (newpart_text text)
  unfolding new_partition newpart_text fs_text
  new_partition-Parses = go (after_space text) refl
    where
      go :
          (o : Option (List ℕ))
          → after_space text ≡ o
          → Parses p (length text) m (new_partition lit fuel p m) (
              newpart
                (number (before_space text))
                (elim o [ none ↦ fs_fat32 | some rest ↦ fs_text rest ]))
      go none e =
          let (nowhere, whole) = address_of-none p text e in
          rw (new_partition, found_lem none nowhere, whole)
            (parsed p (length text) m _ (
              ap (option_map (λ n. (newpart n fs_fat32, m)))
                (number_at_lem lit fuel text p m enough line)))
      go (some rest) e =
          let cut = address_of-Cut p m text rest line e in
          let m' : Mem = store m cut.at 0 in
          let (lo, hi) = cut.inside in
          let spared : IsStr m' (lit (codes "ext4")) (codes "ext4") =
            IsStr-frame (codes "ext4") m m' (lit (codes "ext4"))
              (λ i lt. ground (arith, lo, hi, apart)) ext4 in
          let fs : parse_fs_type lit fuel (cut.at + 1) m' ≡ some (fs_text rest) =
            parse_fs_type_lem lit fuel rest (cut.at + 1) m' (omega (arith, cut.shorter)) cut.second
              spared in
          let n : number_at lit fuel p m' ≡ some (number (before_space text)) =
            number_at_lem lit fuel (before_space text) p m' (length-before_space text fuel enough)
              cut.first in
          record {
            memory = m';
            returns = rw (new_partition, found_lem (some cut.at) cut.found, fs, n) refl;
            kept = λ x out. ground (arith, lo, hi);
          }

widen :
    (p q : Ptr) (n k : ℕ) (m : Mem) (o : Option (DiskCommand × Mem)) (v : DiskCommand)
    → q + k ≡ p + n
    → p ≤ q
    → Parses q k m o v
    → Parses p n m o v
widen p q n k m o v e le parse = record {
  memory = parse.memory;
  returns = parse.returns;
  kept = λ x out. parse.kept x (omega arith);
}

module _ (lit : List ℕ → Ptr) (fuel : ℕ) (p : Ptr) (m : Mem) where
  -- Given a round for each character and one more, `start_disktool` takes a line that stands in
  -- memory for the command of its text, and changes no byte outside of the line, if the literal
  -- "ext4" does not overlap it.
  pub disk_command-Parses :
      (text : List ℕ)
      → length text < fuel
      → IsStr m p text
      → Placed m lit disk_words
      → (lit (codes "ext4") + 4 < p) ⊎ (p + length text ≤ lit (codes "ext4"))
      → Parses p (length text) m (disk_command lit fuel p m) (disk_text text)
  unfolding disk_command disk_text fs_text
  disk_command-Parses [] lt line placed apart = rw (eq→== (m p) 0 line) (parsed p 0 m _ refl)
  disk_command-Parses (c ∷ s) lt line placed apart =
      let text = c ∷ s in
      let size = length text in
      let at = λ (n : ℕ) (lt : n < 11). Placed-word m lit disk_words n lt placed in
      let word = λ (w : List ℕ) (h : IsStr m (lit w) w). same_lem lit fuel text p m lt line w h in
      let prefix =
        λ (w : List ℕ) (h : IsStr m (lit w) w). begins_lem lit fuel text p m lt line w h in
      let number_of = λ (w : List ℕ) (e : starts w text ≡ true).
        number_at_lem lit fuel (drop (length w) text) (p + length w) m
          (length-drop (length w) text fuel lt) (IsStr-drop w text m p e line) in
      rw (ne→== (m p) 0 (λ e. line.1 (sym line.0 ∙ e))) (
        branch-Parses p size m _ _ _ (word (codes "help") (at 0 (omega arith)))
          (λ _. parsed p size m _ refl)
          (branch-Parses p size m _ _ _ (word (codes "listdisks") (at 1 (omega arith)))
            (λ _. parsed p size m _ refl)
            (branch-Parses p size m _ _ _ (word (codes "update") (at 2 (omega arith)))
              (λ _. parsed p size m _ refl)
              (branch-Parses p size m _ _ _ (word (codes "format") (at 3 (omega arith)))
                (λ _. parsed p size m _ refl)
                (branch-Parses p size m _ _ _ (prefix (codes "format ") (at 4 (omega arith)))
                  (λ e. parsed p size m _ (
                    ap (option_map (λ t. (format t, m))) (
                      parse_fs_type_lem lit fuel (drop 7 text) (p + 7) m
                        (length-drop 7 text fuel lt) (IsStr-drop (codes "format ") text m p e line)
                        (at 10 (omega arith)))))
                  (branch-Parses p size m _ _ _ (prefix (codes "selectdisk ") (at 5 (omega arith)))
                    (λ e. parsed p size m _ (
                      ap (option_map (λ n. (selectdisk (to_int n), m)))
                        (number_of (codes "selectdisk ") e)))
                    (branch-Parses p size m _ _ _ (prefix (codes "newpart ") (at 6 (omega arith)))
                      (λ e.
                        widen p (p + 8) size (length (drop 8 text)) m _ _
                          (omega (arith, length-starts (codes "newpart ") text e)) (omega arith)
                          (new_partition-Parses lit fuel (drop 8 text) (p + 8) m
                            (length-drop 8 text fuel lt)
                            (IsStr-drop (codes "newpart ") text m p e line) (at 10 (omega arith))
                            (omega (arith, length-starts (codes "newpart ") text e))))
                      (branch-Parses p size m _ _ _ (prefix (codes "delpart ") (at 7 (omega arith)))
                        (λ e. parsed p size m _ (
                          ap (option_map (λ n. (delpart (to_int n), m)))
                            (number_of (codes "delpart ") e)))
                        (branch-Parses p size m _ _ _ (word (codes "partinfo") (at 8 (omega arith)))
                          (λ _. parsed p size m _ refl)
                          (branch-Parses p size m _ _ _ (word (codes "exit") (at 9 (omega arith)))
                            (λ _. parsed p size m _ refl) (parsed p size m _ refl)))))))))))
