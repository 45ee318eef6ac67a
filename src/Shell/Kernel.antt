-- ===== src/Shell/Kernel.antt =====
-- The ladder of `kernel_main` on a line in memory, against its text.
use ety_os.Base.{
  ℕ, ◌+◌, ◌<◌, ◌≡◌, some, List, [], ◌∷◌, if◌then◌else◌, codes, length, drop, arith, refl, ◌∙◌, sym,
  ap, ne→==, eq→==,
}
use ety_os.Memory.{Ptr, Mem}
use ety_os.CStr.Shape.{IsStr}
use ety_os.CStr.Search.{starts}
use ety_os.Shell.Parsing.{
  matches, number, Placed, Placed-word, branch-some, string_at_lem, IsStr-drop, length-drop,
  same_lem, begins_lem, number_at_lem,
}
use ety_os.Shell.{
  KernelCommand, blank, help, disktool, clear, dsks, about, checkfs, echo, partitions, setcolor,
  unknown, option_map, kernel_command,
}

abbrev pub kernel_words : List (List ℕ)
kernel_words =
    codes "help"
    ∷ codes "disktool"
    ∷ codes "clear"
    ∷ codes "dsks"
    ∷ codes "about"
    ∷ codes "checkfs"
    ∷ codes "echo "
    ∷ codes "partitions"
    ∷ codes "setcolor "
    ∷ []

-- The command of a text.
unfoldable pub kernel_text : List ℕ → KernelCommand
kernel_text [] = blank
kernel_text (c ∷ s) =
    let text = c ∷ s in
    if matches text (codes "help")
    then help
    else if matches text (codes "disktool")
    then disktool
    else if matches text (codes "clear")
    then clear
    else if matches text (codes "dsks")
    then dsks
    else if matches text (codes "about")
    then about
    else if matches text (codes "checkfs")
    then checkfs
    else if starts (codes "echo ") text
    then echo (drop 5 text)
    else if matches text (codes "partitions")
    then partitions
    else if starts (codes "setcolor ") text
    then setcolor (number (drop 9 text))
    else unknown text

-- Given a round for each character and one more, `kernel_main` takes a line that stands in memory
-- for the command of its text, wherever the line and the literals stand.
pub kernel_command-kernel_text :
    (lit : List ℕ → Ptr) (fuel : ℕ) (text : List ℕ) (p : Ptr) (m : Mem)
    → length text < fuel
    → IsStr m p text
    → Placed m lit kernel_words
    → kernel_command lit fuel p m ≡ some (kernel_text text)
unfolding kernel_command kernel_text
kernel_command-kernel_text lit fuel [] p m lt line placed = rw (eq→== (m p) 0 line) refl
kernel_command-kernel_text lit fuel (c ∷ s) p m lt line placed =
    let text = c ∷ s in
    let at = λ (n : ℕ) (lt : n < 9). Placed-word m lit kernel_words n lt placed in
    let word = λ (w : List ℕ) (h : IsStr m (lit w) w). same_lem lit fuel text p m lt line w h in
    let prefix = λ (w : List ℕ) (h : IsStr m (lit w) w). begins_lem lit fuel text p m lt line w h in
    rw (ne→== (m p) 0 (λ e. line.1 (sym line.0 ∙ e))) (
      branch-some _ _ _ (word (codes "help") (at 0 (omega arith))) (λ _. refl)
        (branch-some _ _ _ (word (codes "disktool") (at 1 (omega arith))) (λ _. refl)
          (branch-some _ _ _ (word (codes "clear") (at 2 (omega arith))) (λ _. refl)
            (branch-some _ _ _ (word (codes "dsks") (at 3 (omega arith))) (λ _. refl)
              (branch-some _ _ _ (word (codes "about") (at 4 (omega arith))) (λ _. refl)
                (branch-some _ _ _ (word (codes "checkfs") (at 5 (omega arith))) (λ _. refl)
                  (branch-some _ _ _ (prefix (codes "echo ") (at 6 (omega arith)))
                    (λ e. ap (option_map echo) (
                      string_at_lem (drop 5 text) fuel (p + 5) m (length-drop 5 text fuel lt)
                        (IsStr-drop (codes "echo ") text m p e line)))
                    (branch-some _ _ _ (word (codes "partitions") (at 7 (omega arith))) (λ _. refl)
                      (branch-some _ _ _ (prefix (codes "setcolor ") (at 8 (omega arith)))
                        (λ e. ap (option_map setcolor) (
                          number_at_lem lit fuel (drop 9 text) (p + 9) m
                            (length-drop 9 text fuel lt)
                            (IsStr-drop (codes "setcolor ") text m p e line)))
                        (ap (option_map unknown) (string_at_lem text fuel p m lt line)))))))))))
