-- ===== src/Shell/Typed.antt =====
-- The line that is typed for a command of the disk tool, and that it is taken for that command.
use ety_os.Base.{
  ℕ, zero, suc, ◌+◌, ◌-◌, ◌/◌, ◌%◌, ◌^◌, ◌<◌, ◌≤◌, ◌≡◌, ◌≢◌, ◌⊎◌, false, Bool-cases, inl, inr, some,
  List, [], ◌∷◌, ◌++◌, ◌==◌, ltb, codes, length, ℤ, pos, negsuc, arith, refl, ◌∙◌, ap, ap₂, ne→==,
  lt→ltb, le→ltb, subst,
}
use ety_os.Memory.{Ptr, Mem}
use ety_os.CStr.Shape.{IsStr}
use ety_os.CStr.Search.{difference, starts}
use ety_os.Console.Digits.{digits, decimal, numeral-decimal}
use ety_os.Disktool.{FileSystemType, fs_fat32, fs_ext4}
use ety_os.Shell.{
  DiskCommand, blank_line, tool_help, listdisks, update, format, selectdisk, newpart, delpart,
  partinfo, exit, unknown_command, to_int, disk_command,
}
use ety_os.Shell.Parsing.{number, Placed}
use ety_os.Shell.Cut.{before_space, after_space}
use ety_os.Shell.Tool.{disk_words, disk_text, newpart_text, fs_text, Parses, disk_command-Parses}

abbrev pub fs_name : FileSystemType → List ℕ
fs_name fs_fat32 = codes "fat32"
fs_name fs_ext4 = codes "ext4"

-- An `int` as the `uint32_t` of the same bits.
abbrev pub bits : ℤ → ℕ
bits (pos n) = n
bits (negsuc n) = 2 ^ 32 - 1 - n

-- A line that asks for the command, with its numbers in decimal.
unfoldable pub disk_line : DiskCommand → List ℕ
disk_line blank_line = []
disk_line tool_help = codes "help"
disk_line listdisks = codes "listdisks"
disk_line update = codes "update"
disk_line (format fs) = codes "format " ++ fs_name fs
disk_line (selectdisk i) = codes "selectdisk " ++ decimal (bits i)
disk_line (newpart n fs) = codes "newpart " ++ (decimal n ++ (b' ' ∷ fs_name fs))
disk_line (delpart i) = codes "delpart " ++ decimal (bits i)
disk_line partinfo = codes "partinfo"
disk_line exit = codes "exit"
disk_line unknown_command = codes "unknown"

abbrev pub IsInt : ℤ → Type 0
IsInt (pos n) = n < 2 ^ 31
IsInt (negsuc n) = n < 2 ^ 31

-- The numbers of the command have 32 bits.
abbrev pub IsDiskCommand : DiskCommand → Type 0
IsDiskCommand (selectdisk i) = IsInt i
IsDiskCommand (delpart i) = IsInt i
IsDiskCommand (newpart n fs) = n < 2 ^ 32
IsDiskCommand _ = Unit {0}

unfoldable NoSpace : List ℕ → Type 0
NoSpace [] = Unit {0}
NoSpace (c ∷ s) = (c ≢ 32) × NoSpace s

NoSpace-append : (s t : List ℕ) → NoSpace s → NoSpace t → NoSpace (s ++ t)
unfolding NoSpace
NoSpace-append [] t h k = k
NoSpace-append (c ∷ s) t h k = (h.0, NoSpace-append s t h.1 k)

NoSpace-digits : (fuel n : ℕ) → NoSpace (digits fuel n)
unfolding NoSpace digits
NoSpace-digits zero n = tt
NoSpace-digits (suc fuel) n = elim (Bool-cases (ltb 0 n)) [
  | inl e ↦ rw e (
      NoSpace-append (digits fuel (n / 10)) _ (NoSpace-digits fuel (n / 10))
        (λ e'. omega arith, tt))
  | inr e ↦ rw e tt
]

NoSpace-decimal : (n : ℕ) → NoSpace (decimal n)
unfolding NoSpace decimal
NoSpace-decimal n = elim (Bool-cases (n == 0)) [
  | inl e ↦ rw e (λ e'. omega arith, tt)
  | inr e ↦ rw e (NoSpace-digits 10 n)
]

space_lem :
    (s t : List ℕ)
    → NoSpace s
    → (before_space (s ++ (32 ∷ t)) ≡ s) × (after_space (s ++ (32 ∷ t)) ≡ some t)
unfolding NoSpace before_space after_space
space_lem [] t h = (refl, refl)
space_lem (c ∷ s) t (ne, h) =
    let (before, after) = space_lem s t h in rw (ne→== c 32 ne) (ap (λ r. c ∷ r) before, after)

pub number-decimal : (n : ℕ) → n < 2 ^ 32 → number (decimal n) ≡ n
number-decimal n h = ap (λ r. r.0 % 2 ^ 32) (numeral-decimal n h) ∙ omega arith

to_int-bits : (i : ℤ) → IsInt i → to_int (bits i) ≡ i
to_int-bits (pos n) h = rw (lt→ltb n (2 ^ 31) h) refl
to_int-bits (negsuc n) h =
    let big : ltb (2 ^ 32 - 1 - n) (2 ^ 31) ≡ false = le→ltb _ _ (omega arith) in
    rw big (ap negsuc (omega arith))

bits_small : (i : ℤ) → IsInt i → bits i < 2 ^ 32
bits_small (pos n) h = omega arith
bits_small (negsuc n) h = omega arith

fs_text-fs_name : (fs : FileSystemType) → fs_text (fs_name fs) ≡ fs
unfolding fs_text difference
fs_text-fs_name fs_fat32 = refl
fs_text-fs_name fs_ext4 = refl

disk_text-disk_line : (cmd : DiskCommand) → IsDiskCommand cmd → disk_text (disk_line cmd) ≡ cmd
unfolding disk_text disk_line difference starts newpart_text
disk_text-disk_line blank_line h = refl
disk_text-disk_line tool_help h = refl
disk_text-disk_line listdisks h = refl
disk_text-disk_line update h = refl
disk_text-disk_line (format fs) h = ap format (fs_text-fs_name fs)
disk_text-disk_line (selectdisk i) h =
    ap (λ n. selectdisk (to_int n)) (number-decimal (bits i) (bits_small i h))
    ∙ ap selectdisk (to_int-bits i h)
disk_text-disk_line (newpart n fs) h =
    let (before, after) = space_lem (decimal n) (fs_name fs) (NoSpace-decimal n) in
    rw (newpart_text, before, after) (ap₂ newpart (number-decimal n h) (fs_text-fs_name fs))
disk_text-disk_line (delpart i) h =
    ap (λ n. delpart (to_int n)) (number-decimal (bits i) (bits_small i h))
    ∙ ap delpart (to_int-bits i h)
disk_text-disk_line partinfo h = refl
disk_text-disk_line exit h = refl
disk_text-disk_line unknown_command h = refl

-- Given a round for each character and one more, `start_disktool` takes the line of a command, with
-- its numbers in decimal and of 32 bits, for that command. The line and the literals stand in
-- memory, "ext4" apart from the line.
pub disk_command-disk_line :
    (lit : List ℕ → Ptr) (fuel : ℕ) (p : Ptr) (m : Mem) (cmd : DiskCommand)
    → IsDiskCommand cmd
    → length (disk_line cmd) < fuel
    → IsStr m p (disk_line cmd)
    → Placed m lit disk_words
    → (lit (codes "ext4") + 4 < p) ⊎ (p + length (disk_line cmd) ≤ lit (codes "ext4"))
    → Parses p (length (disk_line cmd)) m (disk_command lit fuel p m) cmd
disk_command-disk_line lit fuel p m cmd small lt line placed apart =
    subst (Parses p (length (disk_line cmd)) m (disk_command lit fuel p m))
      (disk_text-disk_line cmd small)
      (disk_command-Parses lit fuel p m (disk_line cmd) lt line placed apart)
