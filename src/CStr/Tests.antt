-- ===== src/CStr/Tests.antt =====
-- The routines of string.c on texts in memory.
use ety_os.Base.{ℕ, ◌+◌, ◌%◌, ◌^◌, ◌<◌, ◌≡◌, ◌⊎◌, inr, arith, refl, some, List, [], ◌∷◌, get_or}
use ety_os.Memory.{Ptr, Mem}
use ety_os.CStr.{strcpy, strtoul}
use ety_os.CStr.Shape.{IsStr}
use ety_os.CStr.Copying.{strcpy_lem}
use ety_os.CStr.Number.{numeral, strtoul_lem}

abbrev number : List ℕ
number = b'4' ∷ b'2' ∷ []

abbrev command : List ℕ
command = b'4' ∷ b'2' ∷ b' ' ∷ []

-- "42" at 0 and "42 " at 3, zeros behind.
abbrev texts : Mem
texts a = get_or (b'4' ∷ b'2' ∷ 0 ∷ b'4' ∷ b'2' ∷ b' ' ∷ 0 ∷ []) a 0

number-IsStr : IsStr texts 0 number
number-IsStr = (refl, omega arith, (refl, omega arith, refl))

command-IsStr : IsStr texts 3 command
command-IsStr = (refl, omega arith, (refl, omega arith, (refl, omega arith, refl)))

strcpy_lem_example :
    (m' : Mem) × (strcpy 10 20 3 texts ≡ some m')
    × IsStr m' 20 command
    × IsStr m' 3 command
    × ((x : Ptr) → (x < 20) ⊎ (23 < x) → m' x ≡ texts x)
strcpy_lem_example =
    strcpy_lem command 10 20 3 texts (omega arith) command-IsStr (inr (omega arith))

strtoul_lem_example :
    strtoul 10 3 10 texts ≡ some ((numeral 10 0 command).0 % 2 ^ 32, 3 + (numeral 10 0 command).1)
strtoul_lem_example = strtoul_lem command 10 10 3 texts (omega arith) command-IsStr
