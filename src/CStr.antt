-- ===== src/CStr.antt =====
-- source/implementation/x86_64/string.c: C strings in the memory of Memory.antt.
--
-- A `char` is its byte; the comparisons of the source read the same on signed and unsigned bytes,
-- since they only ask for equality or for a range within ASCII. A loop up to a NUL byte takes
-- fuel, and `none` means that it ran out: CStr/Shape.antt says which fuel is enough.
mod Tests
pub mod Shape
pub mod Search
pub mod Copying
pub mod Number
use ety_os.Base.{
  ℕ, zero, suc, ◌+◌, ◌-◌, ◌*◌, ◌%◌, ◌^◌, Bool, true, false, not, ◌&&◌, ◌||◌, Option, none, some,
  ◌==◌, ltb, leb, if◌then◌else◌, ℤ, pos, negsuc, sub_ℕ,
}
use ety_os.Memory.{Ptr, Mem, store}

unfoldable pub strcmp : ℕ → Ptr → Ptr → Mem → Option ℤ
strcmp zero str1 str2 m = none
strcmp (suc fuel) str1 str2 m =
    let rest = strcmp fuel (str1 + 1) (str2 + 1) m in
    if not (m str1 == 0) && (m str1 == m str2) then rest else some (sub_ℕ (m str1) (m str2))

strcpy_loop : ℕ → Ptr → Ptr → Mem → Option Mem
strcpy_loop zero dest src m = none
strcpy_loop (suc fuel) dest src m =
    let rest = strcpy_loop fuel (dest + 1) (src + 1) (store m dest (m src)) in
    if not (m src == 0) then rest else some (store m dest 0)

-- The new memory; the C function also returns `dest`.
unfoldable pub strcpy : ℕ → Ptr → Ptr → Mem → Option Mem
unfolding strcpy_loop
strcpy fuel dest src m = strcpy_loop fuel dest src m

strlen_loop : ℕ → Ptr → ℕ → Mem → Option ℕ
strlen_loop zero str length m = none
strlen_loop (suc fuel) str length m =
    let rest = strlen_loop fuel str (length + 1) m in
    if not (m (str + length) == 0) then rest else some length

unfoldable pub strlen : ℕ → Ptr → Mem → Option ℕ
unfolding strlen_loop
strlen fuel str m = strlen_loop fuel str 0 m

-- The `if` ladder of `strtoul`: `none` is its `break` on a character that is no digit or letter.
unfoldable pub digit_of : ℕ → Option ℕ
digit_of c =
    if leb b'0' c && leb c b'9'
    then some (c - b'0')
    else if leb b'A' c && leb c b'Z'
    then some (c - b'A' + 10)
    else if leb b'a' c && leb c b'z'
    then some (c - b'a' + 10)
    else none

-- One round: the new result, or `none` where the loop stops.
unfoldable pub strtoul_step : ℕ → ℕ → ℕ → Option ℕ
strtoul_step base c result = if c == 0 then none else elim (digit_of c) [
  | none ↦ none
  | some digit ↦ if leb base digit then none else some ((result * base + digit) % 2 ^ 32)
]

strtoul_loop : ℕ → Ptr → ℕ → ℕ → Mem → Option (ℕ × Ptr)
strtoul_loop zero str base result m = none
strtoul_loop (suc fuel) str base result m = elim (strtoul_step base (m str) result) [
  | none ↦ some (result, str)
  | some result' ↦ strtoul_loop fuel (str + 1) base result' m
]

-- The result and what `endptr` receives.
unfoldable pub strtoul : ℕ → Ptr → ℕ → Mem → Option (ℕ × Ptr)
unfolding strtoul_loop
strtoul fuel str base m = strtoul_loop fuel str base 0 m

-- The outer option is the fuel, the inner one the null pointer; `c` is an `int`'s bit pattern.
unfoldable pub strchr : ℕ → Ptr → ℕ → Mem → Option (Option Ptr)
strchr zero str c m = none
strchr (suc fuel) str c m =
    let rest = strchr fuel (str + 1) c m in
    if not (m str == 0) then (if m str == c % 256 then some (some str) else rest) else some none

strncmp_loop : ℕ → ℕ → Ptr → Ptr → Mem → ℤ
strncmp_loop zero i str1 str2 m = pos 0
strncmp_loop (suc left) i str1 str2 m =
    let rest = strncmp_loop left (i + 1) str1 str2 m in
    if not (m (str1 + i) == m (str2 + i)) || (m (str1 + i) == 0)
    then sub_ℕ (m (str1 + i)) (m (str2 + i))
    else rest

unfoldable pub strncmp : Ptr → Ptr → ℕ → Mem → ℤ
unfolding strncmp_loop
strncmp str1 str2 num m = strncmp_loop num 0 str1 str2 m
