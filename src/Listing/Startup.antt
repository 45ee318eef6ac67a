-- ===== src/Listing/Startup.antt =====
-- The functions of source/implementation/x86_64/filesystem.c that nothing calls.
use ety_os.Base.{
  ℕ, zero, suc, ◌+◌, ◌<◌, ◌≡◌, Bool, true, false, not, ◌&&◌, Bool-cases, inl, inr, Option, none,
  some, List, [], ◌∷◌, ◌==◌, if◌then◌else◌, codes, length, arith, refl, ne→==,
}
use ety_os.Memory.{Ptr, Mem}
use ety_os.CStr.Shape.{IsStr}
use ety_os.Console.{Console, print_str, print_newline}

unfoldable pub is_blank_or_whitespace : ℕ → Ptr → Mem → Option ℕ
is_blank_or_whitespace zero str m = none
is_blank_or_whitespace (suc fuel) str m =
    let rest = is_blank_or_whitespace fuel (str + 1) m in
    if m str == 0
    then some 1
    else if not (m str == b' ') && not (m str == b'\t')
    then some 0
    else rest

unfoldable pub init_filesystem : Console → Console
init_filesystem c = print_newline (print_str (codes "Initializing filesystem...") c)

-- Only spaces and tabs.
abbrev pub is_blank : List ℕ → Bool
is_blank [] = true
is_blank (c ∷ s) = if not (c == b' ') && not (c == b'\t') then false else is_blank s

-- `is_blank_or_whitespace` tells whether its string has only spaces and tabs, given a round for each
-- character and one more.
pub is_blank_or_whitespace-is_blank :
    (fuel : ℕ) (str : Ptr) (m : Mem) (s : List ℕ)
    → length s < fuel
    → IsStr m str s
    → is_blank_or_whitespace fuel str m ≡ some (if is_blank s then 1 else 0)
unfolding is_blank_or_whitespace
is_blank_or_whitespace-is_blank zero str m s lt is = ground (arith, lt)
is_blank_or_whitespace-is_blank (suc fuel) str m [] lt is = rw is refl
is_blank_or_whitespace-is_blank (suc fuel) str m (c ∷ s) lt (e, ne, is) =
    rw (e, ne→== c 0 ne)
      (elim (Bool-cases (not (c == b' ') && not (c == b'\t'))) [
        | inl b ↦ rw b refl
        | inr b ↦ rw b (is_blank_or_whitespace-is_blank fuel (str + 1) m s (omega arith) is)
      ])
