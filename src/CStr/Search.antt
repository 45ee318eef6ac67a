-- ===== src/CStr/Search.antt =====
-- `strcmp`, `strncmp` and `strchr` on the texts that the strings stand for.
use ety_os.Base.{
  ℕ, zero, suc, ◌+◌, ◌%◌, ◌<◌, ◌≡◌, refl, List, [], ◌∷◌, Option, some, none, arith, length, ◌==◌,
  true, false, ◌&&◌, ◌∙◌, ap, ℤ, pos, sub_ℕ, if◌then◌else◌, ◌↔◌, Bool,
}
use ety_os.Memory.{Ptr, Mem}
use ety_os.CStr.{strcmp, strncmp_loop, strncmp, strchr}
use ety_os.CStr.Shape.{IsStr}

-- The order of texts that `strcmp` computes: the difference at the first place where the texts,
-- each closed by a NUL, are not the same.
unfoldable pub difference : List ℕ → List ℕ → ℤ
difference [] [] = pos 0
difference [] (d ∷ t) = sub_ℕ 0 d
difference (c ∷ s) [] = sub_ℕ c 0
difference (c ∷ s) (d ∷ t) = if c == d then difference s t else sub_ℕ c d

pub strcmp-difference :
    (s t : List ℕ) (fuel : ℕ) (p q : Ptr) (m : Mem)
    → length s < fuel
    → IsStr m p s
    → IsStr m q t
    → strcmp fuel p q m ≡ some (difference s t)
unfolding strcmp difference
strcmp-difference s t zero p q m lt h k = absurd (omega arith)
strcmp-difference [] [] (suc fuel) p q m lt h k = ground arith
strcmp-difference [] (d ∷ t) (suc fuel) p q m lt h k = ground arith
strcmp-difference (c ∷ s) [] (suc fuel) p q m lt h k = ground arith
strcmp-difference (c ∷ s) (d ∷ t) (suc fuel) p q m lt h k =
    ground (arith, strcmp-difference s t fuel (p + 1) (q + 1) m (omega arith) h.2 k.2)

difference_zero :
    (s t : List ℕ) (m : Mem) (p q : Ptr)
    → IsStr m p s
    → IsStr m q t
    → difference s t ≡ pos 0
    → s ≡ t
unfolding difference
difference_zero [] [] m p q h k e = refl
difference_zero [] (d ∷ t) m p q h k e = absurd (ground arith)
difference_zero (c ∷ s) [] m p q h k e = absurd (ground arith)
difference_zero (c ∷ s) (d ∷ t) m p q h k e =
    ground (arith, difference_zero s t m (p + 1) (q + 1) h.2 k.2)

difference_self : (s : List ℕ) → difference s s ≡ pos 0
unfolding difference
difference_self [] = refl
difference_self (c ∷ s) = ground (arith, difference_self s)

-- `strcmp` returns 0 on two strings exactly when they hold the same text, given a round for each
-- character of the first and one more.
pub strcmp_iff :
    (s t : List ℕ) (fuel : ℕ) (p q : Ptr) (m : Mem)
    → length s < fuel
    → IsStr m p s
    → IsStr m q t
    → (strcmp fuel p q m ≡ some (pos 0)) ↔ (s ≡ t)
strcmp_iff s t fuel p q m lt h k = (
  λ e. difference_zero s t m p q h k (ground (arith, strcmp-difference s t fuel p q m lt h k)),
  λ e. strcmp-difference s t fuel p q m lt h k ∙ ap some (rw e (difference_self t)),
)

-- `prefix` is the start of the text.
unfoldable pub starts : List ℕ → List ℕ → Bool
starts [] t = true
starts (c ∷ s) [] = false
starts (c ∷ s) (d ∷ t) = (c == d) && starts s t

strncmp_loop_lem :
    (s t : List ℕ) (i : ℕ) (p q : Ptr) (m : Mem)
    → IsStr m (p + i) t
    → IsStr m (q + i) s
    → (strncmp_loop (length s) i p q m ≡ pos 0) ↔ (starts s t ≡ true)
unfolding strncmp_loop starts
strncmp_loop_lem [] t i p q m h k = (λ e. refl, λ e. refl)
strncmp_loop_lem (c ∷ s) [] i p q m h k = (ground arith, ground arith)
strncmp_loop_lem (c ∷ s) (d ∷ t) i p q m h k =
    let e : p + (i + 1) ≡ p + i + 1 = omega arith in
    let e' : q + (i + 1) ≡ q + i + 1 = omega arith in
    let ih = strncmp_loop_lem s t (i + 1) p q m (rw e h.2) (rw e' k.2) in
    (ground (arith, ih), ground (arith, ih))

-- `strncmp(text, prefix, n)`, with `n` the length of the prefix, is 0 exactly when the text begins
-- with the prefix.
pub strncmp_iff :
    (s t : List ℕ) (p q : Ptr) (m : Mem)
    → IsStr m p t
    → IsStr m q s
    → (strncmp p q (length s) m ≡ pos 0) ↔ (starts s t ≡ true)
unfolding strncmp
strncmp_iff s t p q m h k =
    let e : p + 0 ≡ p = omega arith in
    let e' : q + 0 ≡ q = omega arith in strncmp_loop_lem s t 0 p q m (rw e h) (rw e' k)

-- The address of the first `c` in a text that stands at `p`.
unfoldable pub address_of : ℕ → Ptr → List ℕ → Option Ptr
address_of c p [] = none
address_of c p (d ∷ s) = if d == c then some p else address_of c (p + 1) s

-- `strchr` returns the address of the first character of the string that is its argument cut to a
-- `char`, and NULL if there is none; a NUL is never found. It is given a round for each character
-- and one more.
pub strchr-address_of :
    (s : List ℕ) (fuel c : ℕ) (p : Ptr) (m : Mem)
    → length s < fuel
    → IsStr m p s
    → strchr fuel p c m ≡ some (address_of (c % 256) p s)
unfolding strchr address_of
strchr-address_of s zero c p m lt h = absurd (omega arith)
strchr-address_of [] (suc fuel) c p m lt h = ground arith
strchr-address_of (d ∷ s) (suc fuel) c p m lt (e, ne, h) =
    ground (arith, strchr-address_of s fuel c (p + 1) m (omega arith) h)
