-- ===== src/CStr/Number.antt =====
-- `strtoul` against the value of a numeral.
use ety_os.Base.{
  ℕ, zero, suc, ◌+◌, ◌*◌, ◌^◌, ◌%◌, ◌<◌, ◌≡◌, ◌≢◌, refl, List, [], ◌∷◌, Option, some, none, arith,
  length, leb, codes, ◌==◌, Bool-cases, inl, inr, ltb, ◌&&◌, sym, Bool, true, false, ◌≤◌, ==→eq,
  ne→==, ltb→lt, ltb→le, if◌then◌else◌, ◌∙◌, ap,
}
use native.Mathlib.Nat.{div-add-mod}
use ety_os.Base.{holds_below-at}
use ety_os.Memory.{Ptr, Mem}
use ety_os.CStr.{digit_of, strtoul_step, strtoul_loop, strtoul}
use ety_os.CStr.Shape.{IsStr}

-- The place of a character among others, counted from `n`.
unfoldable pub place_in : List ℕ → ℕ → ℕ → Option ℕ
place_in [] n c = none
place_in (d ∷ ds) n c = let rest = place_in ds (n + 1) c in if c == d then some n else rest

-- The place among the digits and letters, in upper or in lower case, is what the character is worth.
unfoldable pub worth : ℕ → Option ℕ
worth c =
    let lower = place_in (codes "0123456789abcdefghijklmnopqrstuvwxyz") 0 c in
    elim (place_in (codes "0123456789ABCDEFGHIJKLMNOPQRSTUVWXYZ") 0 c) [
      | some n ↦ some n
      | none ↦ lower
    ]

-- The digit that a character is in a base.
unfoldable pub digit_in : ℕ → ℕ → Option ℕ
digit_in base c = elim (worth c) [ none ↦ none | some d ↦ if leb base d then none else some d ]

same_digit : Option ℕ → Option ℕ → Bool
same_digit none none = true
same_digit none (some e) = false
same_digit (some d) none = false
same_digit (some d) (some e) = d == e

same_digit-eq : (o o' : Option ℕ) → same_digit o o' ≡ true → o ≡ o'
unfolding same_digit
same_digit-eq none none e = refl
same_digit-eq none (some d) e = absurd (cc)
same_digit-eq (some d) none e = absurd (cc)
same_digit-eq (some d) (some d') e = ap some (==→eq d d' e)

below : ℕ → List ℕ → Bool
below k [] = true
below k (d ∷ ds) = ltb d k && below k ds

place_in-none : (k : ℕ) (ds : List ℕ) (n c : ℕ) → below k ds ≡ true → k ≤ c → place_in ds n c ≡ none
unfolding below place_in
place_in-none k [] n c e le = refl
place_in-none k (d ∷ ds) n c e le =
    rw (ne→== c d (ground (arith, e))) (place_in-none k ds (n + 1) c (ground (arith, e)) le)

digit_of-none : (c : ℕ) → 123 ≤ c → digit_of c ≡ none
unfolding digit_of
digit_of-none c le = ground arith

worth-none :
    (c : ℕ)
    → place_in (codes "0123456789ABCDEFGHIJKLMNOPQRSTUVWXYZ") 0 c ≡ none
    → place_in (codes "0123456789abcdefghijklmnopqrstuvwxyz") 0 c ≡ none
    → worth c ≡ none
unfolding worth
worth-none c e e' =
    ap
      (λ (o : Option ℕ). elim o as (λ _. Option ℕ) [
        | some n ↦ some n
        | none ↦ place_in (codes "0123456789abcdefghijklmnopqrstuvwxyz") 0 c
      ])
      e
    ∙ e'

pub digit_of-worth : (c : ℕ) → digit_of c ≡ worth c
digit_of-worth c = elim (Bool-cases (ltb c 123)) [
  | inl e ↦ same_digit-eq (digit_of c) (worth c) (
      holds_below-at 123 c (λ k. same_digit (digit_of k) (worth k))
        (unfold same_digit digit_of worth place_in in refl) (ltb→lt c 123 e))
  | inr e ↦ beyond (ltb→le c 123 e)
]
  where
    beyond : 123 ≤ c → digit_of c ≡ worth c
    beyond le =
        digit_of-none c le
        ∙ sym (
            worth-none c
              (place_in-none 123 (codes "0123456789ABCDEFGHIJKLMNOPQRSTUVWXYZ") 0 c
                (unfold below in refl) le)
              (place_in-none 123 (codes "0123456789abcdefghijklmnopqrstuvwxyz") 0 c
                (unfold below in refl) le))

-- The digit in a base, by the ladder.
pub digit_in-digit_of :
    (base c : ℕ)
    → digit_in base c ≡ elim (digit_of c) as (λ _. Option ℕ) [
      | none ↦ none
      | some d ↦ if leb base d then none else some d
    ]
unfolding digit_in
digit_in-digit_of base c = rw (digit_of-worth c) refl

-- The numeral that a text begins with: the value of its digits, unbounded, on top of `acc`, and
-- how many there are.
unfoldable pub numeral : ℕ → ℕ → List ℕ → ℕ × ℕ
numeral base acc [] = (acc, 0)
numeral base acc (c ∷ s) = elim (digit_in base c) [
  | none ↦ (acc, 0)
  | some d ↦ ((numeral base (acc * base + d) s).0, suc (numeral base (acc * base + d) s).1)
]

wrap_step : (a base d : ℕ) → (a % 2 ^ 32 * base + d) % 2 ^ 32 ≡ (a * base + d) % 2 ^ 32
wrap_step a base d = omega (arith, ap (λ (t : ℕ). t * base) (div-add-mod a (2 ^ 32)))

step-stop : (base c r : ℕ) → c ≢ 0 → digit_in base c ≡ none → strtoul_step base c r ≡ none
unfolding strtoul_step
step-stop base c r ne h = ground (arith, sym (digit_in-digit_of base c) ∙ h)

step-digit :
    (base c r d : ℕ)
    → c ≢ 0
    → digit_in base c ≡ some d
    → strtoul_step base c r ≡ some ((r * base + d) % 2 ^ 32)
unfolding strtoul_step
step-digit base c r d ne h = ground (arith, sym (digit_in-digit_of base c) ∙ h)

numeral-stop :
    (base acc c : ℕ) (s : List ℕ) → digit_in base c ≡ none → numeral base acc (c ∷ s) ≡ (acc, 0)
unfolding numeral
numeral-stop base acc c s h = rw (h, numeral)

pub numeral-digit :
    (base acc c d : ℕ) (s : List ℕ)
    → digit_in base c ≡ some d
    → numeral base acc (c ∷ s)
      ≡ ((numeral base (acc * base + d) s).0, suc (numeral base (acc * base + d) s).1)
unfolding numeral
numeral-digit base acc c d s h = rw (h, numeral)

loop-stop :
    (fuel : ℕ) (p : Ptr) (base r : ℕ) (m : Mem)
    → strtoul_step base (m p) r ≡ none
    → strtoul_loop (suc fuel) p base r m ≡ some (r, p)
unfolding strtoul_loop
loop-stop fuel p base r m h = rw (h, strtoul_loop)

loop-next :
    (fuel : ℕ) (p : Ptr) (base r r' : ℕ) (m : Mem)
    → strtoul_step base (m p) r ≡ some r'
    → strtoul_loop (suc fuel) p base r m ≡ strtoul_loop fuel (p + 1) base r' m
unfolding strtoul_loop
loop-next fuel p base r r' m h = rw (h, strtoul_loop)

strtoul_loop_lem :
    (s : List ℕ) (fuel base acc : ℕ) (p : Ptr) (m : Mem)
    → length s < fuel
    → IsStr m p s
    → strtoul_loop fuel p base (acc % 2 ^ 32) m
      ≡ some ((numeral base acc s).0 % 2 ^ 32, p + (numeral base acc s).1)
unfolding strtoul_loop
strtoul_loop_lem s zero base acc p m lt h = absurd (omega arith)
strtoul_loop_lem [] (suc fuel) base acc p m lt h = unfold strtoul_step numeral in ground arith
strtoul_loop_lem (c ∷ s) (suc fuel) base acc p m lt (e, ne, h) =
    go (digit_in base c) refl
      (λ d. strtoul_loop_lem s fuel base (acc * base + d) (p + 1) m (omega arith) h)
  where
    go :
        (o : Option ℕ)
        → digit_in base c ≡ o
        → ((d : ℕ)
            → strtoul_loop fuel (p + 1) base ((acc * base + d) % 2 ^ 32) m
              ≡ some (
                (numeral base (acc * base + d) s).0 % 2 ^ 32,
                p + 1 + (numeral base (acc * base + d) s).1,
              ))
        → strtoul_loop (suc fuel) p base (acc % 2 ^ 32) m
          ≡ some ((numeral base acc (c ∷ s)).0 % 2 ^ 32, p + (numeral base acc (c ∷ s)).1)
    go none q ih =
        loop-stop fuel p base (acc % 2 ^ 32) m (rw e (step-stop base c (acc % 2 ^ 32) ne q))
        ∙ rw (numeral-stop base acc c s q) (ap (λ a. some (acc % 2 ^ 32, a)) (omega arith))
    go (some d) q ih =
        loop-next fuel p base (acc % 2 ^ 32) ((acc * base + d) % 2 ^ 32) m
          (rw e (step-digit base c (acc % 2 ^ 32) d ne q ∙ ap some (wrap_step acc base d)))
        ∙ ih d
        ∙ rw (numeral-digit base acc c d s q)
            (ap (λ a. some ((numeral base (acc * base + d) s).0 % 2 ^ 32, a)) (omega arith))

-- `strtoul` returns the value, modulo 2 ^ 32, of the longest run of digits of the base that the
-- string begins with (0 if it begins with none), and sets `endptr` behind that run; it is given a
-- round for each character and one more.
pub strtoul_lem :
    (s : List ℕ) (fuel base : ℕ) (p : Ptr) (m : Mem)
    → length s < fuel
    → IsStr m p s
    → strtoul fuel p base m ≡ some ((numeral base 0 s).0 % 2 ^ 32, p + (numeral base 0 s).1)
unfolding strtoul
strtoul_lem s fuel base p m lt h = strtoul_loop_lem s fuel base 0 p m lt h
