-- ===== src/Shell/Cut.antt =====
-- A string cut at its first space.
use ety_os.Base.{
  ℕ, zero, suc, ◌+◌, ◌<◌, ◌≡◌, Bool, true, false, Bool-cases, inl, inr, Option, none, some, List,
  [], ◌∷◌, ◌==◌, if◌then◌else◌, length, arith, refl, ap, some_inj, subst,
}
use ety_os.Memory.{Ptr, Mem, store}
use ety_os.CStr.Shape.{IsStr}
use ety_os.CStr.Search.{address_of}
use ety_os.CStr.Shape.{IsStr-frame}

-- A text cut at its first space: what stands before it, and what behind, if there is one.
unfoldable pub before_space : List ℕ → List ℕ
before_space [] = []
before_space (c ∷ s) = let rest = before_space s in if c == b' ' then [] else c ∷ rest

unfoldable pub after_space : List ℕ → Option (List ℕ)
after_space [] = none
after_space (c ∷ s) = let rest = after_space s in if c == b' ' then some s else rest

-- Where the first space of a string stands, and the two strings that a NUL there makes of it.
pub record Cut (p : Ptr) (m : Mem) (s rest : List ℕ) : Type 0 where
  pub at : Ptr
  pub found : address_of 32 p s ≡ some at
  pub inside : (p < suc at) × (at < p + length s)
  pub first : IsStr (store m at 0) p (before_space s)
  pub second : IsStr (store m at 0) (at + 1) rest
  pub shorter : length rest < length s

cut_here :
    (b : Bool) (s : List ℕ) (o : Option (List ℕ))
    → (if b then some s else o) ≡ none
    → (b ≡ false) × (o ≡ none)
cut_here true s o e = cc
cut_here false s o e = (refl, e)

pub address_of-none :
    (p : Ptr) (s : List ℕ)
    → after_space s ≡ none
    → (address_of 32 p s ≡ none) × (before_space s ≡ s)
unfolding address_of after_space before_space
address_of-none p [] e = (refl, refl)
address_of-none p (c ∷ s) e =
    let (b, e') = cut_here (c == 32) s (after_space s) e in
    let (none_left, whole) = address_of-none (p + 1) s e' in rw b (none_left, ap (λ t. c ∷ t) whole)

pub address_of-Cut :
    (p : Ptr) (m : Mem) (s rest : List ℕ) → IsStr m p s → after_space s ≡ some rest → Cut p m s rest
unfolding address_of after_space before_space
address_of-Cut p m [] rest h e = cc
address_of-Cut p m (c ∷ s) rest h e = elim (Bool-cases (c == 32)) [
  | inl b ↦
      let same_rest : s ≡ rest = some_inj (rw b at e) in
      record {
        at = p;
        found = rw (address_of, b) refl;
        inside = (omega arith, omega arith);
        first = rw (before_space, b) (ground arith);
        second =
            subst (IsStr (store m p 0) (p + 1)) same_rest
              (IsStr-frame s m (store m p 0) (p + 1) (λ i lt. ground arith) h.2);
        shorter = omega (arith, ap length same_rest);
      }
  | inr b ↦
      let cut = address_of-Cut (p + 1) m s rest h.2 (rw b at e) in
      let (lo, hi) = cut.inside in
      record {
        at = cut.at;
        found = rw (address_of, b) cut.found;
        inside = (omega arith, omega arith);
        first = rw (before_space, b) (ground (arith, h.0, lo), h.1, cut.first);
        second = cut.second;
        shorter = omega (arith, cut.shorter);
      }
]

pub length-before_space : (s : List ℕ) (fuel : ℕ) → length s < fuel → length (before_space s) < fuel
unfolding before_space
length-before_space [] fuel h = h
length-before_space (c ∷ s) zero h = absurd (omega arith)
length-before_space (c ∷ s) (suc fuel) h =
    let rest = length-before_space s fuel (omega arith) in ground (arith, rest)
