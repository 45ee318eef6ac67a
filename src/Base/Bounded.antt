-- ===== src/Base/Bounded.antt =====
-- A test that holds of every number below a bound.
use Prim.Native.Nat.{ℕ, zero, suc, ◌<◌}
use mathlib.Core.Path.{◌≡◌, subst, sym}
use mathlib.Core.Logic.{inl, inr}
use mathlib.Core.Bool.{Bool, true, ◌&&◌}
use native.Mathlib.Omega.{arith}
use ety_os.Base.Tests.{◌==◌, Bool-cases, ==→eq, ==→ne}

abbrev pub holds_below : ℕ → (ℕ → Bool) → Bool
holds_below zero f = true
holds_below (suc n) f = f n && holds_below n f

pub holds_below-at : (n c : ℕ) (f : ℕ → Bool) → holds_below n f ≡ true → c < n → f c ≡ true
holds_below-at zero c f e lt = absurd (omega arith)
holds_below-at (suc n) c f e lt = elim (Bool-cases (c == n)) [
  | inl q ↦ subst (λ k. f k ≡ true) (sym (==→eq c n q)) (ground (arith, e))
  | inr q ↦ holds_below-at n c f (ground (arith, e)) (omega (arith, ==→ne c n q))
]
