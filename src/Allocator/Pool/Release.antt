-- ===== src/Allocator/Pool/Release.antt =====
-- Marking a block free and the pass of joins, on the blocks.
use ety_os.Base.{
  ℕ, ◌+◌, ◌≡◌, ◌≢◌, inl, inr, true, [], ◌∷◌, arith, refl, ◌&&◌, ◌==◌, Bool-cases, ◌∙◌, ==→eq, ==→ne,
  ne→==, sym,
}
use ety_os.Allocator.{header_size}
use ety_os.Allocator.Blocks.{Blocks, block, end_of, Laid, Holds, mark, join, pass, covered}
use ety_os.Allocator.Chain.{Laid-le}
use ety_os.Allocator.Free.{Holds-above}

pub pass-Laid : (bs : Blocks) (lo hi : ℕ) → Laid lo hi bs → Laid lo hi (pass bs)
unfolding pass
pass-Laid [] lo hi l = l
pass-Laid (b ∷ []) lo hi l = l
pass-Laid (b ∷ c ∷ bs) lo hi l = elim (Bool-cases (b.unused && c.unused)) [
  | inl e ↦ rw e (
    l.0,
    Laid-le (pass bs) (end_of c) _ hi (omega (arith, l.1.0)) (pass-Laid bs (end_of c) hi l.1.1),
  )
  | inr e ↦ rw e (l.0, pass-Laid (c ∷ bs) (end_of b) hi l.1)
]

pub pass-Holds : (bs : Blocks) (q n : ℕ) → Holds q n bs → Holds q n (pass bs)
unfolding pass
pass-Holds [] q n h = h
pass-Holds (b ∷ []) q n h = h
pass-Holds (b ∷ c ∷ bs) q n h = elim (Bool-cases (b.unused && c.unused)) [
  | inl e ↦ rw e (inr (pass-Holds bs q n (skip e h)))
  | inr e ↦ rw e (keep (pass-Holds (c ∷ bs) q n) h)
]
  where
    skip : (b.unused && c.unused) ≡ true → Holds q n (b ∷ c ∷ bs) → Holds q n bs
    skip e (inl k) = absurd (ground (arith, k.2))
    skip e (inr (inl k)) = absurd (ground (arith, k.2))
    skip e (inr (inr k)) = k

    keep :
        (Holds q n (c ∷ bs) → Holds q n (pass (c ∷ bs)))
        → Holds q n (b ∷ c ∷ bs)
        → Holds q n (b ∷ pass (c ∷ bs))
    keep f (inl k) = inl k
    keep f (inr k) = inr (f k)

pub pass-Holds_back : (bs : Blocks) (q n : ℕ) → Holds q n (pass bs) → Holds q n bs
unfolding pass
pass-Holds_back [] q n h = h
pass-Holds_back (b ∷ []) q n h = h
pass-Holds_back (b ∷ c ∷ bs) q n h = elim (Bool-cases (b.unused && c.unused)) [
  | inl e ↦ inr (inr (pass-Holds_back bs q n (skip (rw e at h))))
  | inr e ↦ keep (pass-Holds_back (c ∷ bs) q n) (rw e at h)
]
  where
    skip : Holds q n (join b c ∷ pass bs) → Holds q n (pass bs)
    skip (inl k) = absurd (ground (arith, k.2))
    skip (inr k) = k

    keep :
        (Holds q n (pass (c ∷ bs)) → Holds q n (c ∷ bs))
        → Holds q n (b ∷ pass (c ∷ bs))
        → Holds q n (b ∷ c ∷ bs)
    keep f (inl k) = inl k
    keep f (inr k) = inr (f k)

pub mark-Holds : (bs : Blocks) (p q n : ℕ) → q ≢ p → Holds q n bs → Holds q n (mark p bs)
unfolding mark
mark-Holds [] p q n ne h = h
mark-Holds (b ∷ bs) p q n ne (inl k) =
    rw (ne→== p (b.addr + header_size) (λ e. ne (k.0 ∙ sym e))) (inl k)
mark-Holds (b ∷ bs) p q n ne (inr k) = elim (Bool-cases (p == b.addr + header_size)) [
  | inl e ↦ rw e (inr k)
  | inr e ↦ rw e (inr (mark-Holds bs p q n ne k))
]

-- What the freed block's caller had is no longer held, and nothing else is new.
pub mark-Holds_back :
    (bs : Blocks) (p q n lo hi : ℕ) → Laid lo hi bs → Holds q n (mark p bs) → (q ≢ p) × Holds q n bs
unfolding mark
mark-Holds_back [] p q n lo hi l h = absurd h
mark-Holds_back (b ∷ bs) p q n lo hi l h = elim (Bool-cases (p == b.addr + header_size)) [
  | inl e ↦ marked (==→eq _ _ e) (rw e at h)
  | inr e ↦ passed (==→ne _ _ e) (mark-Holds_back bs p q n (end_of b) hi l.1) (rw e at h)
]
  where
    marked :
        p ≡ b.addr + header_size
        → Holds q n (block b.addr b.size true ∷ bs)
        → (q ≢ p) × Holds q n (b ∷ bs)
    marked e (inl k) = absurd (ground (arith, k.2))
    marked e (inr k) = (omega (arith, Holds-above bs q n (end_of b) hi l.1 k), inr k)

    passed :
        p ≢ b.addr + header_size
        → (Holds q n (mark p bs) → (q ≢ p) × Holds q n bs)
        → Holds q n (b ∷ mark p bs)
        → (q ≢ p) × Holds q n (b ∷ bs)
    passed ne f (inl k) = (λ e. ne (sym e ∙ k.0), inl k)
    passed ne f (inr k) = ((f k).0, inr (f k).1)

pub covered-pass : (bs : Blocks) → covered (pass bs) ≡ covered bs
unfolding covered pass
covered-pass [] = refl
covered-pass (b ∷ []) = refl
covered-pass (b ∷ c ∷ bs) = elim (Bool-cases (b.unused && c.unused)) [
  | inl e ↦ rw e (omega (arith, covered-pass bs))
  | inr e ↦ rw e (omega (arith, covered-pass (c ∷ bs)))
]

pub covered-mark : (bs : Blocks) (p : ℕ) → covered (mark p bs) ≡ covered bs
unfolding covered mark
covered-mark [] p = refl
covered-mark (b ∷ bs) p = elim (Bool-cases (p == b.addr + header_size)) [
  | inl e ↦ rw e refl
  | inr e ↦ rw e (omega (arith, covered-mark bs p))
]
