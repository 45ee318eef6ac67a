-- ===== src/Allocator/Pool/Grant.antt =====
-- First fit on the blocks: what it keeps, and what the new block is.
use ety_os.Base.{
  ℕ, ◌+◌, ◌-◌, ◌≤◌, ◌≡◌, ◌≢◌, ◌⊎◌, inl, inr, true, false, Option, none, some, [], ◌∷◌, arith, refl,
  ltb, Bool-cases, ltb→lt, ltb→le,
}
use ety_os.Memory.{Ptr}
use ety_os.Allocator.{header_size}
use ety_os.Allocator.Chain.{Laid-le}
use ety_os.Allocator.Free.{Holds-above}
use ety_os.Allocator.Blocks.{
  Block, Blocks, block, end_of, Laid, Holds, Unfit, place, suits, allot, covered,
}

-- What `allot` gives, by the place where it stops.
pub data Granted (size : ℕ) : Blocks → Ptr → Blocks → Type 0 where
  here :
      {b : Block} {bs : Blocks}
      → b.unused ≡ true
      → size ≤ b.size
      → Granted size (b ∷ bs) (b.addr + header_size) (place size b bs)
  later :
      {b : Block} {bs bs' : Blocks} {p : Ptr}
      → Granted size bs p bs'
      → Granted size (b ∷ bs) p (b ∷ bs')

-- Either no free block is large enough, or one is granted.
pub data Outcome (size : ℕ) (bs : Blocks) : Option (Ptr × Blocks) → Type 0 where
  unfit : Unfit size bs → Outcome size bs none
  fit : {p : Ptr} {bs' : Blocks} → Granted size bs p bs' → Outcome size bs (some (p, bs'))

Outcome-skip :
    {size : ℕ} {b : Block} {bs : Blocks} {o : Option (Ptr × Blocks)}
    → suits size b ≡ false
    → Outcome size bs o
    → Outcome size (b ∷ bs) (elim o [ none ↦ none | some (p, bs') ↦ some (p, b ∷ bs') ])
Outcome-skip e (unfit h) = unfit (ground arith, h)
Outcome-skip e (fit g) = fit (later g)

pub allot-Outcome : (size : ℕ) (bs : Blocks) → Outcome size bs (allot size bs)
unfolding allot
allot-Outcome size [] = unfit tt
allot-Outcome size (b ∷ bs) = elim (Bool-cases (suits size b)) [
  | inl e ↦ rw e (fit (here (ground arith) (ground arith)))
  | inr e ↦ rw e (Outcome-skip e (allot-Outcome size bs))
]

place-Laid :
    (size : ℕ) (b : Block) (bs : Blocks) (lo hi : ℕ)
    → size ≤ b.size
    → Laid lo hi (b ∷ bs)
    → Laid lo hi (place size b bs)
unfolding place
place-Laid size b bs lo hi le l = elim (Bool-cases (ltb (size + header_size) b.size)) [
  | inl e ↦ rw e (l.0, (omega arith, Laid-le bs (end_of b) _ hi (omega (arith, ltb→lt _ _ e)) l.1))
  | inr e ↦ rw e (l.0, Laid-le bs (end_of b) _ hi (omega arith) l.1)
]

pub Grant-Laid :
    {size : ℕ} {bs bs' : Blocks} {p : Ptr} (lo hi : ℕ)
    → Granted size bs p bs'
    → Laid lo hi bs
    → Laid lo hi bs'
Grant-Laid lo hi (here {b} {bs} u le) l = place-Laid _ b bs lo hi le l
Grant-Laid lo hi (later {b} g) l = (l.0, Grant-Laid (end_of b) hi g l.1)

pub Grant-Holds : {size : ℕ} {bs bs' : Blocks} {p : Ptr} → Granted size bs p bs' → Holds p size bs'
Grant-Holds {size} (here {b} u le) = elim (Bool-cases (ltb (size + header_size) b.size)) [
  | inl e ↦ unfold place in rw e (inl (refl, refl, refl))
  | inr e ↦ unfold place in rw e (inl (refl, refl, refl))
]
Grant-Holds (later g) = inr (Grant-Holds g)

pub Grant-keeps :
    {size : ℕ} {bs bs' : Blocks} {p : Ptr} (q n : ℕ)
    → Granted size bs p bs'
    → Holds q n bs
    → Holds q n bs'
Grant-keeps q n (here u le) (inl h) = absurd (ground (arith, h.2))
Grant-keeps {size} q n (here {b} u le) (inr h) =
    elim (Bool-cases (ltb (size + header_size) b.size)) [
      | inl e ↦ unfold place in rw e (inr (inr h))
      | inr e ↦ unfold place in rw e (inr h)
    ]
Grant-keeps q n (later g) (inl h) = inl h
Grant-keeps q n (later g) (inr h) = inr (Grant-keeps q n g h)

place-back :
    (size : ℕ) (b : Block) (bs : Blocks) (q n : ℕ)
    → Holds q n (place size b bs)
    → ((q ≡ b.addr + header_size) × (n ≡ size)) ⊎ Holds q n bs
place-back size b bs q n h = elim (Bool-cases (ltb (size + header_size) b.size)) [
  | inl e ↦ split (unfold place in rw e at h)
  | inr e ↦ whole (unfold place in rw e at h)
]
  where
    split :
        Holds q n (
          block b.addr size false
          ∷ block (b.addr + header_size + size) (b.size - size - header_size) true
          ∷ bs)
        → ((q ≡ b.addr + header_size) × (n ≡ size)) ⊎ Holds q n bs
    split (inl k) = inl (k.0, k.1)
    split (inr (inl k)) = absurd (ground (arith, k.2))
    split (inr (inr k)) = inr k

    whole :
        Holds q n (block b.addr size false ∷ bs)
        → ((q ≡ b.addr + header_size) × (n ≡ size)) ⊎ Holds q n bs
    whole (inl k) = inl (k.0, k.1)
    whole (inr k) = inr k

pub Grant-back :
    {size : ℕ} {bs bs' : Blocks} {p : Ptr} (q n : ℕ)
    → Granted size bs p bs'
    → Holds q n bs'
    → ((q ≡ p) × (n ≡ size)) ⊎ Holds q n bs
Grant-back {size} q n (here {b} {bs} u le) h = elim (place-back size b bs q n h) [
  | inl k ↦ inl k
  | inr k ↦ inr (inr k)
]
Grant-back q n (later g) (inl h) = inr (inl h)
Grant-back q n (later g) (inr h) = elim (Grant-back q n g h) [ inl k ↦ inl k | inr k ↦ inr (inr k) ]

pub Grant-covered :
    {size : ℕ} {bs bs' : Blocks} {p : Ptr}
    → Granted size bs p bs'
    → (covered bs' ≤ covered bs) × (covered bs ≤ covered bs' + header_size)
unfolding covered place
Grant-covered {size} (here {b} {bs} u le) = elim (Bool-cases (ltb (size + header_size) b.size)) [
  | inl e ↦ rw e (omega (arith, ltb→lt _ _ e))
  | inr e ↦ rw e (omega (arith, ltb→le _ _ e))
]
Grant-covered (later g) = omega (arith, Grant-covered g)

-- What is granted was not in use.
pub Grant-fresh :
    {size : ℕ} {bs bs' : Blocks} {p : Ptr} (q n lo hi : ℕ)
    → Granted size bs p bs'
    → Laid lo hi bs
    → Holds q n bs
    → p ≢ q
Grant-fresh q n lo hi (here u le) l (inl h) = λ e. absurd (ground (arith, h.2))
Grant-fresh q n lo hi (here {b} {bs} u le) l (inr h) =
    omega (arith, Holds-above bs q n (end_of b) hi l.1 h)
Grant-fresh {size} {p} q n lo hi (later {b} {bs} {bs'} g) l (inl h) =
    let l' : Laid (end_of b) hi bs' = Grant-Laid (end_of b) hi g l.1 in
    omega (arith, h.0, Holds-above bs' p size (end_of b) hi l' (Grant-Holds g))
Grant-fresh q n lo hi (later {b} g) l (inr h) = Grant-fresh q n (end_of b) hi g l.1 h
