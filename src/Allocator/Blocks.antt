-- ===== src/Allocator/Blocks.antt =====
-- The abstract view of the pool: its blocks in the order of their addresses, and what allocation
-- and release mean on them. Nothing here is translated: it is the specification.
use ety_os.Base.{
  ℕ, ◌+◌, ◌-◌, ◌≤◌, ◌<◌, ◌≡◌, ◌⊎◌, Bool, true, false, ◌&&◌, Option, none, some, List, [], ◌∷◌, leb,
  ltb, ◌==◌, if◌then◌else◌,
}
use ety_os.Memory.{Ptr}
use ety_os.Allocator.{header_size}

pub record Block : Type 0 where
  pub addr : Ptr
  pub size : ℕ
  pub unused : Bool

abbrev pub Blocks : Type 0
Blocks = List Block

abbrev pub block : Ptr → ℕ → Bool → Block
block a n b = record { addr = a; size = n; unused = b }

-- Where a block's bytes end.
abbrev pub end_of : Block → Ptr
end_of b = b.addr + header_size + b.size

-- The blocks lie in order between `lo` and `hi`, header and bytes, and do not overlap.
abbrev pub Laid : Ptr → Ptr → Blocks → Type 0
Laid lo hi [] = lo ≤ hi
Laid lo hi (b ∷ bs) = (lo ≤ b.addr) × Laid (end_of b) hi bs

-- A block of `n` bytes is in use by the caller that was given `p`.
abbrev pub Holds : Ptr → ℕ → Blocks → Type 0
Holds p n [] = ⊥
Holds p n (b ∷ bs) = ((p ≡ b.addr + header_size) × (n ≡ b.size) × (b.unused ≡ false)) ⊎ Holds p n bs

-- First fit.
unfoldable pub place : ℕ → Block → Blocks → Blocks
place size b bs =
    if ltb (size + header_size) b.size
    then block b.addr size false
      ∷ block (b.addr + header_size + size) (b.size - size - header_size) true
      ∷ bs
    else block b.addr size false ∷ bs

abbrev pub suits : ℕ → Block → Bool
suits size b = b.unused && leb size b.size

unfoldable pub allot : ℕ → Blocks → Option (Ptr × Blocks)
allot size [] = none
allot size (b ∷ bs) =
    if suits size b
    then some (b.addr + header_size, place size b bs)
    else elim (allot size bs) [ none ↦ none | some (p, bs') ↦ some (p, b ∷ bs') ]

-- The block that `p` was given from becomes free.
unfoldable pub mark : Ptr → Blocks → Blocks
mark p [] = []
mark p (b ∷ bs) = if p == b.addr + header_size then block b.addr b.size true ∷ bs else b ∷ mark p bs

abbrev pub join : Block → Block → Block
join b c = block b.addr (b.size + (header_size + c.size)) true

-- One pass over neighbours: after a join the pass goes on behind both.
unfoldable pub pass : Blocks → Blocks
pass [] = []
pass (b ∷ []) = b ∷ []
pass (b ∷ c ∷ bs) =
    let joined = join b c ∷ pass bs in
    let apart = b ∷ pass (c ∷ bs) in if b.unused && c.unused then joined else apart

-- Bytes that the blocks account for, headers included.
unfoldable pub covered : Blocks → ℕ
covered [] = 0
covered (b ∷ bs) = header_size + b.size + covered bs

-- No free block is large enough.
abbrev pub Unfit : ℕ → Blocks → Type 0
Unfit size [] = Unit {0}
Unfit size (b ∷ bs) = ((b.unused ≡ false) ⊎ (b.size < size)) × Unfit size bs
