-- ===== src/Allocator/Chain.antt =====
-- The header chain in the heap stands for a list of blocks, and what writes do to it.
use ety_os.Base.{ℕ, ◌≤◌, ◌<◌, ◌≡◌, ◌≢◌, Bool, true, false, [], ◌∷◌, arith, ap, sym}
use mathlib.Core.Path.{subst}
use ety_os.Memory.{Ptr}
use ety_os.Allocator.{Heap, MemoryBlock, write}
use ety_os.Allocator.Blocks.{Block, Blocks, Laid, end_of}

abbrev pub flag : Bool → ℕ
flag true = 1
flag false = 0

abbrev pub node : ℕ → ℕ → Ptr → MemoryBlock
node n f q = record { size = n; is_free = f; next = q }

-- The header at `p` is that of the block, and leads to `next`.
pub record IsBlock (h : Heap) (p : Ptr) (b : Block) : Type 0 where
  pub at_addr : p ≡ b.addr
  pub ne_null : p ≢ 0
  pub size : (h p).size ≡ b.size
  pub is_free : (h p).is_free ≡ flag b.unused

abbrev pub Chain : Heap → Ptr → Blocks → Type 0
Chain h p [] = p ≡ 0
Chain h p (b ∷ bs) = IsBlock h p b × Chain h (h p).next bs

-- The heaps agree below `lo`.
abbrev pub SameBelow : Ptr → Heap → Heap → Type 0
SameBelow lo h h' = (a : Ptr) → a < lo → h' a ≡ h a

pub Laid-le : (bs : Blocks) (lo lo' hi : Ptr) → lo' ≤ lo → Laid lo hi bs → Laid lo' hi bs
Laid-le [] lo lo' hi h l = omega arith
Laid-le (b ∷ bs) lo lo' hi h l = (omega (arith, l.0), l.1)

pub Laid-bound : (bs : Blocks) (lo hi : Ptr) → Laid lo hi bs → lo ≤ hi
Laid-bound [] lo hi l = l
Laid-bound (b ∷ bs) lo hi l = omega (arith, l.0, Laid-bound bs (end_of b) hi l.1)

-- A write below the blocks leaves their chain.
pub Chain-write :
    (bs : Blocks) (h : Heap) (p lo hi : Ptr) (a : Ptr) (c : MemoryBlock)
    → a < lo
    → Laid lo hi bs
    → Chain h p bs
    → Chain (write h a c) p bs
unfolding write
Chain-write [] h p lo hi a c lt l ch = ch
Chain-write (b ∷ bs) h p lo hi a c lt l (is, ch) =
    let other : write h a c p ≡ h p = ground arith in
    (
      record {
        at_addr = is.at_addr;
        ne_null = is.ne_null;
        size = rw other is.size;
        is_free = rw other is.is_free;
      },
      rw other (Chain-write bs h (h p).next (end_of b) hi a c (omega arith) l.1 ch),
    )

pub Chain-cons :
    (b : Block) (bs : Blocks) (h : Heap) (p q : Ptr)
    → h p ≡ node b.size (flag b.unused) q
    → p ≡ b.addr
    → p ≢ 0
    → Chain h q bs
    → Chain h p (b ∷ bs)
Chain-cons b bs h p q e at ne ch = (
  record { at_addr = at; ne_null = ne; size = rw e; is_free = rw e },
  subst (λ n. Chain h n bs) (ap (λ (m : MemoryBlock). m.next) (sym e)) ch,
)

pub write_self : (h : Heap) (p : Ptr) (b : MemoryBlock) → write h p b p ≡ b
unfolding write
write_self h p b = ground arith

pub write_ne : (h : Heap) (p a : Ptr) (b : MemoryBlock) → a ≢ p → write h p b a ≡ h a
unfolding write
write_ne h p a b ne = ground arith

-- A block before the changed part keeps its place in the chain.
pub Chain-keep :
    (b : Block) (bs bs' : Blocks) (h h' : Heap) (p : Ptr)
    → IsBlock h p b
    → SameBelow (end_of b) h h'
    → Chain h' (h p).next bs'
    → Chain h' p (b ∷ bs')
Chain-keep b bs bs' h h' p is same ch =
    let e : h' p ≡ h p = same p (omega (arith, is.at_addr)) in
    (
      record {
        at_addr = is.at_addr;
        ne_null = is.ne_null;
        size = rw e is.size;
        is_free = rw e is.is_free;
      },
      rw e ch,
    )
