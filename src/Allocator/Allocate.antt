-- ===== src/Allocator/Allocate.antt =====
-- `allocate` against first fit on the list of blocks.
use ety_os.Base.{
  ℕ, zero, suc, ◌+◌, ◌-◌, ◌^◌, ◌≤◌, ◌<◌, ◌≡◌, inl, inr, true, false, Option, none, some, [], ◌∷◌,
  arith, length, ltb, Bool-cases, ◌∙◌, fun_ext, eq→==, ne→==, ltb→lt, ltb→le, sym,
}
use mathlib.Core.Path.{subst}
use ety_os.Memory.{Ptr}
use ety_os.Allocator.{Heap, null, header_size, write, fits, split, carve, allocate_loop, allocate}
use ety_os.Allocator.Blocks.{Block, Blocks, block, Laid, end_of, place, suits, allot}
use ety_os.Allocator.Chain.{
  Chain-keep, node, Chain-cons, write_self, write_ne, IsBlock, Chain, SameBelow, Laid-bound,
  Chain-write,
}

fits-suits :
    (size : ℕ) (h : Heap) (p : Ptr) (b : Block) → IsBlock h p b → fits size (h p) ≡ suits size b
fits-suits size h p b is = ground (arith, is.size, is.is_free)

carve_split_lem :
    (size : ℕ) (h : Heap) (p n : Ptr)
    → (h p).size ≡ n
    → n + header_size < 2 ^ 64
    → size + header_size < n
    → carve p size h
      ≡ write
          (write h (p + header_size + size) (node (n - size - header_size) 1 (h p).next))
          p
          (node size 0 (p + header_size + size))
unfolding carve split write
carve_split_lem size h p n e small lt = fun_ext λ a. ground arith

carve_whole_lem :
    (size : ℕ) (h : Heap) (p n : Ptr)
    → (h p).size ≡ n
    → n + header_size < 2 ^ 64
    → n ≤ size + header_size
    → size ≤ n
    → carve p size h ≡ write h p (node size 0 (h p).next)
unfolding carve split write
carve_whole_lem size h p n e small le fit = fun_ext λ a. ground arith

split-Chain :
    (size : ℕ) (h : Heap) (p hi : Ptr) (b : Block) (bs : Blocks)
    → size + header_size < b.size
    → IsBlock h p b
    → Laid (end_of b) hi bs
    → Chain h (h p).next bs
    → Chain
        (write
          (write h (p + header_size + size) (node (b.size - size - header_size) 1 (h p).next))
          p
          (node size 0 (p + header_size + size)))
        p
        (block b.addr size false
          ∷ block (b.addr + header_size + size) (b.size - size - header_size) true
          ∷ bs)
split-Chain size h p hi b bs lt is l ch =
    let q = p + header_size + size in
    let rest = node (b.size - size - header_size) 1 (h p).next in
    let h' = write h q rest in
    let h'' = write h' p (node size 0 q) in
    Chain-cons (block b.addr size false)
      (block (b.addr + header_size + size) (b.size - size - header_size) true ∷ bs) h'' p q
      (write_self h' p _) is.at_addr is.ne_null
      (Chain-cons (block (b.addr + header_size + size) (b.size - size - header_size) true) bs h'' q
        (h p).next (write_ne h' p q _ (omega arith) ∙ write_self h q rest)
        (omega (arith, is.at_addr)) (omega arith)
        (Chain-write bs h' (h p).next (end_of b) hi p _ (omega (arith, is.at_addr)) l
          (Chain-write bs h (h p).next (end_of b) hi q _ (omega (arith, is.at_addr)) l ch)))

-- Where no addition wraps, the carved block heads the chain that `place` describes.
carve-Chain :
    (size : ℕ) (h : Heap) (p hi : Ptr) (b : Block) (bs : Blocks)
    → hi < 2 ^ 64
    → size ≤ b.size
    → IsBlock h p b
    → Laid (end_of b) hi bs
    → Chain h (h p).next bs
    → Chain (carve p size h) p (place size b bs)
unfolding place
carve-Chain size h p hi b bs small le is l ch =
    elim (Bool-cases (ltb (size + header_size) b.size)) [
      | inl e ↦ rw e (
          subst
            (λ g. Chain g p (
              block b.addr size false
              ∷ block (b.addr + header_size + size) (b.size - size - header_size) true
              ∷ bs))
            (sym (carve_split_lem size h p b.size is.size ends (ltb→lt _ _ e)))
            (split-Chain size h p hi b bs (ltb→lt _ _ e) is l ch))
      | inr e ↦ rw e (
          subst (λ g. Chain g p (block b.addr size false ∷ bs))
            (sym (carve_whole_lem size h p b.size is.size ends (ltb→le _ _ e) le))
            (Chain-cons (block b.addr size false) bs _ p (h p).next (write_self h p _) is.at_addr
              is.ne_null
              (Chain-write bs h (h p).next (end_of b) hi p _ (omega (arith, is.at_addr)) l ch)))
    ]
  where
    ends : b.size + header_size < 2 ^ 64
    ends = omega (arith, Laid-bound bs (end_of b) hi l)

-- The carving leaves every header below the block.
carve-SameBelow : (size : ℕ) (h : Heap) (p : Ptr) → SameBelow p h (carve p size h)
unfolding carve split write
carve-SameBelow size h p a lt = ground arith

suits-le : (size : ℕ) (b : Block) → suits size b ≡ true → size ≤ b.size
suits-le size b e = ground arith

-- What the C function returns, and what first fit on the blocks gives.
pub data Allocates (h : Heap) (start lo : Ptr)
    : Option (Ptr × Heap) → Option (Ptr × Blocks) → Type 0 where
  refused : Allocates h start lo (some (null, h)) none
  granted :
      {h' : Heap} {p : Ptr} {bs' : Blocks}
      → Chain h' start bs'
      → SameBelow lo h h'
      → Allocates h start lo (some (p, h')) (some (p, bs'))

abbrev behind : Block → Option (Ptr × Blocks) → Option (Ptr × Blocks)
behind b o = elim o [ none ↦ none | some (p, bs') ↦ some (p, b ∷ bs') ]

Allocates-cons :
    {h : Heap} (start lo : Ptr) (b : Block) (bs : Blocks) {r : Option (Ptr × Heap)}
    {o : Option (Ptr × Blocks)}
    → lo ≤ b.addr
    → IsBlock h start b
    → Allocates h (h start).next (end_of b) r o
    → Allocates h start lo r (behind b o)
Allocates-cons start lo b bs le is refused = refused
Allocates-cons {h} start lo b bs le is (granted {h'} {p} {bs'} ch same) =
    granted (Chain-keep b bs bs' h h' start is same ch) (λ a lt. same a (omega arith))

allocate_loop_refines :
    (bs : Blocks) (fuel size : ℕ) (h : Heap) (start lo hi : Ptr)
    → hi < 2 ^ 64
    → length bs < fuel
    → Laid lo hi bs
    → Chain h start bs
    → Allocates h start lo (allocate_loop fuel start size h) (allot size bs)
unfolding allocate_loop allot
allocate_loop_refines bs zero size h start lo hi small lt l ch = absurd (omega arith)
allocate_loop_refines [] (suc fuel) size h start lo hi small lt l ch = rw (eq→== start 0 ch) refused
allocate_loop_refines (b ∷ bs) (suc fuel) size h start lo hi small lt l ch =
    rw (ne→== start 0 ch.0.ne_null, fits-suits size h start b ch.0)
      (elim (Bool-cases (suits size b)) [
        | inl e ↦ rw e (
            subst
              (λ q.
                Allocates h start lo (some (start + header_size, carve start size h))
                  (some (q + header_size, place size b bs)))
              ch.0.at_addr
              (granted (carve-Chain size h start hi b bs small (suits-le size b e) ch.0 l.1 ch.1)
                (λ a below. carve-SameBelow size h start a (omega (arith, ch.0.at_addr, l.0)))))
        | inr e ↦ rw e (
            Allocates-cons start lo b bs l.0 ch.0 (
              allocate_loop_refines bs fuel size h (h start).next (end_of b) hi small (omega arith)
                l.1 ch.1))
      ])

-- On a chain of headers that stands for blocks laid out below 2 ^ 64, `allocate`, given a round for
-- each block and one more, does what first fit does on the blocks: where no free block is large
-- enough it returns NULL and writes nothing; else it returns the first such block's bytes, the
-- chain then stands for the blocks with that one carved, and no header below the pool is touched.
pub allocate_refines :
    (bs : Blocks) (fuel size : ℕ) (h : Heap) (free_list hi : Ptr)
    → hi < 2 ^ 64
    → length bs < fuel
    → Laid free_list hi bs
    → Chain h free_list bs
    → Allocates h free_list free_list (allocate free_list fuel size h) (allot size bs)
unfolding allocate
allocate_refines bs fuel size h free_list hi small lt l ch =
    allocate_loop_refines bs fuel size h free_list free_list hi small lt l ch
