-- ===== src/Allocator/Free.antt =====
-- `free` against marking the block and one pass over neighbours.
use ety_os.Base.{
  ℕ, zero, suc, ◌+◌, ◌-◌, ◌^◌, ◌≤◌, ◌<◌, ◌≡◌, ◌≢◌, inl, inr, true, false, Option, some, [], ◌∷◌,
  ◌==◌, arith, refl, length, ◌&&◌, Bool-cases, ap, ◌∙◌, eq→==, ne→==, sym, fun_ext,
}
use mathlib.Core.Path.{subst}
use ety_os.Memory.{Ptr}
use ety_os.Allocator.{Heap, MemoryBlock, null, header_size, write, merge, coalesce_loop, free}
use ety_os.Allocator.Blocks.{Block, Blocks, block, Laid, end_of, Holds, mark, join, pass}
use ety_os.Allocator.Chain.{
  node, Chain-cons, Chain-keep, write_self, write_ne, IsBlock, Chain, SameBelow, Laid-bound,
  Chain-write,
}

pub Holds-above :
    (bs : Blocks) (p n lo hi : ℕ) → Laid lo hi bs → Holds p n bs → lo + header_size ≤ p
Holds-above [] p n lo hi l h = absurd h
Holds-above (b ∷ bs) p n lo hi l (inl e) = omega (arith, l.0)
Holds-above (b ∷ bs) p n lo hi l (inr h) =
    omega (arith, l.0, Holds-above bs p n (end_of b) hi l.1 h)

-- `block->is_free = 1`, for the block that `p` was given from.
abbrev freed : Heap → Ptr → Heap
freed h p = write h (p - header_size) (record (h (p - header_size)) { is_free = 1 })

mark-Chain :
    (bs : Blocks) (p n : ℕ) (h : Heap) (start lo hi : Ptr)
    → Laid lo hi bs
    → Holds p n bs
    → Chain h start bs
    → Chain (freed h p) start (mark p bs)
unfolding mark
mark-Chain [] p n h start lo hi l held ch = absurd held
mark-Chain (b ∷ bs) p n h start lo hi l (inl e) ch =
    let here : p - header_size ≡ start = omega (arith, ch.0.at_addr) in
    rw (eq→== p (b.addr + header_size) e.0) (
      subst
        (λ a.
          Chain (write h a (record (h a) { is_free = 1 })) start (block b.addr b.size true ∷ bs))
        (sym here)
        (Chain-cons (block b.addr b.size true) bs _ start (h start).next
          (write_self h start _ ∙ ap (λ s. node s 1 (h start).next) ch.0.size) ch.0.at_addr
          ch.0.ne_null
          (Chain-write bs h (h start).next (end_of b) hi start _ (omega (arith, ch.0.at_addr)) l.1
            ch.1)))
mark-Chain (b ∷ bs) p n h start lo hi l (inr held) ch =
    let above : end_of b + header_size ≤ p = Holds-above bs p n (end_of b) hi l.1 held in
    rw (ne→== p (b.addr + header_size) (omega arith)) (
      Chain-keep b bs (mark p bs) h (freed h p) start ch.0
        (λ a lt. write_ne h (p - header_size) a _ (omega arith))
        (mark-Chain bs p n h (h start).next (end_of b) hi l.1 held ch.1))

pub mark-Laid : (bs : Blocks) (p lo hi : ℕ) → Laid lo hi bs → Laid lo hi (mark p bs)
unfolding mark
mark-Laid [] p lo hi l = l
mark-Laid (b ∷ bs) p lo hi l = elim (Bool-cases (p == b.addr + header_size)) [
  | inl e ↦ rw e l
  | inr e ↦ rw e (l.0, mark-Laid bs p (end_of b) hi l.1)
]

length-mark : (bs : Blocks) (p : ℕ) → length (mark p bs) ≡ length bs
unfolding mark
length-mark [] p = refl
length-mark (b ∷ bs) p = ground (arith, length-mark bs p)

-- The header that a join writes.
merge-join :
    (h : Heap) (p q : Ptr) (b c : Block)
    → b.size + (header_size + c.size) < 2 ^ 64
    → IsBlock h p b
    → (h p).next ≡ q
    → IsBlock h q c
    → (b.unused && c.unused) ≡ true
    → merge p h ≡ write h p (node (b.size + (header_size + c.size)) 1 (h q).next)
unfolding merge write
merge-join h p q b c small is e is' both = fun_ext λ a. ground arith

merge-apart :
    (h : Heap) (p q : Ptr) (b c : Block)
    → IsBlock h p b
    → (h p).next ≡ q
    → IsBlock h q c
    → (b.unused && c.unused) ≡ false
    → merge p h ≡ h
unfolding merge
merge-apart h p q b c is e is' both = ground arith

-- The heap after the pass, and what the chain then stands for.
pub record Coalesced (h : Heap) (start lo : Ptr) (bs : Blocks) (r : Option Heap) : Type 0 where
  pub heap : Heap
  pub returns : r ≡ some heap
  pub chain : Chain heap start bs
  pub same : SameBelow lo h heap

pub coalesce_loop-next :
    (fuel : ℕ) (start : Ptr) (h g : Heap)
    → start ≢ 0
    → (h start).next ≢ 0
    → merge start h ≡ g
    → coalesce_loop (suc fuel) start h ≡ coalesce_loop fuel (g start).next g
unfolding coalesce_loop
coalesce_loop-next fuel start h g ne ne' e =
    rw (ne→== start 0 ne, ne→== (h start).next 0 ne')
      (ap (λ f. coalesce_loop fuel (f start).next f) e)

pub coalesce_loop-last :
    (fuel : ℕ) (start : Ptr) (h : Heap)
    → start ≢ 0
    → (h start).next ≡ 0
    → coalesce_loop (suc fuel) start h ≡ some h
unfolding coalesce_loop
coalesce_loop-last fuel start h ne e = rw (ne→== start 0 ne, eq→== (h start).next 0 e)

join_size :
    (b c : Block) (bs : Blocks) (lo hi : ℕ)
    → hi < 2 ^ 64
    → Laid lo hi (b ∷ c ∷ bs)
    → b.size + (header_size + c.size) < 2 ^ 64
join_size b c bs lo hi small l = omega (arith, l.1.0, Laid-bound bs (end_of c) hi l.1.1)

-- The heap after a join at `start`.
abbrev joined : Heap → Ptr → Block → Block → Heap
joined h start b c =
    write h start (node (b.size + (header_size + c.size)) 1 (h (h start).next).next)

join_step :
    (b c : Block) (bs bs' : Blocks) (fuel : ℕ) (h : Heap) (start lo hi : Ptr)
    → hi < 2 ^ 64
    → Laid lo hi (b ∷ c ∷ bs)
    → Chain h start (b ∷ c ∷ bs)
    → (b.unused && c.unused) ≡ true
    → Coalesced
        (joined h start b c)
        (h (h start).next).next
        (end_of c)
        bs'
        (coalesce_loop fuel (h (h start).next).next (joined h start b c))
    → Coalesced h start lo (join b c ∷ bs') (coalesce_loop (suc fuel) start h)
join_step b c bs bs' fuel h start lo hi small l ch e rest = record {
  heap = rest.heap;
  returns =
      coalesce_loop-next fuel start h g ch.0.ne_null ch.1.0.ne_null
        (merge-join h start (h start).next b c (join_size b c bs lo hi small l) ch.0 refl ch.1.0 e)
      ∙ ap (λ n. coalesce_loop fuel n g) next
      ∙ rest.returns;
  chain =
      Chain-cons (join b c) bs' rest.heap start (h (h start).next).next
        (rest.same start (omega (arith, ch.0.at_addr, l.1.0)) ∙ write_self h start _) ch.0.at_addr
        ch.0.ne_null rest.chain;
  same = λ a below.
      rest.same a (omega (arith, l.0, l.1.0))
      ∙ write_ne h start a _ (omega (arith, ch.0.at_addr, l.0));
}
  where
    g : Heap
    g = joined h start b c

    next : (g start).next ≡ (h (h start).next).next
    next = ap (λ (m : MemoryBlock). m.next) (write_self h start _)

coalesce_loop_refines :
    (bs : Blocks) (fuel : ℕ) (h : Heap) (start lo hi : Ptr)
    → hi < 2 ^ 64
    → length bs < fuel
    → Laid lo hi bs
    → Chain h start bs
    → Coalesced h start lo (pass bs) (coalesce_loop fuel start h)
unfolding pass
coalesce_loop_refines bs zero h start lo hi small lt l ch = absurd (omega arith)
coalesce_loop_refines [] (suc fuel) h start lo hi small lt l ch =
    unfold coalesce_loop in
    record { heap = h; returns = rw (eq→== start 0 ch); chain = ch; same = λ a b. refl }
coalesce_loop_refines (b ∷ []) (suc fuel) h start lo hi small lt l ch =
    unfold coalesce_loop in
    record {
      heap = h;
      returns = rw (ne→== start 0 ch.0.ne_null, eq→== (h start).next 0 ch.1);
      chain = ch;
      same = λ a b. refl;
    }
coalesce_loop_refines (b ∷ c ∷ bs) (suc fuel) h start lo hi small lt l ch =
    elim (Bool-cases (b.unused && c.unused)) [
      | inl e ↦ rw e (
          join_step b c bs (pass bs) fuel h start lo hi small l ch e (
            coalesce_loop_refines bs fuel (joined h start b c) (h (h start).next).next (end_of c) hi
              small (omega arith) l.1.1
              (Chain-write bs h (h (h start).next).next (end_of c) hi start _
                (omega (arith, ch.0.at_addr, l.1.0)) l.1.1 ch.1.1)))
      | inr e ↦
          let e' = merge-apart h start (h start).next b c ch.0 refl ch.1.0 e in
          let step = coalesce_loop-next fuel start h h ch.0.ne_null ch.1.0.ne_null e' in
          let rest =
            coalesce_loop_refines (c ∷ bs) fuel h (h start).next (end_of b) hi small (omega arith)
              l.1 ch.1 in
          rw e (record {
            heap = rest.heap;
            returns = step ∙ rest.returns;
            chain =
                Chain-keep b (c ∷ bs) (pass (c ∷ bs)) h rest.heap start ch.0 rest.same rest.chain;
            same = λ a lt'. rest.same a (omega (arith, l.0));
          })
    ]

-- On a chain of headers that stands for blocks laid out below 2 ^ 64, `free` of a pointer that a
-- block in use was given out as, with fuel for each block and one more, returns; the chain then
-- stands for the blocks with that one marked free and one pass of joins made, and no header below
-- the pool is touched.
pub free_refines :
    (bs : Blocks) (fuel : ℕ) (p n : ℕ) (h : Heap) (free_list hi : Ptr)
    → hi < 2 ^ 64
    → length bs < fuel
    → Laid free_list hi bs
    → Holds p n bs
    → Chain h free_list bs
    → (h' : Heap) × (free free_list fuel p h ≡ some h')
      × Chain h' free_list (pass (mark p bs))
      × ((a : Ptr) → a < free_list → h' a ≡ h a)
unfolding free
free_refines bs fuel p n h free_list hi small lt l held ch =
    let above : free_list + header_size ≤ p = Holds-above bs p n free_list hi l held in
    let done =
      coalesce_loop_refines (mark p bs) fuel (freed h p) free_list free_list hi small
        (omega (arith, length-mark bs p)) (mark-Laid bs p free_list hi l)
        (mark-Chain bs p n h free_list free_list hi l held ch) in
    (
      done.heap,
      rw (ne→== p 0 (omega arith)) done.returns,
      done.chain,
      λ a below. done.same a below ∙ write_ne h (p - header_size) a _ (omega arith),
    )

pub free-null : (free_list : Ptr) (fuel : ℕ) (h : Heap) → free free_list fuel null h ≡ some h
unfolding free
free-null free_list fuel h = refl
