-- ===== src/Allocator/Pool.antt =====
-- The pool's invariant, and what `memory_allocator_init`, `allocate` and `free` promise a caller.
mod Grant
mod Release
use Grant.{
  Outcome, unfit, fit, allot-Outcome, Grant-Laid, Grant-Holds, Grant-keeps, Grant-back,
  Grant-covered, Grant-fresh,
}
use Release.{
  pass-Laid, pass-Holds, pass-Holds_back, mark-Holds, mark-Holds_back, covered-pass, covered-mark,
}
use ety_os.Base.{
  ℕ, zero, suc, ◌+◌, ◌-◌, ◌*◌, ◌^◌, ◌≤◌, ◌<◌, ◌≡◌, ◌≢◌, ◌⊎◌, inl, inr, true, Option, none, some, [],
  ◌∷◌, arith, refl, length, ◌∙◌, ◌↔◌,
}
use ety_os.Memory.{Ptr}
use ety_os.Allocator.{
  Heap, null, header_size, memory_pool_size, memory_allocator_init, allocate, free,
}
use ety_os.Allocator.Blocks.{
  Block, Blocks, block, end_of, Laid, Holds, Unfit, allot, mark, pass, covered,
}
use ety_os.Allocator.Chain.{Chain, Chain-cons, Laid-bound, write_self}
use ety_os.Allocator.Allocate.{Allocates, refused, granted, allocate_refines}
use ety_os.Allocator.Free.{Holds-above, mark-Laid, free_refines}

-- The headers are those of the blocks, which lie in the pool, in order, without overlap.
pub record IsPool (free_list : Ptr) (h : Heap) (bs : Blocks) : Type 0 where
  pub chain : Chain h free_list bs
  pub laid : Laid free_list (free_list + memory_pool_size) bs
  pub ends : free_list + memory_pool_size < 2 ^ 64

pub Holds-below : (bs : Blocks) (p n lo hi : ℕ) → Laid lo hi bs → Holds p n bs → p + n ≤ hi
Holds-below [] p n lo hi l h = absurd h
Holds-below (b ∷ bs) p n lo hi l (inl e) = omega (arith, Laid-bound bs (end_of b) hi l.1)
Holds-below (b ∷ bs) p n lo hi l (inr h) = Holds-below bs p n (end_of b) hi l.1 h

-- Two different blocks in use share no byte, headers included.
pub Holds-apart :
    (bs : Blocks) (lo hi p n q k : ℕ)
    → Laid lo hi bs
    → Holds p n bs
    → Holds q k bs
    → p ≢ q
    → (p + n + header_size ≤ q) ⊎ (q + k + header_size ≤ p)
Holds-apart [] lo hi p n q k l h h' ne = absurd h
Holds-apart (b ∷ bs) lo hi p n q k l (inl e) (inl e') ne = absurd (omega arith)
Holds-apart (b ∷ bs) lo hi p n q k l (inl e) (inr h') ne =
    omega (arith, Holds-above bs q k (end_of b) hi l.1 h')
Holds-apart (b ∷ bs) lo hi p n q k l (inr h) (inl e') ne =
    omega (arith, Holds-above bs p n (end_of b) hi l.1 h)
Holds-apart (b ∷ bs) lo hi p n q k l (inr h) (inr h') ne =
    Holds-apart bs (end_of b) hi p n q k l.1 h h' ne

-- The headers alone bound the number of blocks.
pub length-Laid : (bs : Blocks) (lo hi : ℕ) → Laid lo hi bs → lo + header_size * length bs ≤ hi
length-Laid [] lo hi l = omega arith
length-Laid (b ∷ bs) lo hi l = omega (arith, l.0, length-Laid bs (end_of b) hi l.1)

pub Holds-within :
    (bs : Blocks) (h : Heap) (free_list p n : ℕ)
    → IsPool free_list h bs
    → Holds p n bs
    → (free_list + header_size ≤ p) × (p + n ≤ free_list + memory_pool_size)
Holds-within bs h free_list p n is held =
    (Holds-above bs p n free_list _ is.laid held, Holds-below bs p n free_list _ is.laid held)

-- What a caller of `allocate` gets with the pointer `p`.
pub record Served (free_list : Ptr) (size : ℕ) (bs : Blocks) (p : Ptr) (h' : Heap) : Type 0 where
  pub blocks : Blocks
  pub pool : IsPool free_list h' blocks
  pub held : Holds p size blocks
  pub inside : (free_list + header_size ≤ p) × (p + size ≤ free_list + memory_pool_size)
  pub apart : (q n : ℕ) → Holds q n bs → (p + size + header_size ≤ q) ⊎ (q + n + header_size ≤ p)
  pub kept : (q n : ℕ) → Holds q n bs → Holds q n blocks
  pub only : (q n : ℕ) → Holds q n blocks → ((q ≡ p) × (n ≡ size)) ⊎ Holds q n bs
  pub bytes : (covered blocks ≤ covered bs) × (covered bs ≤ covered blocks + header_size)

pub data Allocated (free_list : Ptr) (size : ℕ) (h : Heap) (bs : Blocks)
    : Option (Ptr × Heap) → Type 0 where
  failed : Unfit size bs → Allocated free_list size h bs (some (null, h))
  served :
      {p : Ptr} {h' : Heap}
      → Served free_list size bs p h'
      → Allocated free_list size h bs (some (p, h'))

Allocated-outcome :
    {free_list : Ptr} {size : ℕ} {h : Heap} {bs : Blocks} {r : Option (Ptr × Heap)}
    {o : Option (Ptr × Blocks)}
    → IsPool free_list h bs
    → Outcome size bs o
    → Allocates h free_list free_list r o
    → Allocated free_list size h bs r
Allocated-outcome is (unfit no_room) refused = failed no_room
Allocated-outcome {free_list} {size} is (fit {p} {bs'} g) (granted ch same) =
    let l : Laid free_list (free_list + memory_pool_size) bs' = Grant-Laid _ _ g is.laid in
    served (record {
      blocks = bs';
      pool = record { chain = ch; laid = l; ends = is.ends };
      held = Grant-Holds g;
      inside = (
        Holds-above bs' p size free_list _ l (Grant-Holds g),
        Holds-below bs' p size free_list _ l (Grant-Holds g),
      );
      apart = λ q n held.
          Holds-apart bs' free_list _ p size q n l (Grant-Holds g) (Grant-keeps q n g held)
            (Grant-fresh q n free_list _ g is.laid held);
      kept = λ q n held. Grant-keeps q n g held;
      only = λ q n held. Grant-back q n g held;
      bytes = Grant-covered g;
    })

-- On a well-formed pool, with one round for each 24 bytes of it, `allocate` returns. Either it
-- returns NULL, writes nothing, and no free block is large enough; or it returns a pointer to
-- `size` bytes inside the pool that are now in use and that, with their header, overlap nothing that
-- was in use, headers included; the pool is well formed again, what was in use still is and nothing
-- else has come into use, and at most 24 bytes drop out of the pool.
pub allocate-Allocated :
    (bs : Blocks) (fuel size : ℕ) (h : Heap) (free_list : Ptr)
    → memory_pool_size < header_size * fuel
    → IsPool free_list h bs
    → Allocated free_list size h bs (allocate free_list fuel size h)
allocate-Allocated bs fuel size h free_list enough is =
    Allocated-outcome is (allot-Outcome size bs) (
      allocate_refines bs fuel size h free_list (free_list + memory_pool_size) is.ends
        (omega (arith, length-Laid bs free_list (free_list + memory_pool_size) is.laid)) is.laid
        is.chain)

-- In a well-formed pool the bytes of two blocks in use, with their headers, do not overlap.
pub IsPool-apart :
    (bs : Blocks) (h : Heap) (free_list p n q k : ℕ)
    → IsPool free_list h bs
    → Holds p n bs
    → Holds q k bs
    → p ≢ q
    → (p + n + header_size ≤ q) ⊎ (q + k + header_size ≤ p)
IsPool-apart bs h free_list p n q k is = Holds-apart bs free_list _ p n q k is.laid

-- What `free` of `p` leaves behind.
pub record Released (free_list : Ptr) (bs : Blocks) (p : Ptr) (h' : Heap) : Type 0 where
  pub blocks : Blocks
  pub pool : IsPool free_list h' blocks
  pub others : (q n : ℕ) → Holds q n blocks ↔ ((q ≢ p) × Holds q n bs)
  pub bytes : covered blocks ≡ covered bs

-- On a well-formed pool, with one round for each 24 bytes of it, `free` of a pointer that is in use
-- returns; the pool is well formed again, just that block is no longer in use, every other one
-- still is, and the blocks account for the same bytes as before.
pub free-Released :
    (bs : Blocks) (fuel p n : ℕ) (h : Heap) (free_list : Ptr)
    → memory_pool_size < header_size * fuel
    → IsPool free_list h bs
    → Holds p n bs
    → (h' : Heap) × (free free_list fuel p h ≡ some h') × Released free_list bs p h'
free-Released bs fuel p n h free_list enough is held =
    let hi = free_list + memory_pool_size in
    let few : length bs < fuel = omega (arith, length-Laid bs free_list hi is.laid) in
    let (h', returns, chain, same) =
      free_refines bs fuel p n h free_list hi is.ends few is.laid held is.chain in
    (
      h',
      returns,
      record {
        blocks = pass (mark p bs);
        pool = record {
          chain = chain;
          laid = pass-Laid (mark p bs) free_list hi (mark-Laid bs p free_list hi is.laid);
          ends = is.ends;
        };
        others = λ q k. (
          λ a. mark-Holds_back bs p q k free_list hi is.laid (pass-Holds_back (mark p bs) q k a),
          λ a. pass-Holds (mark p bs) q k (mark-Holds bs p q k a.0 a.1),
        );
        bytes = covered-pass (mark p bs) ∙ covered-mark bs p;
      },
    )

-- `memory_allocator_init` makes a well-formed pool of one free block, which fills it, wherever the
-- linker puts the pool but at address 0.
pub memory_allocator_init-IsPool :
    (h : Heap) (free_list : Ptr)
    → free_list ≢ null
    → free_list + memory_pool_size < 2 ^ 64
    → IsPool free_list
        (memory_allocator_init free_list h)
        (block free_list (memory_pool_size - header_size) true ∷ [])
unfolding memory_allocator_init
memory_allocator_init-IsPool h free_list ne small = record {
  chain =
      Chain-cons (block free_list (memory_pool_size - header_size) true) [] _ free_list 0
        (write_self h free_list _) refl ne refl;
  laid = (omega arith, omega arith);
  ends = small;
}
