-- ===== src/Allocator/Tests.antt =====
-- The allocator on a pool at address 1000.
use ety_os.Base.{
  ℕ, suc, ◌+◌, ◌<◌, ◌≤◌, ◌≡◌, inl, arith, refl, ◌==◌, if◌then◌else◌, true, false, some, [], ◌∷◌,
}
use ety_os.Memory.{Ptr}
use ety_os.Allocator.{
  Heap, memory_pool_size, header_size, memory_allocator_init, allocate, allocate_loop, carve, free,
}
use ety_os.Allocator.Blocks.{Blocks, block, Laid, Holds, allot, mark, pass}
use ety_os.Allocator.Chain.{Chain, node}
use ety_os.Allocator.Allocate.{Allocates, allocate_refines}
use ety_os.Allocator.Free.{free_refines}
use ety_os.Allocator.Pool.{IsPool, Allocated, allocate-Allocated, Released, free-Released}
use ety_os.Allocator.Run.{Live, AllApart, Owns, Reach, start, next, got, Reach-apart}

abbrev empty : Heap
empty a = node 0 0 0

-- One block of 64 bytes in use, and the rest of the pool free.
abbrev used : Heap
used a = if a == 1000 then node 64 0 1088 else if a == 1088 then node 104857488 1 0 else node 0 0 0

abbrev used_blocks : Blocks
used_blocks = block 1000 64 false ∷ block 1088 104857488 true ∷ []

used-Chain : Chain used 1000 used_blocks
used-Chain = (
  record { at_addr = refl; ne_null = omega arith; size = refl; is_free = refl },
  (record { at_addr = refl; ne_null = omega arith; size = refl; is_free = refl }, refl),
)

used-Laid : Laid 1000 104858600 used_blocks
used-Laid = (omega arith, (omega arith, omega arith))

used-IsPool : IsPool 1000 used used_blocks
used-IsPool = record { chain = used-Chain; laid = used-Laid; ends = omega arith }

used-Holds : Holds 1024 64 used_blocks
used-Holds = inl (refl, refl, refl)

allocate_refines_example :
    Allocates used 1000 1000 (allocate 1000 3 100 used) (allot 100 used_blocks)
allocate_refines_example =
    allocate_refines used_blocks 3 100 used 1000 104858600 (omega arith) (omega arith) used-Laid
      used-Chain

free_refines_example :
    (h' : Heap) × (free 1000 3 1024 used ≡ some h')
    × Chain h' 1000 (pass (mark 1024 used_blocks))
    × ((a : Ptr) → a < 1000 → h' a ≡ used a)
free_refines_example =
    free_refines used_blocks 3 1024 64 used 1000 104858600 (omega arith) (omega arith) used-Laid
      used-Holds used-Chain

allocate-Allocated_example : Allocated 1000 100 used used_blocks (allocate 1000 5000000 100 used)
allocate-Allocated_example =
    allocate-Allocated used_blocks 5000000 100 used 1000 (omega arith) used-IsPool

free-Released_example :
    (h' : Heap) × (free 1000 5000000 1024 used ≡ some h') × Released 1000 used_blocks 1024 h'
free-Released_example =
    free-Released used_blocks 5000000 1024 64 used 1000 (omega arith) used-IsPool used-Holds

abbrev fresh : Heap
fresh = memory_allocator_init 1000 empty

first_call : (fuel : ℕ) → allocate 1000 (suc fuel) 64 fresh ≡ some (1024, carve 1000 64 fresh)
unfolding allocate allocate_loop memory_allocator_init
first_call fuel = refl

second_call :
    (fuel : ℕ)
    → allocate 1000 (suc (suc fuel)) 32 (carve 1000 64 fresh)
      ≡ some (1112, carve 1088 32 (carve 1000 64 fresh))
unfolding allocate allocate_loop memory_allocator_init carve
second_call fuel = refl

abbrev two_live : Live
two_live = (1112, 32) ∷ (1024, 64) ∷ []

second-Reach : Reach 1000 5000000 empty (carve 1088 32 (carve 1000 64 fresh)) two_live
second-Reach =
    next (next start (got 64 (first_call 4999999) (omega arith)))
      (got 32 (second_call 4999998) (omega arith))

Reach-apart_example :
    ((p n : ℕ) → Owns p n two_live → (1000 + header_size ≤ p) × (p + n ≤ 1000 + memory_pool_size))
    × AllApart two_live
Reach-apart_example =
    Reach-apart 1000 5000000 empty (carve 1088 32 (carve 1000 64 fresh)) two_live (omega arith)
      (omega arith) (omega arith) second-Reach
