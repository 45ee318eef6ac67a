-- ===== src/Allocator.antt =====
-- source/implementation/x86_64/memory_allocator.c: the block headers in a store of their own.
--
-- A header stands at its block's address and takes 24 bytes there (`size_t`, `int` and padding,
-- pointer); the bytes behind it are the caller's. `size_t` arithmetic wraps at 2 ^ 64. The loops
-- follow `next` pointers, so they take fuel, and `none` means that it ran out.
mod Tests
pub mod Blocks
pub mod Chain
pub mod Allocate
pub mod Free
pub mod Pool
pub mod Run
use ety_os.Base.{
  ℕ, zero, suc, ◌+◌, ◌-◌, ◌*◌, ◌%◌, ◌^◌, Bool, true, false, not, ◌&&◌, ◌||◌, Option, none, some,
  ◌==◌, ltb, leb, if◌then◌else◌,
}
use ety_os.Memory.{Ptr}

-- `MemoryBlock`; `is_free` is an `int` read as a truth value.
pub record MemoryBlock : Type 0 where
  pub size : ℕ
  pub is_free : ℕ
  pub next : Ptr

abbrev pub Heap : Type 0
Heap = Ptr → MemoryBlock

abbrev pub null : Ptr
null = 0

-- `MEMORY_POOL_SIZE` and `sizeof(MemoryBlock)`.
abbrev pub memory_pool_size : ℕ
memory_pool_size = 1024 * 1024 * 100

abbrev pub header_size : ℕ
header_size = 24

abbrev pub add_size : ℕ → ℕ → ℕ
add_size a b = (a + b) % 2 ^ 64

abbrev pub sub_size : ℕ → ℕ → ℕ
sub_size a b = (a + 2 ^ 64 - b) % 2 ^ 64

unfoldable pub write : Heap → Ptr → MemoryBlock → Heap
write h p b a = if a == p then b else h a

abbrev pub fits : ℕ → MemoryBlock → Bool
fits size b = not (b.is_free == 0) && leb size b.size

-- The split of a block that is too large.
unfoldable pub split : Ptr → ℕ → Heap → Heap
unfolding write
split current size h =
    if ltb (add_size size header_size) (h current).size
    then (let new_block = current + header_size + size in
        let h' = write h new_block (record {
          size = sub_size (sub_size (h current).size size) header_size;
          is_free = 1;
          next = (h current).next;
        }) in
        write h' current (record (h' current) { next = new_block }))
    else h

-- The split, then `current->is_free = 0; current->size = size`.
unfoldable pub carve : Ptr → ℕ → Heap → Heap
unfolding split write
carve current size h =
    let h' = split current size h in
    write h' current (record (h' current) { is_free = 0; size = size })

unfoldable pub allocate_loop : ℕ → Ptr → ℕ → Heap → Option (Ptr × Heap)
allocate_loop zero current size h = none
allocate_loop (suc fuel) current size h =
    let rest = allocate_loop fuel (h current).next size h in
    if current == null
    then some (null, h)
    else if fits size (h current)
    then some (current + header_size, carve current size h)
    else rest

unfoldable pub merge : Ptr → Heap → Heap
unfolding write
merge current h =
    let next = (h current).next in
    if not ((h current).is_free == 0) && not ((h next).is_free == 0)
    then write h current (record (h current) {
      size = add_size (h current).size (add_size header_size (h next).size);
      next = (h next).next;
    })
    else h

unfoldable pub coalesce_loop : ℕ → Ptr → Heap → Option Heap
coalesce_loop zero current h = none
coalesce_loop (suc fuel) current h =
    let h' = merge current h in
    let rest = coalesce_loop fuel (h' current).next h' in
    if (current == null) || ((h current).next == null) then some h else rest

-- `free_list` is the address of the pool, which the linker chooses.
module _ (free_list : Ptr) where
  unfoldable pub memory_allocator_init : Heap → Heap
  unfolding write
  memory_allocator_init h =
      write h free_list (record { size = memory_pool_size - header_size; is_free = 1; next = null })

  unfoldable pub allocate : ℕ → ℕ → Heap → Option (Ptr × Heap)
  allocate fuel size h = allocate_loop fuel free_list size h

  unfoldable pub free : ℕ → Ptr → Heap → Option Heap
  unfolding write
  free fuel ptr h =
      if ptr == null
      then some h
      else (let block = ptr - header_size in
          coalesce_loop fuel free_list (write h block (record (h block) { is_free = 1 })))
