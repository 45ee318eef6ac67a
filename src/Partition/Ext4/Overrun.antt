-- ===== src/Partition/Ext4/Overrun.antt =====
-- The headers of the allocator after the clearing in `init_superblock`.
use ety_os.Base.{
  ℕ, zero, suc, ◌+◌, ◌-◌, ◌/◌, ◌<◌, ◌≤◌, ◌≡◌, ◌≢◌, arith, refl, ◌==◌, ltb, ◌||◌, some, ◌∙◌, ap,
  subst, ne→==, le→ltb, sym, Bool-cases, inl, inr,
}
use ety_os.Memory.{Ptr}
use ety_os.Allocator.{
  Heap, MemoryBlock, header_size, memory_pool_size, memory_allocator_init, allocate, allocate_loop,
  free, carve, coalesce_loop, merge, null,
}
use ety_os.Allocator
use ety_os.Allocator.Free.{coalesce_loop-next, coalesce_loop-last}
use ety_os.Disk.{
  cleanup, Disk, State, Cmd, Outcome, done, failed, stuck, and_then, read, write, alloc, release,
}
use ety_os.Bytes.{get32}
use ety_os.Partition.Ext4.{
  add32, sub32, write_filesystem, spill, format_groups, format_group, format_buffer, format_ext4,
}

abbrev node : ℕ → ℕ → Ptr → MemoryBlock
node n f q = record { size = n; is_free = f; next = q }

-- The pool after `memory_allocator_init` and one `allocate(512)`.
record IsSplit (p : Ptr) (h : Heap) : Type 0 where
  front : h p ≡ node 512 0 (p + 536)
  rest : h (p + 536) ≡ node 104857040 1 0

-- A block of 512 bytes, and a header of zeros behind it.
record IsDead (flag : ℕ) (p : Ptr) (h : Heap) : Type 0 where
  front : h p ≡ node 512 flag (p + 536)
  rest : h (p + 536) ≡ node 0 0 0

module _ (p : Ptr) (ne : p ≢ 0) where
  allocate-IsSplit :
      (fuel : ℕ) (h : Heap)
      → (g : Heap) × (allocate p (suc fuel) 512 (memory_allocator_init p h) ≡ some (p + 24, g))
        × IsSplit p g
  unfolding allocate allocate_loop memory_allocator_init carve
  allocate-IsSplit fuel h = (
    carve p 512 (memory_allocator_init p h),
    ground arith,
    record { front = ground arith; rest = ground arith },
  )

  spill-IsDead : {h : Heap} → IsSplit p h → IsDead 0 p (spill (p + 24) h)
  unfolding spill
  spill-IsDead {h} is = record { front = ground (arith, is.front); rest = ground arith }

  abbrev freed : Heap → Heap
  freed h = Allocator.write h p (node 512 1 (p + 536))

  freed-IsDead : {h : Heap} → IsDead 0 p h → IsDead 1 p (freed h)
  unfolding Allocator.write
  freed-IsDead {h} is = record { front = ground arith; rest = ground (arith, is.rest) }

  merge-IsDead : (h : Heap) → IsDead 1 p h → merge p h ≡ h
  unfolding merge
  merge-IsDead h is = rw (is.front, is.rest)

  coalesce-IsDead :
      (fuel : ℕ) (h : Heap) → IsDead 1 p h → coalesce_loop (suc (suc fuel)) p h ≡ some h
  coalesce-IsDead fuel h is =
      coalesce_loop-next (suc fuel) p h h ne (rw is.front (omega arith)) (merge-IsDead h is)
      ∙ ap (λ (m : MemoryBlock). coalesce_loop (suc fuel) m.next h) is.front
      ∙ coalesce_loop-last fuel (p + 536) h (omega arith) (rw is.rest)

  free-start :
      (fuel : ℕ) (h : Heap) → IsDead 0 p h → free p fuel (p + 24) h ≡ coalesce_loop fuel p (freed h)
  unfolding free
  free-start fuel h is =
      let mark = λ (m : MemoryBlock). record m { is_free = 1 } in
      let here : p + 24 - 24 ≡ p = omega arith in
      rw (ne→== (p + 24) 0 (omega arith)) (
        ap (λ a. coalesce_loop fuel p (Allocator.write h a (mark (h a)))) here
        ∙ ap (λ b. coalesce_loop fuel p (Allocator.write h p (mark b))) is.front)

  free-IsDead :
      (fuel : ℕ) (h : Heap)
      → IsDead 0 p h
      → (free p (suc (suc fuel)) (p + 24) h ≡ some (freed h)) × IsDead 1 p (freed h)
  free-IsDead fuel h is = (
    free-start (suc (suc fuel)) h is ∙ coalesce-IsDead fuel (freed h) (freed-IsDead is),
    freed-IsDead is,
  )

  -- Nothing of more than 512 bytes is ever found again.
  allocate-IsDead :
      (flag fuel size : ℕ) (h : Heap)
      → IsDead flag p h
      → 512 < size
      → allocate p (suc (suc (suc fuel))) size h ≡ some (null, h)
  unfolding allocate allocate_loop
  allocate-IsDead flag fuel size h is big = ground (arith, is.front, is.rest)

-- The loop over the groups leaves the heap alone.
write-heap :
    (disk : Disk) (c d lba : ℕ) (b : ℕ → ℕ) (s : State disk.Drives)
    → (write disk c d lba b s).1.heap ≡ s.heap
unfolding write
write-heap disk c d lba b s = refl

and_then-heap :
    {D A B : Type 0} (r : Outcome A × State D) (k : A → Cmd D B) (h : Heap)
    → r.1.heap ≡ h
    → ((a : A) (s : State D) → s.heap ≡ h → (k a s).1.heap ≡ h)
    → (and_then r k).1.heap ≡ h
and_then-heap (done a, s) k h e keep = keep a s e
and_then-heap (failed, s) k h e keep = e
and_then-heap (stuck, s) k h e keep = e

format_group-heap :
    (disk : Disk) (c d start sb first total num : ℕ) (b : ℕ → ℕ) (group : ℕ) (s : State disk.Drives)
    → (format_group disk c d start sb first total num b group s).1.heap ≡ s.heap
unfolding format_group
format_group-heap disk c d start sb first total num b group s =
    and_then-heap (write disk c d _ _ s) _ s.heap (write-heap disk c d _ _ s) (λ a t e.
      and_then-heap (write disk c d _ _ t) _ s.heap (write-heap disk c d _ _ t ∙ e)
        (λ a' t' e'. write-heap disk c d _ _ t' ∙ e'))

format_groups-heap :
    (disk : Disk) (c d left start sb first total num : ℕ) (b : ℕ → ℕ) (group : ℕ)
    (s : State disk.Drives)
    → (format_groups disk c d left start sb first total num b group s).1.heap ≡ s.heap
unfolding format_groups
format_groups-heap disk c d zero start sb first total num b group s = refl
format_groups-heap disk c d (suc left) start sb first total num b group s =
    and_then-heap (format_group disk c d start sb first total num b group s) _ s.heap
      (format_group-heap disk c d start sb first total num b group s)
      (λ a t e. format_groups-heap disk c d left start sb first total num b (group + 1) t ∙ e)

write_filesystem-heap :
    (disk : Disk) (c d start sector : ℕ) (sb : ℕ → ℕ) (s : State disk.Drives)
    → (write_filesystem disk c d start sector sb s).1.heap ≡ s.heap
unfolding write_filesystem
write_filesystem-heap disk c d start sector sb s = elim (Bool-cases (get32 sb 32 == 0)) [
  | inl e ↦ rw e refl
  | inr e ↦ rw e (elim (Bool-cases ((num == 0) || ltb 65536 num)) [
    | inl e' ↦ rw e' refl
    | inr e' ↦ rw e' (
        and_then-heap (write disk c d sector sb s) _ s.heap (write-heap disk c d sector sb s)
          (λ a t e.
            format_groups-heap disk c d num start sector (get32 sb 20) (get32 sb 4) num sb 0 t ∙ e))
  ])
]
  where
    num : ℕ
    num = sub32 (add32 (get32 sb 4) (get32 sb 32)) 1 / get32 sb 32

-- Once the superblock's sector is read, the rest leaves the heap as `init_superblock` does.
format_buffer-heap :
    (disk : Disk) (c d start total : ℕ) (p : Ptr) (s : State disk.Drives) {b : ℕ → ℕ}
    → (disk.read_sector c d (add32 start 2) s.drives).0 ≡ some b
    → (format_buffer disk c d start total p s).1.heap ≡ spill p s.heap
unfolding format_buffer read
format_buffer-heap disk c d start total p s {b} e =
    rw e (write_filesystem-heap disk c d start (add32 start 2) _ _)

module _ {D : Type 0} (p : Ptr) (ne : p ≢ 0) (fuel : ℕ) where
  release-freed :
      (s : State D)
      → IsDead 0 p s.heap
      → release p (suc (suc fuel)) (p + 24) s ≡ (done tt, record s { heap = freed p ne s.heap })
  unfolding release
  release-freed s is = rw ((free-IsDead p ne fuel s.heap is).0, release) refl

  cleanup-IsDead :
      (r : Outcome (Unit {0}) × State D)
      → IsDead 0 p r.1.heap
      → (flag : ℕ) × IsDead flag p
          (and_then
            (cleanup r (release p (suc (suc fuel)) (p + 24)))
            (λ _. release p (suc (suc fuel)) (p + 24))).1.heap
  cleanup-IsDead (done a, s) is =
      (1, rw (release-freed s is, and_then, cleanup) (freed-IsDead p ne is))
  cleanup-IsDead (failed, s) is =
      (1, rw (release-freed s is, and_then, cleanup) (freed-IsDead p ne is))
  cleanup-IsDead (stuck, s) is = (0, is)

alloc-split :
    {D : Type 0} (p : Ptr) (ne : p ≢ 0) (fuel : ℕ) (s : State D) (h : Heap)
    → s.heap ≡ memory_allocator_init p h
    → alloc p (suc (suc (suc fuel))) 512 s
      ≡ (done (p + 24), record s { heap = (allocate-IsSplit p ne (suc (suc fuel)) h).0 })
unfolding alloc
alloc-split p ne fuel s h e =
    let split = allocate-IsSplit p ne (suc (suc fuel)) h in
    let found = ap (allocate p (suc (suc (suc fuel))) 512) e ∙ split.1 in
    rw (alloc, found, ne→== (p + 24) 0 (omega arith)) refl

-- Take an allocator that is just set up, with at least three steps of fuel, and a partition of at
-- least 8192 sectors whose superblock sector can be read. However the rest of `format_ext4` ends,
-- the headers it leaves give a null pointer for every request of more than 512 bytes.
pub format_ext4-Overrun :
    (disk : Disk) (p : Ptr) (fuel c d start total : ℕ) (s : State disk.Drives) (h : Heap)
    {b : ℕ → ℕ} (size : ℕ)
    → p ≢ 0
    → 8192 ≤ total
    → s.heap ≡ memory_allocator_init p h
    → (disk.read_sector c d (add32 start 2) s.drives).0 ≡ some b
    → 512 < size
    → let after = (format_ext4 disk c d p (suc (suc (suc fuel))) start total s).1.heap in
      allocate p (suc (suc (suc fuel))) size after ≡ some (null, after)
unfolding format_ext4
format_ext4-Overrun disk p fuel c d start total s h size ne big e loads big' =
    rw (le→ltb total 8192 big, alloc-split p ne fuel s h e, and_then)
      (allocate-IsDead p ne dead.0 fuel size _ dead.1 big')
  where
    split :
        (g : Heap) × (allocate p (suc (suc (suc fuel))) 512 (memory_allocator_init p h)
          ≡ some (p + 24, g))
        × IsSplit p g
    split = allocate-IsSplit p ne (suc (suc fuel)) h

    loaded : State disk.Drives
    loaded = record s { heap = split.0 }

    buffered : Outcome (Unit {0}) × State disk.Drives
    buffered = format_buffer disk c d start total (p + 24) loaded

    dead :
        (flag : ℕ) × IsDead flag p
          (and_then
            (cleanup buffered (release p (suc (suc (suc fuel))) (p + 24)))
            (λ _. release p (suc (suc (suc fuel))) (p + 24))).1.heap
    dead = cleanup-IsDead p ne (suc fuel) buffered (
        subst (IsDead 0 p) (sym (format_buffer-heap disk c d start total (p + 24) loaded loads))
          (spill-IsDead p ne split.2))
