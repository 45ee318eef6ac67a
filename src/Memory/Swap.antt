-- ===== src/Memory/Swap.antt =====
-- `memory_swap` of two regions that do not overlap.
use ety_os.Base.{refl, ◌∙◌, ◌<◌, ℕ, zero, suc, ◌+◌, ◌≤◌, ◌≡◌, ◌⊎◌, arith}
use ety_os.Memory.{Ptr, Mem, store, memory_swap}

-- The two regions of `n` bytes share no address.
abbrev pub Apart : Ptr → Ptr → ℕ → Type 0
Apart p1 p2 n = (p1 + n ≤ p2) ⊎ (p2 + n ≤ p1)

abbrev swapped : Ptr → Ptr → Mem → Mem
swapped p1 p2 m = store (store m p1 (m p2)) p2 (m p1)

swap_outside :
    (p1 p2 : Ptr) (n : ℕ) (m : Mem) (x : Ptr)
    → (x < p1) ⊎ (p1 + n ≤ x)
    → (x < p2) ⊎ (p2 + n ≤ x)
    → memory_swap p1 p2 n m x ≡ m x
unfolding memory_swap
swap_outside p1 p2 zero m x h k = refl
swap_outside p1 p2 (suc n) m x h k =
    swap_outside (p1 + 1) (p2 + 1) n (swapped p1 p2 m) x (omega arith) (omega arith) ∙ ground arith

swap_first :
    (p1 p2 : Ptr) (n i : ℕ) (m : Mem)
    → Apart p1 p2 n
    → i < n
    → memory_swap p1 p2 n m (p1 + i) ≡ m (p2 + i)
unfolding memory_swap
swap_first p1 p2 zero i m h lt = absurd (omega arith)
swap_first p1 p2 (suc n) zero m h lt =
    let e : p1 + 0 ≡ p1 = omega arith in
    let e' : p2 + 0 ≡ p2 = omega arith in
    rw (e, e')
      (swap_outside (p1 + 1) (p2 + 1) n (swapped p1 p2 m) p1 (omega arith) (omega arith)
        ∙ ground arith)
swap_first p1 p2 (suc n) (suc i) m h lt =
    let e : p1 + suc i ≡ p1 + 1 + i = omega arith in
    let e' : p2 + suc i ≡ p2 + 1 + i = omega arith in
    rw (e, e')
      (swap_first (p1 + 1) (p2 + 1) n i (swapped p1 p2 m) (omega arith) (omega arith)
        ∙ ground arith)

swap_second :
    (p1 p2 : Ptr) (n i : ℕ) (m : Mem)
    → Apart p1 p2 n
    → i < n
    → memory_swap p1 p2 n m (p2 + i) ≡ m (p1 + i)
unfolding memory_swap
swap_second p1 p2 zero i m h lt = absurd (omega arith)
swap_second p1 p2 (suc n) zero m h lt =
    let e : p1 + 0 ≡ p1 = omega arith in
    let e' : p2 + 0 ≡ p2 = omega arith in
    rw (e, e')
      (swap_outside (p1 + 1) (p2 + 1) n (swapped p1 p2 m) p2 (omega arith) (omega arith)
        ∙ ground arith)
swap_second p1 p2 (suc n) (suc i) m h lt =
    let e : p1 + suc i ≡ p1 + 1 + i = omega arith in
    let e' : p2 + suc i ≡ p2 + 1 + i = omega arith in
    rw (e, e')
      (swap_second (p1 + 1) (p2 + 1) n i (swapped p1 p2 m) (omega arith) (omega arith)
        ∙ ground arith)

-- After `memory_swap` of two regions that do not overlap, each holds, byte by byte, what the other
-- held, and every byte outside both is what it was.
pub memory_swap_lem :
    (p1 p2 : Ptr) (length : ℕ) (m : Mem)
    → Apart p1 p2 length
    → ((i : ℕ)
        → i < length
        → (memory_swap p1 p2 length m (p1 + i) ≡ m (p2 + i))
          × (memory_swap p1 p2 length m (p2 + i) ≡ m (p1 + i)))
      × ((x : Ptr)
          → (x < p1) ⊎ (p1 + length ≤ x)
          → (x < p2) ⊎ (p2 + length ≤ x)
          → memory_swap p1 p2 length m x ≡ m x)
memory_swap_lem p1 p2 n m h = (
  λ i lt. (swap_first p1 p2 n i m h lt, swap_second p1 p2 n i m h lt),
  λ x o o'. swap_outside p1 p2 n m x o o',
)
