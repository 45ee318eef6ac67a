-- ===== src/Memory/Copy.antt =====
-- `memory_copy` and `memory_move`: both directions of the loop, overlap included.
use ety_os.Base.{
  ap, Bool-cases, ltb→lt, ltb→le, ℕ, zero, suc, ◌+◌, ◌-◌, ◌≤◌, ◌<◌, ◌≡◌, refl, inl, inr, ◌&&◌,
  arith, ltb, leb, if◌then◌else◌,
}
use ety_os.Memory.{Ptr, Mem, store, copy_forward, copy_backward, memory_copy, memory_move}

-- Downwards the loop never overwrites a byte that it has yet to read.
copy_forward_lem :
    (n : ℕ) (d s : Ptr) (m : Mem)
    → d < s
    → (x : Ptr)
    → copy_forward n d s m x ≡ (if leb d x && ltb x (d + n) then m (s + (x - d)) else m x)
unfolding copy_forward
copy_forward_lem zero d s m below x = ground arith
copy_forward_lem (suc n) d s m below x =
    ground (arith, copy_forward_lem n (d + 1) (s + 1) (store m d (m s)) (omega arith) x)

copy_backward_lem :
    (n : ℕ) (d s : Ptr) (m : Mem)
    → s < d
    → (x : Ptr)
    → copy_backward n (d + n) (s + n) m x
      ≡ (if leb d x && ltb x (d + n) then m (s + (x - d)) else m x)
unfolding copy_backward
copy_backward_lem zero d s m above x = ground arith
copy_backward_lem (suc n) d s m above x =
    let e : d + suc n - 1 ≡ d + n = omega arith in
    let e' : s + suc n - 1 ≡ s + n = omega arith in
    rw (e, e') (ground (arith, copy_backward_lem n d s (store m (d + n) (m (s + n))) above x))

-- `memory_copy` returns its destination; afterwards each byte of the destination is the one that
-- stood at the same place of the source before the call, also where the regions overlap or are
-- one, and every other byte is what it was.
pub memory_copy_lem :
    (dest src : Ptr) (length : ℕ) (m : Mem)
    → ((memory_copy dest src length m).1 ≡ dest)
      × ((x : Ptr)
          → (memory_copy dest src length m).0 x
            ≡ (if leb dest x && ltb x (dest + length) then m (src + (x - dest)) else m x))
unfolding memory_copy
memory_copy_lem dest src length m = elim (Bool-cases (ltb dest src)) [
  | inl e ↦ rw e (refl, copy_forward_lem length dest src m (ltb→lt _ _ e))
  | inr e ↦ elim (Bool-cases (ltb src dest)) [
    | inl e' ↦ rw (e, e') (refl, copy_backward_lem length dest src m (ltb→lt _ _ e'))
    | inr e' ↦ rw (e, e') (refl, λ x. in_place x (omega (arith, ltb→le _ _ e, ltb→le _ _ e')))
  ]
]
  where
    in_place :
        (x : Ptr)
        → dest ≡ src
        → m x ≡ (if leb dest x && ltb x (dest + length) then m (src + (x - dest)) else m x)
    in_place x same = ground (arith, self x)
      where
        self : (y : Ptr) → dest ≤ y → m (src + (y - dest)) ≡ m y
        self y h = ap m (omega arith)

-- `memory_move` and `memory_copy` are one function.
pub memory_move-memory_copy :
    (dest src : Ptr) (length : ℕ) (m : Mem)
    → memory_move dest src length m ≡ memory_copy dest src length m
unfolding memory_move memory_copy
memory_move-memory_copy dest src length m = refl

pub memory_move_lem :
    (dest src : Ptr) (length : ℕ) (m : Mem) (x : Ptr)
    → (memory_move dest src length m).0 x
      ≡ (if leb dest x && ltb x (dest + length) then m (src + (x - dest)) else m x)
memory_move_lem dest src length m x =
    rw (memory_move-memory_copy dest src length m) ((memory_copy_lem dest src length m).1 x)
