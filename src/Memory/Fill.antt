-- ===== src/Memory/Fill.antt =====
-- `memory_set`, `memory_zero` and `memory_is_zero`.
use ety_os.Base.{
  ℕ, zero, suc, ◌+◌, ◌%◌, ◌≤◌, ◌<◌, ◌≡◌, refl, ◌↔◌, ◌⊎◌, ◌&&◌, arith, ltb, leb, if◌then◌else◌,
}
use ety_os.Memory.{Ptr, Mem, store, uchar, set_loop, memory_set, memory_zero, memory_is_zero}

-- `x` is one of the `n` addresses from `p` on.
abbrev pub within : Ptr → ℕ → Ptr → ℕ → ℕ → ℕ
within p n x inside outside = if leb p x && ltb x (p + n) then inside else outside

set_loop_lem :
    (n : ℕ) (p : Ptr) (v : ℕ) (m : Mem) (x : Ptr)
    → set_loop n p v m x ≡ within p n x (uchar v) (m x)
unfolding set_loop
set_loop_lem zero p v m x = ground arith
set_loop_lem (suc n) p v m x = ground (arith, set_loop_lem n (p + 1) v (store m p (uchar v)) x)

-- `memory_set` returns its destination; afterwards each of the `length` bytes from there on is the
-- value cut to a byte, and every other byte is what it was.
pub memory_set_lem :
    (dest : Ptr) (value length : ℕ) (m : Mem)
    → ((memory_set dest value length m).1 ≡ dest)
      × ((x : Ptr)
          → (memory_set dest value length m).0 x
            ≡ (if leb dest x && ltb x (dest + length) then value % 256 else m x))
unfolding memory_set
memory_set_lem dest value length m = (refl, λ x. set_loop_lem length dest value m x)

pub memory_zero_lem :
    (dest : Ptr) (length : ℕ) (m : Mem) (x : Ptr)
    → memory_zero dest length m x ≡ (if leb dest x && ltb x (dest + length) then 0 else m x)
unfolding memory_zero memory_set
memory_zero_lem dest length m x = set_loop_lem length dest 0 m x

-- The first address of a range, or one of the rest.
pub eq_or_next : (p x : Ptr) → p ≤ x → (x ≡ p) ⊎ (p + 1 ≤ x)
eq_or_next p x h = ground arith

is_zero_sound :
    (n : ℕ) (p : Ptr) (m : Mem) (x : Ptr) → memory_is_zero p n m ≡ 1 → p ≤ x → x < p + n → m x ≡ 0
unfolding memory_is_zero
is_zero_sound zero p m x h lo hi = absurd (omega arith)
is_zero_sound (suc n) p m x h lo hi = ground (arith, is_zero_sound n (p + 1) m x, eq_or_next p x)

is_zero_complete :
    (n : ℕ) (p : Ptr) (m : Mem)
    → ((x : Ptr) → p ≤ x → x < p + n → m x ≡ 0)
    → memory_is_zero p n m ≡ 1
unfolding memory_is_zero
is_zero_complete zero p m h = refl
is_zero_complete (suc n) p m h = ground (
  arith,
  h p (omega arith) (omega arith),
  is_zero_complete n (p + 1) m (λ x lo hi. h x (omega arith) (omega arith)),
)

-- `memory_is_zero` returns 1 exactly when each of the bytes is zero.
pub memory_is_zero_iff :
    (ptr : Ptr) (length : ℕ) (m : Mem)
    → (memory_is_zero ptr length m ≡ 1) ↔ ((x : Ptr) → ptr ≤ x → x < ptr + length → m x ≡ 0)
memory_is_zero_iff ptr length m =
    (λ h x. is_zero_sound length ptr m x h, is_zero_complete length ptr m)

-- What `memory_zero` has cleared passes `memory_is_zero`.
pub memory_is_zero-memory_zero :
    (p : Ptr) (n : ℕ) (m : Mem) → memory_is_zero p n (memory_zero p n m) ≡ 1
memory_is_zero-memory_zero p n m =
    is_zero_complete n p (memory_zero p n m) (λ x lo hi. ground (arith, memory_zero_lem p n m x))
