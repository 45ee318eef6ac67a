-- ===== src/Memory/Scan.antt =====
-- `memory_compare` and `memory_find`: the first byte that differs, and the first that matches.
use ety_os.Base.{
  ◌%◌, ◌≤◌, Option, some, none, ◌≢◌, ltb→lt, ltb→le, ℕ, zero, suc, ◌+◌, ◌-◌, ◌<◌, ◌≡◌, ◌≢◌, inl,
  inr, Option, none, some, arith, ltb, ◌==◌, ℤ, pos, negsuc, Bool-cases, ==→eq, ==→ne,
}
use ety_os.Memory.{uchar, find_loop, memory_find, Ptr, Mem, memory_compare}
use ety_os.Memory.Fill.{eq_or_next}

-- The first `k` bytes at `p1` and `p2` are the same.
abbrev pub SameBytes : Ptr → Ptr → ℕ → Mem → Type 0
SameBytes p1 p2 k m = (i : ℕ) → i < k → m (p1 + i) ≡ m (p2 + i)

-- What `memory_compare` promises: 0 for equal blocks, and else the order of the first bytes that
-- differ, as unsigned numbers.
pub data Compared (p1 p2 length : ℕ) (m : Mem) : ℤ → Type 0 where
  same : SameBytes p1 p2 length m → Compared p1 p2 length m (pos 0)
  greater :
      (k : ℕ)
      → k < length
      → SameBytes p1 p2 k m
      → m (p2 + k) < m (p1 + k)
      → Compared p1 p2 length m (pos 1)
  less :
      (k : ℕ)
      → k < length
      → SameBytes p1 p2 k m
      → m (p1 + k) < m (p2 + k)
      → Compared p1 p2 length m (negsuc 0)

next : (p1 p2 k : ℕ) (m : Mem) → m (p2 + 1 + k) < m (p1 + 1 + k) → m (p2 + suc k) < m (p1 + suc k)
next p1 p2 k m h =
    let a : p1 + suc k ≡ p1 + 1 + k = omega arith in
    let b : p2 + suc k ≡ p2 + 1 + k = omega arith in rw (a, b) h

start : (p1 p2 : ℕ) (m : Mem) → m p2 < m p1 → m (p2 + 0) < m (p1 + 0)
start p1 p2 m h =
    let a : p1 + 0 ≡ p1 = omega arith in let b : p2 + 0 ≡ p2 = omega arith in rw (a, b) h

SameBytes-suc :
    (p1 p2 k : ℕ) (m : Mem)
    → m p1 ≡ m p2
    → SameBytes (p1 + 1) (p2 + 1) k m
    → SameBytes p1 p2 (suc k) m
SameBytes-suc p1 p2 k m e h i lt = elim (eq_or_next 0 i (omega arith)) [
  | inl z ↦ let a : p1 + i ≡ p1 = omega arith in let b : p2 + i ≡ p2 = omega arith in rw (a, b) e
  | inr n ↦
      let a : p1 + i ≡ p1 + 1 + (i - 1) = omega arith in
      let b : p2 + i ≡ p2 + 1 + (i - 1) = omega arith in rw (a, b) (h (i - 1) (omega arith))
]

Compared-suc :
    (p1 p2 length : ℕ) (m : Mem) {r : ℤ}
    → m p1 ≡ m p2
    → Compared (p1 + 1) (p2 + 1) length m r
    → Compared p1 p2 (suc length) m r
Compared-suc p1 p2 length m e (same h) = same (SameBytes-suc p1 p2 length m e h)
Compared-suc p1 p2 length m e (greater k lt h gt) =
    greater (suc k) (omega arith) (SameBytes-suc p1 p2 k m e h) (next p1 p2 k m gt)
Compared-suc p1 p2 length m e (less k lt h gt) =
    less (suc k) (omega arith) (SameBytes-suc p1 p2 k m e h) (next p2 p1 k m gt)

-- `memory_compare` returns 0 for equal blocks, 1 if the first differing byte of the first block is
-- the greater one, and -1 if it is the smaller one.
pub memory_compare-Compared :
    (p1 p2 : Ptr) (length : ℕ) (m : Mem) → Compared p1 p2 length m (memory_compare p1 p2 length m)
unfolding memory_compare
memory_compare-Compared p1 p2 zero m = same (λ i lt. absurd (omega arith))
memory_compare-Compared p1 p2 (suc n) m = elim (Bool-cases (m p1 == m p2)) [
  | inl e ↦
      rw e (Compared-suc p1 p2 n m (==→eq _ _ e) (memory_compare-Compared (p1 + 1) (p2 + 1) n m))
  | inr e ↦ rw e (elim (Bool-cases (ltb (m p2) (m p1))) [
    | inl g ↦
        rw g (greater 0 (omega arith) (λ i lt. absurd (omega arith)) (start p1 p2 m (ltb→lt _ _ g)))
    | inr g ↦ rw g (
        less 0 (omega arith) (λ i lt. absurd (omega arith))
          (start p2 p1 m (omega (arith, ltb→le _ _ g, ==→ne _ _ e))))
  ])
]

-- What `memory_find` promises: the first address of the value, or none if there is none.
pub data Found (p length v : ℕ) (m : Mem) : Option Ptr → Type 0 where
  at :
      (a : Ptr)
      → p ≤ a
      → a < p + length
      → m a ≡ v
      → ((x : Ptr) → p ≤ x → x < a → m x ≢ v)
      → Found p length v m (some a)
  nowhere : ((x : Ptr) → p ≤ x → x < p + length → m x ≢ v) → Found p length v m none

-- A fact about an address and the ones behind it.
beside :
    {P : Ptr → Type 0} (p end : Ptr)
    → P p
    → ((x : Ptr) → p + 1 ≤ x → x < end → P x)
    → (x : Ptr) → p ≤ x
    → x < end
    → P x
beside {P} p end here later x lo hi = elim (eq_or_next p x lo) [
  | inl e ↦ rw e here
  | inr n ↦ later x n hi
]

Found-suc :
    (p length v : ℕ) (m : Mem) {r : Option Ptr}
    → m p ≢ v
    → Found (p + 1) length v m r
    → Found p (suc length) v m r
Found-suc p length v m ne (at a lo hi e h) = at a (omega arith) (omega arith) e (beside p a ne h)
Found-suc p length v m ne (nowhere h) =
    nowhere (beside p (p + suc length) ne (λ x lo hi. h x lo (omega arith)))

find_loop-Found : (length p v : ℕ) (m : Mem) → Found p length v m (find_loop length p v m)
unfolding find_loop
find_loop-Found zero p v m = nowhere (λ x lo hi. absurd (omega arith))
find_loop-Found (suc n) p v m = elim (Bool-cases (m p == v)) [
  | inl e ↦ rw e (at p (omega arith) (omega arith) (==→eq _ _ e) (λ x lo hi. absurd (omega arith)))
  | inr e ↦ rw e (Found-suc p n v m (==→ne _ _ e) (find_loop-Found n (p + 1) v m))
]

-- `memory_find` returns the first address of the block that holds the value cut to a byte, and
-- NULL exactly if no byte of the block holds it.
pub memory_find-Found :
    (ptr : Ptr) (value length : ℕ) (m : Mem)
    → Found ptr length (value % 256) m (memory_find ptr value length m)
unfolding memory_find
memory_find-Found ptr value length m = find_loop-Found length ptr (uchar value) m
