-- ===== src/Memory.antt =====
-- source/implementation/x86_64/memory.c over a flat memory of bytes.
--
-- A pointer is an address, and an object lies in the address space without wrapping round. A
-- routine that writes returns the new memory, beside the pointer that the C function returns.
-- The loops `while (length-- > 0)` are recursions on `length`.
mod Tests
pub mod Fill
pub mod Copy
pub mod Scan
pub mod Swap
use ety_os.Base.{
  ℕ, zero, suc, ◌+◌, ◌-◌, ◌%◌, not, Option, none, some, ◌==◌, ltb, if◌then◌else◌, ℤ, pos, negsuc,
}

abbrev pub Ptr : Type 0
Ptr = ℕ

abbrev pub Mem : Type 0
Mem = Ptr → ℕ

-- `*p = v`
abbrev pub store : Mem → Ptr → ℕ → Mem
store m p v a = if a == p then v else m a

-- `(unsigned char)value`, of an `int` given by its bit pattern.
abbrev pub uchar : ℕ → ℕ
uchar value = value % 256

set_loop : ℕ → Ptr → ℕ → Mem → Mem
set_loop zero ptr value m = m
set_loop (suc length) ptr value m = set_loop length (ptr + 1) value (store m ptr (uchar value))

unfoldable pub memory_set : Ptr → ℕ → ℕ → Mem → Mem × Ptr
unfolding set_loop
memory_set dest value length m = (set_loop length dest value m, dest)

-- `*d++ = *s++`
copy_forward : ℕ → Ptr → Ptr → Mem → Mem
copy_forward zero d s m = m
copy_forward (suc length) d s m = copy_forward length (d + 1) (s + 1) (store m d (m s))

-- `*--d = *--s`, with `d` and `s` behind the last bytes.
copy_backward : ℕ → Ptr → Ptr → Mem → Mem
copy_backward zero d s m = m
copy_backward (suc length) d s m =
    copy_backward length (d - 1) (s - 1) (store m (d - 1) (m (s - 1)))

unfoldable pub memory_copy : Ptr → Ptr → ℕ → Mem → Mem × Ptr
unfolding copy_forward copy_backward
memory_copy dest src length m =
    if ltb dest src
    then (copy_forward length dest src m, dest)
    else if ltb src dest
    then (copy_backward length (dest + length) (src + length) m, dest)
    else (m, dest)

unfoldable pub memory_move : Ptr → Ptr → ℕ → Mem → Mem × Ptr
unfolding copy_forward copy_backward
memory_move dest src length m =
    if ltb dest src
    then (copy_forward length dest src m, dest)
    else if ltb src dest
    then (copy_backward length (dest + length) (src + length) m, dest)
    else (m, dest)

unfoldable pub memory_compare : Ptr → Ptr → ℕ → Mem → ℤ
memory_compare p1 p2 zero m = pos 0
memory_compare p1 p2 (suc length) m =
    let rest = memory_compare (p1 + 1) (p2 + 1) length m in
    if not (m p1 == m p2) then (if ltb (m p2) (m p1) then pos 1 else negsuc 0) else rest

find_loop : ℕ → Ptr → ℕ → Mem → Option Ptr
find_loop zero p v m = none
find_loop (suc length) p v m =
    let rest = find_loop length (p + 1) v m in if m p == v then some p else rest

-- `NULL` is `none`.
unfoldable pub memory_find : Ptr → ℕ → ℕ → Mem → Option Ptr
unfolding find_loop
memory_find ptr value length m = find_loop length ptr (uchar value) m

unfoldable pub memory_zero : Ptr → ℕ → Mem → Mem
unfolding memory_set
memory_zero dest length m = (memory_set dest 0 length m).0

unfoldable pub memory_is_zero : Ptr → ℕ → Mem → ℕ
memory_is_zero ptr zero m = 1
memory_is_zero ptr (suc length) m =
    let rest = memory_is_zero (ptr + 1) length m in if not (m ptr == 0) then 0 else rest

-- Both stores of a round, `temp` being the byte that stood at `p1`.
unfoldable pub memory_swap : Ptr → Ptr → ℕ → Mem → Mem
memory_swap p1 p2 zero m = m
memory_swap p1 p2 (suc length) m =
    memory_swap (p1 + 1) (p2 + 1) length (store (store m p1 (m p2)) p2 (m p1))
