-- ===== src/Memory/Tests.antt =====
-- The routines of memory.c at concrete blocks.
use ety_os.Base.{◌+◌, ◌-◌, ◌%◌, ◌≡◌, ◌&&◌, leb, ltb, if◌then◌else◌}
use ety_os.Memory.Scan.{Compared, memory_compare-Compared}
use ety_os.Memory.{memory_compare}
use ety_os.Memory.{Ptr, Mem, memory_copy}
use ety_os.Memory.Copy.{memory_copy_lem}

-- Each byte holds the low byte of its address.
abbrev sample : Mem
sample a = a % 256

memory_copy_lem_example :
    ((memory_copy 12 10 4 sample).1 ≡ 12)
    × ((x : Ptr)
        → (memory_copy 12 10 4 sample).0 x
          ≡ (if leb 12 x && ltb x 16 then sample (10 + (x - 12)) else sample x))
memory_copy_lem_example = memory_copy_lem 12 10 4 sample

memory_compare-Compared_example : Compared 0 10 4 sample (memory_compare 0 10 4 sample)
memory_compare-Compared_example = memory_compare-Compared 0 10 4 sample
