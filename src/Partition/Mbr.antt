-- ===== src/Partition/Mbr.antt =====
-- The partition table of a master boot record: four `PartitionEntry` structs of 16 bytes from
-- byte 446 on.
pub mod Entries
use ety_os.Base.{
  ℕ, zero, suc, ◌+◌, ◌*◌, Bool, true, false, not, Option, none, some, ◌==◌, if◌then◌else◌,
}
use ety_os.Memory.{store}
use ety_os.Bytes.{Buffer, put32, get32}

abbrev pub sector_size : ℕ
sector_size = 512

abbrev pub partition_table_offset : ℕ
partition_table_offset = 446

-- `&partition_table[i]`, as an index of the buffer.
abbrev pub entry : ℕ → ℕ
entry i = partition_table_offset + 16 * i

abbrev pub entry_status : Buffer → ℕ → ℕ
entry_status mbr i = mbr (entry i)

abbrev pub entry_type : Buffer → ℕ → ℕ
entry_type mbr i = mbr (entry i + 4)

abbrev pub entry_lba_first : Buffer → ℕ → ℕ
entry_lba_first mbr i = get32 mbr (entry i + 8)

abbrev pub entry_sector_count : Buffer → ℕ → ℕ
entry_sector_count mbr i = get32 mbr (entry i + 12)

-- The loop over the four slots: the first that is empty.
unfoldable pub find_slot : ℕ → ℕ → Buffer → Option ℕ
find_slot zero i mbr = none
find_slot (suc left) i mbr =
    let rest = find_slot left (i + 1) mbr in if entry_type mbr i == 0 then some i else rest

-- The assignments to the slot's fields.
unfoldable pub set_entry : ℕ → ℕ → ℕ → ℕ → Buffer → Buffer
set_entry i kind start_lba sector_count mbr =
    put32 (put32 (store (store mbr (entry i) 0) (entry i + 4) kind) (entry i + 8) start_lba)
      (entry i + 12) sector_count

-- The byte loop of `delete_partition` over the entry.
unfoldable pub clear_entry : ℕ → ℕ → ℕ → Buffer → Buffer
clear_entry zero j i mbr = mbr
clear_entry (suc left) j i mbr = clear_entry left (j + 1) i (store mbr (entry i + j) 0)
