-- ===== src/Partition/Ext4.antt =====
-- `init_superblock` and `format_ext4` of partition.c, over the bytes of `disk_buffer`.
--
-- A field of a packed struct is its bytes at the field's offset. `uint32_t` arithmetic wraps at
-- 2 ^ 32. The superblock lies at the start of `disk_buffer` (1024 is a multiple of 512), and so
-- does each group descriptor: `sb` and `gd` are the same bytes.
pub mod Superblock
pub mod Groups
pub mod Overrun
pub mod Within
pub mod Bitmaps
use ety_os.Base.{
  ℕ, zero, suc, ◌+◌, ◌-◌, ◌*◌, ◌/◌, ◌%◌, ◌^◌, Bool, true, false, not, ◌&&◌, ◌||◌, Option, none,
  some, ◌==◌, ltb, leb, if◌then◌else◌, List, [], ◌∷◌,
}
use ety_os.Memory.{Ptr, store, memory_zero}
use ety_os.Bytes.{Buffer, put16, put32, get32}
use ety_os.Allocator.{Heap, MemoryBlock, header_size}
use ety_os.Disk.{Disk, State, Cmd, ◌>>=◌, ◌>>◌, pure, fail, or_else, read, write, alloc, release}
use ety_os.Partition.Mbr.{sector_size}

abbrev pub add32 : ℕ → ℕ → ℕ
add32 a b = (a + b) % 2 ^ 32

abbrev pub sub32 : ℕ → ℕ → ℕ
sub32 a b = (a + 2 ^ 32 - b) % 2 ^ 32

abbrev pub mul32 : ℕ → ℕ → ℕ
mul32 a b = a * b % 2 ^ 32

-- `sizeof(Ext4Superblock)`.
abbrev pub superblock_size : ℕ
superblock_size = 730

abbrev pub default_block_size : ℕ
default_block_size = 4096

abbrev pub first_ino : ℕ
first_ino = 11

-- `__builtin_ctz`, on 32 bits.
ctz : ℕ → ℕ → ℕ
ctz zero x = 0
ctz (suc bits) x = let rest = 1 + ctz bits (x / 2) in if x % 2 == 0 then rest else 0

-- `blocks_count` after its bound.
unfoldable pub blocks_count : ℕ → ℕ
blocks_count total_sectors =
    let blocks = total_sectors * sector_size % 2 ^ 64 / default_block_size in
    if ltb 0xffff_ffff blocks then 0xffff_ffff else blocks

abbrev pub blocks_per_group : ℕ
blocks_per_group = 32768

abbrev pub inodes_per_group : ℕ
inodes_per_group = 8192

-- The literal "etyOS", copied to `s_volume_name`.
volume_name : Buffer → Buffer
volume_name b = store (store (store (store (store b 120 b'e') 121 b't') 122 b'y') 123 b'O') 124 b'S'

unfoldable pub init_superblock : ℕ → Buffer → Buffer
unfolding ctz volume_name
init_superblock total_sectors sb =
    let blocks = blocks_count total_sectors in
    let num_block_groups = (blocks + blocks_per_group - 1) / blocks_per_group % 2 ^ 32 in
    let inodes_count = mul32 inodes_per_group num_block_groups in
    let sb = memory_zero 0 superblock_size sb in
    let sb = put32 sb 0 inodes_count in
    let sb = put32 sb 4 blocks in
    let sb = put32 sb 336 (blocks / 2 ^ 32) in
    let sb = put32 sb 8 (blocks / 20) in
    let sb = put32 sb 12 (blocks + 2 ^ 64 - 1) in
    let sb = put32 sb 16 (add32 (sub32 inodes_count first_ino) 1) in
    let sb = put32 sb 20 (if default_block_size == 1024 then 1 else 0) in
    let sb = put32 sb 24 (sub32 (ctz 32 default_block_size) 10) in
    let sb = put32 sb 32 blocks_per_group in
    let sb = put32 sb 40 inodes_per_group in
    let sb = put16 sb 56 0xef53 in
    let sb = put16 sb 58 1 in
    let sb = put16 sb 60 1 in
    let sb = put32 sb 76 1 in
    let sb = put32 sb 84 first_ino in
    let sb = put16 sb 88 256 in
    let sb = put32 sb 92 0x0020 in let sb = put32 sb 96 (0x0040 + 0x0080) in volume_name sb

-- The first block of a group, and how many blocks it has.
unfoldable pub group_first_block : ℕ → ℕ → ℕ
group_first_block first_block group = add32 first_block (mul32 group blocks_per_group)

unfoldable pub blocks_in_group : ℕ → ℕ → ℕ → ℕ
blocks_in_group total_blocks num_block_groups group =
    if group == num_block_groups - 1
    then sub32 total_blocks (mul32 group blocks_per_group)
    else blocks_per_group

-- The descriptor, assigned field by field in the cleared buffer; `sb->s_inodes_per_group` is read
-- at offset 40 of the same buffer.
unfoldable pub group_descriptor : ℕ → ℕ → Buffer → Buffer
group_descriptor first_block blocks buffer =
    let gd = memory_zero 0 sector_size buffer in
    let gd = put32 gd 0 first_block in
    let gd = put32 gd 4 (add32 first_block 1) in
    let gd = put32 gd 8 (add32 first_block 2) in
    let gd = put16 gd 12 (sub32 blocks 4) in
    let gd = put16 gd 14 (get32 gd 40) in let gd = put16 gd 16 0 in put16 gd 18 0

unfoldable pub bitmap_sector : ℕ → ℕ → ℕ
bitmap_sector start_lba first_block =
    add32 start_lba (mul32 first_block default_block_size / sector_size)

unfoldable pub block_bitmap : Buffer → Buffer
block_bitmap buffer = store (memory_zero 0 sector_size buffer) 0 0x0f

unfoldable pub inode_bitmap : Buffer → Buffer
inode_bitmap buffer = memory_zero 0 sector_size buffer

-- `memory_zero` clears `sizeof(Ext4Superblock)` bytes of a buffer of 512: the headers behind the
-- buffer that lie in the excess are cleared too. (A header that it clears in part is left as it is
-- here: the chain no longer reaches one.)
unfoldable pub spill : Ptr → Heap → Heap
spill p h a =
    if leb (p + sector_size) a && leb (a + header_size) (p + superblock_size)
    then record { size = 0; is_free = 0; next = 0 }
    else h a

abbrev spilled : {D : Type 0} → Ptr → Cmd D (Unit {0})
spilled p = λ s. pure tt (record s { heap = spill p s.heap })

module _ (disk : Disk) (controller drive : ℕ) where
  open disk use {Drives}

  -- One round of the loop over the groups: three sectors.
  unfoldable pub format_group : ℕ → ℕ → ℕ → ℕ → ℕ → Buffer → ℕ → Cmd Drives (Unit {0})
  format_group start_lba sb_sector first_block total_blocks num_block_groups buffer group =
      let first = group_first_block first_block group in
      let blocks = blocks_in_group total_blocks num_block_groups group in
      let gd = group_descriptor first blocks buffer in
      let bitmap = bitmap_sector start_lba first in
      do
        write disk controller drive (add32 (add32 sb_sector 1) group) gd
        write disk controller drive bitmap (block_bitmap gd)
        write disk controller drive (add32 bitmap 1) (inode_bitmap (block_bitmap gd))

  unfoldable pub format_groups : ℕ → ℕ → ℕ → ℕ → ℕ → ℕ → Buffer → ℕ → Cmd Drives (Unit {0})
  format_groups zero start_lba sb_sector first_block total_blocks num_block_groups buffer group =
      pure tt
  format_groups (suc left) start_lba sb_sector first_block total_blocks num_block_groups buffer
        group =
      format_group start_lba sb_sector first_block total_blocks num_block_groups buffer group
      >> format_groups left start_lba sb_sector first_block total_blocks num_block_groups buffer
          (group + 1)

  -- The guards, the write of the superblock's sector and the loop over the groups.
  unfoldable pub write_filesystem : ℕ → ℕ → Buffer → Cmd Drives (Unit {0})
  write_filesystem start_lba sb_sector sb =
      let per_group = get32 sb 32 in
      let total_blocks = get32 sb 4 in
      let num_block_groups = sub32 (add32 total_blocks per_group) 1 / per_group in
      if per_group == 0
      then fail
      else if (num_block_groups == 0) || ltb 65536 num_block_groups
      then fail
      else (write disk controller drive sb_sector sb
          >> format_groups num_block_groups start_lba sb_sector (get32 sb 20) total_blocks
              num_block_groups sb 0)

  -- From the read of the superblock's sector on, with the buffer allocated.
  unfoldable pub format_buffer : ℕ → ℕ → Ptr → Cmd Drives (Unit {0})
  format_buffer start_lba total_sectors p =
      let sb_sector = add32 start_lba 2 in
      do
        buffer ← read disk controller drive sb_sector
        spilled p
        write_filesystem start_lba sb_sector (init_superblock total_sectors buffer)

  -- `done` is the return value 0, and `failed` is -1.
  unfoldable pub format_ext4 : Ptr → ℕ → ℕ → ℕ → Cmd Drives (Unit {0})
  format_ext4 free_list fuel start_lba total_sectors = if ltb total_sectors 8192 then fail else do
    p ← alloc free_list fuel sector_size
    or_else (format_buffer start_lba total_sectors p) (release free_list fuel p)
    release free_list fuel p
