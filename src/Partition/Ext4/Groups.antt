-- ===== src/Partition/Ext4/Groups.antt =====
-- The block groups that `format_ext4` writes.
use ety_os.Base.{ℕ, ◌+◌, ◌-◌, ◌*◌, ◌%◌, ◌^◌, ◌<◌, ◌≤◌, ◌≡◌, arith, ◌∙◌}
use ety_os.Memory.{memory_zero}
use ety_os.Memory.Fill.{memory_zero_lem}
use ety_os.Bytes.{Buffer, get16, get32}
use ety_os.Partition.Ext4.{group_first_block, group_descriptor, bitmap_sector}

-- Below 2 ^ 20 blocks (4 GB) a group's bitmap goes to the sector of the group's first block.
pub bitmap_sector_lem :
    (start_lba group : ℕ)
    → group < 32
    → start_lba + 32768 * 8 * group < 2 ^ 32
    → bitmap_sector start_lba (group_first_block 0 group) ≡ start_lba + 8 * (32768 * group)
unfolding bitmap_sector group_first_block
bitmap_sector_lem start_lba group h k = omega arith

-- From 4 GB on the product wraps: a group's bitmaps go to the sectors of the bitmaps of the group
-- 32 before it.
pub bitmap_sector_wraps :
    (start_lba group : ℕ)
    → bitmap_sector start_lba (group_first_block 0 (group + 32))
      ≡ bitmap_sector start_lba (group_first_block 0 group)
unfolding bitmap_sector group_first_block
bitmap_sector_wraps start_lba group = omega arith

pub zeroed : (b : Buffer) (i : ℕ) → i < 512 → memory_zero 0 512 b i ≡ 0
zeroed b i h = memory_zero_lem 0 512 b i ∙ ground arith

-- The descriptor that is written names the group's first three blocks as its block bitmap, inode
-- bitmap and inode table and counts all but four of its blocks as free; but it counts no free
-- inode, since `sb->s_inodes_per_group` is read from the buffer that was just cleared.
pub group_descriptor_lem :
    (first blocks : ℕ) (b : Buffer)
    → first < 2 ^ 32
    → 4 ≤ blocks
    → blocks ≤ 32768
    → let gd = group_descriptor first blocks b in
      (get32 gd 0 ≡ first)
      × (get32 gd 4 ≡ (first + 1) % 2 ^ 32)
      × (get32 gd 8 ≡ (first + 2) % 2 ^ 32)
      × (get16 gd 12 ≡ blocks - 4)
      × (get16 gd 14 ≡ 0)
unfolding group_descriptor
group_descriptor_lem first blocks b h lo hi = (
  omega arith,
  omega arith,
  omega arith,
  omega arith,
  omega (
    arith,
    zeroed b 40 (omega arith),
    zeroed b 41 (omega arith),
    zeroed b 42 (omega arith),
    zeroed b 43 (omega arith),
  ),
)
