-- ===== src/Partition/Layout/Offsets.antt =====
-- The offsets that Mbr and Ext4 use, and the widths, by the declarations of the structs.
use ety_os.Base.{◌≡◌, refl, some, codes}
use ety_os.Partition.Ext4.{superblock_size}
use ety_os.Partition.Layout.{size_of, offset_of, entry_members, superblock_members, group_members}

-- `sizeof(Ext4Superblock)`, and the members that `init_superblock` assigns.
superblock_offsets :
    (size_of superblock_members ≡ superblock_size)
    × (offset_of superblock_members (codes "s_inodes_count") 0 ≡ some (0, 4))
    × (offset_of superblock_members (codes "s_blocks_count_lo") 0 ≡ some (4, 4))
    × (offset_of superblock_members (codes "s_r_blocks_count_lo") 0 ≡ some (8, 4))
    × (offset_of superblock_members (codes "s_free_blocks_count_lo") 0 ≡ some (12, 4))
    × (offset_of superblock_members (codes "s_free_inodes_count") 0 ≡ some (16, 4))
    × (offset_of superblock_members (codes "s_first_data_block") 0 ≡ some (20, 4))
    × (offset_of superblock_members (codes "s_log_block_size") 0 ≡ some (24, 4))
    × (offset_of superblock_members (codes "s_blocks_per_group") 0 ≡ some (32, 4))
    × (offset_of superblock_members (codes "s_inodes_per_group") 0 ≡ some (40, 4))
    × (offset_of superblock_members (codes "s_magic") 0 ≡ some (56, 2))
    × (offset_of superblock_members (codes "s_state") 0 ≡ some (58, 2))
    × (offset_of superblock_members (codes "s_errors") 0 ≡ some (60, 2))
    × (offset_of superblock_members (codes "s_rev_level") 0 ≡ some (76, 4))
    × (offset_of superblock_members (codes "s_first_ino") 0 ≡ some (84, 4))
    × (offset_of superblock_members (codes "s_inode_size") 0 ≡ some (88, 2))
    × (offset_of superblock_members (codes "s_feature_compat") 0 ≡ some (92, 4))
    × (offset_of superblock_members (codes "s_feature_incompat") 0 ≡ some (96, 4))
    × (offset_of superblock_members (codes "s_volume_name") 0 ≡ some (120, 1))
    × (offset_of superblock_members (codes "s_blocks_count_hi") 0 ≡ some (336, 4))
superblock_offsets = (
  refl, refl, refl, refl, refl, refl, refl, refl, refl, refl, refl, refl, refl, refl, refl, refl,
  refl, refl, refl, refl,
)

-- The members of a group's descriptor.
group_offsets :
    (offset_of group_members (codes "bg_block_bitmap_lo") 0 ≡ some (0, 4))
    × (offset_of group_members (codes "bg_inode_bitmap_lo") 0 ≡ some (4, 4))
    × (offset_of group_members (codes "bg_inode_table_lo") 0 ≡ some (8, 4))
    × (offset_of group_members (codes "bg_free_blocks_count_lo") 0 ≡ some (12, 2))
    × (offset_of group_members (codes "bg_free_inodes_count_lo") 0 ≡ some (14, 2))
    × (offset_of group_members (codes "bg_used_dirs_count_lo") 0 ≡ some (16, 2))
    × (offset_of group_members (codes "bg_flags") 0 ≡ some (18, 2))
group_offsets = (refl, refl, refl, refl, refl, refl, refl)

-- An entry of the partition table.
entry_offsets :
    (size_of entry_members ≡ 16)
    × (offset_of entry_members (codes "status") 0 ≡ some (0, 1))
    × (offset_of entry_members (codes "type") 0 ≡ some (4, 1))
    × (offset_of entry_members (codes "lba_first") 0 ≡ some (8, 4))
    × (offset_of entry_members (codes "sector_count") 0 ≡ some (12, 4))
entry_offsets = (refl, refl, refl, refl, refl)
