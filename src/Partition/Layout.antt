-- ===== src/Partition/Layout.antt =====
-- The packed structs of source/interface/partition.h, member by member.
--
-- The offset of a member is the number of bytes of those before it.
pub mod Offsets
use ety_os.Base.{
  ℕ, zero, suc, ◌+◌, ◌-◌, ◌*◌, ◌/◌, ◌%◌, ◌^◌, Bool, true, false, ◌&&◌, Option, none, some, List, [],
  ◌∷◌, ◌==◌, if◌then◌else◌, codes, ◌≡◌, refl,
}
use ety_os.Memory.{store, memory_zero}
use ety_os.Bytes.{Buffer, put16, put32, get32}
use ety_os.Partition.Ext4.{
  add32, sub32, mul32, first_ino, blocks_count, blocks_per_group, inodes_per_group,
  default_block_size, superblock_size, init_superblock, group_descriptor,
}

-- A member's name, the bytes of one of its elements, and how many there are.
pub record Member : Type 0 where
  pub name : List ℕ
  pub width : ℕ
  pub count : ℕ

abbrev pub size_of : List Member → ℕ
size_of [] = 0
size_of (m ∷ ms) = m.width * m.count + size_of ms

abbrev pub is_name : List ℕ → List ℕ → Bool
is_name [] [] = true
is_name [] (d ∷ t) = false
is_name (c ∷ s) [] = false
is_name (c ∷ s) (d ∷ t) = if c == d then is_name s t else false

-- The offset of a member and the width of its elements, from `offset` on.
abbrev pub offset_of : List Member → List ℕ → ℕ → Option (ℕ × ℕ)
offset_of [] name offset = none
offset_of (m ∷ ms) name offset =
    if is_name m.name name
    then some (offset, m.width)
    else offset_of ms name (offset + m.width * m.count)

-- `PartitionEntry`
abbrev pub entry_members : List Member
entry_members =
    record { name = codes "status"; width = 1; count = 1 }
    ∷ record { name = codes "start_head"; width = 1; count = 1 }
    ∷ record { name = codes "start_sector"; width = 2; count = 1 }
    ∷ record { name = codes "type"; width = 1; count = 1 }
    ∷ record { name = codes "end_head"; width = 1; count = 1 }
    ∷ record { name = codes "end_sector"; width = 2; count = 1 }
    ∷ record { name = codes "lba_first"; width = 4; count = 1 }
    ∷ record { name = codes "sector_count"; width = 4; count = 1 }
    ∷ []

-- `Ext4Superblock`
abbrev pub superblock_members : List Member
superblock_members =
    record { name = codes "s_inodes_count"; width = 4; count = 1 }
    ∷ record { name = codes "s_blocks_count_lo"; width = 4; count = 1 }
    ∷ record { name = codes "s_r_blocks_count_lo"; width = 4; count = 1 }
    ∷ record { name = codes "s_free_blocks_count_lo"; width = 4; count = 1 }
    ∷ record { name = codes "s_free_inodes_count"; width = 4; count = 1 }
    ∷ record { name = codes "s_first_data_block"; width = 4; count = 1 }
    ∷ record { name = codes "s_log_block_size"; width = 4; count = 1 }
    ∷ record { name = codes "s_log_cluster_size"; width = 4; count = 1 }
    ∷ record { name = codes "s_blocks_per_group"; width = 4; count = 1 }
    ∷ record { name = codes "s_clusters_per_group"; width = 4; count = 1 }
    ∷ record { name = codes "s_inodes_per_group"; width = 4; count = 1 }
    ∷ record { name = codes "s_mtime"; width = 4; count = 1 }
    ∷ record { name = codes "s_wtime"; width = 4; count = 1 }
    ∷ record { name = codes "s_mnt_count"; width = 2; count = 1 }
    ∷ record { name = codes "s_max_mnt_count"; width = 2; count = 1 }
    ∷ record { name = codes "s_magic"; width = 2; count = 1 }
    ∷ record { name = codes "s_state"; width = 2; count = 1 }
    ∷ record { name = codes "s_errors"; width = 2; count = 1 }
    ∷ record { name = codes "s_minor_rev_level"; width = 2; count = 1 }
    ∷ record { name = codes "s_lastcheck"; width = 4; count = 1 }
    ∷ record { name = codes "s_checkinterval"; width = 4; count = 1 }
    ∷ record { name = codes "s_creator_os"; width = 4; count = 1 }
    ∷ record { name = codes "s_rev_level"; width = 4; count = 1 }
    ∷ record { name = codes "s_def_resuid"; width = 2; count = 1 }
    ∷ record { name = codes "s_def_resgid"; width = 2; count = 1 }
    ∷ record { name = codes "s_first_ino"; width = 4; count = 1 }
    ∷ record { name = codes "s_inode_size"; width = 2; count = 1 }
    ∷ record { name = codes "s_block_group_nr"; width = 2; count = 1 }
    ∷ record { name = codes "s_feature_compat"; width = 4; count = 1 }
    ∷ record { name = codes "s_feature_incompat"; width = 4; count = 1 }
    ∷ record { name = codes "s_feature_ro_compat"; width = 4; count = 1 }
    ∷ record { name = codes "s_uuid"; width = 1; count = 16 }
    ∷ record { name = codes "s_volume_name"; width = 1; count = 16 }
    ∷ record { name = codes "s_last_mounted"; width = 1; count = 64 }
    ∷ record { name = codes "s_algorithm_usage_bitmap"; width = 4; count = 1 }
    ∷ record { name = codes "s_prealloc_blocks"; width = 1; count = 1 }
    ∷ record { name = codes "s_prealloc_dir_blocks"; width = 1; count = 1 }
    ∷ record { name = codes "s_reserved_gdt_blocks"; width = 2; count = 1 }
    ∷ record { name = codes "s_journal_uuid"; width = 1; count = 16 }
    ∷ record { name = codes "s_journal_inum"; width = 4; count = 1 }
    ∷ record { name = codes "s_journal_dev"; width = 4; count = 1 }
    ∷ record { name = codes "s_last_orphan"; width = 4; count = 1 }
    ∷ record { name = codes "s_hash_seed"; width = 4; count = 4 }
    ∷ record { name = codes "s_def_hash_version"; width = 1; count = 1 }
    ∷ record { name = codes "s_jnl_backup_type"; width = 1; count = 1 }
    ∷ record { name = codes "s_desc_size"; width = 2; count = 1 }
    ∷ record { name = codes "s_default_mount_opts"; width = 4; count = 1 }
    ∷ record { name = codes "s_first_meta_bg"; width = 4; count = 1 }
    ∷ record { name = codes "s_mkfs_time"; width = 4; count = 1 }
    ∷ record { name = codes "s_jnl_blocks"; width = 4; count = 17 }
    ∷ record { name = codes "s_blocks_count_hi"; width = 4; count = 1 }
    ∷ record { name = codes "s_r_blocks_count_hi"; width = 4; count = 1 }
    ∷ record { name = codes "s_free_blocks_count_hi"; width = 4; count = 1 }
    ∷ record { name = codes "s_min_extra_isize"; width = 2; count = 1 }
    ∷ record { name = codes "s_want_extra_isize"; width = 2; count = 1 }
    ∷ record { name = codes "s_flags"; width = 4; count = 1 }
    ∷ record { name = codes "s_raid_stride"; width = 2; count = 1 }
    ∷ record { name = codes "s_mmp_interval"; width = 2; count = 1 }
    ∷ record { name = codes "s_mmp_block"; width = 8; count = 1 }
    ∷ record { name = codes "s_raid_stripe_width"; width = 4; count = 1 }
    ∷ record { name = codes "s_log_groups_per_flex"; width = 1; count = 1 }
    ∷ record { name = codes "s_checksum_type"; width = 1; count = 1 }
    ∷ record { name = codes "s_reserved_pad"; width = 2; count = 1 }
    ∷ record { name = codes "s_kbytes_written"; width = 8; count = 1 }
    ∷ record { name = codes "s_snapshot_inum"; width = 4; count = 1 }
    ∷ record { name = codes "s_snapshot_id"; width = 4; count = 1 }
    ∷ record { name = codes "s_snapshot_r_blocks_count"; width = 8; count = 1 }
    ∷ record { name = codes "s_snapshot_list"; width = 4; count = 1 }
    ∷ record { name = codes "s_error_count"; width = 4; count = 1 }
    ∷ record { name = codes "s_first_error_time"; width = 4; count = 1 }
    ∷ record { name = codes "s_first_error_ino"; width = 4; count = 1 }
    ∷ record { name = codes "s_first_error_block"; width = 8; count = 1 }
    ∷ record { name = codes "s_first_error_func"; width = 1; count = 32 }
    ∷ record { name = codes "s_first_error_line"; width = 4; count = 1 }
    ∷ record { name = codes "s_last_error_time"; width = 4; count = 1 }
    ∷ record { name = codes "s_last_error_ino"; width = 4; count = 1 }
    ∷ record { name = codes "s_last_error_line"; width = 4; count = 1 }
    ∷ record { name = codes "s_last_error_block"; width = 8; count = 1 }
    ∷ record { name = codes "s_last_error_func"; width = 1; count = 32 }
    ∷ record { name = codes "s_mount_opts"; width = 1; count = 64 }
    ∷ record { name = codes "s_usr_quota_inum"; width = 4; count = 1 }
    ∷ record { name = codes "s_grp_quota_inum"; width = 4; count = 1 }
    ∷ record { name = codes "s_overhead_blocks"; width = 4; count = 1 }
    ∷ record { name = codes "s_backup_bgs"; width = 4; count = 2 }
    ∷ record { name = codes "s_encrypt_algos"; width = 1; count = 4 }
    ∷ record { name = codes "s_encrypt_pw_salt"; width = 1; count = 16 }
    ∷ record { name = codes "s_lpf_ino"; width = 4; count = 1 }
    ∷ record { name = codes "s_prj_quota_inum"; width = 4; count = 1 }
    ∷ record { name = codes "s_checksum_seed"; width = 4; count = 1 }
    ∷ record { name = codes "s_reserved"; width = 1; count = 98 }
    ∷ record { name = codes "s_checksum"; width = 4; count = 1 }
    ∷ []

-- `Ext4GroupDesc`
abbrev pub group_members : List Member
group_members =
    record { name = codes "bg_block_bitmap_lo"; width = 4; count = 1 }
    ∷ record { name = codes "bg_inode_bitmap_lo"; width = 4; count = 1 }
    ∷ record { name = codes "bg_inode_table_lo"; width = 4; count = 1 }
    ∷ record { name = codes "bg_free_blocks_count_lo"; width = 2; count = 1 }
    ∷ record { name = codes "bg_free_inodes_count_lo"; width = 2; count = 1 }
    ∷ record { name = codes "bg_used_dirs_count_lo"; width = 2; count = 1 }
    ∷ record { name = codes "bg_flags"; width = 2; count = 1 }
    ∷ record { name = codes "bg_exclude_bitmap_lo"; width = 4; count = 1 }
    ∷ record { name = codes "bg_block_bitmap_csum_lo"; width = 2; count = 1 }
    ∷ record { name = codes "bg_inode_bitmap_csum_lo"; width = 2; count = 1 }
    ∷ record { name = codes "bg_itable_unused_lo"; width = 2; count = 1 }
    ∷ record { name = codes "bg_checksum"; width = 2; count = 1 }
    ∷ record { name = codes "bg_block_bitmap_hi"; width = 4; count = 1 }
    ∷ record { name = codes "bg_inode_bitmap_hi"; width = 4; count = 1 }
    ∷ record { name = codes "bg_inode_table_hi"; width = 4; count = 1 }
    ∷ record { name = codes "bg_free_blocks_count_hi"; width = 2; count = 1 }
    ∷ record { name = codes "bg_free_inodes_count_hi"; width = 2; count = 1 }
    ∷ record { name = codes "bg_used_dirs_count_hi"; width = 2; count = 1 }
    ∷ record { name = codes "bg_itable_unused_hi"; width = 2; count = 1 }
    ∷ record { name = codes "bg_exclude_bitmap_hi"; width = 4; count = 1 }
    ∷ record { name = codes "bg_block_bitmap_csum_hi"; width = 2; count = 1 }
    ∷ record { name = codes "bg_inode_bitmap_csum_hi"; width = 2; count = 1 }
    ∷ record { name = codes "bg_reserved"; width = 4; count = 1 }
    ∷ []
