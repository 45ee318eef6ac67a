-- ===== src/Partition/Ext4/Within.antt =====
-- The sectors that `format_ext4` writes.
use ety_os.Base.{
  ℕ, zero, suc, ◌+◌, ◌/◌, ◌^◌, ◌<◌, ◌≤◌, ◌≡◌, ◌≢◌, ◌⊎◌, inl, inr, arith, refl, ◌==◌, ◌||◌, ltb,
  ltb→le, Bool-cases, ◌∙◌, ap, sym, subst,
}
use ety_os.Memory.{Ptr}
use ety_os.Bytes.{Buffer, get32}
use ety_os.Disk.{Disk, write, read, alloc, release, ◌>>◌, or_else}
use ety_os.Disk.Laws.{
  Laws, Leaves, bind-Leaves, or_else-Leaves, alloc-Leaves, release-Leaves, read-Leaves,
  write-Leaves,
}
use ety_os.Partition.Ext4.{
  add32, sub32, group_first_block, blocks_in_group, bitmap_sector, group_descriptor, block_bitmap,
  inode_bitmap, format_group, format_groups, write_filesystem, format_buffer, format_ext4,
  init_superblock,
}
use ety_os.Partition.Ext4.Superblock.{IsSuperblock, init_superblock-IsSuperblock, groups_for}

abbrev Inside : ℕ → ℕ → ℕ → Type 0
Inside start total l = (start ≤ l) × (l < start + total)

module _ (start total g : ℕ) (big : 8192 ≤ total) (hi : start + total < 2 ^ 32)
    (in_range : g < groups_for (total / 8)) where
  descriptor-Inside : Inside start total (add32 (add32 (add32 start 2) 1) g)
  descriptor-Inside = (omega arith, omega arith)

  bitmap-Inside : Inside start total (bitmap_sector start (group_first_block 0 g))
  unfolding bitmap_sector group_first_block
  bitmap-Inside = (omega arith, omega arith)

  next_bitmap-Inside : Inside start total (add32 (bitmap_sector start (group_first_block 0 g)) 1)
  unfolding bitmap_sector group_first_block
  next_bitmap-Inside = (omega arith, omega arith)

outside_ne :
    (start total k l : ℕ) → (k < start) ⊎ (start + total ≤ k) → Inside start total l → k ≢ l
outside_ne start total k l h (lo, hi) = omega arith

module _ (disk : Disk) {limit : ℕ} (laws : Laws disk limit) (c d start total k : ℕ)
    (big : 8192 ≤ total) (hi : start + total < 2 ^ 32) (fits : start + total ≤ limit)
    (below : k < limit) (outside : (k < start) ⊎ (start + total ≤ k)) where
  write-Outside :
      (l : ℕ) (b : Buffer) → Inside start total l → Leaves disk c d k (write disk c d l b)
  write-Outside l b is =
      write-Leaves disk c d laws l k b (omega (arith, is.1)) below
        (outside_ne start total k l outside is)

  format_group-Leaves :
      (total_blocks num : ℕ) (b : Buffer) (g : ℕ)
      → g < groups_for (total / 8)
      → Leaves disk c d k (format_group disk c d start (add32 start 2) 0 total_blocks num b g)
  unfolding format_group
  format_group-Leaves total_blocks num b g h =
      let first = group_first_block 0 g in
      let blocks = blocks_in_group total_blocks num g in
      let gd = group_descriptor first blocks b in
      let bitmap = bitmap_sector start first in
      let w1 = write disk c d (add32 (add32 (add32 start 2) 1) g) gd in
      let w2 = write disk c d bitmap (block_bitmap gd) in
      let w3 = write disk c d (add32 bitmap 1) (inode_bitmap (block_bitmap gd)) in
      bind-Leaves disk c d w1 (λ _. w2 >> w3)
        (write-Outside _ gd (descriptor-Inside start total g big hi h))
        (λ _.
          bind-Leaves disk c d w2 (λ _. w3)
            (write-Outside bitmap _ (bitmap-Inside start total g big hi h))
            (λ _. write-Outside (add32 bitmap 1) _ (next_bitmap-Inside start total g big hi h)))

  format_groups-Leaves :
      (left : ℕ) (total_blocks num : ℕ) (b : Buffer) (g : ℕ)
      → g + left ≤ groups_for (total / 8)
      → Leaves disk c d k (format_groups disk c d left start (add32 start 2) 0 total_blocks num b g)
  unfolding format_groups
  format_groups-Leaves zero total_blocks num b g h = λ s. refl
  format_groups-Leaves (suc left) total_blocks num b g h =
      bind-Leaves disk c d (format_group disk c d start (add32 start 2) 0 total_blocks num b g)
        (λ _. format_groups disk c d left start (add32 start 2) 0 total_blocks num b (g + 1))
        (format_group-Leaves total_blocks num b g (omega arith))
        (λ _. format_groups-Leaves left total_blocks num b (g + 1) (omega arith))

  -- The writes, once the count of the groups is known.
  write_groups-Leaves :
      (sb : Buffer) (num first blocks : ℕ)
      → first ≡ 0
      → num ≡ groups_for (total / 8)
      → Leaves disk c d k (
          write disk c d (add32 start 2) sb
          >> format_groups disk c d num start (add32 start 2) first blocks num sb 0)
  write_groups-Leaves sb num first blocks e e' =
      bind-Leaves disk c d (write disk c d (add32 start 2) sb)
        (λ _. format_groups disk c d num start (add32 start 2) first blocks num sb 0)
        (write-Outside (add32 start 2) sb (omega arith, omega arith))
        (λ _.
          subst
            (λ f.
              Leaves disk c d k
                (format_groups disk c d num start (add32 start 2) f blocks num sb 0))
            (sym e) (format_groups-Leaves num blocks num sb 0 (omega (arith, e'))))

  num_lem :
      (sb : Buffer)
      → IsSuperblock total sb
      → sub32 (add32 (get32 sb 4) 32768) 1 / 32768 ≡ groups_for (total / 8)
  num_lem sb is = ap (λ n. sub32 (add32 n 32768) 1 / 32768) is.blocks ∙ omega arith

  write_filesystem-Leaves :
      (sb : Buffer)
      → IsSuperblock total sb
      → Leaves disk c d k (write_filesystem disk c d start (add32 start 2) sb)
  unfolding write_filesystem
  write_filesystem-Leaves sb is = rw is.per_group (elim (Bool-cases ((num == 0) || ltb 65536 num)) [
    | inl e ↦ rw e (λ s. refl)
    | inr e ↦
        rw e (
          write_groups-Leaves sb num (get32 sb 20) (get32 sb 4) is.first_data_block (num_lem sb is))
  ])
    where
      num : ℕ
      num = sub32 (add32 (get32 sb 4) 32768) 1 / 32768

  format_buffer-Leaves : (p : Ptr) → Leaves disk c d k (format_buffer disk c d start total p)
  unfolding format_buffer
  format_buffer-Leaves p =
      bind-Leaves disk c d (read disk c d (add32 start 2)) _
        (read-Leaves disk c d laws (add32 start 2) k)
        (λ b s.
          write_filesystem-Leaves (init_superblock total b)
            (init_superblock-IsSuperblock total b big (omega arith)) _)

-- Take a drive of `Laws` and a partition that ends below sector 2 ^ 32 and the drive's limit.
-- `format_ext4` changes no sector below the limit and outside of the partition, however it ends.
pub format_ext4-Leaves :
    (disk : Disk) (c d : ℕ) (p : Ptr) (fuel start total k : ℕ)
    → {limit : ℕ} → Laws disk limit
    → start + total < 2 ^ 32
    → start + total ≤ limit
    → k < limit
    → (k < start) ⊎ (start + total ≤ k)
    → Leaves disk c d k (format_ext4 disk c d p fuel start total)
unfolding format_ext4
format_ext4-Leaves disk c d p fuel start total k laws hi fits below outside =
    elim (Bool-cases (ltb total 8192)) [
      | inl e ↦ rw e (λ s. refl)
      | inr e ↦ rw e (
          bind-Leaves disk c d (alloc p fuel 512) _ (alloc-Leaves disk c d p fuel 512 k) (λ q.
            bind-Leaves disk c d (or_else (format_buffer disk c d start total q) (release p fuel q))
              (λ _. release p fuel q)
              (or_else-Leaves disk c d (format_buffer disk c d start total q) (release p fuel q)
                (format_buffer-Leaves disk laws c d start total k (ltb→le total 8192 e) hi fits
                  below outside q)
                (release-Leaves disk c d p fuel q k))
              (λ _. release-Leaves disk c d p fuel q k)))
    ]
