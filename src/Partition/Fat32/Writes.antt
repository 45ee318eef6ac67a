-- ===== src/Partition/Fat32/Writes.antt =====
-- The size of the FAT, and the sectors that `format_fat32` writes.
use ety_os.Base.{
  ℕ, ◌+◌, ◌-◌, ◌*◌, ◌/◌, ◌%◌, ◌^◌, ◌<◌, ◌≤◌, ◌≡◌, ◌≢◌, ◌⊎◌, arith, refl, some, ◌∙◌, ap, sym, subst,
}
use ety_os.Bytes.{Buffer, get16, get32, IsSector}
use ety_os.Disk.{Disk, State, Outcome, done, write, ◌>>◌}
use ety_os.Disk.Laws.{Laws, sector, Leaves, bind-Leaves, write-Leaves, write-done, and_then-done}
use ety_os.Partition.Ext4.{add32}
use ety_os.Partition.Fat32.Sectors.{fat32_boot_sector-IsSector, first_fat_sector-IsSector}
use ety_os.Partition.Fat32.{sectors_per_fat, fat32_boot_sector, first_fat_sector, format_fat32}

-- From 2084 sectors on, the two FATs fit in the partition, and each has an entry of four bytes for
-- every cluster of the sectors that they leave and for the two reserved ones.
pub sectors_per_fat_lem :
    (total : ℕ)
    → 2084 ≤ total
    → total < 2 ^ 32
    → let fat = sectors_per_fat total in
      (1 ≤ fat) × (32 + 2 * fat ≤ total) × ((total - 32 - 2 * fat) / 8 + 2 ≤ 128 * fat)
sectors_per_fat_lem total lo hi = (omega arith, omega arith, omega arith)

-- What a driver reads of the boot sector.
pub record IsBootSector (start total : ℕ) (b : Buffer) : Type 0 where
  pub bytes_per_sector : get16 b 11 ≡ 512
  pub per_cluster : b 13 ≡ 8
  pub reserved : get16 b 14 ≡ 32
  pub fats : b 16 ≡ 2
  pub hidden : get32 b 28 ≡ start
  pub total_sectors : get32 b 32 ≡ total
  pub per_fat : get32 b 36 ≡ sectors_per_fat total
  pub root_cluster : get32 b 44 ≡ 2
  pub signature : get16 b 510 ≡ 0xaa55

word_lem :
    (v : ℕ)
    → v < 2 ^ 32
    → v % 256 + 256 * (v / 256 % 256) + 65536 * (v / 65536 % 256 + 256 * (v / 65536 / 256 % 256))
      ≡ v
word_lem v h = omega arith

fat32_boot_sector-IsBootSector :
    (start total : ℕ)
    → start < 2 ^ 32
    → total < 2 ^ 32
    → IsBootSector start total (fat32_boot_sector start total)
unfolding fat32_boot_sector
fat32_boot_sector-IsBootSector start total h h' = record {
  bytes_per_sector = refl;
  per_cluster = refl;
  reserved = refl;
  fats = refl;
  hidden = word_lem start h;
  total_sectors = word_lem total h';
  per_fat = word_lem (sectors_per_fat total) (omega arith);
  root_cluster = refl;
  signature = refl;
}

abbrev pub fat2_start : ℕ → ℕ → ℕ
fat2_start start total = add32 (add32 start 32) (get32 (fat32_boot_sector start total) 36)

fat2_start_lem :
    (start total : ℕ)
    → 2084 ≤ total
    → start + total < 2 ^ 32
    → fat2_start start total ≡ start + 32 + sectors_per_fat total
fat2_start_lem start total lo hi =
    ap (add32 (add32 start 32))
      (fat32_boot_sector-IsBootSector start total (omega arith) (omega arith)).per_fat
    ∙ omega arith

-- Take a drive of `Laws` and a partition of at least 2084 sectors that ends below sector 2 ^ 32 and
-- the drive's limit. `format_fat32` changes no sector below the limit and outside of the partition,
-- however it ends.
pub format_fat32-Leaves :
    (disk : Disk) (c d start total : ℕ) (k : ℕ)
    → {limit : ℕ} → Laws disk limit
    → 2084 ≤ total
    → start + total < 2 ^ 32
    → start + total ≤ limit
    → k < limit
    → (k < start) ⊎ (start + total ≤ k)
    → Leaves disk c d k (format_fat32 disk c d start total)
unfolding format_fat32
format_fat32-Leaves disk c d start total k laws lo hi fits below outside =
    let fat2 = fat2_start_lem start total lo hi in
    let w1 = write disk c d start (fat32_boot_sector start total) in
    let w2 = write disk c d (add32 start 32) first_fat_sector in
    let w3 = write disk c d (fat2_start start total) first_fat_sector in
    bind-Leaves disk c d w1 (λ _. w2 >> w3)
      (write-Leaves disk c d laws start k _ (omega arith) below (omega arith))
      (λ _.
        bind-Leaves disk c d w2 (λ _. w3)
          (write-Leaves disk c d laws (add32 start 32) k _ (omega arith) below (omega arith))
          (λ _.
            write-Leaves disk c d laws (fat2_start start total) k _ (omega (arith, fat2)) below
              (omega (arith, fat2))))

-- Three writes to three sectors that all succeed: each sector reads back.
three_writes :
    (disk : Disk) (c d k1 k2 k3 : ℕ) (b1 b2 b3 : Buffer) (s : State disk.Drives)
    → {limit : ℕ} → Laws disk limit
    → k1 < limit
    → k2 < limit
    → k3 < limit
    → IsSector b1
    → IsSector b2
    → IsSector b3
    → k1 ≢ k2
    → k1 ≢ k3
    → k2 ≢ k3
    → let all = write disk c d k1 b1 >> (write disk c d k2 b2 >> write disk c d k3 b3) in
      (all s).0 ≡ done tt
      → (sector disk c d k1 (all s).1.drives ≡ some b1)
        × (sector disk c d k2 (all s).1.drives ≡ some b2)
        × (sector disk c d k3 (all s).1.drives ≡ some b3)
three_writes disk c d k1 k2 k3 b1 b2 b3 s laws h1 h2 h3 is1 is2 is3 n12 n13 n23 ok =
    let w1 = write disk c d k1 b1 in
    let w2 = write disk c d k2 b2 in
    let w3 = write disk c d k3 b3 in
    let (a1, e1, f1, ok1) = and_then-done (w1 s) (λ _. w2 >> w3) tt ok in
    let s1 = (w1 s).1 in
    let (a2, e2, f2, ok2) = and_then-done (w2 s1) (λ _. w3) tt ok1 in
    let s2 = (w2 s1).1 in
    let at = λ (r : Outcome (Unit {0}) × State disk.Drives) (k : ℕ). sector disk c d k r.1.drives in
    let last = λ (k : ℕ). ap (λ (r : Outcome (Unit {0}) × State disk.Drives). at r k) (f1 ∙ f2) in
    (
      last k1
          ∙ write-Leaves disk c d laws k3 k1 b3 h3 h1 n13 s2
          ∙ write-Leaves disk c d laws k2 k1 b2 h2 h1 n12 s1
          ∙ write-done disk c d laws k1 b1 s is1 e1,
      last k2
          ∙ write-Leaves disk c d laws k3 k2 b3 h3 h2 n23 s2
          ∙ write-done disk c d laws k2 b2 s1 is2 e2,
      last k3 ∙ write-done disk c d laws k3 b3 s2 is3 ok2,
    )

-- What the three written sectors hold when `format_fat32` returns 0.
pub format_fat32-sectors :
    (disk : Disk) (c d start total : ℕ) (s : State disk.Drives)
    → {limit : ℕ} → Laws disk limit
    → 2084 ≤ total
    → start + total < 2 ^ 32
    → start + total ≤ limit
    → (format_fat32 disk c d start total s).0 ≡ done tt
    → let after = (format_fat32 disk c d start total s).1.drives in
      (sector disk c d start after ≡ some (fat32_boot_sector start total))
      × (sector disk c d (add32 start 32) after ≡ some first_fat_sector)
      × (sector disk c d (fat2_start start total) after ≡ some first_fat_sector)
unfolding format_fat32
format_fat32-sectors disk c d start total s laws lo hi fits ok =
    let fat2 = fat2_start_lem start total lo hi in
    three_writes disk c d start (add32 start 32) (fat2_start start total)
      (fat32_boot_sector start total) first_fat_sector first_fat_sector s laws (omega arith)
      (omega arith) (omega (arith, fat2)) (fat32_boot_sector-IsSector start total)
      first_fat_sector-IsSector first_fat_sector-IsSector (omega arith) (omega (arith, fat2))
      (omega (arith, fat2)) ok

-- Take a drive of `Laws` and a partition of at least 2084 sectors that ends below sector 2 ^ 32
-- and the drive's limit. When `format_fat32` returns 0, the partition's first sector reads back as its boot sector, and the
-- first sector of each of the two FATs that the boot sector describes as the initial FAT.
pub format_fat32-done :
    (disk : Disk) (c d start total : ℕ) (s : State disk.Drives)
    → {limit : ℕ} → Laws disk limit
    → 2084 ≤ total
    → start + total < 2 ^ 32
    → start + total ≤ limit
    → (format_fat32 disk c d start total s).0 ≡ done tt
    → let after = (format_fat32 disk c d start total s).1.drives in
      (b : Buffer) × (sector disk c d start after ≡ some b)
      × IsBootSector start total b
      × (sector disk c d (start + 32) after ≡ some first_fat_sector)
      × (sector disk c d (start + 32 + get32 b 36) after ≡ some first_fat_sector)
format_fat32-done disk c d start total s laws lo hi fits ok =
    let fat2 = fat2_start_lem start total lo hi in
    let is = fat32_boot_sector-IsBootSector start total (omega arith) (omega arith) in
    let read_back = format_fat32-sectors disk c d start total s laws lo hi fits ok in
    let at = λ (k : ℕ). sector disk c d k (format_fat32 disk c d start total s).1.drives in
    (
      fat32_boot_sector start total,
      read_back.0,
      is,
      subst (λ k. at k ≡ some first_fat_sector) (omega arith) read_back.1,
      subst (λ k. at k ≡ some first_fat_sector) (fat2 ∙ ap (λ n. start + 32 + n) (sym is.per_fat))
          read_back.2,
    )
