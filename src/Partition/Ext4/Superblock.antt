-- ===== src/Partition/Ext4/Superblock.antt =====
-- The superblock that `init_superblock` leaves in the buffer.
use ety_os.Base.{ℕ, ◌+◌, ◌-◌, ◌*◌, ◌/◌, ◌%◌, ◌^◌, ◌<◌, ◌≤◌, ◌≡◌, arith, refl, ◌∙◌, ap, sym}
use ety_os.Bytes.{Buffer, get16, get32}
use ety_os.Partition.Ext4.{blocks_count, init_superblock, add32, sub32, mul32}

pub blocks_count_lem : (total : ℕ) → total < 2 ^ 32 → blocks_count total ≡ total / 8
unfolding blocks_count
blocks_count_lem total h = ground arith

-- The number of groups of 32768 blocks.
abbrev pub groups_for : ℕ → ℕ
groups_for blocks = (blocks + 32767) / 32768

-- What a formatter needs of the superblock of `total` sectors.
pub record IsSuperblock (total : ℕ) (sb : Buffer) : Type 0 where
  pub blocks : get32 sb 4 ≡ total / 8
  pub blocks_hi : get32 sb 336 ≡ 0
  pub inodes : get32 sb 0 ≡ 8192 * groups_for (total / 8)
  pub reserved : get32 sb 8 ≡ total / 8 / 20
  pub free_blocks : get32 sb 12 + 1 ≡ total / 8
  pub free_inodes : get32 sb 16 + 10 ≡ get32 sb 0
  pub first_data_block : get32 sb 20 ≡ 0
  pub log_block_size : get32 sb 24 ≡ 2
  pub per_group : get32 sb 32 ≡ 32768
  pub inodes_per : get32 sb 40 ≡ 8192
  pub magic : get16 sb 56 ≡ 0xef53
  pub features : (get32 sb 92 ≡ 0x20) × (get32 sb 96 ≡ 0xc0)

-- The number that the four bytes of a `uint32_t` field hold.
word_lem :
    (v : ℕ)
    → v % 256 + 256 * (v / 256 % 256) + 65536 * (v / 65536 % 256 + 256 * (v / 65536 / 256 % 256))
      ≡ v % 2 ^ 32
word_lem v = omega arith

groups_lem :
    (total : ℕ)
    → total < 2 ^ 32
    → (blocks_count total + 32768 - 1) / 32768 % 2 ^ 32 ≡ groups_for (total / 8)
groups_lem total hi = rw (blocks_count_lem total hi) (omega arith)

inodes_lem :
    (total : ℕ)
    → total < 2 ^ 32
    → mul32 8192 ((blocks_count total + 32768 - 1) / 32768 % 2 ^ 32) ≡ 8192 * groups_for (total / 8)
inodes_lem total hi = rw (groups_lem total hi) (omega arith)

inodes_field :
    (total : ℕ) (b : Buffer)
    → total < 2 ^ 32
    → get32 (init_superblock total b) 0 ≡ 8192 * groups_for (total / 8)
unfolding init_superblock
inodes_field total b hi =
    word_lem (mul32 8192 ((blocks_count total + 32768 - 1) / 32768 % 2 ^ 32))
    ∙ omega (arith, inodes_lem total hi)

free_inodes_value :
    (total : ℕ) (b : Buffer)
    → 8192 ≤ total
    → total < 2 ^ 32
    → get32 (init_superblock total b) 16 + 10 ≡ 8192 * groups_for (total / 8)
unfolding init_superblock
free_inodes_value total b lo hi =
    ap (λ k. k + 10)
      (word_lem
        (add32 (sub32 (mul32 8192 ((blocks_count total + 32768 - 1) / 32768 % 2 ^ 32)) 11) 1))
    ∙ omega (arith, inodes_lem total hi)

free_inodes_field :
    (total : ℕ) (b : Buffer)
    → 8192 ≤ total
    → total < 2 ^ 32
    → get32 (init_superblock total b) 16 + 10 ≡ get32 (init_superblock total b) 0
free_inodes_field total b lo hi = free_inodes_value total b lo hi ∙ sym (inodes_field total b hi)

-- For a partition of 4 MB to 2 TB `init_superblock` records a consistent file system: an eighth of
-- the sectors as blocks of 4096 bytes, none beyond 32 bits, one of them in use; the groups of 32768
-- blocks that hold them, with 8192 inodes each, of which 10 are in use; a twentieth of the blocks
-- reserved; and the magic number, whatever the buffer held.
pub init_superblock-IsSuperblock :
    (total : ℕ) (b : Buffer)
    → 8192 ≤ total
    → total < 2 ^ 32
    → IsSuperblock total (init_superblock total b)
unfolding init_superblock
init_superblock-IsSuperblock total b lo hi = record {
  blocks = word_lem (blocks_count total) ∙ omega (arith, blocks_count_lem total hi);
  blocks_hi = word_lem (blocks_count total / 2 ^ 32) ∙ omega (arith, blocks_count_lem total hi);
  inodes = inodes_field total b hi;
  reserved = word_lem (blocks_count total / 20) ∙ omega (arith, blocks_count_lem total hi);
  free_blocks =
      ap (λ k. k + 1) (word_lem (blocks_count total + 2 ^ 64 - 1))
      ∙ omega (arith, blocks_count_lem total hi);
  free_inodes = free_inodes_field total b lo hi;
  first_data_block = refl;
  log_block_size = refl;
  per_group = refl;
  inodes_per = refl;
  magic = refl;
  features = (refl, refl);
}
