-- ===== src/Partition/Ext4/Bitmaps.antt =====
-- Where `format_ext4` writes the inode bitmap of a group, and where the descriptor says that it is.
use ety_os.Base.{ℕ, ◌+◌, ◌*◌, ◌<◌, ◌≡◌, some}
use ety_os.Bytes.{Buffer, get32}
use ety_os.Disk.{Disk, Cmd, write, ◌>>=◌}
use ety_os.Disk.Laws.{Laws, sector}

-- Of three writes to different sectors, the first and the last read back.
module _ (disk : Disk) {limit : ℕ} (laws : Laws disk limit) (c d k l m : ℕ)
    (b1 b2 b3 : Buffer) where
  abbrev three : Cmd disk.Drives (Unit {0})
  three = write disk c d k b1 >>= (λ _. write disk c d l b2 >>= (λ _. write disk c d m b3))

-- On the drive, the descriptor of the group names one block for the inode bitmap, and the bitmap, all
-- of it 0, is in another place.
pub record IsMisplaced (disk : Disk) (c d start group : ℕ) (after : disk.Drives) : Type 0 where
  pub descriptor : Buffer
  pub bitmap : Buffer
  pub described : sector disk c d (start + 3 + group) after ≡ some descriptor
  pub written : sector disk c d (start + 8 * (32768 * group) + 1) after ≡ some bitmap
  pub clear : (i : ℕ) → i < 512 → bitmap i ≡ 0
  pub named : start + 8 * get32 descriptor 4 ≡ start + 8 * (32768 * group) + 1 + 7
