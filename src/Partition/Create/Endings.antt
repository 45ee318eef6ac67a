-- ===== src/Partition/Create/Endings.antt =====
-- The MBR that the two create commands leave, by how they end.
use ety_os.Base.{ℕ, ◌+◌, ◌<◌, ◌≤◌, ◌^◌, ◌≡◌, ◌≢◌, ◌⊎◌, arith, ◌∙◌, Option, none, some}
use ety_os.Base.{false, ◌*◌}
use ety_os.Bytes.{Buffer, get32}
use ety_os.Disk.{Disk, State, Cmd, done, failed}
use ety_os.Disk.Laws.{sector}
use ety_os.Partition.Mbr.{set_entry, entry_type}
use ety_os.Partition.Mbr.Entries.{set_entry_lem}
use ety_os.Partition.Create.{Ending, mbr_unreadable, no_slot, mbr_unwritable, unformatted, created}

-- The record `mbr'` is `mbr` with an inactive entry of the kind, start and length in slot `i`; the
-- two fields of cylinders are as they were.
pub record IsTaken (kind start count i : ℕ) (mbr mbr' : Buffer) : Type 0 where
  pub status : mbr' (446 + 16 * i) ≡ 0
  pub type : mbr' (446 + 16 * i + 4) ≡ kind
  pub lba_first : get32 mbr' (446 + 16 * i + 8) ≡ start
  pub sector_count : get32 mbr' (446 + 16 * i + 12) ≡ count
  pub others :
      (x : ℕ)
      → x ≢ 446 + 16 * i
      → x ≢ 446 + 16 * i + 4
      → (x < 446 + 16 * i + 8) ⊎ (446 + 16 * i + 16 ≤ x)
      → mbr' x ≡ mbr x

-- Sector 0 could be read, and `mbr'` is what it held with its first empty slot taken.
pub record Slotted (kind start count : ℕ) (before : Option Buffer) (mbr' : Buffer) : Type 0 where
  pub mbr : Buffer
  pub i : ℕ
  pub has : before ≡ some mbr
  pub in_table : i < 4
  pub empty : entry_type mbr i ≡ 0
  pub first : (j : ℕ) → j < i → entry_type mbr j ≢ 0
  pub taken : IsTaken kind start count i mbr mbr'

-- What sector 0 holds afterwards, by the ending, where `before` is what it held: as before if it cannot
-- be read or has no empty slot; what the drive made of the write of the new record where that failed;
-- and the new record otherwise, when the format that follows it tells the two endings apart.
pub data Ended (disk : Disk) (c d kind start count : ℕ) (format : Cmd disk.Drives (Unit {0}))
    (before : Option Buffer) : Ending → Option Buffer → Type 0 where
  unread : before ≡ none → Ended disk c d kind start count format before mbr_unreadable none
  full :
      (mbr : Buffer)
      → before ≡ some mbr
      → ((j : ℕ) → j < 4 → entry_type mbr j ≢ 0)
      → Ended disk c d kind start count format before no_slot (some mbr)
  unwritten :
      (mbr' : Buffer) (s : disk.Drives)
      → Slotted kind start count before mbr'
      → (disk.write_sector c d 0 mbr' s).0 ≡ false
      → Ended disk c d kind start count format before mbr_unwritable
          (sector disk c d 0 (disk.write_sector c d 0 mbr' s).1)
  was_formatted :
      (mbr' : Buffer) (t : State disk.Drives)
      → Slotted kind start count before mbr'
      → sector disk c d 0 t.drives ≡ some mbr'
      → (format t).0 ≡ done tt
      → Ended disk c d kind start count format before created (some mbr')
  not_formatted :
      (mbr' : Buffer) (t : State disk.Drives)
      → Slotted kind start count before mbr'
      → sector disk c d 0 t.drives ≡ some mbr'
      → (format t).0 ≡ failed
      → Ended disk c d kind start count format before unformatted (some mbr')

pub set_entry-IsTaken :
    (i kind start count : ℕ) (mbr : Buffer)
    → start < 2 ^ 32
    → count < 2 ^ 32
    → IsTaken kind start count i mbr (set_entry i kind start count mbr)
set_entry-IsTaken i kind start count mbr lo hi =
    let fields = set_entry_lem i kind start count mbr in
    record {
      status = fields.0;
      type = fields.1;
      lba_first = fields.2 ∙ omega arith;
      sector_count = fields.3 ∙ omega arith;
      others = fields.4;
    }
