-- ===== src/Ata/Tests.antt =====
-- The transfers on a channel whose drives are busy for two polls.
use ety_os.Base.{ℕ, ◌+◌, ◌^◌, ◌≡◌, ◌<◌, ◌==◌, ◌&&◌, arith, refl, true, false, some, if◌then◌else◌}
use ety_os.Bytes.{Buffer, sector_bytes}
use ety_os.Bytes.Fields.{sector_bytes-IsSector}
use ety_os.Disk.Laws.{Laws}
use ety_os.Ata.{io_base, ata_read_sector_disk, ata_write_sector_disk}
use ety_os.Ata.Channel.{Channel, Medium, idle, channels, set_sector}
use ety_os.Ata.Words.{overlay}
use ety_os.Ata.Results.{transfer_wraps, ata_read_sector_disk_lem, ata_write_sector_disk_lem}
use ety_os.Ata.Drives.{ata_disk, ata_disk-Laws}
use ety_os.Ata.Answers.{identify-answers}
use ety_os.Ata.{identify}
use ety_os.Base.{ltb}

-- The slave refuses writes.
abbrev pub calm : Medium
calm = record {
  delay = λ d a. 2;
  refuses = λ code d a. (code == 0x30) && (d == 1);
  fails = λ d a. false;
}

abbrev channel : Channel
channel = record {
  select = 0;
  low = 0;
  mid = 0;
  high = 0;
  mode = idle;
  position = 0;
  polls = 0;
  failed = false;
  fifo = λ i. 0;
  sectors = λ d l i. l + i;
  identity = λ d i. d + i;
}

abbrev pub machine : ℕ → Channel
machine a = channel

abbrev pub words : ℕ → ℕ
words i = 0

abbrev empty : Buffer
empty i = 0

pub answers : (d a : ℕ) → calm.delay d a < 3
answers d a = omega arith

ata_read_sector_disk_lem_example :
    (w' : ℕ → Channel) × (ata_read_sector_disk (channels calm) 3 0 0 5 empty machine
      ≡ some (some (overlay 0 512 (λ i. 5 + i) empty), w'))
    × ((a : ℕ) → (w' a).sectors ≡ channel.sectors)
ata_read_sector_disk_lem_example = ata_read_sector_disk_lem calm 3 0 0 5 empty machine (answers 0 5)

ata_write_sector_disk_lem_example :
    (w' : ℕ → Channel) × (ata_write_sector_disk (channels calm) 3 0 0 5 (sector_bytes empty) machine
      ≡ some (true, w'))
    × ((a : ℕ)
        → (w' a).sectors ≡ (
            if (a == io_base 0) && true
            then set_sector 0 5 (sector_bytes empty) channel.sectors
            else channel.sectors))
ata_write_sector_disk_lem_example =
    ata_write_sector_disk_lem calm 3 0 0 5 (sector_bytes empty) machine (answers 0 5)
      (sector_bytes-IsSector empty)

transfer_wraps_example :
    (ata_read_sector_disk (channels calm) 3 0 0 (5 + 2 ^ 28) empty machine
      ≡ ata_read_sector_disk (channels calm) 3 0 0 5 empty machine)
    × (ata_write_sector_disk (channels calm) 3 0 0 (5 + 2 ^ 28) empty machine
        ≡ ata_write_sector_disk (channels calm) 3 0 0 5 empty machine)
transfer_wraps_example = transfer_wraps (channels calm) 3 0 0 5 empty machine

pub calm-reads : (d a : ℕ) → calm.refuses 0x30 d a ≡ false → calm.refuses 0x20 d a ≡ false
calm-reads d a e = refl

ata_disk-Laws_example : Laws (ata_disk (channels calm) 3) (2 ^ 28)
ata_disk-Laws_example = ata_disk-Laws calm 3 answers calm-reads

identify-answers_example :
    (w' : ℕ → Channel) × (identify (channels calm) 3 0 1 words machine
      ≡ some (some (λ i. if ltb i 256 then 1 + i else 0), w'))
    × ((a : ℕ) → (w' a).sectors ≡ (machine a).sectors)
identify-answers_example = identify-answers calm 3 0 1 words machine (omega arith) answers
