-- ===== src/Ata.antt =====
-- The ATA transfers of source/implementation/x86_64/filesystem.c, over the ports of
-- source/interface/port.h.
--
-- What the instructions of port.h do to the machine is a parameter: a state of the world and the
-- four accesses. `x & 0x80` and `x & 0x01` are tests of a bit by quotient and remainder, and the
-- `|` of values without a common bit is a sum. A busy loop takes fuel; `none` means that it ran
-- out. The messages before the error returns are left out.
pub mod Tests
pub mod Channel
pub mod Commands
pub mod Ready
pub mod Words
pub mod Transfer
pub mod Addressing
pub mod Results
pub mod Drives
pub mod Identify
pub mod Answers
use ety_os.Base.{
  ℕ, zero, suc, ◌+◌, ◌*◌, ◌/◌, ◌%◌, ◌^◌, Bool, true, false, Option, none, some, ◌==◌, if◌then◌else◌,
}
use ety_os.Memory.{store}
use ety_os.Bytes.{Buffer}
use ety_os.Partition.Mbr.{sector_size}

pub record Ports : Type 1 where
  pub World : Type 0
  pub outb : ℕ → ℕ → World → World
  pub outw : ℕ → ℕ → World → World
  pub inb : ℕ → World → ℕ × World
  pub inw : ℕ → World → ℕ × World

abbrev pub primary : ℕ
primary = 0x1F0

abbrev pub secondary : ℕ
secondary = 0x170

abbrev pub io_base : ℕ → ℕ
io_base controller = if controller == 0 then primary else secondary

abbrev pub read_sectors : ℕ
read_sectors = 0x20

abbrev pub write_sectors : ℕ
write_sectors = 0x30

-- `0xE0 | ((drive << 4) & 0x10) | ((lba >> 24) & 0x0F)`
abbrev pub head : ℕ → ℕ → ℕ
head drive lba = 0xE0 + 16 * (drive % 2) + lba / 2 ^ 24 % 16

abbrev pub busy : ℕ → Bool
busy status = status / 128 % 2 == 1

abbrev pub in_error : ℕ → Bool
in_error status = status % 2 == 1

module _ (ports : Ports) where
  open ports use {World, outb, outw, inb, inw}

  -- The six writes that select a sector and send a command.
  unfoldable pub issue : ℕ → ℕ → ℕ → ℕ → World → World
  issue base select lba command w =
      let w = outb (base + 6) select w in
      let w = outb (base + 2) 1 w in
      let w = outb (base + 3) (lba % 256) w in
      let w = outb (base + 4) (lba / 2 ^ 8 % 256) w in
      let w = outb (base + 5) (lba / 2 ^ 16 % 256) w in outb (base + 7) command w

  -- `while (inb(io_base + 7) & 0x80);`
  unfoldable pub wait_ready : ℕ → ℕ → World → Option World
  wait_ready zero base w = none
  wait_ready (suc fuel) base w = elim (busy (inb (base + 7) w).0) [
    | true ↦ wait_ready fuel base (inb (base + 7) w).1
    | false ↦ some (inb (base + 7) w).1
  ]

  -- Both loops go over `SECTOR_SIZE / 2` words.
  unfoldable pub read_words : ℕ → ℕ → ℕ → Buffer → World → Buffer × World
  read_words zero base i buffer w = (buffer, w)
  read_words (suc left) base i buffer w =
      let word = (inw base w).0 in
      read_words left base (i + 1)
        (store (store buffer (i * 2) (word % 256)) (i * 2 + 1) (word / 256 % 256)) (inw base w).1

  unfoldable pub write_words : ℕ → ℕ → ℕ → Buffer → World → World
  write_words zero base i buffer w = w
  write_words (suc left) base i buffer w =
      write_words left base (i + 1) buffer
        (outw base ((buffer (i * 2) + 256 * buffer (i * 2 + 1)) % 2 ^ 16) w)

  -- The body that the two read functions share: `some none` is the return of -1.
  unfoldable pub read_from : ℕ → ℕ → ℕ → ℕ → Buffer → World → Option (Option Buffer × World)
  read_from fuel base select lba buffer w =
      elim (wait_ready fuel base (issue base select lba read_sectors w)) [
        | none ↦ none
        | some w' ↦
            let (status, w'') = inb (base + 7) w' in
            if in_error status
            then some (none, w'')
            else (let (bytes, w3) = read_words (sector_size / 2) base 0 buffer w'' in
                some (some bytes, w3))
      ]

  -- The end of a write, with the words sent: whether it succeeded.
  unfoldable pub write_end : ℕ → ℕ → World → Option (Bool × World)
  write_end fuel base w = elim (wait_ready fuel base w) [
    | none ↦ none
    | some w' ↦
        let (status, w'') = inb (base + 7) w' in some (if in_error status then false else true, w'')
  ]

  unfoldable pub write_to : ℕ → ℕ → ℕ → ℕ → Buffer → World → Option (Bool × World)
  write_to fuel base select lba buffer w =
      elim (wait_ready fuel base (issue base select lba write_sectors w)) [
        | none ↦ none
        | some w' ↦
            let (status, w'') = inb (base + 7) w' in
            if in_error status
            then some (false, w'')
            else write_end fuel base (write_words (sector_size / 2) base 0 buffer w'')
      ]

  unfoldable pub ata_read_sector : ℕ → ℕ → Buffer → World → Option (Option Buffer × World)
  ata_read_sector fuel lba buffer w = read_from fuel primary (head 0 lba) lba buffer w

  unfoldable pub ata_write_sector : ℕ → ℕ → Buffer → World → Option (Bool × World)
  ata_write_sector fuel lba buffer w = write_to fuel primary (head 0 lba) lba buffer w

  unfoldable pub ata_read_sector_disk :
      ℕ → ℕ → ℕ → ℕ → Buffer → World → Option (Option Buffer × World)
  ata_read_sector_disk fuel controller drive lba buffer w =
      read_from fuel (io_base controller) (head drive lba) lba buffer w

  unfoldable pub ata_write_sector_disk : ℕ → ℕ → ℕ → ℕ → Buffer → World → Option (Bool × World)
  ata_write_sector_disk fuel controller drive lba buffer w =
      write_to fuel (io_base controller) (head drive lba) lba buffer w

  -- The loop over the 256 words of an answer to IDENTIFY.
  unfoldable pub read_identify : ℕ → ℕ → ℕ → (ℕ → ℕ) → World → (ℕ → ℕ) × World
  read_identify zero base i identify_buffer w = (identify_buffer, w)
  read_identify (suc left) base i identify_buffer w =
      read_identify left base (i + 1) (store identify_buffer i (inw base w).0) (inw base w).1

  -- What `init_disktool` and `display_available_disks` do for each drive: `some none` where the
  -- status is 0, and else the words that the drive gives.
  unfoldable pub identify : ℕ → ℕ → ℕ → (ℕ → ℕ) → World → Option (Option (ℕ → ℕ) × World)
  identify fuel controller drive identify_buffer w =
      let base = io_base controller in
      let w = outb (base + 7) 0xEC (outb (base + 6) (0xA0 + 16 * drive) w) in
      let (status, w) = inb (base + 7) w in
      let answered = elim (wait_ready fuel base w) as (λ _. Option (Option (ℕ → ℕ) × World)) [
        | none ↦ none
        | some w' ↦
            let (words, w'') = read_identify 256 base 0 identify_buffer w' in some (some words, w'')
      ] in
      if status == 0 then some (none, w) else answered
