-- ===== src/Ata/Results.antt =====
-- What a transfer returns and what it does to the drives, on each of its branches.
use ety_os.Base.{
  ℕ, ◌+◌, ◌/◌, ◌%◌, ◌^◌, ◌<◌, ◌≡◌, Bool, true, false, not, ◌&&◌, Option, none, some, ◌==◌,
  if◌then◌else◌, arith, refl, ◌∙◌, ap, ap₂, sym, subst, Bool-cases, inl, inr, ==→eq,
}
use ety_os.Bytes.{Buffer, IsSector}
use ety_os.Ata.{
  wait_ready, issue, read_sectors, write_sectors, Ports, io_base, head, read_from, write_to,
  ata_read_sector_disk, ata_write_sector_disk,
}
use ety_os.Ata.Channel.{Channel, Medium, drive_of, address, put, channels, set_sector}
use ety_os.Ata.Commands.{selected}
use ety_os.Ata.Words.{overlay}
use ety_os.Ata.Addressing.{aligned, put-same, bytes_of-sent, drive_at, sector_at}
use ety_os.Ata.Ready.{read_answer, write_answer}
use ety_os.Ata.Transfer.{read_over, write_left, read_from_lem, write_to_lem}

-- The registers hold the drive and 28 bits of the LBA.
drive_at_lem : (d l : ℕ) → drive_at d l ≡ d % 2
drive_at_lem d l = omega arith

sector_at_lem : (d l : ℕ) → sector_at d l ≡ l % 2 ^ 28
sector_at_lem d l = omega arith

-- The six writes, by the bytes that they send.
abbrev registers : (ports : Ports) → ℕ → ℕ → ℕ → ℕ → ℕ → ℕ → ports.World → ports.World
registers ports base code select low mid high w =
    let w = ports.outb (base + 2) 1 (ports.outb (base + 6) select w) in
    let w = ports.outb (base + 4) mid (ports.outb (base + 3) low w) in
    ports.outb (base + 7) code (ports.outb (base + 5) high w)

issue_wraps :
    (ports : Ports) (base d lba code : ℕ) (w : ports.World)
    → issue ports base (head d (lba + 2 ^ 28)) (lba + 2 ^ 28) code w
      ≡ issue ports base (head d lba) lba code w
unfolding issue
issue_wraps ports base d lba code w =
    let next = lba + 2 ^ 28 in
    ap₂ (λ s l. registers ports base code s l (next / 2 ^ 8 % 256) (next / 2 ^ 16 % 256) w)
      (omega arith) (omega arith)
    ∙ ap₂ (λ m h. registers ports base code (head d lba) (lba % 256) m h w) (omega arith)
        (omega arith)

-- On any machine, a sector 2 ^ 28 further on is read, and written, as the sector itself.
pub transfer_wraps :
    (ports : Ports) (fuel c d lba : ℕ) (b : Buffer) (w : ports.World)
    → (ata_read_sector_disk ports fuel c d (lba + 2 ^ 28) b w
        ≡ ata_read_sector_disk ports fuel c d lba b w)
      × (ata_write_sector_disk ports fuel c d (lba + 2 ^ 28) b w
          ≡ ata_write_sector_disk ports fuel c d lba b w)
unfolding ata_read_sector_disk ata_write_sector_disk read_from write_to
transfer_wraps ports fuel c d lba b w =
    let base = io_base c in
    let read_on = read_answer ports fuel base 0 lba b w w in
    let write_on = write_answer ports fuel base 0 lba b w w in
    (
      ap
          (λ (v : ports.World).
            elim (wait_ready ports fuel base v) as (λ _. Option (Option Buffer × ports.World)) [
              | none ↦ none
              | some u ↦ read_on (ports.inb (base + 7) u)
            ])
          (issue_wraps ports base d lba read_sectors w),
      ap
          (λ (v : ports.World).
            elim (wait_ready ports fuel base v) as (λ _. Option (Bool × ports.World)) [
              | none ↦ none
              | some u ↦ write_on (ports.inb (base + 7) u)
            ])
          (issue_wraps ports base d lba write_sectors w),
    )

pub read_over-sectors :
    (m : Medium) (base : ℕ) (al : base % 8 ≡ 0) (ch : Channel)
    → (read_over m base al ch).sectors ≡ ch.sectors
read_over-sectors m base al ch = elim (Bool-cases (m.refuses 0x20 (drive_of ch) (address ch))) [
  | inl e ↦ rw e refl
  | inr e ↦ rw e refl
]

put-sectors :
    (w : ℕ → Channel) (base : ℕ) (x : Channel)
    → x.sectors ≡ (w base).sectors
    → (a : ℕ) → (put w base x a).sectors ≡ (w a).sectors
put-sectors w base x e a = elim (Bool-cases (a == base)) [
  | inl t ↦ rw t (e ∙ ap (λ i. (w i).sectors) (sym (==→eq a base t)))
  | inr t ↦ rw t refl
]

module _ (m : Medium) (fuel c d lba : ℕ) (buffer : Buffer) (w : ℕ → Channel) where
  abbrev ReadAt : ℕ → ℕ → Type 0
  ReadAt drive sector =
      (w' : ℕ → Channel) × (ata_read_sector_disk (channels m) fuel c d lba buffer w
        ≡ some (
          if m.refuses 0x20 drive sector
              then none
              else some (overlay 0 512 ((w (io_base c)).sectors drive sector) buffer),
          w',
        ))
      × ((a : ℕ) → (w' a).sectors ≡ (w a).sectors)

  ReadAt-registers :
      m.delay (drive_at d lba) (sector_at d lba) < fuel → ReadAt (drive_at d lba) (sector_at d lba)
  unfolding ata_read_sector_disk
  ReadAt-registers lt =
      let base = io_base c in
      let after = read_over m base (aligned c) (selected (head d lba) lba (w base)) in
      (
        put w base after,
        ap (read_from (channels m) fuel base (head d lba) lba buffer) (put-same w base)
            ∙ read_from_lem m base (aligned c) fuel (head d lba) lba buffer w (w base) lt,
        put-sectors w base after
            (read_over-sectors m base (aligned c) (selected (head d lba) lba (w base))),
      )

  abbrev WriteAt : ℕ → ℕ → Type 0
  WriteAt drive sector =
      (w' : ℕ → Channel) × (ata_write_sector_disk (channels m) fuel c d lba buffer w
        ≡ some (
          if m.refuses 0x30 drive sector
              then false
              else if m.fails drive sector
              then false
              else true,
          w',
        ))
      × ((a : ℕ)
          → (w' a).sectors ≡ (
              if (a == io_base c) && not (m.refuses 0x30 drive sector)
              then set_sector drive sector buffer (w a).sectors
              else (w a).sectors))

  write_left-sectors :
      IsSector buffer
      → (a : ℕ) (refused : Bool)
      → let base = io_base c in
        (put w base
          (write_left m base (aligned c) refused buffer (selected (head d lba) lba (w base)))
          a).sectors
        ≡ (if (a == base) && not refused
            then set_sector (drive_at d lba) (sector_at d lba) buffer (w a).sectors
            else (w a).sectors)
  write_left-sectors is a true = elim (Bool-cases (a == io_base c)) [
    | inl t ↦ rw t (ap (λ i. (w i).sectors) (sym (==→eq a (io_base c) t)))
    | inr t ↦ rw t refl
  ]
  write_left-sectors is a false = elim (Bool-cases (a == io_base c)) [
    | inl t ↦ rw t (
        ap₂ (λ (b : Buffer) (i : ℕ). set_sector (drive_at d lba) (sector_at d lba) b (w i).sectors)
          (bytes_of-sent buffer (w (io_base c)).fifo is) (sym (==→eq a (io_base c) t)))
    | inr t ↦ rw t refl
  ]

  WriteAt-registers :
      m.delay (drive_at d lba) (sector_at d lba) < fuel
      → IsSector buffer
      → WriteAt (drive_at d lba) (sector_at d lba)
  unfolding ata_write_sector_disk
  WriteAt-registers lt is =
      let base = io_base c in
      let after =
        write_left m base (aligned c) (m.refuses 0x30 (drive_at d lba) (sector_at d lba)) buffer
          (selected (head d lba) lba (w base)) in
      (
        put w base after,
        ap (write_to (channels m) fuel base (head d lba) lba buffer) (put-same w base)
            ∙ write_to_lem m base (aligned c) fuel (head d lba) lba buffer w (w base) lt,
        λ a. write_left-sectors is a (m.refuses 0x30 (drive_at d lba) (sector_at d lba)),
      )

-- On drives that answer within the fuel, a read of the drive `d % 2` on the channel of `c` ends: with
-- the error return where the drive refuses the command, and else with the sector's bytes in the first
-- 512 of the buffer and its other bytes as they were. No sector of any drive changes.
pub ata_read_sector_disk_lem :
    (m : Medium) (fuel c d lba : ℕ) (buffer : Buffer) (w : ℕ → Channel)
    → m.delay (d % 2) (lba % 2 ^ 28) < fuel
    → (w' : ℕ → Channel) × (ata_read_sector_disk (channels m) fuel c d lba buffer w
        ≡ some (
          if m.refuses 0x20 (d % 2) (lba % 2 ^ 28)
              then none
              else some (overlay 0 512 ((w (io_base c)).sectors (d % 2) (lba % 2 ^ 28)) buffer),
          w',
        ))
      × ((a : ℕ) → (w' a).sectors ≡ (w a).sectors)
ata_read_sector_disk_lem m fuel c d lba buffer w =
    subst (λ x. m.delay x (lba % 2 ^ 28) < fuel → ReadAt m fuel c d lba buffer w x (lba % 2 ^ 28))
      (drive_at_lem d lba)
      (subst
        (λ y. m.delay (drive_at d lba) y < fuel → ReadAt m fuel c d lba buffer w (drive_at d lba) y)
        (sector_at_lem d lba) (ReadAt-registers m fuel c d lba buffer w))

-- On drives that answer within the fuel, a write of 512 bytes to the drive `d % 2` on the channel of
-- `c` ends: with the error return where the drive refuses the command, and then no sector changes, or
-- fails at its end, and with success else. Where it is not refused, the sector is the buffer, and
-- every other sector of every drive is as it was.
pub ata_write_sector_disk_lem :
    (m : Medium) (fuel c d lba : ℕ) (buffer : Buffer) (w : ℕ → Channel)
    → m.delay (d % 2) (lba % 2 ^ 28) < fuel
    → IsSector buffer
    → let refused = m.refuses 0x30 (d % 2) (lba % 2 ^ 28) in
      (w' : ℕ → Channel) × (ata_write_sector_disk (channels m) fuel c d lba buffer w
        ≡ some
            (if refused then false else if m.fails (d % 2) (lba % 2 ^ 28) then false else true, w'))
      × ((a : ℕ)
          → (w' a).sectors ≡ (
              if (a == io_base c) && not refused
              then set_sector (d % 2) (lba % 2 ^ 28) buffer (w a).sectors
              else (w a).sectors))
ata_write_sector_disk_lem m fuel c d lba buffer w =
    subst
      (λ x.
        m.delay x (lba % 2 ^ 28) < fuel
        → IsSector buffer
        → WriteAt m fuel c d lba buffer w x (lba % 2 ^ 28))
      (drive_at_lem d lba)
      (subst
        (λ y.
          m.delay (drive_at d lba) y < fuel
          → IsSector buffer
          → WriteAt m fuel c d lba buffer w (drive_at d lba) y)
        (sector_at_lem d lba) (WriteAt-registers m fuel c d lba buffer w))
