-- ===== src/Ata/Drives.antt =====
-- The drives on the two channels, as what partition.c and disktool.c use of them: the transfers of
-- filesystem.c meet the laws of Disk/Laws.
use ety_os.Base.{
  ℕ, ◌^◌, ◌<◌, ◌≡◌, ◌≢◌, Bool, true, false, Option, none, some, if◌then◌else◌, arith, refl, ◌∙◌, ap,
  sym, subst, fun_ext, Bool-cases, inl, inr, some_inj,
}
use ety_os.Bytes.{Buffer, IsSector, sector_bytes}
use ety_os.Bytes.Fields.{sector_bytes-IsSector, sector_bytes_self}
use ety_os.Disk.{Disk}
use ety_os.Disk.Laws.{Laws}
use ety_os.Ata.{
  Ports, io_base, head, read_from, write_to, ata_read_sector_disk, ata_write_sector_disk,
}
use ety_os.Ata.Channel.{Channel, Medium, put, channels}
use ety_os.Ata.Commands.{selected, put_self}
use ety_os.Ata.Words.{overlay}
use ety_os.Ata.Addressing.{
  aligned, put-same, bytes_of-sent, set_sector-eq, set_sector-ne, drive_at, sector_at, sector_at-ne,
}
use ety_os.Ata.Results.{read_over-sectors}
use ety_os.Ata.Transfer.{read_over, write_left, read_from_lem, write_to_lem}

abbrev zeros : Buffer
zeros i = 0

-- A transfer whose poll does not end counts as a failed one.
module _ (ports : Ports) (fuel : ℕ) where
  abbrev pub ata_disk : Disk
  ata_disk = record {
    Drives = ports.World;
    read_sector = λ c d l w. elim (ata_read_sector_disk ports fuel c d l zeros w) [
      | none ↦ (none, w)
      | some r ↦ r
    ];
    write_sector = λ c d l b w. elim (ata_write_sector_disk ports fuel c d l b w) [
      | none ↦ (false, w)
      | some r ↦ r
    ];
  }

overlay-sector_bytes : (b : Buffer) → overlay 0 512 b zeros ≡ sector_bytes b
overlay-sector_bytes b = fun_ext (λ j. ground arith)

first_false : (x y : Bool) → (if x then false else y) ≡ true → x ≡ false
first_false true y e = cc
first_false false y e = refl

second_some : (x : Bool) {b b' : Buffer} → (if x then none else some b) ≡ some b' → b ≡ b'
second_some true e = cc
second_some false e = some_inj e

module _ (m : Medium) (fuel : ℕ) (answers : (d a : ℕ) → m.delay d a < fuel) where
  -- What a read of sector `l` gives in a state of the channel.
  abbrev shown : ℕ → ℕ → Channel → Option Buffer
  shown d l ch =
      if m.refuses 0x20 (drive_at d l) (sector_at d l)
      then none
      else some (sector_bytes (ch.sectors (drive_at d l) (sector_at d l)))

  abbrev read_left : ℕ → ℕ → ℕ → Channel → Channel
  read_left c d l ch = read_over m (io_base c) (aligned c) (selected (head d l) l ch)

  read_sector_lem :
      (c d l : ℕ) (w : ℕ → Channel)
      → (ata_disk (channels m) fuel).read_sector c d l w
        ≡ (shown d l (w (io_base c)), put w (io_base c) (read_left c d l (w (io_base c))))
  unfolding ata_read_sector_disk
  read_sector_lem c d l w =
      ap
        (λ (o : Option (Option Buffer × (ℕ → Channel))).
          elim o as (λ _. Option Buffer × (ℕ → Channel)) [ none ↦ (none, w) | some r ↦ r ])
        (ap (read_from (channels m) fuel (io_base c) (head d l) l zeros) (put-same w (io_base c))
          ∙ read_from_lem m (io_base c) (aligned c) fuel (head d l) l zeros w (w (io_base c))
              (answers _ _))
      ∙ ap
          (λ (b : Buffer). (
            if m.refuses 0x20 (drive_at d l) (sector_at d l) then none else some b,
            put w (io_base c) (read_left c d l (w (io_base c))),
          ))
          (overlay-sector_bytes ((w (io_base c)).sectors (drive_at d l) (sector_at d l)))

  abbrev accepted : ℕ → ℕ → Bool
  accepted d l =
      if m.refuses 0x30 (drive_at d l) (sector_at d l)
      then false
      else if m.fails (drive_at d l) (sector_at d l)
      then false
      else true

  abbrev left_by_write : ℕ → ℕ → ℕ → Buffer → Channel → Channel
  left_by_write c d l b ch =
      write_left m (io_base c) (aligned c) (m.refuses 0x30 (drive_at d l) (sector_at d l)) b
        (selected (head d l) l ch)

  write_sector_lem :
      (c d l : ℕ) (b : Buffer) (w : ℕ → Channel)
      → (ata_disk (channels m) fuel).write_sector c d l b w
        ≡ (accepted d l, put w (io_base c) (left_by_write c d l b (w (io_base c))))
  unfolding ata_write_sector_disk
  write_sector_lem c d l b w =
      ap
        (λ (o : Option (Bool × (ℕ → Channel))). elim o as (λ _. Bool × (ℕ → Channel)) [
          | none ↦ (false, w)
          | some r ↦ r
        ])
        (ap (write_to (channels m) fuel (io_base c) (head d l) l b) (put-same w (io_base c))
          ∙ write_to_lem m (io_base c) (aligned c) fuel (head d l) l b w (w (io_base c))
              (answers _ _))

  -- A sector other than the written one stays.
  left_by_write-ne :
      (c d l k : ℕ) (b : Buffer) (ch : Channel)
      → sector_at d k ≢ sector_at d l
      → (left_by_write c d l b ch).sectors (drive_at d k) (sector_at d k)
        ≡ ch.sectors (drive_at d k) (sector_at d k)
  left_by_write-ne c d l k b ch ne =
      elim (Bool-cases (m.refuses 0x30 (drive_at d l) (sector_at d l))) [
        | inl e ↦ rw e refl
        | inr e ↦ rw e (
            set_sector-ne (drive_at d l) (sector_at d l) _ ch.sectors (drive_at d k) (sector_at d k)
              ne)
      ]

  left_by_write-shown :
      (c d l : ℕ) (b : Buffer) (ch : Channel)
      → m.refuses 0x20 (drive_at d l) (sector_at d l) ≡ false
      → m.refuses 0x30 (drive_at d l) (sector_at d l) ≡ false
      → IsSector b
      → shown d l (left_by_write c d l b ch) ≡ some b
  left_by_write-shown c d l b ch e e' is =
      rw (e, e')
        (ap (λ x. some (sector_bytes x))
            (set_sector-eq (drive_at d l) (sector_at d l) _ ch.sectors ∙ bytes_of-sent b ch.fifo is)
          ∙ ap some (sector_bytes_self is))

  shown-IsSector : (d l : ℕ) (ch : Channel) (b : Buffer) → shown d l ch ≡ some b → IsSector b
  shown-IsSector d l ch b e =
      subst IsSector (second_some _ e)
        (sector_bytes-IsSector (ch.sectors (drive_at d l) (sector_at d l)))

  -- The sector as the bytes that the drive holds decide it.
  abbrev shows : ℕ → ℕ → Buffer → Option Buffer
  shows d l b =
      if m.refuses 0x20 (drive_at d l) (sector_at d l) then none else some (sector_bytes b)

  read-shown :
      (c d k : ℕ) (w v : ℕ → Channel) (x : Channel)
      → v ≡ put w (io_base c) x
      → ((ata_disk (channels m) fuel).read_sector c d k v).0 ≡ shown d k x
  read-shown c d k w v x e =
      ap (λ r. r.0) (read_sector_lem c d k v)
      ∙ ap (shown d k) (ap (λ (u : ℕ → Channel). u (io_base c)) e ∙ put_self w (io_base c) x)

  -- What a read gives depends on the sectors of the channel alone.
  pub read_sector-sectors :
      (c d k : ℕ) (w w' : ℕ → Channel)
      → (w' (io_base c)).sectors ≡ (w (io_base c)).sectors
      → ((ata_disk (channels m) fuel).read_sector c d k w').0
        ≡ ((ata_disk (channels m) fuel).read_sector c d k w).0
  read_sector-sectors c d k w w' e =
      ap (λ r. r.0) (read_sector_lem c d k w')
      ∙ ap (λ (x : ℕ → ℕ → Buffer). shows d k (x (drive_at d k) (sector_at d k))) e
      ∙ sym (ap (λ r. r.0) (read_sector_lem c d k w))

  -- The transfers meet what partition.c and disktool.c rely on, for drives that read what they write,
  -- below the sectors that the 28 address bits reach.
  pub ata_disk-Laws :
      ((d a : ℕ) → m.refuses 0x30 d a ≡ false → m.refuses 0x20 d a ≡ false)
      → Laws (ata_disk (channels m) fuel) (2 ^ 28)
  ata_disk-Laws readable = record {
    after_read = λ c d l k w.
        read-shown c d k w _ _ (ap (λ r. r.1) (read_sector_lem c d l w))
        ∙ ap (λ (x : ℕ → ℕ → Buffer). shows d k (x (drive_at d k) (sector_at d k)))
            (read_over-sectors m (io_base c) (aligned c) (selected (head d l) l (w (io_base c))))
        ∙ sym (ap (λ r. r.0) (read_sector_lem c d k w));
    read_bytes = λ c d l w b e.
        shown-IsSector d l (w (io_base c)) b (sym (ap (λ r. r.0) (read_sector_lem c d l w)) ∙ e);
    after_write = λ c d l b w is e.
        let accepts = first_false _ _ (sym (ap (λ r. r.0) (write_sector_lem c d l b w)) ∙ e) in
        read-shown c d l w _ _ (ap (λ r. r.1) (write_sector_lem c d l b w))
        ∙ left_by_write-shown c d l b (w (io_base c)) (readable _ _ accepts) accepts is;
    other_write = λ c d l k b w hl hk ne.
        read-shown c d k w _ _ (ap (λ r. r.1) (write_sector_lem c d l b w))
        ∙ ap (shows d k) (left_by_write-ne c d l k b (w (io_base c)) (sector_at-ne d l k hl hk ne))
        ∙ sym (ap (λ r. r.0) (read_sector_lem c d k w));
  }
