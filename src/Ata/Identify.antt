-- ===== src/Ata/Identify.antt =====
-- IDENTIFY changes no sector.
use ety_os.Base.{
  ℕ, ◌+◌, ◌*◌, ◌%◌, ◌<◌, ◌≡◌, Bool, true, false, Option, none, some, ◌==◌, arith, refl, ◌∙◌, ap,
  sym, Bool-cases, inl, inr, ==→eq,
}
use ety_os.Ata.{io_base}
use ety_os.Ata.Channel.{Channel, Medium, put, channels}
use ety_os.Base.{zero, suc}
use ety_os.Memory.{store}
use ety_os.Disk.Laws.{sector}
use ety_os.Ata.{busy, wait_ready, read_identify, identify}
use ety_os.Ata.Channel.{
  set_register, command, give_word, Mode, idle, reading, writing, identifying, channel_of,
}
use ety_os.Ata.Drives.{ata_disk, read_sector-sectors}

-- No drive of any channel has a sector changed.
abbrev pub SameSectors : (ℕ → Channel) → (ℕ → Channel) → Type 0
SameSectors w w' = (a : ℕ) → (w' a).sectors ≡ (w a).sectors

pub put-SameSectors :
    (w : ℕ → Channel) (base : ℕ) (x : Channel)
    → x.sectors ≡ (w base).sectors
    → SameSectors w (put w base x)
put-SameSectors w base x e a = elim (Bool-cases (a == base)) [
  | inl t ↦ rw t (e ∙ ap (λ i. (w i).sectors) (sym (==→eq a base t)))
  | inr t ↦ rw t refl
]

give_word-sectors : (mode : Mode) (ch : Channel) → (give_word mode ch).1.sectors ≡ ch.sectors
give_word-sectors idle ch = refl
give_word-sectors reading ch = refl
give_word-sectors writing ch = refl
give_word-sectors identifying ch = refl

module _ (m : Medium) where
  set_register-sectors : (r v : ℕ) (ch : Channel) → (set_register m r v ch).sectors ≡ ch.sectors
  unfolding set_register command
  set_register-sectors r v ch = ground arith

  outb-SameSectors : (port v : ℕ) (w : ℕ → Channel) → SameSectors w ((channels m).outb port v w)
  outb-SameSectors port v w =
      put-SameSectors w (channel_of port) _
        (set_register-sectors (port % 8) v (w (channel_of port)))

  inb-SameSectors : (port : ℕ) (w : ℕ → Channel) → SameSectors w ((channels m).inb port w).1
  inb-SameSectors port w = put-SameSectors w (channel_of port) _ refl

  inw-SameSectors : (port : ℕ) (w : ℕ → Channel) → SameSectors w ((channels m).inw port w).1
  inw-SameSectors port w =
      put-SameSectors w (channel_of port) _
        (give_word-sectors (w (channel_of port)).mode (w (channel_of port)))

  SameSectors-trans : (u v w : ℕ → Channel) → SameSectors u v → SameSectors v w → SameSectors u w
  SameSectors-trans u v w h k a = k a ∙ h a

  -- The machine of a wait that ended.
  abbrev Waited : (ℕ → Channel) → Option (ℕ → Channel) → Type 0
  Waited w none = Unit {0}
  Waited w (some w') = SameSectors w w'

  Waited-trans :
      (u w : ℕ → Channel) (o : Option (ℕ → Channel)) → SameSectors u w → Waited w o → Waited u o
  Waited-trans u w none h k = tt
  Waited-trans u w (some v) h k = SameSectors-trans u w v h k

  wait_ready-Waited :
      (fuel base : ℕ) (w : ℕ → Channel) → Waited w (wait_ready (channels m) fuel base w)
  unfolding wait_ready
  wait_ready-Waited zero base w = tt
  wait_ready-Waited (suc fuel) base w =
      go (busy ((channels m).inb (base + 7) w).0)
        (wait_ready-Waited fuel base ((channels m).inb (base + 7) w).1)
    where
      go :
          (b : Bool)
          → let w' = ((channels m).inb (base + 7) w).1 in
            Waited w' (wait_ready (channels m) fuel base w')
            → Waited w (elim b as (λ _. Option (ℕ → Channel)) [
              | true ↦ wait_ready (channels m) fuel base w'
              | false ↦ some w'
            ])
      go true h =
          let w' = ((channels m).inb (base + 7) w).1 in
          Waited-trans w w' (wait_ready (channels m) fuel base w') (inb-SameSectors (base + 7) w) h
      go false h = inb-SameSectors (base + 7) w

  read_identify-SameSectors :
      (left base i : ℕ) (b : ℕ → ℕ) (w : ℕ → Channel)
      → SameSectors w (read_identify (channels m) left base i b w).1
  unfolding read_identify
  read_identify-SameSectors zero base i b w = λ a. refl
  read_identify-SameSectors (suc left) base i b w =
      let r = (channels m).inw base w in
      SameSectors-trans w r.1 (read_identify (channels m) left base (i + 1) (store b i r.0) r.1).1
        (inw-SameSectors base w) (read_identify-SameSectors left base (i + 1) (store b i r.0) r.1)

  -- The machine after IDENTIFY, if its poll ended.
  abbrev Identified : (ℕ → Channel) → Option (Option (ℕ → ℕ) × (ℕ → Channel)) → Type 0
  Identified w none = Unit {0}
  Identified w (some (words, w')) = SameSectors w w'

  identify-Identified :
      (fuel c d : ℕ) (b : ℕ → ℕ) (w : ℕ → Channel)
      → Identified w (identify (channels m) fuel c d b w)
  unfolding identify
  identify-Identified fuel c d b w =
      let base = io_base c in
      let w1 = (channels m).outb (base + 6) (0xA0 + 16 * d) w in
      let w2 = (channels m).outb (base + 7) 0xEC w1 in
      let r = (channels m).inb (base + 7) w2 in
      let same : SameSectors w r.1 =
        SameSectors-trans w w2 r.1
          (SameSectors-trans w w1 w2 (outb-SameSectors (base + 6) (0xA0 + 16 * d) w)
            (outb-SameSectors (base + 7) 0xEC w1))
          (inb-SameSectors (base + 7) w2) in
      elim (Bool-cases (r.0 == 0)) [
        | inl e ↦ rw e same
        | inr e ↦ rw e (
            go base r.1 same (wait_ready (channels m) fuel base r.1)
              (wait_ready-Waited fuel base r.1))
      ]
    where
      go :
          (base : ℕ) (v : ℕ → Channel)
          → SameSectors w v
          → (o : Option (ℕ → Channel)) → Waited v o
          → Identified w (elim o as (λ _. Option (Option (ℕ → ℕ) × (ℕ → Channel))) [
            | none ↦ none
            | some w' ↦
                let (words, w'') = read_identify (channels m) 256 base 0 b w' in
                some (some words, w'')
          ])
      go base v same none h = tt
      go base v same (some w') h =
          SameSectors-trans w w' (read_identify (channels m) 256 base 0 b w').1
            (SameSectors-trans w v w' same h) (read_identify-SameSectors 256 base 0 b w')

-- IDENTIFY on the drives, as the disk tool uses it: a poll that does not end counts as no drive.
abbrev pub identify_drives :
    (m : Medium) (fuel : ℕ) → (ℕ → ℕ) → ℕ → ℕ → (ℕ → Channel) → Option (ℕ → ℕ) × (ℕ → Channel)
identify_drives m fuel b c d w = elim (identify (channels m) fuel c d b w) [
  | none ↦ (none, w)
  | some r ↦ r
]

-- On drives that answer within the fuel, IDENTIFY changes no sector of any drive, in whatever state
-- its channel is.
pub identify_drives-sector :
    (m : Medium) (fuel : ℕ) (b : ℕ → ℕ) (c d a e k : ℕ) (w : ℕ → Channel)
    → ((d' a' : ℕ) → m.delay d' a' < fuel)
    → let disk = ata_disk (channels m) fuel in
      sector disk a e k (identify_drives m fuel b c d w).1 ≡ sector disk a e k w
identify_drives-sector m fuel b c d a e k w answers =
    read_sector-sectors m fuel answers a e k w _
      (go (identify (channels m) fuel c d b w) (identify-Identified m fuel c d b w) (io_base a))
  where
    go :
        (o : Option (Option (ℕ → ℕ) × (ℕ → Channel)))
        → Identified m w o
        → SameSectors w
            (elim o as (λ _. Option (ℕ → ℕ) × (ℕ → Channel)) [ none ↦ (none, w) | some r ↦ r ]).1
    go none h = λ x. refl
    go (some (words, w')) h = h
