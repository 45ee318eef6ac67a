-- ===== src/Ata/Transfer.antt =====
-- The read and the write of a sector on a channel, as a whole.
use ety_os.Base.{
  ℕ, ◌%◌, ◌<◌, ◌≡◌, Bool, true, false, none, some, if◌then◌else◌, refl, ◌∙◌, ap, ap₂, Bool-cases,
  inl, inr,
}
use ety_os.Bytes.{Buffer}
use ety_os.Ata.{in_error, issue, wait_ready, write_words, read_from, write_to, write_end}
use ety_os.Ata.Channel.{
  Channel, Medium, Mode, idle, reading, writing, drive_of, address, command, set_register, put,
  channels, status, bytes_of, set_sector,
}
use ety_os.Ata.Commands.{selected, inb_lem, issue_lem, wait_ready_lem}
use ety_os.Ata.Ready.{read_answer, write_answer, read_from-ready, write_to-ready, write_end-ready}
use ety_os.Ata.Words.{overlay, writing_at, read_words_lem, sent, filled, write_words_lem}

module _ (m : Medium) (base : ℕ) (aligned : base % 8 ≡ 0) where
  -- The drive after the poll of a command.
  abbrev commanded : ℕ → Mode → Channel → Channel
  commanded code mode c = record c {
    mode = if m.refuses code (drive_of c) (address c) then idle else mode;
    position = 0;
    polls = 0;
    failed = m.refuses code (drive_of c) (address c);
  }

  read-polled :
      (fuel select lba : ℕ) (w : ℕ → Channel) (ch : Channel)
      → m.delay (drive_of (selected select lba ch)) (address (selected select lba ch)) < fuel
      → wait_ready (channels m) fuel base (issue (channels m) base select lba 0x20 (put w base ch))
        ≡ some (put w base (commanded 0x20 reading (selected select lba ch)))
  unfolding set_register command
  read-polled fuel select lba w ch lt =
      ap (wait_ready (channels m) fuel base) (issue_lem m base aligned select lba 0x20 w ch)
      ∙ wait_ready_lem m base aligned fuel w (command m 0x20 reading (selected select lba ch)) lt

  write-polled :
      (fuel select lba : ℕ) (w : ℕ → Channel) (ch : Channel)
      → m.delay (drive_of (selected select lba ch)) (address (selected select lba ch)) < fuel
      → wait_ready (channels m) fuel base (issue (channels m) base select lba 0x30 (put w base ch))
        ≡ some (put w base (commanded 0x30 writing (selected select lba ch)))
  unfolding set_register command
  write-polled fuel select lba w ch lt =
      ap (wait_ready (channels m) fuel base) (issue_lem m base aligned select lba 0x30 w ch)
      ∙ wait_ready_lem m base aligned fuel w (command m 0x30 writing (selected select lba ch)) lt

  -- The channel after a read.
  abbrev pub read_over : Channel → Channel
  read_over c =
      if m.refuses 0x20 (drive_of c) (address c)
      then record c { mode = idle; position = 0; polls = 0; failed = true }
      else record c { mode = reading; position = 256; polls = 0; failed = false }

  read_answer_lem :
      (fuel select lba : ℕ) (buffer : Buffer) (w : ℕ → Channel) (c : Channel) (refused : Bool)
      → read_answer (channels m) fuel base select lba buffer w w (
        status (record c {
          mode = if refused then idle else reading;
          position = 0;
          polls = 0;
          failed = refused;
        }),
        put w base (record c {
          mode = if refused then idle else reading;
          position = 0;
          polls = 0;
          failed = refused;
        }),
      )
        ≡ some (
          if refused
              then none
              else some (overlay 0 512 (c.sectors (drive_of c) (address c)) buffer),
          put w base (
              if refused
              then record c { mode = idle; position = 0; polls = 0; failed = true }
              else record c { mode = reading; position = 256; polls = 0; failed = false }),
        )
  read_answer_lem fuel select lba buffer w c true = refl
  read_answer_lem fuel select lba buffer w c false = ap some (
      ap₂ (λ (b : Buffer) (v : ℕ → Channel). (some b, v))
        (ap (λ r. r.0)
          (read_words_lem m base aligned (record c { polls = 0; failed = false }) 256 0 buffer w))
        (ap (λ r. r.1)
          (read_words_lem m base aligned (record c { polls = 0; failed = false }) 256 0 buffer w)))

  pub read_from_lem :
      (fuel select lba : ℕ) (buffer : Buffer) (w : ℕ → Channel) (ch : Channel)
      → let c = selected select lba ch in
        m.delay (drive_of c) (address c) < fuel
        → read_from (channels m) fuel base select lba buffer (put w base ch)
          ≡ some (
            if m.refuses 0x20 (drive_of c) (address c)
                then none
                else some (overlay 0 512 (ch.sectors (drive_of c) (address c)) buffer),
            put w base (read_over c),
          )
  read_from_lem fuel select lba buffer w ch lt =
      read_from-ready (channels m) fuel base select lba buffer (put w base ch) _ _
        (read-polled fuel select lba w ch lt)
        (inb_lem m base aligned w (commanded 0x20 reading (selected select lba ch)))
      ∙ read_answer_lem fuel select lba buffer w (selected select lba ch) _

  -- The channel after a write that was not refused.
  abbrev write_over : Buffer → Channel → Channel
  write_over buffer c = record c {
    mode = idle;
    position = 255;
    fifo = filled 256 0 (sent buffer) c.fifo;
    polls = 0;
    failed = m.fails (drive_of c) (address c);
    sectors =
        set_sector (drive_of c) (address c) (bytes_of (filled 256 0 (sent buffer) c.fifo))
          c.sectors;
  }

  -- The channel after a write.
  abbrev pub write_left : Bool → Buffer → Channel → Channel
  write_left refused buffer c =
      if refused
      then record c { mode = idle; position = 0; polls = 0; failed = true }
      else write_over buffer c

  status_lem : (c : Channel) → c.polls ≡ 0 → in_error (status c) ≡ c.failed
  status_lem c e = elim (Bool-cases c.failed) [
    | inl e' ↦ rw (e, e') refl
    | inr e' ↦ rw (e, e') refl
  ]

  write_end_lem :
      (fuel : ℕ) (buffer : Buffer) (w : ℕ → Channel) (c : Channel)
      → m.delay (drive_of c) (address c) < fuel
      → write_end
          (channels m)
          fuel
          base
          (write_words (channels m) 256 base 0 buffer (put w base (writing_at 0 c.fifo c)))
        ≡ some (
          if m.fails (drive_of c) (address c) then false else true,
          put w base (write_over buffer c),
        )
  write_end_lem fuel buffer w c lt =
      ap (write_end (channels m) fuel base)
        (write_words_lem m base aligned c 255 0 buffer c.fifo w refl)
      ∙ write_end-ready (channels m) fuel base 0 0 buffer _ _ _
          (wait_ready_lem m base aligned fuel w _ lt)
          (inb_lem m base aligned w (write_over buffer c))
      ∙ ap (λ b. some (if b then false else true, put w base (write_over buffer c)))
          (status_lem (write_over buffer c) refl)

  write_answer_lem :
      (fuel select lba : ℕ) (buffer : Buffer) (w : ℕ → Channel) (c : Channel) (refused : Bool)
      → m.delay (drive_of c) (address c) < fuel
      → write_answer (channels m) fuel base select lba buffer w w (
        status (record c {
          mode = if refused then idle else writing;
          position = 0;
          polls = 0;
          failed = refused;
        }),
        put w base (record c {
          mode = if refused then idle else writing;
          position = 0;
          polls = 0;
          failed = refused;
        }),
      )
        ≡ some (
          if refused then false else if m.fails (drive_of c) (address c) then false else true,
          put w base (write_left refused buffer c),
        )
  write_answer_lem fuel select lba buffer w c true lt = refl
  write_answer_lem fuel select lba buffer w c false lt =
      write_end_lem fuel buffer w (record c { polls = 0; failed = false }) lt

  pub write_to_lem :
      (fuel select lba : ℕ) (buffer : Buffer) (w : ℕ → Channel) (ch : Channel)
      → let c = selected select lba ch in
        m.delay (drive_of c) (address c) < fuel
        → write_to (channels m) fuel base select lba buffer (put w base ch)
          ≡ some (
            if m.refuses 0x30 (drive_of c) (address c)
                then false
                else if m.fails (drive_of c) (address c)
                then false
                else true,
            put w base (write_left (m.refuses 0x30 (drive_of c) (address c)) buffer c),
          )
  write_to_lem fuel select lba buffer w ch lt =
      write_to-ready (channels m) fuel base select lba buffer (put w base ch) _ _
        (write-polled fuel select lba w ch lt)
        (inb_lem m base aligned w (commanded 0x30 writing (selected select lba ch)))
      ∙ write_answer_lem fuel select lba buffer w (selected select lba ch) _ lt
