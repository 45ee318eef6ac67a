-- ===== src/Ata/Ready.antt =====
-- The transfers after their polls, on any machine.
use ety_os.Base.{ℕ, ◌+◌, ◌≡◌, Bool, true, false, Option, none, some, if◌then◌else◌, ◌∙◌, ap}
use ety_os.Bytes.{Buffer}
use ety_os.Ata.{
  Ports, read_sectors, write_sectors, in_error, issue, wait_ready, read_words, write_words,
  read_from, write_to, write_end,
}

module _ (ports : Ports) (fuel base select lba : ℕ) (buffer : Buffer) (w w' : ports.World) where
  abbrev pub read_answer : ℕ × ports.World → Option (Option Buffer × ports.World)
  read_answer (s, u) =
      if in_error s
      then some (none, u)
      else (let (bytes, u') = read_words ports 256 base 0 buffer u in some (some bytes, u'))

  pub read_from-ready :
      (r : ℕ × ports.World)
      → wait_ready ports fuel base (issue ports base select lba read_sectors w) ≡ some w'
      → ports.inb (base + 7) w' ≡ r
      → read_from ports fuel base select lba buffer w ≡ read_answer r
  unfolding read_from
  read_from-ready r e e' =
      ap
        (λ (o : Option ports.World). elim o as (λ _. Option (Option Buffer × ports.World)) [
          | none ↦ none
          | some u ↦ read_answer (ports.inb (base + 7) u)
        ])
        e
      ∙ ap read_answer e'

  abbrev pub write_answer : ℕ × ports.World → Option (Bool × ports.World)
  write_answer (s, u) =
      if in_error s
      then some (false, u)
      else write_end ports fuel base (write_words ports 256 base 0 buffer u)

  pub write_to-ready :
      (r : ℕ × ports.World)
      → wait_ready ports fuel base (issue ports base select lba write_sectors w) ≡ some w'
      → ports.inb (base + 7) w' ≡ r
      → write_to ports fuel base select lba buffer w ≡ write_answer r
  unfolding write_to
  write_to-ready r e e' =
      ap
        (λ (o : Option ports.World). elim o as (λ _. Option (Bool × ports.World)) [
          | none ↦ none
          | some u ↦ write_answer (ports.inb (base + 7) u)
        ])
        e
      ∙ ap write_answer e'

  abbrev end_answer : ℕ × ports.World → Option (Bool × ports.World)
  end_answer (s, u) = some (if in_error s then false else true, u)

  pub write_end-ready :
      (r : ℕ × ports.World)
      → wait_ready ports fuel base w ≡ some w'
      → ports.inb (base + 7) w' ≡ r
      → write_end ports fuel base w ≡ end_answer r
  unfolding write_end
  write_end-ready r e e' =
      ap
        (λ (o : Option ports.World). elim o as (λ _. Option (Bool × ports.World)) [
          | none ↦ none
          | some u ↦ end_answer (ports.inb (base + 7) u)
        ])
        e
      ∙ ap end_answer e'
