-- ===== src/Ata/Answers.antt =====
-- IDENTIFY on a channel: the words that a drive answers with.
use ety_os.Base.{
  ℕ, zero, suc, ◌+◌, ◌-◌, ◌*◌, ◌%◌, ◌<◌, ◌≡◌, false, Option, none, some, ◌==◌, ltb, leb, ◌&&◌,
  if◌then◌else◌, arith, refl, ◌∙◌, ap, fun_ext, Bool-cases, inl, inr,
}
use ety_os.Memory.{store}
use ety_os.Ata.{Ports, io_base, wait_ready, read_identify, identify}
use ety_os.Ata.Channel.{
  Channel, Medium, identifying, give_word, drive_of, address, set_register, put, channels, status,
}
use ety_os.Ata.Commands.{inb_lem, outb_from, outb_lem, wait_ready_lem, put_self, put-put}
use ety_os.Ata.Words.{filled, filled_lem, base_lem}
use ety_os.Ata.Addressing.{aligned, put-same}
use ety_os.Ata.Identify.{put-SameSectors}

-- IDENTIFY after its poll, on any machine.
identify-ready :
    (ports : Ports) (fuel c d : ℕ) (b : ℕ → ℕ) (w w' : ports.World) (r : ℕ × ports.World)
    → ports.inb
        (io_base c + 7)
        (ports.outb (io_base c + 7) 0xEC (ports.outb (io_base c + 6) (0xA0 + 16 * d) w))
      ≡ r
    → (r.0 == 0) ≡ false
    → wait_ready ports fuel (io_base c) r.1 ≡ some w'
    → identify ports fuel c d b w
      ≡ some (
        some (read_identify ports 256 (io_base c) 0 b w').0,
        (read_identify ports 256 (io_base c) 0 b w').1,
      )
unfolding identify
identify-ready ports fuel c d b w w' r e z ready =
    ap answer e
    ∙ rw z (
        ap
          (λ (o : Option ports.World). elim o as (λ _. Option (Option (ℕ → ℕ) × ports.World)) [
            | none ↦ none
            | some u ↦ some (
              some (read_identify ports 256 (io_base c) 0 b u).0,
              (read_identify ports 256 (io_base c) 0 b u).1,
            )
          ])
          ready)
  where
    answer : ℕ × ports.World → Option (Option (ℕ → ℕ) × ports.World)
    answer (s, v) =
        let answered =
          elim (wait_ready ports fuel (io_base c) v)
            as (λ _. Option (Option (ℕ → ℕ) × ports.World)) [
              | none ↦ none
              | some u ↦ some (
                some (read_identify ports 256 (io_base c) 0 b u).0,
                (read_identify ports 256 (io_base c) 0 b u).1,
              )
            ] in
        if s == 0 then some (none, v) else answered

read_identify-next :
    (ports : Ports) (left base i : ℕ) (b : ℕ → ℕ) (w : ports.World) (r : ℕ × ports.World)
    → ports.inw base w ≡ r
    → read_identify ports (suc left) base i b w
      ≡ read_identify ports left base (i + 1) (store b i r.0) r.1
unfolding read_identify
read_identify-next ports left base i b w r e =
    ap (λ (x : ℕ × ports.World). read_identify ports left base (i + 1) (store b i x.0) x.1) e

module _ (m : Medium) (base : ℕ) (al : base % 8 ≡ 0) (ch : Channel) where
  abbrev identifying_at : ℕ → Channel
  identifying_at i = record ch { mode = identifying; position = i }

  abbrev words_of : ℕ → ℕ
  words_of = ch.identity (drive_of ch)

  inw_word :
      (i : ℕ) (w : ℕ → Channel)
      → (channels m).inw base (put w base (identifying_at i))
        ≡ (words_of i, put w base (identifying_at (i + 1)))
  inw_word i w = rw (base_lem m base al ch) (
      ap
        (λ (x : Channel).
          ((give_word x.mode x).0, put (put w base (identifying_at i)) base (give_word x.mode x).1))
        (put_self w base (identifying_at i))
      ∙ ap (λ (v : ℕ → Channel). (words_of i, v)) (put-put w base (identifying_at i) _))

  read_identify_lem :
      (left i : ℕ) (b : ℕ → ℕ) (w : ℕ → Channel)
      → read_identify (channels m) left base i b (put w base (identifying_at i))
        ≡ (filled left i words_of b, put w base (identifying_at (i + left)))
  unfolding read_identify filled
  read_identify_lem zero i b w =
      let e : i ≡ i + 0 = omega arith in ap (λ n. (b, put w base (identifying_at n))) e
  read_identify_lem (suc left) i b w =
      let e : i + 1 + left ≡ i + suc left = omega arith in
      read_identify-next (channels m) left base i b (put w base (identifying_at i)) _ (inw_word i w)
      ∙ read_identify_lem left (i + 1) (store b i (words_of i)) w
      ∙ ap
          (λ n.
            (filled left (i + 1) words_of (store b i (words_of i)), put w base (identifying_at n)))
          e

status-answers : (ch : Channel) → (status ch == 0) ≡ false
status-answers ch = elim (Bool-cases (ltb 0 ch.polls)) [
  | inl e ↦ rw e refl
  | inr e ↦ rw e (elim (Bool-cases ch.failed) [ inl f ↦ rw f refl | inr f ↦ rw f refl ])
]

module _ (m : Medium) (fuel c d : ℕ) (b : ℕ → ℕ) (w : ℕ → Channel) (ch : Channel) where
  -- The channel once the command is sent, with `n` polls to go.
  abbrev asked : ℕ → Channel
  asked n = record ch {
    select = 0xA0 + 16 * d;
    mode = identifying;
    position = 0;
    polls = n;
    failed = false;
  }

  abbrev busy_for : ℕ
  busy_for =
      m.delay (drive_of (record ch { select = 0xA0 + 16 * d }))
        (address (record ch { select = 0xA0 + 16 * d }))

  sent_command :
      (channels m).outb
        (io_base c + 7)
        0xEC
        ((channels m).outb (io_base c + 6) (0xA0 + 16 * d) (put w (io_base c) ch))
      ≡ put w (io_base c) (asked busy_for)
  unfolding set_register
  sent_command =
      outb_from m (io_base c) (aligned c) 7 0xEC w (record ch { select = 0xA0 + 16 * d })
        (omega arith) (outb_lem m (io_base c) (aligned c) 6 (0xA0 + 16 * d) w ch (omega arith))

  identify_lem :
      busy_for < fuel
      → identify (channels m) fuel c d b (put w (io_base c) ch)
        ≡ some (
          some (filled 256 0 (ch.identity (drive_of (asked 0))) b),
          put w (io_base c) (record (asked 0) { position = 256 }),
        )
  identify_lem lt =
      let base = io_base c in
      identify-ready (channels m) fuel c d b (put w base ch) (put w base (asked 0))
        (status (asked busy_for), put w base (asked (busy_for - 1)))
        (ap ((channels m).inb (base + 7)) sent_command
          ∙ inb_lem m base (aligned c) w (asked busy_for))
        (status-answers (asked busy_for))
        (wait_ready_lem m base (aligned c) fuel w (asked (busy_for - 1)) (omega arith))
      ∙ ap (λ (r : (ℕ → ℕ) × (ℕ → Channel)). some (some r.0, r.1))
          (read_identify_lem m base (aligned c) (asked 0) 256 0 b w)

whole_answer :
    (i x y : ℕ) → (if leb 0 i && ltb i (0 + 256) then x else y) ≡ (if ltb i 256 then x else y)
whole_answer i x y = ground arith

-- On drives that answer within the fuel, IDENTIFY of drive `d` ends: it gives the 256 words of that
-- drive's answer, in whatever state its channel was, and changes no sector of any drive.
pub identify-answers :
    (m : Medium) (fuel c d : ℕ) (b : ℕ → ℕ) (w : ℕ → Channel)
    → d < 2
    → ((d' a : ℕ) → m.delay d' a < fuel)
    → (w' : ℕ → Channel) × (identify (channels m) fuel c d b w
        ≡ some (some (λ i. if ltb i 256 then (w (io_base c)).identity d i else b i), w'))
      × ((a : ℕ) → (w' a).sectors ≡ (w a).sectors)
identify-answers m fuel c d b w lt answers =
    let ch = w (io_base c) in
    let drive : drive_of (asked m fuel c d b w ch 0) ≡ d = omega arith in
    (
      put w (io_base c) (record (asked m fuel c d b w ch 0) { position = 256 }),
      ap (identify (channels m) fuel c d b) (put-same w (io_base c))
          ∙ identify_lem m fuel c d b w ch (answers _ _)
          ∙ ap
              (λ (f : ℕ → ℕ).
                some (
                  some f,
                  put w (io_base c) (record (asked m fuel c d b w ch 0) { position = 256 }),
                ))
              (fun_ext (λ i.
                filled_lem 256 0 (ch.identity (drive_of (asked m fuel c d b w ch 0))) b i
                ∙ whole_answer i _ _
                ∙ ap (λ k. if ltb i 256 then ch.identity k i else b i) drive)),
      put-SameSectors w (io_base c) _ refl,
    )
