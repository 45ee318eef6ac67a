-- ===== src/Ata/Commands.antt =====
-- Port accesses of the driver on a channel, and the sector that a command selects.
use ety_os.Base.{
  ℕ, zero, suc, ◌+◌, ◌-◌, ◌/◌, ◌%◌, ◌^◌, ◌<◌, ◌≡◌, true, false, Option, some, ltb, arith, refl, ◌∙◌,
  ap, ap₂, fun_ext, Bool-cases, inl, inr, lt→ltb, ltb→lt, ltb→le,
}
use ety_os.Ata.{Ports, head, busy, issue, wait_ready}
use ety_os.Ata.Channel.{
  Channel, Medium, drive_of, address, set_register, put, channels, channel_of, status,
}

-- The channel with its address registers set.
abbrev pub selected : ℕ → ℕ → Channel → Channel
selected select lba ch = record ch {
  select = select;
  low = lba % 256;
  mid = lba / 2 ^ 8 % 256;
  high = lba / 2 ^ 16 % 256;
}

-- The six registers select the drive and the low 28 bits of the LBA.
pub address_lem :
    (drive lba : ℕ) (ch : Channel)
    → (drive_of (selected (head drive lba) lba ch) ≡ drive % 2)
      × (address (selected (head drive lba) lba ch) ≡ lba % 2 ^ 28)
address_lem drive lba ch = (omega arith, omega arith)

pub put_self : (w : ℕ → Channel) (base : ℕ) (ch : Channel) → put w base ch base ≡ ch
put_self w base ch = ground arith

pub put-put :
    (w : ℕ → Channel) (base : ℕ) (x y : Channel) → put (put w base x) base y ≡ put w base y
put-put w base x y = fun_ext (λ a. ground arith)

pub channel_of_lem : (base r : ℕ) → base % 8 ≡ 0 → r < 8 → channel_of (base + r) ≡ base
channel_of_lem base r aligned h = omega arith

module _ (ports : Ports) (fuel base : ℕ) (w : ports.World) where
  wait-again :
      (r : ℕ × ports.World)
      → ports.inb (base + 7) w ≡ r
      → busy r.0 ≡ true
      → wait_ready ports (suc fuel) base w ≡ wait_ready ports fuel base r.1
  unfolding wait_ready
  wait-again r e b =
      ap
        (λ (x : ℕ × ports.World). elim (busy x.0) as (λ _. Option ports.World) [
          | true ↦ wait_ready ports fuel base x.1
          | false ↦ some x.1
        ])
        e
      ∙ rw b refl

  wait-ends :
      (r : ℕ × ports.World)
      → ports.inb (base + 7) w ≡ r
      → busy r.0 ≡ false
      → wait_ready ports (suc fuel) base w ≡ some r.1
  unfolding wait_ready
  wait-ends r e b =
      ap
        (λ (x : ℕ × ports.World). elim (busy x.0) as (λ _. Option ports.World) [
          | true ↦ wait_ready ports fuel base x.1
          | false ↦ some x.1
        ])
        e
      ∙ rw b refl

module _ (m : Medium) (base : ℕ) (aligned : base % 8 ≡ 0) where
  pub outb_lem :
      (r v : ℕ) (w : ℕ → Channel) (ch : Channel)
      → r < 8
      → (channels m).outb (base + r) v (put w base ch) ≡ put w base (set_register m r v ch)
  outb_lem r v w ch h =
      let e : (base + r) % 8 ≡ r = omega arith in
      rw (channel_of_lem base r aligned h, e)
        (put-put w base ch _ ∙ ap (λ x. put w base (set_register m r v x)) (put_self w base ch))

  pub outb_from :
      (r v : ℕ) (w : ℕ → Channel) (ch : Channel) {w' : ℕ → Channel}
      → r < 8
      → w' ≡ put w base ch
      → (channels m).outb (base + r) v w' ≡ put w base (set_register m r v ch)
  outb_from r v w ch h e = ap ((channels m).outb (base + r) v) e ∙ outb_lem r v w ch h

  pub inb_lem :
      (w : ℕ → Channel) (ch : Channel)
      → (channels m).inb (base + 7) (put w base ch)
        ≡ (status ch, put w base (record ch { polls = ch.polls - 1 }))
  inb_lem w ch = rw (channel_of_lem base 7 aligned (omega arith)) (
      ap₂ (λ (s : ℕ) (v : ℕ → Channel). (s, v)) (ap status (put_self w base ch))
        (put-put w base ch _
          ∙ ap (λ (x : Channel). put w base (record x { polls = x.polls - 1 }))
              (put_self w base ch)))

  pub issue_lem :
      (select lba code : ℕ) (w : ℕ → Channel) (ch : Channel)
      → issue (channels m) base select lba code (put w base ch)
        ≡ put w base (set_register m 7 code (selected select lba ch))
  unfolding issue set_register
  issue_lem select lba code w ch =
      let c1 : Channel = record ch { select = select } in
      let c3 : Channel = record c1 { low = lba % 256 } in
      let c4 : Channel = record c3 { mid = lba / 2 ^ 8 % 256 } in
      let c5 : Channel = record c4 { high = lba / 2 ^ 16 % 256 } in
      outb_from 7 code w c5 (omega arith) (
        outb_from 5 (lba / 2 ^ 16 % 256) w c4 (omega arith) (
          outb_from 4 (lba / 2 ^ 8 % 256) w c3 (omega arith) (
            outb_from 3 (lba % 256) w c1 (omega arith)
              (outb_from 2 1 w c1 (omega arith) (outb_lem 6 select w ch (omega arith))))))

  busy_lem : (ch : Channel) → 0 < ch.polls → busy (status ch) ≡ true
  busy_lem ch h = rw (lt→ltb 0 ch.polls h) refl

  not_busy_lem : (ch : Channel) → ch.polls ≡ 0 → busy (status ch) ≡ false
  not_busy_lem ch h = elim (Bool-cases ch.failed) [
    | inl e ↦ rw (h, e) refl
    | inr e ↦ rw (h, e) refl
  ]

  -- The poll ends with the drive ready, given a round for each busy one and one more.
  pub wait_ready_lem :
      (fuel : ℕ) (w : ℕ → Channel) (ch : Channel)
      → ch.polls < fuel
      → wait_ready (channels m) fuel base (put w base ch)
        ≡ some (put w base (record ch { polls = 0 }))
  wait_ready_lem zero w ch h = absurd (omega arith)
  wait_ready_lem (suc fuel) w ch h = elim (Bool-cases (ltb 0 ch.polls)) [
    | inl e ↦
        wait-again (channels m) fuel base (put w base ch) _ (inb_lem w ch)
          (busy_lem ch (ltb→lt 0 ch.polls e))
        ∙ wait_ready_lem fuel w (record ch { polls = ch.polls - 1 })
            (omega (arith, ltb→lt 0 ch.polls e))
    | inr e ↦
        wait-ends (channels m) fuel base (put w base ch) _ (inb_lem w ch)
          (not_busy_lem ch (omega (arith, ltb→le 0 ch.polls e)))
        ∙ ap (λ n. some (put w base (record ch { polls = n }))) (omega (arith, ltb→le 0 ch.polls e))
  ]
