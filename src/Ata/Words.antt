-- ===== src/Ata/Words.antt =====
-- The words of a sector, through the data port of a channel.
use ety_os.Base.{
  ℕ, zero, suc, ◌+◌, ◌*◌, ◌/◌, ◌%◌, ◌^◌, ◌<◌, ◌≡◌, false, ◌&&◌, ◌==◌, ltb, leb, if◌then◌else◌,
  arith, refl, ◌∙◌, ap, ap₂, fun_ext, Bool-cases, inl, inr, ==→eq,
}
use ety_os.Memory.{store}
use ety_os.Bytes.{Buffer}
use ety_os.Ata.{Ports, read_words, write_words}
use ety_os.Ata.Channel.{
  Channel, Medium, idle, reading, writing, drive_of, address, take_word, put, channels, channel_of,
  word_of, bytes_of, set_sector, put_word, give_word,
}
use ety_os.Ata.Commands.{put_self, put-put}

-- The bytes of the sector from `lo` to `hi`, and those of the buffer elsewhere.
abbrev pub overlay : ℕ → ℕ → Buffer → Buffer → Buffer
overlay lo hi sector buffer j = if leb lo j && ltb j hi then sector j % 256 else buffer j

abbrev pub reading_at : ℕ → Channel → Channel
reading_at i ch = record ch { mode = reading; position = i }

abbrev pub writing_at : ℕ → (ℕ → ℕ) → Channel → Channel
writing_at i fifo ch = record ch { mode = writing; position = i; fifo = fifo }

overlay-store :
    (i left : ℕ) (sector buffer : Buffer) (j : ℕ)
    → overlay
        (2 * (i + 1))
        (2 * (i + 1 + left))
        sector
        (store
          (store buffer (i * 2) (word_of sector i % 256))
          (i * 2 + 1)
          (word_of sector i / 256 % 256))
        j
      ≡ overlay (2 * i) (2 * (i + suc left)) sector buffer j
overlay-store i left sector buffer j = elim (Bool-cases (j == 2 * i)) [
  | inl e ↦ rw (==→eq j (2 * i) e) (ground arith)
  | inr e ↦ elim (Bool-cases (j == 2 * i + 1)) [
    | inl e' ↦ rw (==→eq j (2 * i + 1) e') (ground arith)
    | inr e' ↦ ground (arith, e, e')
  ]
]

read_words-next :
    (ports : Ports) (left base i : ℕ) (buffer : Buffer) (w : ports.World) (r : ℕ × ports.World)
    → ports.inw base w ≡ r
    → read_words ports (suc left) base i buffer w
      ≡ read_words ports left base
          (i + 1)
          (store (store buffer (i * 2) (r.0 % 256)) (i * 2 + 1) (r.0 / 256 % 256))
          r.1
unfolding read_words
read_words-next ports left base i buffer w r e =
    ap
      (λ (x : ℕ × ports.World).
        read_words ports left base (i + 1)
          (store (store buffer (i * 2) (x.0 % 256)) (i * 2 + 1) (x.0 / 256 % 256)) x.1)
      e

module _ (m : Medium) (base : ℕ) (aligned : base % 8 ≡ 0) (ch : Channel) where
  pub base_lem : channel_of base ≡ base
  base_lem = omega arith

  abbrev sector_of : Buffer
  sector_of = ch.sectors (drive_of ch) (address ch)

  inw_lem :
      (i : ℕ) (w : ℕ → Channel)
      → (channels m).inw base (put w base (reading_at i ch))
        ≡ (word_of sector_of i, put w base (reading_at (i + 1) ch))
  inw_lem i w = rw base_lem (
      ap
        (λ (x : Channel).
          ((give_word x.mode x).0, put (put w base (reading_at i ch)) base (give_word x.mode x).1))
        (put_self w base (reading_at i ch))
      ∙ ap (λ (v : ℕ → Channel). (word_of sector_of i, v)) (put-put w base (reading_at i ch) _))

  pub read_words_lem :
      (left i : ℕ) (buffer : Buffer) (w : ℕ → Channel)
      → read_words (channels m) left base i buffer (put w base (reading_at i ch))
        ≡ (overlay (2 * i) (2 * (i + left)) sector_of buffer, put w base (reading_at (i + left) ch))
  unfolding read_words
  read_words_lem zero i buffer w =
      let e : i ≡ i + 0 = omega arith in
      ap₂ (λ (b : Buffer) (n : ℕ). (b, put w base (reading_at n ch))) (fun_ext (λ j. ground arith))
        e
  read_words_lem (suc left) i buffer w =
      let e : i + 1 + left ≡ i + suc left = omega arith in
      read_words-next (channels m) left base i buffer (put w base (reading_at i ch)) _ (inw_lem i w)
      ∙ read_words_lem left (i + 1) _ w
      ∙ ap₂ (λ (b : Buffer) (n : ℕ). (b, put w base (reading_at n ch)))
          (fun_ext (λ j. overlay-store i left sector_of buffer j)) e

-- The word that the driver sends for bytes 2 i and 2 i + 1.
abbrev pub sent : Buffer → ℕ → ℕ
sent buffer i = (buffer (i * 2) + 256 * buffer (i * 2 + 1)) % 2 ^ 16

-- The words from `i` on, as they arrive.
unfoldable pub filled : ℕ → ℕ → (ℕ → ℕ) → (ℕ → ℕ) → ℕ → ℕ
filled zero i words fifo = fifo
filled (suc left) i words fifo = filled left (i + 1) words (store fifo i (words i))

pub filled_lem :
    (left i : ℕ) (words fifo : ℕ → ℕ) (j : ℕ)
    → filled left i words fifo j ≡ (if leb i j && ltb j (i + left) then words j else fifo j)
unfolding filled
filled_lem zero i words fifo j = ground arith
filled_lem (suc left) i words fifo j =
    filled_lem left (i + 1) words (store fifo i (words i)) j ∙ elim (Bool-cases (j == i)) [
      | inl e ↦ rw (==→eq j i e) (ground arith)
      | inr e ↦ ground (arith, e)
    ]

module _ (m : Medium) (base : ℕ) (aligned : base % 8 ≡ 0) (ch : Channel) where
  -- The channel when the last word has arrived.
  abbrev pub written : (ℕ → ℕ) → Channel
  written fifo = record ch {
    mode = idle;
    position = 255;
    fifo = fifo;
    polls = m.delay (drive_of ch) (address ch);
    failed = m.fails (drive_of ch) (address ch);
    sectors = set_sector (drive_of ch) (address ch) (bytes_of fifo) ch.sectors;
  }

  outw_lem :
      (i v : ℕ) (fifo : ℕ → ℕ) (w : ℕ → Channel)
      → (channels m).outw base v (put w base (writing_at i fifo ch))
        ≡ put w base (take_word m v (writing_at i fifo ch))
  outw_lem i v fifo w = rw (base_lem m base aligned ch) (
      ap (λ (x : Channel). put (put w base (writing_at i fifo ch)) base (put_word m x.mode v x))
        (put_self w base (writing_at i fifo ch))
      ∙ put-put w base (writing_at i fifo ch) _)

  take-last :
      (v : ℕ) (fifo : ℕ → ℕ) → take_word m v (writing_at 255 fifo ch) ≡ written (store fifo 255 v)
  unfolding take_word
  take-last v fifo = refl

  take-next :
      (i v : ℕ) (fifo : ℕ → ℕ)
      → i < 255
      → take_word m v (writing_at i fifo ch) ≡ writing_at (i + 1) (store fifo i v) ch
  unfolding take_word
  take-next i v fifo h = let e : (i == 255) ≡ false = ground arith in rw e refl

  pub write_words_lem :
      (left i : ℕ) (buffer : Buffer) (fifo : ℕ → ℕ) (w : ℕ → Channel)
      → i + left ≡ 255
      → write_words (channels m) (suc left) base i buffer (put w base (writing_at i fifo ch))
        ≡ put w base (written (filled (suc left) i (sent buffer) fifo))
  unfolding write_words filled
  write_words_lem zero i buffer fifo w e =
      let e' : i ≡ 255 = omega (arith, e) in
      outw_lem i (sent buffer i) fifo w ∙ rw e' (ap (put w base) (take-last (sent buffer 255) fifo))
  write_words_lem (suc left) i buffer fifo w e =
      ap (write_words (channels m) (suc left) base (i + 1) buffer) (
        outw_lem i (sent buffer i) fifo w
        ∙ ap (put w base) (take-next i (sent buffer i) fifo (omega (arith, e))))
      ∙ write_words_lem left (i + 1) buffer (store fifo i (sent buffer i)) w (omega (arith, e))
