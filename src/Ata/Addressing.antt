-- ===== src/Ata/Addressing.antt =====
-- Which sector a transfer is about, and the bytes that the drive makes of the words of a write.
use ety_os.Base.{
  ℕ, ◌+◌, ◌*◌, ◌/◌, ◌%◌, ◌^◌, ◌<◌, ◌≡◌, ◌≢◌, ◌==◌, ltb, if◌then◌else◌, arith, refl, ◌∙◌, ap, sym,
  fun_ext, Bool-cases, inl, inr, ltb→lt, ltb→le, ==→eq, ==→ne, eq→==, ne→==,
}
use ety_os.Bytes.{Buffer, IsSector}
use ety_os.Ata.{io_base, head}
use ety_os.Ata.Channel.{Channel, put, set_sector, bytes_of}
use ety_os.Ata.Words.{filled, filled_lem, sent}

pub aligned : (c : ℕ) → io_base c % 8 ≡ 0
aligned c = elim (Bool-cases (c == 0)) [ inl e ↦ rw e refl | inr e ↦ rw e refl ]

pub put-same : (w : ℕ → Channel) (base : ℕ) → w ≡ put w base (w base)
put-same w base = fun_ext (λ a. elim (Bool-cases (a == base)) [
  | inl e ↦ rw e (ap w (==→eq a base e))
  | inr e ↦ rw e refl
])

filled-sent :
    (b : Buffer) (fifo : ℕ → ℕ) (i : ℕ) → i < 256 → filled 256 0 (sent b) fifo i ≡ sent b i
filled-sent b fifo i h = filled_lem 256 0 (sent b) fifo i ∙ ground (arith, h)

even_byte : (x y : ℕ) → x < 256 → (x + 256 * y) % 2 ^ 16 % 256 ≡ x
even_byte x y h = omega arith

odd_byte : (x y : ℕ) → x < 256 → y < 256 → (x + 256 * y) % 2 ^ 16 / 256 % 256 ≡ y
odd_byte x y h h' = omega arith

-- The bytes that arrive are those of the buffer.
pub bytes_of-sent :
    (b : Buffer) (fifo : ℕ → ℕ) → IsSector b → bytes_of (filled 256 0 (sent b) fifo) ≡ b
bytes_of-sent b fifo (small, zero_behind) = fun_ext (λ j. elim (Bool-cases (ltb j 512)) [
  | inl e ↦ rw e (at j (ltb→lt j 512 e))
  | inr e ↦ rw e (sym (zero_behind j (ltb→le j 512 e)))
])
  where
    at :
        (j : ℕ)
        → j < 512
        → (if j % 2 == 0
            then filled 256 0 (sent b) fifo (j / 2) % 256
            else filled 256 0 (sent b) fifo (j / 2) / 256 % 256)
          ≡ b j
    at j h = rw (filled-sent b fifo (j / 2) (omega arith)) (elim (Bool-cases (j % 2 == 0)) [
      | inl e ↦ rw e (
          even_byte (b (j / 2 * 2)) (b (j / 2 * 2 + 1)) (small _)
          ∙ ap b (omega (arith, ==→eq (j % 2) 0 e)))
      | inr e ↦ rw e (
          odd_byte (b (j / 2 * 2)) (b (j / 2 * 2 + 1)) (small _) (small _)
          ∙ ap b (omega (arith, ==→ne (j % 2) 0 e)))
    ])

module _ (d a : ℕ) (b : Buffer) (sectors : ℕ → ℕ → Buffer) where
  pub set_sector-eq : set_sector d a b sectors d a ≡ b
  set_sector-eq = rw (eq→== d d refl, eq→== a a refl) refl

  pub set_sector-ne : (d' a' : ℕ) → a' ≢ a → set_sector d a b sectors d' a' ≡ sectors d' a'
  set_sector-ne d' a' ne = elim (Bool-cases (d' == d)) [
    | inl e ↦ rw (e, ne→== a' a ne) refl
    | inr e ↦ rw e refl
  ]

-- The drive and the sector that the registers select.
abbrev pub drive_at : ℕ → ℕ → ℕ
drive_at d l = head d l / 16 % 2

abbrev pub sector_at : ℕ → ℕ → ℕ
sector_at d l =
    l % 256 + 2 ^ 8 * (l / 2 ^ 8 % 256) + 2 ^ 16 * (l / 2 ^ 16 % 256) + 2 ^ 24 * (head d l % 16)

pub sector_at-ne : (d l k : ℕ) → l < 2 ^ 28 → k < 2 ^ 28 → k ≢ l → sector_at d k ≢ sector_at d l
sector_at-ne d l k hl hk ne = omega arith
