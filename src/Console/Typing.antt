-- ===== src/Console/Typing.antt =====
-- What `print_char` shows, and what a backspace takes back.
use ety_os.Base.{
  ℕ, ◌+◌, ◌-◌, ◌<◌, ◌≡◌, ◌≢◌, ◌==◌, ◌&&◌, arith, refl, if◌then◌else◌, ne→==, lt→leb, ◌∙◌, lt→ltb,
  ap₂,
}
use ety_os.Console.{
  Console, num_cols, place, put, step_back, put_here, wrap_line, advance, print_char,
}
use ety_os.Console.Scroll.{cell, put-cell}

-- Within a row, a character that is no newline and no backspace appears at the cursor in the
-- console's colour, every other place stays as it is, and the cursor moves one place on.
pub print_char-cell :
    (ch : ℕ) (c : Console)
    → c.col < 80
    → ch ≢ b'\n'
    → ch ≢ 0x08
    → ((print_char ch c).row ≡ c.row)
      × ((print_char ch c).col ≡ c.col + 1)
      × ((print_char ch c).color ≡ c.color)
      × ((r k : ℕ)
          → k < 80
          → cell (print_char ch c).mem r k
            ≡ (if (r == c.row) && (k == c.col) then (ch, c.color) else cell c.mem r k))
unfolding print_char advance put_here wrap_line
print_char-cell ch c lt nl bs =
    rw (ne→== ch b'\n' nl, ne→== ch 0x08 bs, lt→leb num_cols c.col lt)
      (refl, refl, refl, λ r k lt'. put-cell c.row c.col ch c.color c.mem r k lt' lt)

step_back_lem : (d : Console) → 0 < d.col → step_back d ≡ record d { col = d.col - 1 }
unfolding step_back
step_back_lem d h = rw (lt→ltb 0 d.col h, ne→== d.col 0 (omega arith))

backspace_lem :
    (d : Console)
    → 0 < d.col
    → print_char 0x08 d
      ≡ record d { col = d.col - 1; mem = put (place d.row (d.col - 1)) b' ' d.color d.mem }
unfolding print_char put_here
backspace_lem d h = rw (step_back_lem d h)

-- A backspace after such a character puts the cursor back and leaves a blank where the character
-- stood; every other place of the screen is what it was before the character.
pub print_char_undo :
    (ch : ℕ) (c : Console)
    → c.col < 80
    → ch ≢ b'\n'
    → ch ≢ 0x08
    → let c' = print_char 0x08 (print_char ch c) in
      (c'.row ≡ c.row)
      × (c'.col ≡ c.col)
      × ((r k : ℕ)
          → k < 80
          → cell c'.mem r k
            ≡ (if (r == c.row) && (k == c.col) then (b' ', c.color) else cell c.mem r k))
print_char_undo ch c lt nl bs =
    let p = print_char ch c in
    let (row, col, color, cells) = print_char-cell ch c lt nl bs in
    let e = backspace_lem p (omega (arith, col)) in
    let back : p.col - 1 ≡ c.col = omega (arith, col) in
    (
      rw e row,
      rw e back,
      λ r k lt'. rw e (
          put-cell p.row (p.col - 1) b' ' p.color p.mem r k lt' (omega (arith, back))
          ∙ ap₂ (λ a b. if (r == a) && (k == b) then (b' ', p.color) else cell p.mem r k) row back
          ∙ again r k color (cells r k lt')),
    )
  where
    again :
        (r k : ℕ)
        → (print_char ch c).color ≡ c.color
        → cell (print_char ch c).mem r k
          ≡ (if (r == c.row) && (k == c.col) then (ch, c.color) else cell c.mem r k)
        → (if (r == c.row) && (k == c.col)
            then (b' ', (print_char ch c).color)
            else cell (print_char ch c).mem r k)
          ≡ (if (r == c.row) && (k == c.col) then (b' ', c.color) else cell c.mem r k)
    again r k e h = rw (e, h) (ground arith)
