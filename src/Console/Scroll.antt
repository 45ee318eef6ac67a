-- ===== src/Console/Scroll.antt =====
-- What stands on the screen after a newline.
use ety_os.Base.{
  ℕ, zero, suc, ◌+◌, ◌-◌, ◌*◌, ◌≤◌, ◌<◌, ◌≡◌, inl, inr, ◌==◌, leb, arith, refl, ◌∙◌, ap, ap₂,
  le→leb, ==→ne, if◌then◌else◌, Bool-cases, le→ltb, lt→ltb, ◌&&◌,
}
use ety_os.Memory.{Ptr, Mem, memory_move}
use ety_os.Memory.Copy.{memory_move_lem}
use ety_os.Console.Cursor.{col-print_newline}
use ety_os.Console.{
  Console, num_cols, num_rows, screen, place, put, clear_row_loop, clear_row, print_newline,
}

-- The character and the colour at a place of the screen.
abbrev pub cell : Mem → ℕ → ℕ → ℕ × ℕ
cell m row col = (m (place row col), m (place row col + 1))

pub put-cell :
    (row col ch color : ℕ) (m : Mem) (r k : ℕ)
    → k < num_cols
    → col < num_cols
    → cell (put (place row col) ch color m) r k
      ≡ (if (r == row) && (k == col) then (ch, color) else cell m r k)
unfolding put
put-cell row col ch color m r k lt lt' = ground arith

-- Clearing a row blanks the places from `col` on, and only those.
clear_row_loop-cell :
    (left col row color : ℕ) (m : Mem) (r k : ℕ)
    → k < num_cols
    → col + left ≡ num_cols
    → cell (clear_row_loop left col row color m) r k
      ≡ (if (r == row) && leb col k then (b' ', color) else cell m r k)
unfolding clear_row_loop
clear_row_loop-cell zero col row color m r k lt e = ground arith
clear_row_loop-cell (suc left) col row color m r k lt e =
    clear_row_loop-cell left (col + 1) row color _ r k lt (omega arith)
    ∙ rw (put-cell row col b' ' color m r k lt (omega arith)) (ground arith)

pub clear_row-cell :
    (row : ℕ) (c : Console) (r k : ℕ)
    → k < num_cols
    → cell (clear_row row c).mem r k ≡ (if r == row then (b' ', c.color) else cell c.mem r k)
unfolding clear_row
clear_row-cell row c r k lt =
    clear_row_loop-cell num_cols 0 row c.color c.mem r k lt refl ∙ ground arith

row-clear_row : (row : ℕ) (c : Console) → (clear_row row c).row ≡ c.row
unfolding clear_row
row-clear_row row c = refl

-- One row up, in one move of memory over itself.
move-cell :
    (m : Mem) (r k : ℕ)
    → k < num_cols
    → r < num_rows - 1
    → cell (memory_move screen (screen + 2 * num_cols) ((num_rows - 1) * num_cols * 2) m).0 r k
      ≡ cell m (r + 1) k
move-cell m r k lt lt' =
    ap₂ (λ a b. (a, b))
      (byte (place r k) (place (r + 1) k) (omega arith) (omega arith) (omega arith))
      (byte (place r k + 1) (place (r + 1) k + 1) (omega arith) (omega arith) (omega arith))
  where
    byte :
        (x y : Ptr)
        → screen ≤ x
        → x < screen + 3840
        → y ≡ x + 160
        → (memory_move screen (screen + 2 * num_cols) ((num_rows - 1) * num_cols * 2) m).0 x ≡ m y
    byte x y lo hi e =
        memory_move_lem screen (screen + 2 * num_cols) ((num_rows - 1) * num_cols * 2) m x
        ∙ rw (le→leb screen x lo, lt→ltb x (screen + 3840) hi) (ap m (omega arith))

-- `print_newline` puts the cursor at the start of the next row and changes no place of the screen,
-- while there is a next row. On the last row the cursor stays there, each row takes what stood in
-- the one below it, and the last row becomes blank in the console's colour.
pub print_newline-cell :
    (c : Console)
    → ((print_newline c).col ≡ 0)
      × (c.row < 24 → ((print_newline c).row ≡ c.row + 1) × ((print_newline c).mem ≡ c.mem))
      × (24 ≤ c.row
          → ((print_newline c).row ≡ c.row)
            × ((r k : ℕ)
                → k < 80
                → r < 25
                → cell (print_newline c).mem r k
                  ≡ (if r == 24 then (b' ', c.color) else cell c.mem (r + 1) k)))
unfolding print_newline
print_newline-cell c = (
  col-print_newline c,
  λ lt. rw (lt→ltb c.row 24 lt) (refl, refl),
  λ le.
      rw (le→ltb c.row 24 le)
        (row-clear_row 24 moved, λ r k lt lt'. clear_row-cell 24 moved r k lt ∙ last r k lt lt'),
)
  where
    moved : Console
    moved = record c {
      col = 0;
      mem = (memory_move screen (screen + 2 * num_cols) ((num_rows - 1) * num_cols * 2) c.mem).0;
    }

    last :
        (r k : ℕ)
        → k < 80
        → r < 25
        → (if r == 24 then (b' ', c.color) else cell moved.mem r k)
          ≡ (if r == 24 then (b' ', c.color) else cell c.mem (r + 1) k)
    last r k lt lt' = elim (Bool-cases (r == 24)) [
      | inl e ↦ rw e
      | inr e ↦ rw e (move-cell c.mem r k lt (omega (arith, ==→ne _ _ e)))
    ]
