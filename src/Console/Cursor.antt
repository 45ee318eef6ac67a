-- ===== src/Console/Cursor.antt =====
-- The cursor of print.c, and the bytes that its functions write.
use ety_os.Base.{
  ℕ, zero, suc, ◌+◌, ◌-◌, ◌*◌, ◌≤◌, ◌<◌, ◌≡◌, ◌⊎◌, inl, inr, ap, List, [], ◌∷◌, ◌==◌, ltb, leb,
  arith, refl, ◌∙◌, Bool-cases, ltb→lt,
}
use ety_os.Memory.{Ptr, Mem, memory_move}
use ety_os.Memory.Copy.{memory_move_lem}
use ety_os.Console.{
  Console, num_cols, num_rows, screen, place, backspace, put, clear_row_loop, clear_row, clear_rows,
  print_clear, print_newline, step_back, put_here, wrap_line, advance, print_char, print_str,
}

abbrev pub screen_size : ℕ
screen_size = 4000

-- The cursor is at a place of the screen, or behind the last one of its row.
pub record IsCursor (c : Console) : Type 0 where
  pub row_in : c.row < num_rows
  pub col_in : c.col ≤ num_cols

-- No byte outside the screen differs.
abbrev pub SameOffScreen : Mem → Mem → Type 0
SameOffScreen m m' = (x : Ptr) → (x < screen) ⊎ (screen + screen_size ≤ x) → m' x ≡ m x

-- A step of the console that keeps to the screen.
pub record Safe (c c' : Console) : Type 0 where
  pub cursor : IsCursor c'
  pub off_screen : SameOffScreen c.mem c'.mem

pub Safe-trans : {a b c : Console} → Safe a b → Safe b c → Safe a c
Safe-trans s t = record {
  cursor = t.cursor;
  off_screen = λ x o. t.off_screen x o ∙ s.off_screen x o;
}

put-off :
    (row col ch color : ℕ) (m : Mem)
    → row < num_rows
    → col < num_cols
    → SameOffScreen m (put (place row col) ch color m)
unfolding put
put-off row col ch color m lt lt' x o = ground arith

clear_row_loop-off :
    (left col row color : ℕ) (m : Mem)
    → row < num_rows
    → col + left ≤ num_cols
    → SameOffScreen m (clear_row_loop left col row color m)
unfolding clear_row_loop
clear_row_loop-off zero col row color m lt le x o = refl
clear_row_loop-off (suc left) col row color m lt le x o =
    clear_row_loop-off left (col + 1) row color _ lt (omega arith) x o
    ∙ put-off row col b' ' color m lt (omega arith) x o

clear_row-Safe : {c : Console} (row : ℕ) → row < num_rows → IsCursor c → Safe c (clear_row row c)
unfolding clear_row
clear_row-Safe {c} row lt is = record {
  cursor = record { row_in = is.row_in; col_in = is.col_in };
  off_screen = clear_row_loop-off num_cols 0 row c.color c.mem lt (omega arith);
}

clear_rows-Safe :
    (left i : ℕ) (c : Console) → i + left ≤ num_rows → IsCursor c → Safe c (clear_rows left i c)
unfolding clear_rows
clear_rows-Safe zero i c le is = record { cursor = is; off_screen = λ x o. refl }
clear_rows-Safe (suc left) i c le is =
    let s = clear_row-Safe i (omega arith) is in
    Safe-trans s (clear_rows-Safe left (i + 1) (clear_row i c) (omega arith) s.cursor)

pub print_clear-Safe : {c : Console} → IsCursor c → Safe c (print_clear c)
unfolding print_clear
print_clear-Safe {c} is =
    let s =
      clear_rows-Safe num_rows 0 (record c { row = 0 }) (omega arith)
        (record { row_in = omega arith; col_in = is.col_in }) in
    record { cursor = s.cursor; off_screen = s.off_screen }

pub print_newline-Safe : {c : Console} → IsCursor c → Safe c (print_newline c)
unfolding print_newline
print_newline-Safe {c} is = elim (Bool-cases (ltb c.row (num_rows - 1))) [
  | inl e ↦ rw e (record {
    cursor = record { row_in = omega (arith, ltb→lt _ _ e); col_in = omega arith };
    off_screen = λ x o. refl;
  })
  | inr e ↦ rw e (go (record { row_in = is.row_in; col_in = omega arith }))
]
  where
    moved : Console
    moved = record c {
      col = 0;
      mem = (memory_move screen (screen + 2 * num_cols) ((num_rows - 1) * num_cols * 2) c.mem).0;
    }

    go : IsCursor moved → Safe c (clear_row (num_rows - 1) moved)
    go is' =
        let s = clear_row-Safe {c = moved} (num_rows - 1) (omega arith) is' in
        record {
          cursor = s.cursor;
          off_screen = λ x o.
              s.off_screen x o
              ∙ memory_move_lem screen (screen + 2 * num_cols) ((num_rows - 1) * num_cols * 2) c.mem
                  x
              ∙ ground arith;
        }

step_back-IsCursor :
    (c : Console) → IsCursor c → IsCursor (step_back c) × ((step_back c).col < num_cols)
unfolding step_back
step_back-IsCursor c is = ground arith

pub col-print_newline : (c : Console) → (print_newline c).col ≡ 0
unfolding print_newline clear_row
col-print_newline c = ground arith

pub row-print_newline : (c : Console) → c.row < num_rows → (print_newline c).row ≤ 24
unfolding print_newline clear_row
row-print_newline c lt = ground arith

step_back-mem : (c : Console) → (step_back c).mem ≡ c.mem
unfolding step_back
step_back-mem c = ground arith

put_here-Safe : {c : Console} (ch : ℕ) → IsCursor c → c.col < num_cols → Safe c (put_here ch c)
unfolding put_here
put_here-Safe {c} ch is lt = record {
  cursor = record { row_in = is.row_in; col_in = is.col_in };
  off_screen = put-off c.row c.col ch c.color c.mem is.row_in lt;
}

wrap_line-Safe : {c : Console} → IsCursor c → Safe c (wrap_line c) × ((wrap_line c).col < num_cols)
unfolding wrap_line
wrap_line-Safe {c} is = elim (Bool-cases (leb num_cols c.col)) [
  | inl e ↦ rw e (print_newline-Safe is, omega (arith, col-print_newline c))
  | inr e ↦ rw e (record { cursor = is; off_screen = λ x o. refl }, ground arith)
]

advance-Safe : {c : Console} → IsCursor c → c.col < num_cols → Safe c (advance c)
unfolding advance
advance-Safe is lt = record {
  cursor = record { row_in = is.row_in; col_in = omega arith };
  off_screen = λ x o. refl;
}

backspace-Safe : {c : Console} → IsCursor c → Safe c (put_here b' ' (step_back c))
backspace-Safe {c} is =
    let b = step_back-IsCursor c is in
    let s = put_here-Safe b' ' b.0 b.1 in
    record {
      cursor = s.cursor;
      off_screen = λ x o. s.off_screen x o ∙ ap (λ m. m x) (step_back-mem c);
    }

col-put_here : (ch : ℕ) (c : Console) → (put_here ch c).col ≡ c.col
unfolding put_here
col-put_here ch c = refl

-- With the cursor on the screen, `print_char` of any character leaves it there (also after a
-- newline, a backspace, the end of a line and a scroll) and writes no byte outside the 4000 bytes
-- of VGA text memory.
pub print_char-Safe : (ch : ℕ) {c : Console} → IsCursor c → Safe c (print_char ch c)
unfolding print_char
print_char-Safe ch {c} is = elim (Bool-cases (ch == b'\n')) [
  | inl e ↦ rw e (print_newline-Safe is)
  | inr e ↦ rw e (elim (Bool-cases (ch == backspace)) [
    | inl e' ↦ rw e' (backspace-Safe is)
    | inr e' ↦
        let w = wrap_line-Safe is in
        let p = put_here-Safe ch w.0.cursor w.1 in
        let a = advance-Safe p.cursor (omega (arith, w.1, col-put_here ch (wrap_line c))) in
        rw e' (Safe-trans w.0 (Safe-trans p a))
  ])
]

pub print_str-Safe : (s : List ℕ) {c : Console} → IsCursor c → Safe c (print_str s c)
unfolding print_str
print_str-Safe [] is = record { cursor = is; off_screen = λ x o. refl }
print_str-Safe (ch ∷ s) is =
    let p = print_char-Safe ch is in Safe-trans p (print_str-Safe s p.cursor)
