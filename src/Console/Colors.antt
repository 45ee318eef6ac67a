-- ===== src/Console/Colors.antt =====
-- What is printed keeps the colour.
use ety_os.Base.{
  ℕ, zero, suc, ◌+◌, ◌≡◌, refl, ◌∙◌, List, [], ◌∷◌, ◌==◌, leb, Bool-cases, inl, inr, arith,
}
use ety_os.Console.{
  Console, print_char, print_str, print_newline, print_clear, wrap_line, advance, put_here,
  step_back, clear_row, clear_rows,
}

pub color-print_newline : (c : Console) → (print_newline c).color ≡ c.color
unfolding print_newline clear_row
color-print_newline c = ground arith

color-wrap_line : (c : Console) → (wrap_line c).color ≡ c.color
unfolding wrap_line
color-wrap_line c = elim (Bool-cases (leb 80 c.col)) [
  | inl e ↦ rw e (color-print_newline c)
  | inr e ↦ rw e refl
]

color-step_back : (c : Console) → (step_back c).color ≡ c.color
unfolding step_back
color-step_back c = ground arith

color-print_char : (ch : ℕ) (c : Console) → (print_char ch c).color ≡ c.color
unfolding print_char advance put_here
color-print_char ch c = elim (Bool-cases (ch == b'\n')) [
  | inl e ↦ rw e (color-print_newline c)
  | inr e ↦ rw e (elim (Bool-cases (ch == 8)) [
    | inl e' ↦ rw e' (color-step_back c)
    | inr e' ↦ rw e' (color-wrap_line c)
  ])
]

pub color-print_str : (s : List ℕ) (c : Console) → (print_str s c).color ≡ c.color
unfolding print_str
color-print_str [] c = refl
color-print_str (ch ∷ s) c = color-print_str s (print_char ch c) ∙ color-print_char ch c

clear_rows-color : (left i : ℕ) (c : Console) → (clear_rows left i c).color ≡ c.color
unfolding clear_rows clear_row
clear_rows-color zero i c = refl
clear_rows-color (suc left) i c = clear_rows-color left (i + 1) _

pub color-print_clear : (c : Console) → (print_clear c).color ≡ c.color
unfolding print_clear
color-print_clear c = clear_rows-color 25 0 (record c { row = 0 })
