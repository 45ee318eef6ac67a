-- ===== src/Console.antt =====
-- source/implementation/x86_64/print.c, the screen: text in VGA memory, a cursor and a colour.
--
-- The screen is the memory of Memory.antt from 0xb8000 on, two bytes for each place. The C code
-- copies a two-byte `struct Char` from its stack there, which is two stores. What a function
-- prints is a text, the characters of its string. `x & 0xF` is `x % 16`, and `x >> k` is
-- `x / 2 ^ k`.
mod Tests
pub mod Cursor
pub mod Scroll
pub mod Typing
pub mod Colors
pub mod Digits
pub mod Numbers
use ety_os.Base.{
  ℕ, zero, suc, ◌+◌, ◌-◌, ◌*◌, ◌/◌, ◌%◌, ◌^◌, Bool, true, false, not, ◌&&◌, ◌||◌, Option, none,
  some, List, [], ◌∷◌, ◌==◌, ltb, leb, if◌then◌else◌,
}
use ety_os.Memory.{Ptr, Mem, store, memory_move}

abbrev pub num_cols : ℕ
num_cols = 80

abbrev pub num_rows : ℕ
num_rows = 25

abbrev pub backspace : ℕ
backspace = 0x08

abbrev pub screen : Ptr
screen = 0xb8000

-- The `static` variables of print.c, over the memory that holds the screen.
pub record Console : Type 0 where
  pub mem : Mem
  pub col : ℕ
  pub row : ℕ
  pub color : ℕ

abbrev pub place : ℕ → ℕ → Ptr
place row col = screen + 2 * (col + num_cols * row)

-- `memory_copy(&buffer[...], &ch, sizeof(struct Char))`.
unfoldable pub put : Ptr → ℕ → ℕ → Mem → Mem
put p character color m = store (store m p character) (p + 1) color

unfoldable pub clear_row_loop : ℕ → ℕ → ℕ → ℕ → Mem → Mem
clear_row_loop zero col row color m = m
clear_row_loop (suc left) col row color m =
    clear_row_loop left (col + 1) row color (put (place row col) b' ' color m)

unfoldable pub clear_row : ℕ → Console → Console
clear_row row c = record c { mem = clear_row_loop num_cols 0 row c.color c.mem }

clear_rows : ℕ → ℕ → Console → Console
clear_rows zero i c = c
clear_rows (suc left) i c = clear_rows left (i + 1) (clear_row i c)

unfoldable pub print_clear : Console → Console
unfolding clear_rows clear_row
print_clear c = clear_rows num_rows 0 (record c { row = 0 })

unfoldable pub print_newline : Console → Console
print_newline c =
    if ltb c.row (num_rows - 1)
    then record c { col = 0; row = c.row + 1 }
    else clear_row (num_rows - 1) (record c {
      col = 0;
      mem = (memory_move screen (screen + 2 * num_cols) ((num_rows - 1) * num_cols * 2) c.mem).0;
    })

-- The cursor after a backspace.
unfoldable pub step_back : Console → Console
step_back c =
    if (c.col == 0) && ltb 0 c.row
    then record c { row = c.row - 1; col = num_cols - 1 }
    else if ltb 0 c.col
    then record c { col = c.col - 1 }
    else c

-- `character` stored at the cursor, in the console's colour.
unfoldable pub put_here : ℕ → Console → Console
unfolding put
put_here character c = record c { mem = put (place c.row c.col) character c.color c.mem }

unfoldable pub wrap_line : Console → Console
wrap_line c = if leb num_cols c.col then print_newline c else c

unfoldable pub advance : Console → Console
advance c = record c { col = c.col + 1 }

unfoldable pub print_char : ℕ → Console → Console
print_char character c =
    if character == b'\n'
    then print_newline c
    else if character == backspace
    then put_here b' ' (step_back c)
    else advance (put_here character (wrap_line c))

unfoldable pub print_str : List ℕ → Console → Console
print_str [] c = c
print_str (ch ∷ s) c = print_str s (print_char ch c)

-- `color` is a `uint8_t`.
unfoldable pub print_set_color : ℕ → ℕ → Console → Console
print_set_color foreground background c = record c {
  color = (foreground + background * 2 ^ 4) % 2 ^ 8;
}

unfoldable pub hex_digit : ℕ → ℕ
hex_digit digit = if ltb digit 10 then b'0' + digit else b'A' + (digit - 10)

unfoldable pub print_hex_digit : ℕ → Console → Console
unfolding hex_digit
print_hex_digit digit c = print_char (hex_digit digit) c

-- The rounds `i - 1` down to 0 of the loop over the eight digits.
unfoldable pub print_hex_loop : ℕ → ℕ → Bool → Console → Console
print_hex_loop zero number started c = c
print_hex_loop (suc i) number started c =
    let digit = number / 2 ^ (i * 4) % 16 in
    let shown = print_hex_loop i number true (print_hex_digit digit c) in
    let skipped = print_hex_loop i number started c in
    if not (digit == 0) || started then shown else skipped

unfoldable pub print_hex : ℕ → Console → Console
print_hex number c =
    if number == 0
    then print_str (b'0' ∷ b'x' ∷ b'0' ∷ []) c
    else print_hex_loop 8 number false (print_str (b'0' ∷ b'x' ∷ []) c)

-- A local `char buffer[11]`, by its index.
abbrev pub Buffer : Type 0
Buffer = ℕ → ℕ

-- The first loop of `print_dec`: the buffer and the number of digits in it, or `none` if the fuel
-- ran out.
unfoldable pub dec_loop : ℕ → ℕ → ℕ → Buffer → Option (Buffer × ℕ)
dec_loop zero number i buffer = none
dec_loop (suc fuel) number i buffer =
    let rest = dec_loop fuel (number / 10) (i + 1) (store buffer i (b'0' + number % 10)) in
    if ltb 0 number then rest else some (buffer, i)

-- The second loop: the digits from the last one stored.
unfoldable pub print_back : ℕ → Buffer → Console → Console
print_back zero buffer c = c
print_back (suc i) buffer c = print_back i buffer (print_char (buffer i) c)

unfoldable pub print_dec : ℕ → ℕ → Console → Option Console
print_dec fuel number c =
    if number == 0 then some (print_char b'0' c) else elim (dec_loop fuel number 0 (λ i. 0)) [
      | none ↦ none
      | some (buffer, i) ↦ some (print_back i buffer c)
    ]

-- The loop of `print_int`: its index and the buffer when it stops.
unfoldable pub int_loop : ℕ → ℕ → Buffer → ℕ × Buffer
int_loop zero num buffer = (0, buffer)
int_loop (suc i) num buffer =
    let rest = int_loop i (num / 10) (store buffer i (b'0' + num % 10)) in
    if ltb 0 num then rest else (suc i, buffer)

-- The text of the string at an index of the buffer, which has 11 bytes.
unfoldable pub text_at : ℕ → Buffer → ℕ → List ℕ
text_at zero buffer i = []
text_at (suc left) buffer i =
    let rest = text_at left buffer (i + 1) in if buffer i == 0 then [] else buffer i ∷ rest

unfoldable pub print_int : ℕ → Console → Console
print_int num c =
    if num == 0
    then print_str (b'0' ∷ []) c
    else (let (i, buffer) = int_loop 10 num (λ i. 0) in print_str (text_at (11 - i) buffer i) c)
