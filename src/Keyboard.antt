-- ===== src/Keyboard.antt =====
-- source/implementation/x86_64/print.c, the keyboard: `get_char` and `read_input`.
--
-- What the status and data ports give is the sequence of the scan codes still to come; `none` is a
-- call that waits for a code when they are at an end. The line buffer is its bytes by index.
mod Tests
pub mod Reading
pub mod Echo
pub mod Typed
pub mod InMemory
use ety_os.Base.{
  ℕ, zero, suc, ◌+◌, ◌-◌, ◌*◌, Bool, not, ◌&&◌, ◌||◌, Option, none, some, List, [], ◌∷◌, ◌==◌, ltb,
  if◌then◌else◌, get_or,
}
use ety_os.Memory.{store, memory_zero}
use ety_os.Bytes.{Buffer}
use ety_os.Console.{Console, backspace, print_char}

-- `shift_pressed` and `caps_lock_enabled`.
pub record Keyboard : Type 0 where
  pub shift : ℕ
  pub caps : ℕ

abbrev key_list : List ℕ
key_list =
    0 ∷ 27 ∷ b'1' ∷ b'2' ∷ b'3' ∷ b'4' ∷ b'5' ∷ b'6' ∷ b'7' ∷ b'8' ∷ b'9' ∷ b'0' ∷ b'-' ∷ b'=' ∷ 8
    ∷ 9 ∷ b'q' ∷ b'w' ∷ b'e' ∷ b'r' ∷ b't' ∷ b'y' ∷ b'u' ∷ b'i' ∷ b'o' ∷ b'p' ∷ 91 ∷ 93 ∷ 10 ∷ 0
    ∷ b'a' ∷ b's' ∷ b'd' ∷ b'f' ∷ b'g' ∷ b'h' ∷ b'j' ∷ b'k' ∷ b'l' ∷ 59 ∷ 39 ∷ 96 ∷ 0 ∷ 92 ∷ b'z'
    ∷ b'x' ∷ b'c' ∷ b'v' ∷ b'b' ∷ b'n' ∷ b'm' ∷ 44 ∷ b'.' ∷ b'/' ∷ 0 ∷ b'*' ∷ 0 ∷ b' ' ∷ []

abbrev shifted_key_list : List ℕ
shifted_key_list =
    0 ∷ 27 ∷ b'!' ∷ 64 ∷ b'#' ∷ b'$' ∷ b'%' ∷ 94 ∷ b'&' ∷ b'*' ∷ 40 ∷ 41 ∷ 95 ∷ b'+' ∷ 8 ∷ 9 ∷ b'Q'
    ∷ b'W' ∷ b'E' ∷ b'R' ∷ b'T' ∷ b'Y' ∷ b'U' ∷ b'I' ∷ b'O' ∷ b'P' ∷ 123 ∷ 125 ∷ 10 ∷ 0 ∷ b'A'
    ∷ b'S' ∷ b'D' ∷ b'F' ∷ b'G' ∷ b'H' ∷ b'J' ∷ b'K' ∷ b'L' ∷ b':' ∷ 34 ∷ 126 ∷ 0 ∷ 124 ∷ b'Z'
    ∷ b'X' ∷ b'C' ∷ b'V' ∷ b'B' ∷ b'N' ∷ b'M' ∷ b'<' ∷ b'>' ∷ b'?' ∷ 0 ∷ b'*' ∷ 0 ∷ b' ' ∷ []

-- The arrays have 128 places; the ones that no initialiser names are 0.
unfoldable pub key_map : ℕ → ℕ
key_map code = get_or key_list code 0

unfoldable pub shifted_key_map : ℕ → ℕ
shifted_key_map code = get_or shifted_key_list code 0

-- One round of the loop of `get_char`: the character that it returns, if it does. (Both branches
-- of its innermost test return the shifted character.)
unfoldable pub key : ℕ → Keyboard → Option ℕ × Keyboard
key code k =
    if (code == 0x2A) || (code == 0x36)
    then (none, record k { shift = 1 })
    else if (code == 0xAA) || (code == 0xB6)
    then (none, record k { shift = 0 })
    else if code == 0x3A
    then (none, record k { caps = if k.caps == 0 then 1 else 0 })
    else if ltb code 128
    then (
      some (if not (k.shift == 0) || not (k.caps == 0) then shifted_key_map code else key_map code),
      k,
    )
    else (none, k)

unfoldable pub get_char : List ℕ → Keyboard → Option (ℕ × Keyboard × List ℕ)
get_char [] k = none
get_char (code ∷ codes) k = elim (key code k).0 [
  | none ↦ get_char codes (key code k).1
  | some c ↦ some (c, (key code k).1, codes)
]

-- `i`, the line buffer and the console.
pub record Line : Type 0 where
  pub i : ℕ
  pub buffer : Buffer
  pub console : Console

unfoldable pub edit : ℕ → Line → Line
edit c l =
    if c == backspace
    then (if ltb 0 l.i
        then record {
          i = l.i - 1;
          buffer = store l.buffer (l.i - 1) 0;
          console = print_char backspace l.console;
        }
        else l)
    else record { i = l.i + 1; buffer = store l.buffer l.i c; console = print_char c l.console }

unfoldable pub finish : Line → Line
finish l = record l { buffer = store l.buffer l.i 0 }

unfoldable pub read_loop : ℕ → ℕ → Line → Keyboard → List ℕ → Option (Line × Keyboard × List ℕ)
read_loop zero buffer_size l k codes = none
read_loop (suc fuel) buffer_size l k codes = elim (get_char codes k) [
  | none ↦ if ltb l.i (buffer_size - 1) then none else some (finish l, k, codes)
  | some (c, k', codes') ↦
      let rest = read_loop fuel buffer_size (edit c l) k' codes' in
      if ltb l.i (buffer_size - 1)
      then (if (c == 10) || (c == 13) then some (finish l, k', codes') else rest)
      else some (finish l, k, codes)
]

-- `buffer_size` is not 0.
unfoldable pub read_input :
    ℕ → Buffer → ℕ → Console → Keyboard → List ℕ → Option (Line × Keyboard × List ℕ)
read_input fuel buffer buffer_size c k codes =
    read_loop fuel buffer_size
      (record { i = 0; buffer = memory_zero 0 buffer_size buffer; console = c }) k codes
