-- ===== src/Keyboard/Tests.antt =====
-- A short line typed into a buffer of four bytes.
use ety_os.Base.{ℕ, arith, refl, inl, inr, List, [], ◌∷◌, some}
use ety_os.Bytes.{Buffer}
use ety_os.Console.{Console}
use ety_os.Keyboard.{Keyboard, key, shifted_key_map, read_input}
use ety_os.Keyboard.Typed.{chars, line_text, Returns, read_input-line_text}
use ety_os.Keyboard.Reading.{HasEnter, Returned, read_input-Returned}

-- Shift down, A, backspace, B and Enter.
abbrev typed : List ℕ
typed = 0x2A ∷ 0x1E ∷ 0x0E ∷ 0x30 ∷ 0x1C ∷ []

abbrev dirty : Buffer
dirty i = 7

abbrev console : Console
console = record { mem = λ a. 0; col = 0; row = 0; color = 15 }

abbrev idle : Keyboard
idle = record { shift = 0; caps = 0 }

typed-HasEnter : HasEnter typed
typed-HasEnter = inr (inr (inr (inr (inl refl))))

read_input-Returned_example : Returned 4 dirty (read_input 6 dirty 4 console idle typed)
read_input-Returned_example =
    read_input-Returned 6 4 dirty console idle typed (omega arith) (omega arith) typed-HasEnter

-- The A is taken back.
read_input-line_text_example : Returns (read_input 6 dirty 4 console idle typed) (some (b'B' ∷ []))
unfolding line_text chars key shifted_key_map
read_input-line_text_example =
    read_input-line_text 6 4 dirty console idle typed (omega arith) (omega arith)
