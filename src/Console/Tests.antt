-- ===== src/Console/Tests.antt =====
-- The console at concrete positions.
use ety_os.Base.{ℕ, ◌+◌, ◌<◌, ◌≤◌, ◌≡◌, arith, ◌==◌, if◌then◌else◌, some, List, length}
use ety_os.Memory.{Ptr, Mem}
use ety_os.CStr.{strtoul}
use ety_os.CStr.Shape.{IsStr}
use ety_os.Console.{Console, print_char, print_newline, print_str, print_int}
use ety_os.Console.Cursor.{IsCursor, Safe, print_char-Safe}
use ety_os.Console.Scroll.{cell, print_newline-cell}
use ety_os.Console.Numbers.{strtoul-print_int}

-- The last place of the screen.
abbrev corner : Console
corner = record { mem = λ a. a; col = 79; row = 24; color = 0x1f }

corner-IsCursor : IsCursor corner
corner-IsCursor = record { row_in = omega arith; col_in = omega arith }

print_char-Safe_example : Safe corner (print_char b'\n' corner)
print_char-Safe_example = print_char-Safe b'\n' corner-IsCursor

print_newline-cell_example :
    ((print_newline corner).col ≡ 0)
    × (corner.row < 24
        → ((print_newline corner).row ≡ corner.row + 1) × ((print_newline corner).mem ≡ corner.mem))
    × (24 ≤ corner.row
        → ((print_newline corner).row ≡ corner.row)
          × ((r k : ℕ)
              → k < 80
              → r < 25
              → cell (print_newline corner).mem r k
                ≡ (if r == 24 then (b' ', corner.color) else cell corner.mem (r + 1) k)))
print_newline-cell_example = print_newline-cell corner

strtoul-print_int_example :
    (s : List ℕ) × ((c : Console) → print_int 4095 c ≡ print_str s c)
    × ((fuel : ℕ) (p : Ptr) (m : Mem)
        → length s < fuel
        → IsStr m p s
        → strtoul fuel p 10 m ≡ some (4095, p + length s))
strtoul-print_int_example = strtoul-print_int 4095 (omega arith)
