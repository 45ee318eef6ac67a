-- ===== src/Shell/Run/Turn.antt =====
-- A round of the loop of `kernel_main`, from the scan codes to the command.
use ety_os.Base.{ℕ, zero, suc, ◌+◌, ◌-◌, Option, none, some, List, [], ◌∷◌, ◌==◌}
use ety_os.Memory.{Ptr, Mem}
use ety_os.Bytes.{Buffer}
use ety_os.Console.{Console, print_str, print_newline, print_set_color}
use ety_os.Keyboard.{Keyboard, Line, read_input}
use ety_os.Shell.Session.{Machine, white, line_at, read_line}
use ety_os.Base.{◌≡◌, refl, Bool-cases, inl, inr}
use ety_os.Console.Cursor.{IsCursor, Safe, print_newline-Safe, print_str-Safe}
use ety_os.Listing.Safety.{◌▷◌}
use ety_os.Base.{◌<◌, ◌≤◌, ◌⊎◌, arith, ◌∙◌, ap, subst, length, ==→eq, ==→ne}
use ety_os.CStr.Shape.{IsStr, IsStr-frame}
use ety_os.Console.{screen}
use ety_os.Console.Cursor.{screen_size}
use ety_os.Keyboard.Reading.{HasEnter, read_input-Returned}
use ety_os.Keyboard.Typed.{chars, line_text, Returns, read_input-line_text, Holds}
use ety_os.Keyboard.InMemory.{in_order, NoNul, Holds-IsStr, IsStr-unique}
use ety_os.Keyboard.Echo.{Echoes, read_input-Echoes}
use ety_os.Shell.Parsing.{Placed}
use ety_os.Shell.Run.Display.{print_set_color-Safe}

-- Neither on the screen nor in the line buffer.
abbrev pub IsElsewhere : Ptr → Ptr → Type 0
IsElsewhere command x =
    ((x < screen) ⊎ (screen + screen_size ≤ x)) × ((x < command) ⊎ (command + 256 ≤ x))

-- The bytes of the words, with their NULs, are elsewhere.
abbrev pub AllElsewhere : Ptr → (List ℕ → Ptr) → List (List ℕ) → Type 0
AllElsewhere command lit [] = Unit {0}
AllElsewhere command lit (w ∷ ws) =
    ((i : ℕ) → i < suc (length w) → IsElsewhere command (lit w + i)) × AllElsewhere command lit ws

pub Placed-frame :
    (command : Ptr) (lit : List ℕ → Ptr) (ws : List (List ℕ)) (m m' : Mem)
    → ((x : Ptr) → IsElsewhere command x → m' x ≡ m x)
    → AllElsewhere command lit ws
    → Placed m lit ws
    → Placed m' lit ws
Placed-frame command lit [] m m' same out h = tt
Placed-frame command lit (w ∷ ws) m m' same out h = (
  IsStr-frame w m m' (lit w) (λ i lt. same (lit w + i) (out.0 i lt)) h.0,
  Placed-frame command lit ws m m' same out.1 h.1,
)

-- A NUL closes the string that begins before it.
string_in :
    (n : ℕ) (p : Ptr) (m : Mem) → m (p + n) ≡ 0 → (s : List ℕ) × IsStr m p s × (length s ≤ n)
string_in zero p m e = ([], ap m (omega arith) ∙ e, omega arith)
string_in (suc n) p m e = elim (Bool-cases (m p == 0)) [
  | inl z ↦ ([], ==→eq (m p) 0 z, omega arith)
  | inr z ↦
      let (s, is, le) = string_in n (p + 1) m (ap m (omega arith) ∙ e) in
      (m p ∷ s, (refl, ==→ne (m p) 0 z, is), omega arith)
]

-- A line was read: it stands at `command` as a string of at most 255 characters, which are those that
-- were typed, if there is no NUL among them; and only the screen and the line buffer have changed,
-- with the cursor and the keyboard.
pub record Entered {D : Type 0} (command : Ptr) (w : Machine D) (r : Option (Machine D))
    : Type 0 where
  pub after : Machine D
  pub text : List ℕ
  pub returns : r ≡ some after
  pub cursor : IsCursor after.console
  pub line : IsStr after.console.mem command text
  pub short : length text ≤ 255
  pub typed :
      (t : List ℕ)
      → line_text 255 [] (chars w.scan_codes w.keyboard) ≡ some t
      → NoNul t
      → text ≡ in_order t []
  pub elsewhere : (x : Ptr) → IsElsewhere command x → after.console.mem x ≡ w.console.mem x
  pub same_state : after.state ≡ w.state
  pub same_tool : after.tool ≡ w.tool

module _ {D : Type 0} (fuel : ℕ) (command : Ptr) (foreground color : ℕ) (prompt : List ℕ)
    (w : Machine D) where
  abbrev prompted : Console
  prompted =
      print_set_color white color (print_str prompt (print_set_color foreground color w.console))

  abbrev window : Buffer
  window i = prompted.mem (command + i)

  prompted-Safe : IsCursor w.console → Safe w.console prompted
  prompted-Safe is =
      print_set_color-Safe foreground color is
      ▷ print_str-Safe prompt
      ▷ print_set_color-Safe white color

  read_line_lem :
      (line : Line) (k : Keyboard) (rest : List ℕ)
      → read_input fuel window 256 prompted w.keyboard w.scan_codes ≡ some (line, k, rest)
      → read_line fuel command foreground color prompt w
        ≡ some (record w {
          console =
              print_newline
                (record line.console { mem = line_at command line.buffer line.console.mem });
          keyboard = k;
          scan_codes = rest;
        })
  unfolding read_line
  read_line_lem line k rest e =
      ap
        (λ (r : Option (Line × Keyboard × List ℕ)). elim r as (λ _. Option (Machine D)) [
          | none ↦ none
          | some (l, k', rest') ↦ some (record w {
            console =
                print_newline (record l.console { mem = line_at command l.buffer l.console.mem });
            keyboard = k';
            scan_codes = rest';
          })
        ])
        e

  module _ (off : (command + 256 ≤ screen) ⊎ (screen + screen_size ≤ command)) where
    line_at-in :
        (buffer : Buffer) (m : Mem) (i : ℕ)
        → i < 256
        → line_at command buffer m (command + i) ≡ buffer i
    line_at-in buffer m i lt =
        let e : command + i - command ≡ i = omega arith in ground (arith, ap buffer e)

    line_at-out :
        (buffer : Buffer) (m : Mem) (x : Ptr)
        → (x < command) ⊎ (command + 256 ≤ x)
        → line_at command buffer m x ≡ m x
    line_at-out buffer m x out = ground arith

    read_input-Holds :
        (t : List ℕ)
        → line_text 255 [] (chars w.scan_codes w.keyboard) ≡ some t
        → (l : Line) (k : Keyboard) (rest : List ℕ) → length w.scan_codes < fuel
        → read_input fuel window 256 prompted w.keyboard w.scan_codes ≡ some (l, k, rest)
        → Holds l t × (l.buffer (length t) ≡ 0)
    read_input-Holds t e l k rest lt returns =
        subst (λ r. Returns r (some t)) returns
          (subst (Returns (read_input fuel window 256 prompted w.keyboard w.scan_codes)) e (
            read_input-line_text fuel 256 window prompted w.keyboard w.scan_codes (omega arith) lt))

    -- Where an Enter is to come, `read_line` reads a line.
    pub read_line-Entered :
        IsCursor w.console
        → length w.scan_codes < fuel
        → HasEnter w.scan_codes
        → Entered command w (read_line fuel command foreground color prompt w)
    read_line-Entered is lt enter =
        let got =
          read_input-Returned fuel 256 window prompted w.keyboard w.scan_codes (omega arith) lt
            enter in
        let first = prompted-Safe is in
        let typed : Safe prompted got.line.console =
          subst (Echoes prompted) got.returns
            (read_input-Echoes fuel window 256 prompted w.keyboard w.scan_codes first.cursor) in
        let c' : Console = record got.line.console {
          mem = line_at command got.line.buffer got.line.console.mem;
        } in
        let last : Safe c' (print_newline c') =
          print_newline-Safe
            (record { row_in = typed.cursor.row_in; col_in = typed.cursor.col_in }) in
        let kept : (i : ℕ) → i < 256 → (print_newline c').mem (command + i) ≡ got.line.buffer i =
          λ i lt'.
            last.off_screen (command + i) (omega (arith, off, lt'))
            ∙ line_at-in got.line.buffer got.line.console.mem i lt' in
        let full : got.line.i < 256 = omega (arith, got.fits.in_buffer) in
        let at : (print_newline c').mem (command + got.line.i) ≡ 0 =
          kept got.line.i full ∙ got.closed in
        let (text, line, short) = string_in got.line.i command (print_newline c').mem at in
        record {
          after = record w {
            console = print_newline c';
            keyboard = got.keyboard;
            scan_codes = got.left;
          };
          text = text;
          returns = read_line_lem got.line got.keyboard got.left got.returns;
          cursor = last.cursor;
          line = line;
          short = omega (arith, short, got.fits.in_buffer);
          elsewhere = λ x out.
              last.off_screen x out.0
              ∙ line_at-out got.line.buffer got.line.console.mem x out.1
              ∙ typed.off_screen x out.0
              ∙ first.off_screen x out.0;
          typed = λ t e nn.
              let (holds, nul) =
                read_input-Holds t e got.line got.keyboard got.left lt got.returns in
              IsStr-unique (print_newline c').mem command text (in_order t []) line
                (Holds-IsStr (print_newline c').mem command 256 got.line t kept full nn holds nul);
          same_state = refl;
          same_tool = refl;
        }
