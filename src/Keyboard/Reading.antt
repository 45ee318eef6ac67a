-- ===== src/Keyboard/Reading.antt =====
-- The line that `read_input` leaves.
use ety_os.Base.{
  ℕ, zero, suc, ◌+◌, ◌-◌, ◌<◌, ◌≤◌, ◌≡◌, ◌⊎◌, inl, inr, arith, refl, ◌==◌, ◌||◌, not, ltb, Option,
  none, some, List, [], ◌∷◌, length, Bool-cases, false, ◌∙◌, ap, ltb→lt,
}
use ety_os.Memory.Fill.{memory_zero_lem}
use ety_os.Bytes.{Buffer}
use ety_os.Console.{Console, backspace}
use ety_os.Keyboard.{
  Keyboard, key, key_map, shifted_key_map, get_char, Line, edit, finish, read_loop, read_input,
}

-- The scan code of the Enter key is among those to come.
abbrev pub HasEnter : List ℕ → Type 0
HasEnter [] = ⊥
HasEnter (code ∷ codes) = (code ≡ 0x1C) ⊎ HasEnter codes

-- The line fits in its buffer, and the bytes behind the buffer are those of `b`.
pub record Fits (size : ℕ) (b : Buffer) (l : Line) : Type 0 where
  pub in_buffer : l.i + 1 ≤ size
  pub behind : (x : ℕ) → size ≤ x → l.buffer x ≡ b x

edit-Fits :
    (size c : ℕ) (b : Buffer) (l : Line) → l.i < size - 1 → Fits size b l → Fits size b (edit c l)
unfolding edit
edit-Fits size c b l lt is = elim (Bool-cases (c == backspace)) [
  | inl e ↦ rw e (elim (Bool-cases (ltb 0 l.i)) [
    | inl p ↦ rw p (record {
      in_buffer = omega (arith, is.in_buffer);
      behind = λ x h. ground (arith, is.behind x h);
    })
    | inr p ↦ rw p is
  ])
  | inr e ↦ rw e (record { in_buffer = omega arith; behind = λ x h. ground (arith, is.behind x h) })
]

finish-Fits : (size : ℕ) (b : Buffer) (l : Line) → Fits size b l → Fits size b (finish l)
unfolding finish
finish-Fits size b l is = record {
  in_buffer = is.in_buffer;
  behind = λ x h. ground (arith, is.behind x h, is.in_buffer);
}

-- `get_char` returns where an Enter is to come, with fewer codes left; either it returns the
-- newline, or the Enter is still to come.
record Got (codes : List ℕ) (k : Keyboard) : Type 0 where
  char : ℕ
  keyboard : Keyboard
  left : List ℕ
  returns : get_char codes k ≡ some (char, keyboard, left)
  shorter : length left < length codes
  enter : (char ≡ 10) ⊎ HasEnter left

enter_key : (k : Keyboard) → key 0x1C k ≡ (some 10, k)
unfolding key key_map shifted_key_map
enter_key k = elim (Bool-cases (not (k.shift == 0) || not (k.caps == 0))) [
  | inl e ↦ rw e refl
  | inr e ↦ rw e refl
]

get_char-none :
    (code : ℕ) (codes : List ℕ) (k k' : Keyboard)
    → key code k ≡ (none, k')
    → get_char (code ∷ codes) k ≡ get_char codes k'
unfolding get_char
get_char-none code codes k k' e =
    ap
      (λ (r : Option ℕ × Keyboard). elim r.0 as (λ _. Option (ℕ × Keyboard × List ℕ)) [
        | none ↦ get_char codes r.1
        | some c' ↦ some (c', r.1, codes)
      ])
      e

get_char-some :
    (code c : ℕ) (codes : List ℕ) (k k' : Keyboard)
    → key code k ≡ (some c, k')
    → get_char (code ∷ codes) k ≡ some (c, k', codes)
unfolding get_char
get_char-some code c codes k k' e =
    ap
      (λ (r : Option ℕ × Keyboard). elim r.0 as (λ _. Option (ℕ × Keyboard × List ℕ)) [
        | none ↦ get_char codes r.1
        | some c' ↦ some (c', r.1, codes)
      ])
      e

Got-cons :
    (code : ℕ) (codes : List ℕ) (k : Keyboard) (r : Option ℕ × Keyboard)
    → key code k ≡ r
    → HasEnter codes
    → Got codes r.1
    → Got (code ∷ codes) k
Got-cons code codes k (none, k') e h g = record {
  char = g.char;
  keyboard = g.keyboard;
  left = g.left;
  returns = get_char-none code codes k k' e ∙ g.returns;
  shorter = omega (arith, g.shorter);
  enter = g.enter;
}
Got-cons code codes k (some c, k') e h g = record {
  char = c;
  keyboard = k';
  left = codes;
  returns = get_char-some code c codes k k' e;
  shorter = omega arith;
  enter = inr h;
}

get_char-Got : (codes : List ℕ) (k : Keyboard) → HasEnter codes → Got codes k
get_char-Got [] k h = absurd h
get_char-Got (code ∷ codes) k (inl e) = record {
  char = 10;
  keyboard = k;
  left = codes;
  returns = get_char-some code 10 codes k k (ap (λ x. key x k) e ∙ enter_key k);
  shorter = omega arith;
  enter = inl refl;
}
get_char-Got (code ∷ codes) k (inr h) =
    Got-cons code codes k (key code k) refl h (get_char-Got codes (key code k).1 h)

-- The call returned, with a line that fits and is closed by a NUL.
pub record Returned (size : ℕ) (b : Buffer) (r : Option (Line × Keyboard × List ℕ)) : Type 0 where
  pub line : Line
  pub keyboard : Keyboard
  pub left : List ℕ
  pub returns : r ≡ some (line, keyboard, left)
  pub fits : Fits size b line
  pub closed : line.buffer line.i ≡ 0

finish-closed : (l : Line) → (finish l).buffer (finish l).i ≡ 0
unfolding finish
finish-closed l = ground arith

finish-Returned :
    (size : ℕ) (b : Buffer) (l : Line) (k : Keyboard) (codes : List ℕ)
    → Fits size b l
    → Returned size b (some (finish l, k, codes))
finish-Returned size b l k codes is = record {
  line = finish l;
  keyboard = k;
  left = codes;
  returns = refl;
  fits = finish-Fits size b l is;
  closed = finish-closed l;
}

read_loop-Returned :
    (fuel size : ℕ) (b : Buffer) (l : Line) (k : Keyboard) (codes : List ℕ)
    → length codes < fuel
    → HasEnter codes
    → Fits size b l
    → Returned size b (read_loop fuel size l k codes)
unfolding read_loop
read_loop-Returned zero size b l k codes lt h is = absurd (omega arith)
read_loop-Returned (suc fuel) size b l k codes lt h is =
    let g = get_char-Got codes k h in
    rw (read_loop, g.returns)
      (elim (Bool-cases (ltb l.i (size - 1))) [
        | inr e ↦ rw e (finish-Returned size b l k codes is)
        | inl e ↦ rw e (elim (Bool-cases ((g.char == 10) || (g.char == 13))) [
          | inl e' ↦ rw e' (finish-Returned size b l g.keyboard g.left is)
          | inr e' ↦ rw e' (
              read_loop-Returned fuel size b (edit g.char l) g.keyboard g.left
                (omega (arith, g.shorter)) (still g.char g.left e' g.enter)
                (edit-Fits size g.char b l (ltb→lt l.i (size - 1) e) is))
        ])
      ])
  where
    still :
        (c : ℕ) (left : List ℕ)
        → ((c == 10) || (c == 13)) ≡ false
        → (c ≡ 10) ⊎ HasEnter left
        → HasEnter left
    still c left e (inl e') = absurd (ground (arith, e, e'))
    still c left e (inr h') = h'

-- Where an Enter is among the scan codes to come, `read_input` into a buffer of at least one byte
-- returns, given a round for each code and one more. The line is closed by a NUL inside its buffer,
-- and no byte behind the buffer changes, whatever was typed.
pub read_input-Returned :
    (fuel size : ℕ) (b : Buffer) (c : Console) (k : Keyboard) (codes : List ℕ)
    → 1 ≤ size
    → length codes < fuel
    → HasEnter codes
    → Returned size b (read_input fuel b size c k codes)
unfolding read_input
read_input-Returned fuel size b c k codes pos lt h =
    read_loop-Returned fuel size b _ k codes lt h (record {
      in_buffer = omega arith;
      behind = λ x le. memory_zero_lem 0 size b x ∙ ground arith;
    })
