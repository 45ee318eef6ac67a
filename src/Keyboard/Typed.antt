-- ===== src/Keyboard/Typed.antt =====
-- The text that `read_input` makes of the scan codes: a line editor on the characters.
use ety_os.Base.{◌∙◌, sym}
use ety_os.Base.{
  ℕ, zero, suc, ◌-◌, ◌<◌, ◌≤◌, ◌≡◌, Bool, true, false, ◌||◌, Bool-cases, inl, inr, Option, none,
  some, List, [], ◌∷◌, ◌==◌, ltb, if◌then◌else◌, length, arith, refl, ◌∙◌, sym, ap, lt→ltb, le→ltb,
  ne→==,
}
use ety_os.Memory.{store}
use ety_os.Bytes.{Buffer}
use ety_os.Console.{Console, backspace, print_char}
use ety_os.Keyboard.{Keyboard, Line, key, get_char, edit, finish, read_loop, read_input}

-- The characters that the scan codes give.
unfoldable pub chars : List ℕ → Keyboard → List ℕ
chars [] k = []
chars (code ∷ codes) k = elim (key code k).0 [
  | none ↦ chars codes (key code k).1
  | some c ↦ c ∷ chars codes (key code k).1
]

-- A text is kept with its last character first.
abbrev pub shorter : List ℕ → List ℕ
shorter [] = []
shorter (c ∷ t) = t

abbrev pub press : ℕ → List ℕ → List ℕ
press c t = if c == backspace then shorter t else c ∷ t

-- The line that the characters make of a text: it ends at an Enter, or when `room` is used up by the
-- time of the next character; a backspace takes one away.
unfoldable pub line_text : ℕ → List ℕ → List ℕ → Option (List ℕ)
line_text room t [] = if ltb (length t) room then none else some t
line_text room t (c ∷ cs) =
    let rest = line_text room (press c t) cs in
    if ltb (length t) room then (if (c == 10) || (c == 13) then some t else rest) else some t

abbrev pub Spells : Buffer → List ℕ → Type 0
Spells b [] = Unit {0}
Spells b (c ∷ t) = (b (length t) ≡ c) × Spells b t

-- A line that holds the text.
pub record Holds (l : Line) (t : List ℕ) : Type 0 where
  pub filled : l.i ≡ length t
  pub spelt : Spells l.buffer t

Spells-store :
    (n v : ℕ) (b : Buffer) (t : List ℕ) → length t ≤ n → Spells b t → Spells (store b n v) t
Spells-store n v b [] le s = tt
Spells-store n v b (c ∷ t) le (e, s) =
    (rw (ne→== (length t) n (omega arith)) e, Spells-store n v b t (omega arith) s)

edit-press : (c : ℕ) (l : Line) (t : List ℕ) → Holds l t → Holds (edit c l) (press c t)
unfolding edit
edit-press c l t h = elim (Bool-cases (c == backspace)) [
  | inl e ↦ rw e (back t h)
  | inr e ↦ rw e (record {
    filled = omega (arith, h.filled);
    spelt =
        (ground (arith, h.filled), Spells-store l.i c l.buffer t (omega (arith, h.filled)) h.spelt);
  })
]
  where
    back :
        (t : List ℕ)
        → Holds l t
        → Holds
            (if ltb 0 l.i
              then record {
                i = l.i - 1;
                buffer = store l.buffer (l.i - 1) 0;
                console = print_char backspace l.console;
              }
              else l)
            (shorter t)
    back [] h = rw (le→ltb 0 l.i (omega (arith, h.filled))) h
    back (d ∷ t) h = rw (lt→ltb 0 l.i (omega (arith, h.filled))) (record {
      filled = omega (arith, h.filled);
      spelt = Spells-store (l.i - 1) 0 l.buffer t (omega (arith, h.filled)) h.spelt.1;
    })

-- What a call of `get_char` takes of the characters `cs`, from fewer than `n` scan codes that it
-- leaves.
abbrev Takes : ℕ → List ℕ → Option (ℕ × Keyboard × List ℕ) → Type 0
Takes n cs none = cs ≡ []
Takes n cs (some (c, k, codes)) = (cs ≡ c ∷ chars codes k) × (length codes < n)

Takes-more :
    (n : ℕ) (cs : List ℕ) (r : Option (ℕ × Keyboard × List ℕ)) → Takes n cs r → Takes (suc n) cs r
Takes-more n cs none h = h
Takes-more n cs (some (c, k, codes)) (e, lt) = (e, omega arith)

get_char-chars :
    (codes : List ℕ) (k : Keyboard) → Takes (length codes) (chars codes k) (get_char codes k)
unfolding chars get_char
get_char-chars [] k = refl
get_char-chars (code ∷ codes) k = go (key code k) (get_char-chars codes (key code k).1)
  where
    go :
        (r : Option ℕ × Keyboard)
        → Takes (length codes) (chars codes r.1) (get_char codes r.1)
        → Takes
            (suc (length codes))
            (elim r.0 [ none ↦ chars codes r.1 | some c ↦ c ∷ chars codes r.1 ])
            (elim r.0 [ none ↦ get_char codes r.1 | some c ↦ some (c, r.1, codes) ])
    go (none, k') h = Takes-more (length codes) (chars codes k') (get_char codes k') h
    go (some c, k') h = (refl, omega arith)

-- What the call returned is the line of the text, closed by a NUL; where the text is not ended, there
-- is no result.
abbrev pub Returns : Option (Line × Keyboard × List ℕ) → Option (List ℕ) → Type 0
Returns none none = Unit {0}
Returns none (some t) = ⊥
Returns (some (l, k, codes)) none = ⊥
Returns (some (l, k, codes)) (some t) = Holds l t × (l.buffer (length t) ≡ 0)

finish-Returns :
    (l : Line) (k : Keyboard) (codes t : List ℕ)
    → Holds l t
    → Returns (some (finish l, k, codes)) (some t)
unfolding finish
finish-Returns l k codes t h = (
  record {
    filled = h.filled;
    spelt = Spells-store l.i 0 l.buffer t (omega (arith, h.filled)) h.spelt;
  },
  ground (arith, h.filled),
)

read_loop-line_text :
    (fuel size : ℕ) (l : Line) (k : Keyboard) (codes t : List ℕ)
    → length codes < fuel
    → Holds l t
    → Returns (read_loop fuel size l k codes) (line_text (size - 1) t (chars codes k))
unfolding read_loop line_text
read_loop-line_text zero size l k codes t lt h = absurd (omega arith)
read_loop-line_text (suc fuel) size l k codes t lt h =
    go (λ c k' codes' t'. read_loop-line_text fuel size (edit c l) k' codes' t') (chars codes k)
      (get_char codes k) (get_char-chars codes k)
  where
    room : (b : Bool) → ltb l.i (size - 1) ≡ b → ltb (length t) (size - 1) ≡ b
    room b e = ap (λ n. ltb n (size - 1)) (sym h.filled) ∙ e

    go :
        ((c : ℕ) (k' : Keyboard) (codes' t' : List ℕ)
          → length codes' < fuel
          → Holds (edit c l) t'
          → Returns
              (read_loop fuel size (edit c l) k' codes')
              (line_text (size - 1) t' (chars codes' k')))
        → (cs : List ℕ) (r : Option (ℕ × Keyboard × List ℕ)) → Takes (length codes) cs r
        → Returns
            (elim r as (λ _. Option (Line × Keyboard × List ℕ)) [
              | none ↦ if ltb l.i (size - 1) then none else some (finish l, k, codes)
              | some (c, k', codes') ↦
                  let rest = read_loop fuel size (edit c l) k' codes' in
                  if ltb l.i (size - 1)
                  then (if (c == 10) || (c == 13) then some (finish l, k', codes') else rest)
                  else some (finish l, k, codes)
            ])
            (line_text (size - 1) t cs)
    go next cs none e = rw e (elim (Bool-cases (ltb l.i (size - 1))) [
      | inl b ↦ rw (b, room true b) tt
      | inr b ↦ rw (b, room false b) (finish-Returns l k codes t h)
    ])
    go next cs (some (c, k', codes')) (e, lt') = rw e (elim (Bool-cases (ltb l.i (size - 1))) [
      | inr b ↦ rw (b, room false b) (finish-Returns l k codes t h)
      | inl b ↦
          rw (b, room true b)
            (elim (Bool-cases ((c == 10) || (c == 13))) [
              | inl d ↦ rw d (finish-Returns l k' codes' t h)
              | inr d ↦ rw d (next c k' codes' (press c t) (omega arith) (edit-press c l t h))
            ])
    ])

-- `read_input` into a buffer of at least one byte is a line editor on the characters that the scan
-- codes give, with room for one character less than the buffer has bytes, given a round for each
-- scan code and one more: it returns if and only if that line ends, and then the buffer holds the
-- line's characters, closed by a NUL.
pub read_input-line_text :
    (fuel size : ℕ) (b : Buffer) (c : Console) (k : Keyboard) (codes : List ℕ)
    → 1 ≤ size
    → length codes < fuel
    → Returns (read_input fuel b size c k codes) (line_text (size - 1) [] (chars codes k))
unfolding read_input
read_input-line_text fuel size b c k codes pos lt =
    read_loop-line_text fuel size _ k codes [] lt (record { filled = refl; spelt = tt })
