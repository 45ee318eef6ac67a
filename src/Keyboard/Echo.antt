-- ===== src/Keyboard/Echo.antt =====
-- What `read_input` shows of the line.
use ety_os.Base.{
  ℕ, zero, suc, ◌-◌, inl, inr, refl, ◌==◌, ◌||◌, ltb, Option, none, some, List, Bool-cases,
  if◌then◌else◌,
}
use ety_os.Bytes.{Buffer}
use ety_os.Console.{Console, backspace}
use ety_os.Console.Cursor.{IsCursor, Safe, Safe-trans, print_char-Safe}
use ety_os.Keyboard.{Keyboard, Line, edit, finish, get_char, read_loop, read_input}

edit-Safe : (c : ℕ) (l : Line) → IsCursor l.console → Safe l.console (edit c l).console
unfolding edit
edit-Safe c l is = elim (Bool-cases (c == backspace)) [
  | inl e ↦ rw e (elim (Bool-cases (ltb 0 l.i)) [
    | inl e' ↦ rw e' (print_char-Safe backspace is)
    | inr e' ↦ rw e' (record { cursor = is; off_screen = λ x o. refl })
  ])
  | inr e ↦ rw e (print_char-Safe c is)
]

-- The console of what a call returned, if it did.
abbrev pub Echoes : Console → Option (Line × Keyboard × List ℕ) → Type 0
Echoes c none = Unit {0}
Echoes c (some (l, k, codes)) = Safe c l.console

Echoes-trans :
    (c c' : Console) (r : Option (Line × Keyboard × List ℕ)) → Safe c c' → Echoes c' r → Echoes c r
Echoes-trans c c' none s e = tt
Echoes-trans c c' (some (l, k, codes)) s e = Safe-trans s e

finish-Echoes :
    (l : Line) (k : Keyboard) (codes : List ℕ)
    → IsCursor l.console
    → Echoes l.console (some (finish l, k, codes))
unfolding finish
finish-Echoes l k codes is = record { cursor = is; off_screen = λ x o. refl }

read_loop-Echoes :
    (fuel size : ℕ) (l : Line) (k : Keyboard) (codes : List ℕ)
    → IsCursor l.console
    → Echoes l.console (read_loop fuel size l k codes)
unfolding read_loop
read_loop-Echoes zero size l k codes is = tt
read_loop-Echoes (suc fuel) size l k codes is =
    go (λ c k' codes'. read_loop-Echoes fuel size (edit c l) k' codes') (get_char codes k)
  where
    go :
        ((c : ℕ) (k' : Keyboard) (codes' : List ℕ)
          → IsCursor (edit c l).console
          → Echoes (edit c l).console (read_loop fuel size (edit c l) k' codes'))
        → (got : Option (ℕ × Keyboard × List ℕ))
        → Echoes l.console (elim got as (λ _. Option (Line × Keyboard × List ℕ)) [
          | none ↦ if ltb l.i (size - 1) then none else some (finish l, k, codes)
          | some (c, k', codes') ↦
              let rest = read_loop fuel size (edit c l) k' codes' in
              if ltb l.i (size - 1)
              then (if (c == 10) || (c == 13) then some (finish l, k', codes') else rest)
              else some (finish l, k, codes)
        ])
    go next none = elim (Bool-cases (ltb l.i (size - 1))) [
      | inl e ↦ rw e tt
      | inr e ↦ rw e (finish-Echoes l k codes is)
    ]
    go next (some (c, k', codes')) = elim (Bool-cases (ltb l.i (size - 1))) [
      | inr e ↦ rw e (finish-Echoes l k codes is)
      | inl e ↦ rw e (elim (Bool-cases ((c == 10) || (c == 13))) [
        | inl e' ↦ rw e' (finish-Echoes l k' codes' is)
        | inr e' ↦ rw e' (
            let s = edit-Safe c l is in
            Echoes-trans l.console (edit c l).console _ s (next c k' codes' s.cursor))
      ])
    ]

pub read_input-Echoes :
    (fuel : ℕ) (buffer : Buffer) (size : ℕ) (c : Console) (k : Keyboard) (codes : List ℕ)
    → IsCursor c
    → Echoes c (read_input fuel buffer size c k codes)
unfolding read_input
read_input-Echoes fuel buffer size c k codes is = read_loop-Echoes fuel size _ k codes is
