-- ===== src/Keyboard/InMemory.antt =====
-- The line of `read_input` as a C string.
use ety_os.Base.{ℕ, ◌+◌, ◌<◌, ◌≡◌, ◌≢◌, List, [], ◌∷◌, length, arith, refl, ◌∙◌, sym, ap₂, subst}
use ety_os.Memory.{Mem, Ptr}
use ety_os.Bytes.{Buffer}
use ety_os.CStr.Shape.{IsStr}
use ety_os.Keyboard.{Line}
use ety_os.Keyboard.Typed.{Spells, Holds}

-- A text in the order in which it was typed, before `s`.
abbrev pub in_order : List ℕ → List ℕ → List ℕ
in_order [] s = s
in_order (c ∷ t) s = in_order t (c ∷ s)

abbrev pub NoNul : List ℕ → Type 0
NoNul [] = Unit {0}
NoNul (c ∷ t) = (c ≢ 0) × NoNul t

-- A buffer that spells a text stands in memory as its string.
pub Spells-IsStr :
    (m : Mem) (p : Ptr) (b : Buffer) (t s : List ℕ)
    → ((i : ℕ) → i < length t → m (p + i) ≡ b i)
    → NoNul t
    → Spells b t
    → IsStr m (p + length t) s
    → IsStr m p (in_order t s)
Spells-IsStr m p b [] s same nn sp is = subst (λ q. IsStr m q s) (omega arith) is
Spells-IsStr m p b (c ∷ t) s same (ne, nn) (e, sp) is =
    Spells-IsStr m p b t (c ∷ s) (λ i lt. same i (omega arith)) nn sp
      (same (length t) (omega arith) ∙ e, ne, subst (λ q. IsStr m q s) (omega arith) is)

pub IsStr-unique : (m : Mem) (p : Ptr) (s t : List ℕ) → IsStr m p s → IsStr m p t → s ≡ t
IsStr-unique m p [] [] h k = refl
IsStr-unique m p [] (d ∷ t) h (e, ne, k) = absurd (ne (sym e ∙ h))
IsStr-unique m p (c ∷ s) [] (e, ne, h) k = absurd (ne (sym e ∙ k))
IsStr-unique m p (c ∷ s) (d ∷ t) (e, ne, h) (e', ne', k) =
    ap₂ (λ x y. x ∷ y) (sym e ∙ e') (IsStr-unique m (p + 1) s t h k)

-- A closed line, copied to memory, is the string of the text that it holds.
pub Holds-IsStr :
    (m : Mem) (p : Ptr) (size : ℕ) (l : Line) (t : List ℕ)
    → ((i : ℕ) → i < size → m (p + i) ≡ l.buffer i)
    → l.i < size
    → NoNul t
    → Holds l t
    → l.buffer (length t) ≡ 0
    → IsStr m p (in_order t [])
Holds-IsStr m p size l t same lt nn h nul =
    Spells-IsStr m p l.buffer t [] (λ i lt'. same i (omega (arith, h.filled))) nn h.spelt
      (same (length t) (omega (arith, h.filled)) ∙ nul)
