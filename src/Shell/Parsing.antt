-- ===== src/Shell/Parsing.antt =====
-- The commands that a line in memory is parsed to, from its text alone.
use ety_os.Base.{
  ℕ, zero, suc, ◌+◌, ◌%◌, ◌^◌, ◌<◌, ◌≡◌, Bool, true, false, Option, some, List, [], ◌∷◌,
  if◌then◌else◌, codes, length, drop, get_or, ℤ, pos, negsuc, arith, refl, ◌∙◌, sym, ap, ◌↔◌, ne→==,
  eq→==,
}
use ety_os.Memory.{Ptr, Mem}
use ety_os.CStr.{strncmp}
use ety_os.CStr.Shape.{IsStr}
use ety_os.CStr.Search.{difference, strcmp-difference, starts, strncmp_iff}
use ety_os.CStr.Number.{numeral, strtoul_lem}
use ety_os.Disktool.{fs_fat32, fs_ext4}
use ety_os.Shell.{is_zero, option_map, branch, string_at, same, begins, number_at, parse_fs_type}

-- The text is the word.
abbrev pub matches : List ℕ → List ℕ → Bool
matches text word = is_zero (difference text word)

-- The number that a text begins with, as a `uint32_t`.
abbrev pub number : List ℕ → ℕ
number s = (numeral 10 0 s).0 % 2 ^ 32

-- Every word stands at its address.
abbrev pub Placed : Mem → (List ℕ → Ptr) → List (List ℕ) → Type 0
Placed m lit [] = Unit {0}
Placed m lit (w ∷ ws) = IsStr m (lit w) w × Placed m lit ws

-- The word at a place of the list.
pub Placed-word :
    (m : Mem) (lit : List ℕ → Ptr) (ws : List (List ℕ)) (n : ℕ)
    → n < length ws
    → Placed m lit ws
    → IsStr m (lit (get_or ws n [])) (get_or ws n [])
Placed-word m lit [] n lt h = absurd (omega arith)
Placed-word m lit (w ∷ ws) zero lt h = h.0
Placed-word m lit (w ∷ ws) (suc n) lt h = Placed-word m lit ws n (omega arith) h.1

pub branch-some :
    {A : Type 0} (t : Option Bool) (x rest : Option A) {b : Bool} {v w : A}
    → t ≡ some b
    → (b ≡ true → x ≡ some v)
    → rest ≡ some w
    → branch t x rest ≡ some (if b then v else w)
branch-some t x rest {b} {v} {w} e h h' = ap (λ o. branch o x rest) e ∙ go b h
  where
    go :
        (b' : Bool)
        → (b' ≡ true → x ≡ some v)
        → branch (some b') x rest ≡ some (if b' then v else w)
    go true k = k refl
    go false k = h'

pub string_at_lem :
    (s : List ℕ) (fuel : ℕ) (p : Ptr) (m : Mem)
    → length s < fuel
    → IsStr m p s
    → string_at fuel p m ≡ some s
unfolding string_at
string_at_lem s zero p m lt h = absurd (omega arith)
string_at_lem [] (suc fuel) p m lt h = rw (eq→== (m p) 0 h) refl
string_at_lem (c ∷ s) (suc fuel) p m lt (e, ne, h) =
    rw (e, ne→== c 0 ne)
      (ap (option_map (λ t. c ∷ t)) (string_at_lem s fuel (p + 1) m (omega arith) h))

bool_eq : (a b : Bool) → ((a ≡ true) ↔ (b ≡ true)) → a ≡ b
bool_eq true b h = sym (h.0 refl)
bool_eq false true h = h.1 refl
bool_eq false false h = refl

is_zero_iff : (z : ℤ) → (is_zero z ≡ true) ↔ (z ≡ pos 0)
is_zero_iff (pos zero) = (λ e. refl, λ e. refl)
is_zero_iff (pos (suc n)) = (λ e. cc, λ e. cc)
is_zero_iff (negsuc n) = (λ e. cc, λ e. cc)

-- What follows a prefix is a string.
pub IsStr-drop :
    (w text : List ℕ) (m : Mem) (p : Ptr)
    → starts w text ≡ true
    → IsStr m p text
    → IsStr m (p + length w) (drop (length w) text)
unfolding starts
IsStr-drop [] text m p e h = let z : p + 0 ≡ p = omega arith in rw z h
IsStr-drop (c ∷ w) [] m p e h = cc
IsStr-drop (c ∷ w) (d ∷ text) m p e h =
    let z : p + suc (length w) ≡ p + 1 + length w = omega arith in
    let rest : starts w text ≡ true = ground (arith, e) in
    rw z (IsStr-drop w text m (p + 1) rest h.2)

pub length-starts :
    (w text : List ℕ)
    → starts w text ≡ true
    → length text ≡ length w + length (drop (length w) text)
unfolding starts
length-starts [] text e = omega arith
length-starts (c ∷ w) [] e = cc
length-starts (c ∷ w) (d ∷ text) e =
    let rest : starts w text ≡ true = ground (arith, e) in omega (arith, length-starts w text rest)

pub length-drop : (n : ℕ) (s : List ℕ) (fuel : ℕ) → length s < fuel → length (drop n s) < fuel
length-drop zero s fuel h = h
length-drop (suc n) [] fuel h = h
length-drop (suc n) (c ∷ s) fuel h = length-drop n s fuel (omega arith)

module _ (lit : List ℕ → Ptr) (fuel : ℕ) (text : List ℕ) (p : Ptr) (m : Mem)
    (enough : length text < fuel) (line : IsStr m p text) where
  pub same_lem : (w : List ℕ) → IsStr m (lit w) w → same lit fuel p w m ≡ some (matches text w)
  unfolding same
  same_lem w h = ap (option_map is_zero) (strcmp-difference text w fuel p (lit w) m enough line h)

  pub begins_lem : (w : List ℕ) → IsStr m (lit w) w → begins lit fuel p w m ≡ some (starts w text)
  unfolding begins
  begins_lem w h =
      let (there, back) = strncmp_iff w text p (lit w) m line h in
      let (zero_is, is_zero') = is_zero_iff (strncmp p (lit w) (length w) m) in
      ap some (bool_eq _ _ (λ e. there (zero_is e), λ e. is_zero' (back e)))

  pub number_at_lem : number_at lit fuel p m ≡ some (number text)
  unfolding number_at
  number_at_lem = ap (option_map (λ r. r.0)) (strtoul_lem text fuel 10 p m enough line)

  pub parse_fs_type_lem :
      IsStr m (lit (codes "ext4")) (codes "ext4")
      → parse_fs_type lit fuel p m
        ≡ some (if matches text (codes "ext4") then fs_ext4 else fs_fat32)
  unfolding parse_fs_type
  parse_fs_type_lem h =
      ap (option_map (λ b. if b then fs_ext4 else fs_fat32)) (same_lem (codes "ext4") h)
