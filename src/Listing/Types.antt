-- ===== src/Listing/Types.antt =====
-- The name that `display_partitions` prints of a partition's type.
use ety_os.Base.{
  ℕ, ◌+◌, ◌/◌, ◌%◌, ◌<◌, Option, none, some, List, [], ◌∷◌, ◌++◌, ◌≡◌, refl, ◌∙◌, sym, ◌==◌, codes,
  ap, ltb, ◌-◌, if◌then◌else◌, arith,
}
use ety_os.Base.{ap₂, ==→eq}
use ety_os.Base.{holds_below-at}
use ety_os.Console.{Console, print_str}
use ety_os.Console.Numbers.{print_str-append}
use ety_os.Listing.{hex_char, type_name, print_type}

-- The partition types that have a name.
abbrev type_names : List (ℕ × List ℕ)
type_names =
    (0x04, codes "FAT16")
    ∷ (0x05, codes "Extended")
    ∷ (0x06, codes "FAT16B")
    ∷ (0x07, codes "NTFS")
    ∷ (0x0B, codes "FAT32")
    ∷ (0x0C, codes "FAT32 LBA")
    ∷ (0x0E, codes "FAT16B LBA")
    ∷ (0x0F, codes "Extended")
    ∷ (0x82, codes "Linux swap")
    ∷ []

unfoldable pub named : List (ℕ × List ℕ) → ℕ → Option (List ℕ)
named [] kind = none
named ((k, name) ∷ names) kind =
    let rest = named names kind in if kind == k then some name else rest

abbrev pub hex_digit : ℕ → ℕ
hex_digit d = if ltb d 10 then b'0' + d else b'A' + d - 10

-- The name of a type, or its two digits and what stands behind them.
unfoldable pub type_text : ℕ → List ℕ → List ℕ
type_text kind behind = elim (named type_names kind) [
  | some name ↦ name
  | none ↦
      codes "Unknown (0x" ++ (hex_digit (kind / 16 % 16) ∷ hex_digit (kind % 16) ∷ b')' ∷ behind)
]

type_name-named : (kind : ℕ) → type_name kind ≡ named type_names kind
unfolding type_name named
type_name-named kind = ground arith

hex_char-hex_digit : (d : ℕ) → d < 16 → hex_char d ≡ hex_digit d
hex_char-hex_digit d lt = ==→eq _ _ (holds_below-at 16 d (λ k. hex_char k == hex_digit k) refl lt)

pub print_type_lem :
    (kind : ℕ) (behind : List ℕ) (c : Console)
    → print_type kind behind c ≡ print_str (type_text kind behind) c
unfolding print_type type_text
print_type_lem kind behind c =
    ap
      (λ (name : Option (List ℕ)). elim name as (λ _. Console) [
        | some name' ↦ print_str name' c
        | none ↦
            print_str (hex_char (kind / 16 % 16) ∷ hex_char (kind % 16) ∷ b')' ∷ behind)
              (print_str (codes "Unknown (0x") c)
      ])
      (type_name-named kind)
    ∙ ap
        (λ (t : List ℕ). elim (named type_names kind) as (λ _. Console) [
          | some name ↦ print_str name c
          | none ↦ print_str t (print_str (codes "Unknown (0x") c)
        ])
        digits
    ∙ go (named type_names kind)
  where
    tail : List ℕ
    tail = hex_digit (kind / 16 % 16) ∷ hex_digit (kind % 16) ∷ b')' ∷ behind

    digits : (hex_char (kind / 16 % 16) ∷ hex_char (kind % 16) ∷ b')' ∷ behind) ≡ tail
    digits =
        ap₂ (λ x y. x ∷ y ∷ b')' ∷ behind) (hex_char-hex_digit (kind / 16 % 16) (omega arith))
          (hex_char-hex_digit (kind % 16) (omega arith))

    go :
        (name : Option (List ℕ))
        → (elim name as (λ _. Console) [
          | some name' ↦ print_str name' c
          | none ↦ print_str tail (print_str (codes "Unknown (0x") c)
        ])
          ≡ print_str
              (elim name as (λ _. List ℕ) [
                | some name' ↦ name'
                | none ↦ codes "Unknown (0x" ++ tail
              ])
              c
    go (some name) = refl
    go none = sym (print_str-append (codes "Unknown (0x") tail c)
