-- ===== src/Listing/Text.antt =====
-- The text that `display_partitions` prints.
use ety_os.Base.{
  ℕ, zero, suc, ◌+◌, ◌/◌, ◌%◌, ◌^◌, ◌<◌, Bool-cases, inl, inr, Option, none, some, List, [], ◌∷◌,
  ◌++◌, ◌≡◌, refl, ◌∙◌, sym, ◌==◌, ◌&&◌, codes, ap, fun_ext, ltb, leb, ◌||◌, Bool, false,
  if◌then◌else◌, arith,
}
use ety_os.Bytes.{Buffer, get16, get32, IsSector}
use ety_os.Console.{Console, print_str, print_char, print_newline, print_int, text_at}
use ety_os.Console.Digits.{decimal}
use ety_os.Console.Numbers.{print_str-append, print_int-print_dec}
use ety_os.Partition.Mbr.{entry, entry_status, entry_type, entry_lba_first, entry_sector_count}
use ety_os.Partition.Ext4.{add32}
use ety_os.Listing.{
  has_name, printable, print_name, print_volume, print_extent, print_end, bootable, size_in_mb,
}
use ety_os.Listing.Types.{type_text}

unfoldable pub concat : List (List ℕ) → List ℕ
concat [] = []
concat (s ∷ ss) = s ++ concat ss

-- Texts printed one behind the other.
unfoldable pub print_all : List (List ℕ) → Console → Console
print_all [] c = c
print_all (s ∷ ss) c = print_all ss (print_str s c)

pub print_all-concat : (ss : List (List ℕ)) (c : Console) → print_all ss c ≡ print_str (concat ss) c
unfolding print_all print_str concat
print_all-concat [] c = refl
print_all-concat (s ∷ ss) c =
    print_all-concat ss (print_str s c) ∙ sym (print_str-append s (concat ss) c)

print_int-decimal : (n : ℕ) → n < 2 ^ 32 → print_int n ≡ print_str (decimal n)
print_int-decimal n h = fun_ext (λ c. (print_int-print_dec n c h).0)

pub print_newline-str : (c : Console) → print_newline c ≡ print_str (10 ∷ []) c
unfolding print_str print_char
print_newline-str c = refl

-- Whole megabytes of a number of sectors, as a number of 12 bits.
abbrev pub megabytes : ℕ → ℕ
megabytes sectors = sectors / 2048 % 4096

size_in_mb-megabytes : (n : ℕ) → size_in_mb n ≡ megabytes n
size_in_mb-megabytes n = omega arith

abbrev pub extent_text : ℕ → Buffer → List (List ℕ)
extent_text i mbr =
    codes "Partition "
    ∷ decimal i
    ∷ codes ":"
    ∷ codes " Start LBA: "
    ∷ decimal (entry_lba_first mbr i)
    ∷ codes ", Size: "
    ∷ decimal (megabytes (entry_sector_count mbr i))
    ∷ codes " MB"
    ∷ codes ", Type: "
    ∷ []

get32_small : (b : Buffer) (i : ℕ) → IsSector b → get32 b i < 2 ^ 32
get32_small b i is = omega (arith, is.1 i, is.1 (i + 1), is.1 (i + 2), is.1 (i + 2 + 1))

size_small : (n : ℕ) → megabytes n < 2 ^ 32
size_small n = omega arith

pub print_extent_lem :
    (i : ℕ) (mbr : Buffer) (c : Console)
    → i < 4
    → IsSector mbr
    → print_extent i mbr c ≡ print_all (extent_text i mbr) c
unfolding print_extent print_all
print_extent_lem i mbr c h is =
    rw
      (
        print_int-decimal i (omega arith),
        print_int-decimal (entry_lba_first mbr i) (get32_small mbr (entry i + 8) is),
        size_in_mb-megabytes (entry_sector_count mbr i),
        print_int-decimal (megabytes (entry_sector_count mbr i)) (size_small _),
      )
      refl

abbrev pub is_printable : ℕ → Bool
is_printable c = ltb 31 c && ltb c 127

printable-is_printable : (c : ℕ) → printable c ≡ is_printable c
printable-is_printable c = ground arith

unfoldable pub printables : List ℕ → List ℕ
printables [] = []
printables (c ∷ s) = let rest = printables s in if is_printable c then c ∷ rest else rest

print_name_lem :
    (left j : ℕ) (sb : Buffer) (c : Console)
    → print_name left j sb c ≡ print_str (printables (text_at left sb (120 + j))) c
unfolding print_name print_str printables text_at
print_name_lem zero j sb c = refl
print_name_lem (suc left) j sb c =
    let next : 120 + j + 1 ≡ 120 + (j + 1) = omega arith in
    elim (Bool-cases (sb (120 + j) == 0)) [
      | inl e ↦ rw e refl
      | inr e ↦
          rw (e, next, printable-is_printable (sb (120 + j)))
            (elim (Bool-cases (is_printable (sb (120 + j)))) [
              | inl e' ↦ rw e' (print_name_lem left (j + 1) sb (print_char (sb (120 + j)) c))
              | inr e' ↦ rw e' (print_name_lem left (j + 1) sb c)
            ])
    ]

-- Some of the bytes from `p` on is not 0.
unfoldable pub any_set : ℕ → ℕ → Buffer → Bool
any_set zero p sb = false
any_set (suc left) p sb = ltb 0 (sb p) || any_set left (p + 1) sb

has_name-any_set : (left j : ℕ) (sb : Buffer) → has_name left j sb ≡ any_set left (120 + j) sb
unfolding has_name any_set
has_name-any_set zero j sb = refl
has_name-any_set (suc left) j sb =
    let next : 120 + j + 1 ≡ 120 + (j + 1) = omega arith in
    rw next (ground (arith, has_name-any_set left (j + 1) sb))

-- The volume name of a superblock, cut at its first NUL and to its printable characters.
unfoldable pub volume_text : Buffer → List ℕ
volume_text sb =
    if (get16 sb 56 == 0xEF53) && any_set 16 120 sb
    then codes " [Volume: " ++ printables (text_at 16 sb 120) ++ codes "]"
    else []

pub print_volume_lem :
    (sb : Buffer) (c : Console) → print_volume sb c ≡ print_str (volume_text sb) c
unfolding print_volume volume_text print_str
print_volume_lem sb c =
    rw (has_name-any_set 16 0 sb)
      (elim (Bool-cases ((get16 sb 56 == 0xEF53) && any_set 16 120 sb)) [
        | inl e ↦ rw e (
            ap (print_char 93) (print_name_lem 16 0 sb _)
            ∙ sym (print_str-append (printables (text_at 16 sb 120)) (93 ∷ []) _))
        | inr e ↦ rw e refl
      ])

-- What follows EXT4, by the read of the superblock.
unfoldable pub ext4_text : Option Buffer → List ℕ
ext4_text none = codes "Error reading from disk."
ext4_text (some sb) = volume_text sb

unfoldable pub kind_text : ℕ → Buffer → List ℕ → Option Buffer → List ℕ
kind_text i mbr behind volume =
    if entry_type mbr i == 0x83
    then codes "EXT4" ++ ext4_text volume
    else type_text (entry_type mbr i) behind

-- The bit of 0x80 is the highest of the status byte.
unfoldable pub end_text : ℕ → Buffer → List ℕ
end_text i mbr = if leb 0x80 (entry_status mbr i) then codes " [Bootable]\n" else codes "\n"

-- The line of an entry, or nothing for an empty one.
unfoldable pub entry_text : ℕ → Buffer → List ℕ → Option Buffer → List ℕ
entry_text i mbr behind volume =
    if entry_type mbr i == 0
    then []
    else concat (extent_text i mbr) ++ kind_text i mbr behind volume ++ end_text i mbr

-- The lines of the entries from `i` on, with what each sector reads as.
unfoldable pub listing : ℕ → ℕ → Buffer → List ℕ → (ℕ → Option Buffer) → List ℕ
listing zero i mbr behind reads = []
listing (suc left) i mbr behind reads =
    entry_text i mbr behind (reads (add32 (entry_lba_first mbr i) 2))
    ++ listing left (i + 1) mbr behind reads

bootable-leb :
    (i : ℕ) (mbr : Buffer) → IsSector mbr → bootable mbr i ≡ leb 0x80 (entry_status mbr i)
bootable-leb i mbr is = let byte : entry_status mbr i < 256 = is.0 (entry i) in ground (arith, byte)

pub print_end_lem :
    (i : ℕ) (mbr : Buffer) (c : Console)
    → IsSector mbr
    → print_end i mbr c ≡ print_str (end_text i mbr) c
unfolding print_end end_text print_str
print_end_lem i mbr c is =
    rw (bootable-leb i mbr is) (elim (Bool-cases (leb 0x80 (entry_status mbr i))) [
      | inl e ↦ rw e (print_newline-str _)
      | inr e ↦ rw e (print_newline-str c)
    ])
