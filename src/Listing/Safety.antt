-- ===== src/Listing/Safety.antt =====
-- Nothing that is shown leaves the screen, and the drives are only read.
use ety_os.Base.{
  ℕ, zero, suc, ◌+◌, ◌/◌, ◌%◌, Bool-cases, inl, inr, Option, none, some, List, [], ◌∷◌, refl, ◌==◌,
  ◌&&◌, codes,
}
use ety_os.Bytes.{Buffer, get16}
use ety_os.Console.{Console, print_str, print_int, text_at}
use ety_os.Console.Cursor.{
  IsCursor, Safe, Safe-trans, print_char-Safe, print_newline-Safe, print_str-Safe,
}
use ety_os.Partition.Mbr.{entry_lba_first, entry_sector_count}
use ety_os.Disktool.{Tool, DiskInfo, read_string_from_identify, identified_size}
use ety_os.Listing.{
  print_drive, hex_char, type_name, print_type, has_name, printable, print_name, print_volume,
  print_extent, print_end, bootable, size_in_mb, s_volume_name, print_info, list_loop, list_disks,
  hex_loop, report_filesystem, has_bytes,
}

pub print_int-Safe : (n : ℕ) {c : Console} → IsCursor c → Safe c (print_int n c)
unfolding print_int
print_int-Safe n {c} is = elim (Bool-cases (n == 0)) [
  | inl e ↦ rw e (print_str-Safe (b'0' ∷ []) is)
  | inr e ↦ rw e (print_str-Safe _ is)
]

infixl 5 ◌▷◌
abbrev pub ◌▷◌ : {a b c : Console} → Safe a b → (IsCursor b → Safe b c) → Safe a c
s ▷ next = Safe-trans s (next s.cursor)

pub Safe-refl : {c : Console} → IsCursor c → Safe c c
Safe-refl is = record { cursor = is; off_screen = λ x o. refl }

pub print_type-Safe :
    (kind : ℕ) (behind : List ℕ) {c : Console} → IsCursor c → Safe c (print_type kind behind c)
unfolding print_type
print_type-Safe kind behind {c} is = go (type_name kind)
  where
    go :
        (name : Option (List ℕ))
        → Safe c (elim name as (λ _. Console) [
          | some name' ↦ print_str name' c
          | none ↦
              print_str
                (hex_char (kind / 16 % 16) ∷ hex_char (kind % 16) ∷ b')' ∷ behind)
                (print_str (codes "Unknown (0x") c)
        ])
    go (some name) = print_str-Safe name is
    go none = print_str-Safe (codes "Unknown (0x") is ▷ print_str-Safe _

print_name-Safe :
    (left j : ℕ) (sb : Buffer) {c : Console} → IsCursor c → Safe c (print_name left j sb c)
unfolding print_name
print_name-Safe zero j sb is = Safe-refl is
print_name-Safe (suc left) j sb {c} is = elim (Bool-cases (s_volume_name sb j == 0)) [
  | inl e ↦ rw e (Safe-refl is)
  | inr e ↦ rw e (elim (Bool-cases (printable (s_volume_name sb j))) [
    | inl e' ↦ rw e' (print_char-Safe (s_volume_name sb j) is ▷ print_name-Safe left (j + 1) sb)
    | inr e' ↦ rw e' (print_name-Safe left (j + 1) sb is)
  ])
]

pub print_volume-Safe : (sb : Buffer) {c : Console} → IsCursor c → Safe c (print_volume sb c)
unfolding print_volume
print_volume-Safe sb {c} is = elim (Bool-cases ((get16 sb 56 == 0xEF53) && has_name 16 0 sb)) [
  | inl e ↦ rw e (
      print_str-Safe (codes " [Volume: ") is ▷ print_name-Safe 16 0 sb ▷ print_str-Safe (codes "]"))
  | inr e ↦ rw e (Safe-refl is)
]

pub print_extent-Safe :
    (i : ℕ) (mbr : Buffer) {c : Console} → IsCursor c → Safe c (print_extent i mbr c)
unfolding print_extent
print_extent-Safe i mbr is =
    print_str-Safe (codes "Partition ") is
    ▷ print_int-Safe i
    ▷ print_str-Safe (codes ":")
    ▷ print_str-Safe (codes " Start LBA: ")
    ▷ print_int-Safe (entry_lba_first mbr i)
    ▷ print_str-Safe (codes ", Size: ")
    ▷ print_int-Safe (size_in_mb (entry_sector_count mbr i))
    ▷ print_str-Safe (codes " MB")
    ▷ print_str-Safe (codes ", Type: ")

pub print_end-Safe : (i : ℕ) (mbr : Buffer) {c : Console} → IsCursor c → Safe c (print_end i mbr c)
unfolding print_end
print_end-Safe i mbr {c} is = elim (Bool-cases (bootable mbr i)) [
  | inl e ↦ rw e (print_str-Safe (codes " [Bootable]") is ▷ print_newline-Safe)
  | inr e ↦ rw e (print_newline-Safe is)
]

pub print_info-Safe : (info : DiskInfo) {c : Console} → IsCursor c → Safe c (print_info info c)
unfolding print_info
print_info-Safe info is =
    print_str-Safe (text_at 41 info.model 0) is
    ▷ print_str-Safe (codes " (")
    ▷ print_int-Safe _
    ▷ print_str-Safe (codes " MB)")
    ▷ print_newline-Safe

list_loop-Safe : (left i : ℕ) (t : Tool) {c : Console} → IsCursor c → Safe c (list_loop left i t c)
unfolding list_loop
list_loop-Safe zero i t is = Safe-refl is
list_loop-Safe (suc left) i t is =
    print_str-Safe (codes "[") is
    ▷ print_int-Safe i
    ▷ print_str-Safe (codes "] ")
    ▷ print_info-Safe (t.available_disks i)
    ▷ list_loop-Safe left (i + 1) t

pub list_disks-Safe : (t : Tool) {c : Console} → IsCursor c → Safe c (list_disks t c)
unfolding list_disks
list_disks-Safe t is =
    print_str-Safe (codes "Available Disks:\n") is
    ▷ print_newline-Safe
    ▷ list_loop-Safe t.num_disks 0 t

hex_loop-Safe : (left i : ℕ) (b : Buffer) {c : Console} → IsCursor c → Safe c (hex_loop left i b c)
unfolding hex_loop
hex_loop-Safe zero i b is = Safe-refl is
hex_loop-Safe (suc left) i b is =
    print_str-Safe _ is ▷ print_str-Safe (codes " ") ▷ hex_loop-Safe left (i + 1) b

pub report_filesystem-Safe :
    (b : Buffer) {c : Console} → IsCursor c → Safe c (report_filesystem b c)
unfolding report_filesystem
report_filesystem-Safe b {c} is = elim (Bool-cases (has_bytes b 0x52 (codes "FAT32"))) [
  | inl e ↦ rw e (print_str-Safe _ is)
  | inr e ↦ rw e (elim (Bool-cases (has_bytes b 0x36 (codes "FAT16"))) [
    | inl e' ↦ rw e' (print_str-Safe _ is)
    | inr e' ↦ rw e' (elim (Bool-cases (has_bytes b 0x8001 (codes "CD001"))) [
      | inl e3 ↦ rw e3 (print_str-Safe _ is)
      | inr e3 ↦ rw e3 (
          print_str-Safe (codes "Filesystem type: Unknown or unsupported.") is
          ▷ print_str-Safe (codes "Boot Sector Data: ")
          ▷ hex_loop-Safe 64 0 b
          ▷ print_newline-Safe)
    ])
  ])
]

pub print_drive-Safe :
    (controller drive : ℕ) (words : ℕ → ℕ) (stack : Buffer) {c : Console}
    → IsCursor c
    → Safe c (print_drive controller drive words stack c)
unfolding print_drive
print_drive-Safe controller drive words stack {c} is =
    elim (Bool-cases (read_string_from_identify words 27 46 stack 0 == 0)) [
      | inl e ↦ rw e (
          print_str-Safe (codes "(Unknown)") is
          ▷ print_str-Safe (codes "  ")
          ▷ print_int-Safe (identified_size words)
          ▷ print_str-Safe (codes " MB ")
          ▷ print_str-Safe _
          ▷ print_newline-Safe)
      | inr e ↦ rw e (
          print_str-Safe (text_at 41 (read_string_from_identify words 27 46 stack) 0) is
          ▷ print_str-Safe (codes "  ")
          ▷ print_int-Safe (identified_size words)
          ▷ print_str-Safe (codes " MB ")
          ▷ print_str-Safe _
          ▷ print_newline-Safe)
    ]
