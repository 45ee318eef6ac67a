-- ===== src/Listing/Reads.antt =====
-- The displays of the drives keep to the screen, and only read.
use ety_os.Base.{
  ℕ, zero, suc, ◌+◌, Bool-cases, inl, inr, Option, none, some, List, ◌≡◌, refl, ◌∙◌, ◌==◌, codes,
  if◌then◌else◌, ltb,
}
use ety_os.Bytes.{Buffer}
use ety_os.Disk.{Disk}
use ety_os.Disk.Laws.{Laws, sector}
use ety_os.Console.{Console, print_str, print_newline}
use ety_os.Console.Cursor.{IsCursor, Safe, Safe-trans, print_newline-Safe, print_str-Safe}
use ety_os.Partition.Mbr.{entry_type, entry_lba_first}
use ety_os.Disktool.{Tool}
use ety_os.Listing.{
  print_drive, show_drive, display_available_disks, print_volume, print_info, read_primary,
  print_ext4, print_kind, print_entry, print_entries, display_partitions, display_partition_info,
  report_filesystem, check_filesystem,
}
use ety_os.Listing.Safety.{
  print_drive-Safe, ◌▷◌, Safe-refl, print_type-Safe, print_volume-Safe, print_extent-Safe,
  print_end-Safe, print_info-Safe, report_filesystem-Safe,
}

-- A display keeps to the screen and leaves every sector of the primary master as it is.
pub record Shows (disk : Disk) (c : Console) (d : disk.Drives) (r : Console × disk.Drives)
    : Type 0 where
  pub safe : Safe c r.0
  pub reads : (k : ℕ) → sector disk 0 0 k r.1 ≡ sector disk 0 0 k d

module _ (disk : Disk) {limit : ℕ} (laws : Laws disk limit) where
  open disk use {Drives}

  print-Shows : {c c' : Console} (d : Drives) → Safe c c' → Shows disk c d (c', d)
  print-Shows d s = record { safe = s; reads = λ k. refl }

  Shows-trans :
      {c : Console} {d : Drives} {r r' : Console × Drives}
      → Shows disk c d r
      → (IsCursor r.0 → Shows disk r.0 r.1 r')
      → Shows disk c d r'
  Shows-trans s next =
      let t = next s.safe.cursor in
      record { safe = Safe-trans s.safe t.safe; reads = λ k. t.reads k ∙ s.reads k }

  read_primary-Shows :
      (lba : ℕ) {c : Console} (d : Drives)
      → IsCursor c
      → Shows disk c d ((read_primary disk lba c d).1, (read_primary disk lba c d).2)
  unfolding read_primary
  read_primary-Shows lba {c} d is = record {
    safe = go (disk.read_sector 0 0 lba d).0;
    reads = λ k. laws.after_read 0 0 lba k d;
  }
    where
      go :
          (b : Option Buffer)
          → Safe c (elim b as (λ _. Console) [
            | none ↦ print_str (codes "Error reading from disk.") c
            | some _ ↦ c
          ])
      go none = print_str-Safe (codes "Error reading from disk.") is
      go (some b) = Safe-refl is

  -- A read, and what is printed of its result.
  shown-Shows :
      {c : Console} {d : Drives} (r : Option Buffer × Console × Drives)
      (failing : Console → Console) (printing : Buffer → Console → Console)
      → Shows disk c d (r.1, r.2)
      → ((c' : Console) → IsCursor c' → Safe c' (failing c'))
      → ((b : Buffer) (c' : Console) → IsCursor c' → Safe c' (printing b c'))
      → Shows disk c d
          (elim r.0 as (λ _. Console) [ none ↦ failing r.1 | some b ↦ printing b r.1 ], r.2)
  shown-Shows (none, c', d') failing printing s f g = Shows-trans s (λ is. print-Shows d' (f c' is))
  shown-Shows (some b, c', d') failing printing s f g =
      Shows-trans s (λ is. print-Shows d' (g b c' is))

  print_ext4-Shows :
      (lba : ℕ) {c : Console} (d : Drives) → IsCursor c → Shows disk c d (print_ext4 disk lba c d)
  unfolding print_ext4
  print_ext4-Shows lba {c} d is =
      Shows-trans (print-Shows d (print_str-Safe (codes "EXT4") is)) (λ is'.
        shown-Shows _ (λ c'. c') print_volume (read_primary-Shows _ d is') (λ c' i. Safe-refl i)
          (λ b c' i. print_volume-Safe b i))

  module _ (behind : List ℕ) where
    print_kind-Shows :
        (i : ℕ) (mbr : Buffer) {c : Console} (d : Drives)
        → IsCursor c
        → Shows disk c d (print_kind disk behind i mbr c d)
    unfolding print_kind
    print_kind-Shows i mbr d is = elim (Bool-cases (entry_type mbr i == 0x83)) [
      | inl e ↦ rw e (print_ext4-Shows (entry_lba_first mbr i) d is)
      | inr e ↦ rw e (print-Shows d (print_type-Safe (entry_type mbr i) behind is))
    ]

    print_entry-Shows :
        (i : ℕ) (mbr : Buffer) {c : Console} (d : Drives)
        → IsCursor c
        → Shows disk c d (print_entry disk behind i mbr c d)
    unfolding print_entry
    print_entry-Shows i mbr d is = elim (Bool-cases (entry_type mbr i == 0)) [
      | inl e ↦ rw e (print-Shows d (Safe-refl is))
      | inr e ↦ rw e (
          Shows-trans
            (Shows-trans (print-Shows d (print_extent-Safe i mbr is)) (print_kind-Shows i mbr d))
            (λ is'. print-Shows _ (print_end-Safe i mbr is')))
    ]

    print_entries-Shows :
        (left i : ℕ) (mbr : Buffer) {c : Console} (d : Drives)
        → IsCursor c
        → Shows disk c d (print_entries disk behind left i mbr c d)
    unfolding print_entries
    print_entries-Shows zero i mbr d is = print-Shows d (Safe-refl is)
    print_entries-Shows (suc left) i mbr d is =
        Shows-trans (print_entry-Shows i mbr d is) (print_entries-Shows left (i + 1) mbr _)

    -- On a drive of `Laws`, whatever its MBR holds and whatever stands behind `hex_str`,
    -- `display_partitions` keeps the cursor on the screen, writes no byte outside of it, and changes
    -- no sector of the drive.
    pub display_partitions-Shows :
        (c : Console) (d : Drives)
        → IsCursor c
        → Shows disk c d (display_partitions disk behind c d)
    unfolding display_partitions
    display_partitions-Shows c d is = go (read_primary disk 0 c d) (read_primary-Shows 0 d is)
      where
        go :
            (r : Option Buffer × Console × Drives)
            → Shows disk c d (r.1, r.2)
            → Shows disk c d (elim r.0 as (λ _. Console × Drives) [
              | none ↦ (print_str (codes "Error: Unable to read MBR.") r.1, r.2)
              | some mbr ↦
                  print_entries disk behind 4 0 mbr
                    (print_newline (print_str (codes "Partition Table:") r.1))
                    r.2
            ])
        go (none, c', d') s = Shows-trans s (λ is'. print-Shows d' (print_str-Safe _ is'))
        go (some mbr, c', d') s =
            Shows-trans
              (Shows-trans s (λ is'.
                print-Shows d'
                  (print_str-Safe (codes "Partition Table:") is' ▷ print_newline-Safe)))
              (print_entries-Shows 4 0 mbr d')

    display_partition_info-Shows :
        (t : Tool) (c : Console) (d : Drives)
        → IsCursor c
        → Shows disk c d (display_partition_info disk behind t c d)
    unfolding display_partition_info
    display_partition_info-Shows t c d is = go t.current_disk
      where
        go :
            (current : Option ℕ)
            → Shows disk c d (elim current as (λ _. Console × Drives) [
              | none ↦ (print_newline (print_str (codes "No disk selected") c), d)
              | some n ↦
                  display_partitions disk behind
                    (print_info (t.available_disks n) (print_str (codes "Disk: ") c))
                    d
            ])
        go none = print-Shows d (print_str-Safe (codes "No disk selected") is ▷ print_newline-Safe)
        go (some n) =
            Shows-trans
              (print-Shows d
                (print_str-Safe (codes "Disk: ") is ▷ print_info-Safe (t.available_disks n)))
              (display_partitions-Shows _ d)

  pub check_filesystem-Shows :
      (stack : Buffer) (c : Console) (d : Drives)
      → IsCursor c
      → Shows disk c d (check_filesystem disk stack c d)
  unfolding check_filesystem
  check_filesystem-Shows stack c d is =
      Shows-trans
        (Shows-trans
          (print-Shows d (print_str-Safe (codes "Checking filesystem...") is ▷ print_newline-Safe))
          (λ is'.
            shown-Shows
              (read_primary disk 0 (print_newline (print_str (codes "Checking filesystem...") c)) d)
              (λ c'.
                report_filesystem stack (print_str (codes "Error: Unable to read boot sector.") c'))
              (λ b c'. report_filesystem (λ i. if ltb i 512 then b i else stack i) c')
              (read_primary-Shows 0 d is')
              (λ c' i.
                print_str-Safe (codes "Error: Unable to read boot sector.") i
                ▷ report_filesystem-Safe stack)
              (λ b c' i. report_filesystem-Safe _ i)))
        (λ is'. print-Shows _ (print_newline-Safe is'))

  module _ (identify : ℕ → ℕ → Drives → Option (ℕ → ℕ) × Drives)
      (asks : (a b k : ℕ) (d : Drives) → sector disk 0 0 k (identify a b d).1 ≡ sector disk 0 0 k d)
      (stack : Buffer) where
    show_drive-Shows :
        (a b : ℕ) {c : Console} {d : Drives} (r : ℕ × Console × Drives)
        → Shows disk c d (r.1, r.2)
        → let r' = show_drive identify stack a b r in Shows disk c d (r'.1, r'.2)
    unfolding show_drive
    show_drive-Shows a b (n, c', d') s = Shows-trans s (λ is. go (identify a b d').0 is)
      where
        go :
            (o : Option (ℕ → ℕ))
            → IsCursor c'
            → let r' = elim o as (λ _. ℕ × Console × Drives) [
              | none ↦ (n, c', (identify a b d').1)
              | some w ↦ (n + 1, print_drive a b w stack c', (identify a b d').1)
            ] in
              Shows disk c' d' (r'.1, r'.2)
        go none is = record { safe = Safe-refl is; reads = λ k. asks a b k d' }
        go (some w) is = record {
          safe = print_drive-Safe a b w stack is;
          reads = λ k. asks a b k d';
        }

    pub display_available_disks-Shows :
        (c : Console) (d : Drives)
        → IsCursor c
        → Shows disk c d (display_available_disks identify stack c d)
    unfolding display_available_disks
    display_available_disks-Shows c d is =
        let c0 = print_newline (print_str (codes "Model / Size / Type") c) in
        let start =
          print-Shows d (print_str-Safe (codes "Model / Size / Type") is ▷ print_newline-Safe) in
        let r1 = show_drive identify stack 0 0 (0, c0, d) in
        let r2 = show_drive identify stack 0 1 r1 in
        let r3 = show_drive identify stack 1 0 r2 in
        let r4 = show_drive identify stack 1 1 r3 in
        let shown = show_drive-Shows 1 1 r3 (
          show_drive-Shows 1 0 r2
            (show_drive-Shows 0 1 r1 (show_drive-Shows 0 0 (0, c0, d) start))) in
        elim (Bool-cases (r4.0 == 0)) [
          | inl e ↦ rw e (
              Shows-trans shown (λ is'.
                print-Shows _ (print_str-Safe (codes "No drives found.") is' ▷ print_newline-Safe)))
          | inr e ↦ rw e shown
        ]
