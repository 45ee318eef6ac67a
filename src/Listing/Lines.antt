-- ===== src/Listing/Lines.antt =====
-- The lines that `display_partitions` prints.
use ety_os.Base.{
  ℕ, zero, suc, ◌+◌, ◌<◌, ◌≤◌, Bool-cases, inl, inr, Option, none, some, List, [], ◌∷◌, ◌++◌, ◌≡◌,
  refl, ◌∙◌, sym, ◌==◌, codes, ap, arith,
}
use ety_os.Bytes.{Buffer, IsSector}
use ety_os.Disk.{Disk}
use ety_os.Disk.Laws.{Laws, sector}
use ety_os.Console.{Console, print_str, print_newline}
use ety_os.Console.Numbers.{print_str-append}
use ety_os.Partition.Mbr.{entry_type, entry_lba_first}
use ety_os.Partition.Ext4.{add32}
use ety_os.Listing.Types.{print_type_lem}
use ety_os.Listing.Text.{
  concat, extent_text, print_all-concat, print_extent_lem, volume_text, print_volume_lem, ext4_text,
  kind_text, end_text, entry_text, listing, print_end_lem, print_newline-str,
}
use ety_os.Listing.{
  print_volume, print_extent, read_primary, print_ext4, print_kind, print_entry, print_entries,
  display_partitions,
}

module _ (disk : Disk) where
  open disk use {Drives}

  print_ext4_lem :
      (lba : ℕ) (c : Console) (d : Drives)
      → (print_ext4 disk lba c d).0
        ≡ print_str (codes "EXT4" ++ ext4_text (sector disk 0 0 (add32 lba 2) d)) c
  unfolding print_ext4 read_primary ext4_text
  print_ext4_lem lba c d = go (sector disk 0 0 (add32 lba 2) d)
    where
      go :
          (b : Option Buffer)
          → (elim b as (λ _. Console) [
            | none ↦ elim b as (λ _. Console) [
              | none ↦ print_str (codes "Error reading from disk.") (print_str (codes "EXT4") c)
              | some _ ↦ print_str (codes "EXT4") c
            ]
            | some sb ↦ print_volume sb (elim b as (λ _. Console) [
              | none ↦ print_str (codes "Error reading from disk.") (print_str (codes "EXT4") c)
              | some _ ↦ print_str (codes "EXT4") c
            ])
          ])
            ≡ print_str (codes "EXT4" ++ ext4_text b) c
      go none = sym (print_str-append (codes "EXT4") (codes "Error reading from disk.") c)
      go (some sb) =
          print_volume_lem sb (print_str (codes "EXT4") c)
          ∙ sym (print_str-append (codes "EXT4") (volume_text sb) c)

  print_kind_lem :
      (behind : List ℕ) (i : ℕ) (mbr : Buffer) (c : Console) (d : Drives)
      → (print_kind disk behind i mbr c d).0
        ≡ print_str (kind_text i mbr behind (sector disk 0 0 (add32 (entry_lba_first mbr i) 2) d)) c
  unfolding print_kind kind_text
  print_kind_lem behind i mbr c d = elim (Bool-cases (entry_type mbr i == 0x83)) [
    | inl e ↦ rw e (print_ext4_lem (entry_lba_first mbr i) c d)
    | inr e ↦ rw e (print_type_lem (entry_type mbr i) behind c)
  ]

  print_entry_lem :
      (behind : List ℕ) (i : ℕ) (mbr : Buffer) (c : Console) (d : Drives)
      → i < 4
      → IsSector mbr
      → (print_entry disk behind i mbr c d).0
        ≡ print_str
            (entry_text i mbr behind (sector disk 0 0 (add32 (entry_lba_first mbr i) 2) d))
            c
  unfolding print_entry entry_text print_str
  print_entry_lem behind i mbr c d h is = elim (Bool-cases (entry_type mbr i == 0)) [
    | inl e ↦ rw e refl
    | inr e ↦ rw e (
        print_end_lem i mbr (print_kind disk behind i mbr (print_extent i mbr c) d).0 is
        ∙ ap (print_str (end_text i mbr)) (
            print_kind_lem behind i mbr (print_extent i mbr c) d
            ∙ ap (print_str kinds)
                (print_extent_lem i mbr c h is ∙ print_all-concat (extent_text i mbr) c)
            ∙ sym (print_str-append (concat (extent_text i mbr)) kinds c))
        ∙ sym (print_str-append (concat (extent_text i mbr) ++ kinds) (end_text i mbr) c))
  ]
    where
      kinds : List ℕ
      kinds = kind_text i mbr behind (sector disk 0 0 (add32 (entry_lba_first mbr i) 2) d)

  print_entry-reads :
      (behind : List ℕ) (i : ℕ) (mbr : Buffer) (c : Console) (d : Drives) (k : ℕ)
      → ((l : ℕ) → sector disk 0 0 k (disk.read_sector 0 0 l d).1 ≡ sector disk 0 0 k d)
      → sector disk 0 0 k (print_entry disk behind i mbr c d).1 ≡ sector disk 0 0 k d
  unfolding print_entry print_kind print_ext4 read_primary
  print_entry-reads behind i mbr c d k read = elim (Bool-cases (entry_type mbr i == 0)) [
    | inl e ↦ rw e refl
    | inr e ↦ rw e (elim (Bool-cases (entry_type mbr i == 0x83)) [
      | inl e' ↦ rw e' (read (add32 (entry_lba_first mbr i) 2))
      | inr e' ↦ rw e' refl
    ])
  ]

  module _ {limit : ℕ} (laws : Laws disk limit) (behind : List ℕ) (mbr : Buffer) (is : IsSector mbr)
      (d0 : Drives) where
    print_entries_lem :
        (left i : ℕ) (c : Console) (d : Drives)
        → i + left ≤ 4
        → ((k : ℕ) → sector disk 0 0 k d ≡ sector disk 0 0 k d0)
        → (print_entries disk behind left i mbr c d).0
          ≡ print_str (listing left i mbr behind (λ k. sector disk 0 0 k d0)) c
    unfolding print_entries listing print_str
    print_entries_lem zero i c d h same = refl
    print_entries_lem (suc left) i c d h same =
        let line = entry_text i mbr behind (sector disk 0 0 (add32 (entry_lba_first mbr i) 2) d0) in
        print_entries_lem left (i + 1) _ _ (omega arith)
          (λ k. print_entry-reads behind i mbr c d k (λ l. laws.after_read 0 0 l k d) ∙ same k)
        ∙ ap (print_str (listing left (i + 1) mbr behind (λ k. sector disk 0 0 k d0))) (
            print_entry_lem behind i mbr c d (omega arith) is
            ∙ ap (λ b. print_str (entry_text i mbr behind b) c) (same _))
        ∙ sym (print_str-append line _ c)

  -- On a drive of `Laws` whose MBR can be read, `display_partitions` prints the heading and then the
  -- lines of `listing`, one for each used entry, with the volume names that the drive's superblocks
  -- have.
  pub display_partitions-listing :
      {limit : ℕ} (laws : Laws disk limit) (behind : List ℕ) (mbr : Buffer) (c : Console)
      (d : Drives)
      → sector disk 0 0 0 d ≡ some mbr
      → (display_partitions disk behind c d).0
        ≡ print_str
            (codes "Partition Table:\n" ++ listing 4 0 mbr behind (λ k. sector disk 0 0 k d))
            c
  unfolding display_partitions read_primary print_str
  display_partitions-listing laws behind mbr c d e =
      let after = (disk.read_sector 0 0 0 d).1 in
      let head = print_newline (print_str (codes "Partition Table:") c) in
      ap
        (λ (b : Option Buffer).
          (elim b as (λ _. Console × Drives) [
            | none ↦ (
              print_str (codes "Error: Unable to read MBR.") (elim b as (λ _. Console) [
                | none ↦ print_str (codes "Error reading from disk.") c
                | some _ ↦ c
              ]),
              after,
            )
            | some mbr' ↦
                print_entries disk behind 4 0 mbr'
                  (print_newline (
                    print_str (codes "Partition Table:") (elim b as (λ _. Console) [
                      | none ↦ print_str (codes "Error reading from disk.") c
                      | some _ ↦ c
                    ])))
                  after
          ]).0)
        e
      ∙ print_entries_lem laws behind mbr (laws.read_bytes 0 0 0 d mbr e) d 4 0 head after
          (omega arith) (λ k. laws.after_read 0 0 0 k d)
      ∙ ap (print_str (listing 4 0 mbr behind (λ k. sector disk 0 0 k d))) (
          print_newline-str (print_str (codes "Partition Table:") c)
          ∙ sym (print_str-append (codes "Partition Table:") (10 ∷ []) c))
      ∙ sym (
          print_str-append (codes "Partition Table:\n")
            (listing 4 0 mbr behind (λ k. sector disk 0 0 k d)) c)
