-- ===== src/Disktool/Delete.antt =====
-- What `delete_partition` does to the MBR.
use ety_os.Base.{
  ℕ, ◌+◌, ◌<◌, ◌≤◌, ◌≡◌, ◌≢◌, ◌⊎◌, arith, refl, ◌==◌, leb, if◌then◌else◌, Option, Bool, none, some,
  Bool-cases, inl, inr, true, false, ℤ, pos, negsuc, ◌∙◌, ap, ==→ne,
}
use ety_os.Bytes.{Buffer, IsSector}
use ety_os.Disk.{Disk, State, Cmd, Outcome, done, read, write, attempt, ◌>>=◌, pure}
use ety_os.Disk.Laws.{
  Laws, sector, and_then-done, attempt-read, done_inj, attempt-write, tried-sector, write-done,
}
use ety_os.Partition.Mbr.{entry, entry_type, clear_entry}
use ety_os.Partition.Mbr.Entries.{clear_entry-at, clear_entry-IsSector}
use ety_os.Disktool.{
  Tool, DiskInfo, Reply, deleted, delete_entry, delete_partition, error_reading_mbr,
  error_writing_mbr, no_such_partition, invalid_partition_index, no_disk_selected,
}

-- `after` is `mbr` with the 16 bytes of the used entry `i` cleared.
pub record IsDeleted (i : ℕ) (mbr after : Buffer) : Type 0 where
  used : entry_type mbr i ≢ 0
  cleared : (x : ℕ) → entry i ≤ x → x < entry i + 16 → after x ≡ 0
  kept : (x : ℕ) → (x < entry i) ⊎ (entry i + 16 ≤ x) → after x ≡ mbr x

clear_entry-IsDeleted :
    (i : ℕ) (mbr : Buffer) → entry_type mbr i ≢ 0 → IsDeleted i mbr (clear_entry 16 0 i mbr)
clear_entry-IsDeleted i mbr ne = record {
  used = ne;
  cleared = λ x lo hi. clear_entry-at 16 0 i mbr x ∙ ground arith;
  kept = λ x h. clear_entry-at 16 0 i mbr x ∙ ground arith;
}

no_deleted : no_such_partition ≢ deleted
no_deleted e = cc

no_read : error_reading_mbr ≢ deleted
no_read e = cc

no_index : invalid_partition_index ≢ deleted
no_index e = cc

no_disk : no_disk_selected ≢ deleted
no_disk e = cc

-- What success means: the selected disk `n`, the index `i`, and the MBR before and after.
pub record Deletion (disk : Disk) (t : Tool) (index : ℤ) (s s' : disk.Drives) : Type 0 where
  n : ℕ
  i : ℕ
  mbr : Buffer
  after : Buffer
  selected_disk : t.current_disk ≡ some n
  index_lem : index ≡ pos i
  in_table : i < 4
  loaded : sector disk (t.available_disks n).controller (t.available_disks n).drive 0 s ≡ some mbr
  is_deleted : IsDeleted i mbr after
  stored :
      sector disk (t.available_disks n).controller (t.available_disks n).drive 0 s' ≡ some after

module _ (disk : Disk) (c d i : ℕ) (mbr : Buffer) where
  abbrev finish : Option (Unit {0}) → Cmd disk.Drives Reply
  finish o = pure (elim o [ none ↦ error_writing_mbr | some _ ↦ deleted ])

  abbrev rewrite : Cmd disk.Drives Reply
  rewrite = attempt (write disk c d 0 (clear_entry 16 0 i mbr)) >>= finish

module _ (disk : Disk) {limit : ℕ} (laws : Laws disk limit) (c d i : ℕ) (mbr : Buffer)
    (in_table : i < 4) (whole : IsSector mbr) (u : State disk.Drives) where
  after_write :
      (rewrite disk c d i mbr u).0 ≡ done deleted
      → sector disk c d 0 (rewrite disk c d i mbr u).1.drives ≡ some (clear_entry 16 0 i mbr)
  after_write ok =
      let (o, e1, f, ok') = and_then-done (attempt wr u) (finish disk c d i mbr) deleted ok in
      ap (λ (r : Outcome Reply × State disk.Drives). sector disk c d 0 r.1.drives) f
      ∙ go o e1 (done_inj ok')
    where
      wr : Cmd disk.Drives (Unit {0})
      wr = write disk c d 0 (clear_entry 16 0 i mbr)

      go :
          (o : Option (Unit {0}))
          → (attempt wr u).0 ≡ done o
          → (elim o [ none ↦ error_writing_mbr | some _ ↦ deleted ]) ≡ deleted
          → sector disk c d 0 (attempt wr u).1.drives ≡ some (clear_entry 16 0 i mbr)
      go none e1 e = cc
      go (some x) e1 e =
          tried-sector disk c d (wr u)
          ∙ write-done disk c d laws 0 _ u
              (clear_entry-IsSector 16 0 i (omega arith) in_table whole)
              (attempt-write disk c d laws 0 (clear_entry 16 0 i mbr) u x e1)

  after_test :
      (b : Bool)
      → let rest = if b then pure no_such_partition else rewrite disk c d i mbr in
        (rest u).0 ≡ done deleted
        → (b ≡ false) × (sector disk c d 0 (rest u).1.drives ≡ some (clear_entry 16 0 i mbr))
  after_test true ok = absurd (no_deleted (done_inj ok))
  after_test false ok = (refl, after_write ok)

-- The MBR's read and what follows it, on the drive of `info`.
delete_entry-IsDeleted :
    (disk : Disk) {limit : ℕ} (laws : Laws disk limit) (info : DiskInfo) (i : ℕ) (in_table : i < 4)
    (s : State disk.Drives)
    → (delete_entry disk info i s).0 ≡ done deleted
    → let at = sector disk info.controller info.drive 0 in
      (mbr after : Buffer) × (at s.drives ≡ some mbr)
      × IsDeleted i mbr after
      × (at (delete_entry disk info i s).1.drives ≡ some after)
unfolding delete_entry
delete_entry-IsDeleted disk laws info i in_table s ok =
    let (o, e1, f, ok') = and_then-done (attempt (read disk c d 0) s) next deleted ok in
    let (mbr, e, is, stored) = go o (attempt-read disk c d laws 0 s o e1) ok' in
    (
      mbr,
      clear_entry 16 0 i mbr,
      attempt-read disk c d laws 0 s o e1 ∙ e,
      clear_entry-IsDeleted i mbr is,
      ap (λ (r : Outcome Reply × State disk.Drives). sector disk c d 0 r.1.drives) f ∙ stored,
    )
  where
    c : ℕ
    c = info.controller

    d : ℕ
    d = info.drive

    u : State disk.Drives
    u = (attempt (read disk c d 0) s).1

    next : Option Buffer → Cmd disk.Drives Reply
    next o = elim o [
      | none ↦ pure error_reading_mbr
      | some mbr ↦ if entry_type mbr i == 0 then pure no_such_partition else rewrite disk c d i mbr
    ]

    go :
        (o : Option Buffer)
        → sector disk c d 0 s.drives ≡ o
        → (next o u).0 ≡ done deleted
        → (mbr : Buffer) × (o ≡ some mbr)
          × (entry_type mbr i ≢ 0)
          × (sector disk c d 0 (next o u).1.drives ≡ some (clear_entry 16 0 i mbr))
    go none has e = absurd (no_read (done_inj e))
    go (some mbr) has e =
        let (ne, stored) =
          after_test disk laws c d i mbr in_table (laws.read_bytes c d 0 s.drives mbr has) u
            (entry_type mbr i == 0) e in
        (mbr, refl, ==→ne (entry_type mbr i) 0 ne, stored)

-- Take a drive of `Laws`. When `delete_partition` reports success, a disk is selected, the index is
-- below 4 and its entry was used; afterwards the MBR of the selected disk has that entry's bytes
-- cleared and its other bytes as they were.
pub delete_partition-Deletion :
    (disk : Disk) (t : Tool) (index : ℤ) (s : State disk.Drives)
    → {limit : ℕ} → Laws disk limit
    → (delete_partition disk t index s).0 ≡ done deleted
    → Deletion disk t index s.drives (delete_partition disk t index s).1.drives
unfolding delete_partition
delete_partition-Deletion disk t index s laws ok = by_disk t.current_disk refl ok
  where
    run : Option ℕ → ℤ → Cmd disk.Drives Reply
    run current index' = elim current [
      | none ↦ pure no_disk_selected
      | some n ↦ elim index' [
        | negsuc k ↦ pure invalid_partition_index
        | pos i ↦
            if leb 4 i
            then pure invalid_partition_index
            else delete_entry disk (t.available_disks n) i
      ]
    ]

    by_index :
        (n : ℕ)
        → t.current_disk ≡ some n
        → (index' : ℤ) → index ≡ index'
        → (run (some n) index' s).0 ≡ done deleted
        → Deletion disk t index s.drives (run (some n) index' s).1.drives
    by_index n e (negsuc k) e' ok' = absurd (no_index (done_inj ok'))
    by_index n e (pos i) e' ok' = elim (Bool-cases (leb 4 i)) [
      | inl b ↦ absurd (no_index (done_inj (rw b at ok')))
      | inr b ↦ rw b (
          let (mbr, after, loads, is, stored) =
            delete_entry-IsDeleted disk laws (t.available_disks n) i (ground (arith, b)) s
              (rw b at ok') in
          record {
            n = n;
            i = i;
            mbr = mbr;
            after = after;
            selected_disk = e;
            index_lem = e';
            in_table = ground (arith, b);
            loaded = loads;
            is_deleted = is;
            stored = stored;
          })
    ]

    by_disk :
        (current : Option ℕ)
        → t.current_disk ≡ current
        → (run current index s).0 ≡ done deleted
        → Deletion disk t index s.drives (run current index s).1.drives
    by_disk none e ok' = absurd (no_disk (done_inj ok'))
    by_disk (some n) e ok' = by_index n e index refl ok'
