-- ===== src/Partition/Create/Slots.antt =====
-- The two create commands end as Endings says.
use ety_os.Base.{
  ℕ, ◌+◌, ◌<◌, ◌≤◌, ◌^◌, ◌≡◌, ◌≢◌, inl, arith, refl, ◌∙◌, sym, subst, Option, none, some,
}
use ety_os.Memory.{Ptr}
use ety_os.Base.{Bool, true, false}
use ety_os.Bytes.{Buffer, IsSector}
use ety_os.Disk.{
  Disk, State, Cmd, Outcome, done, failed, stuck, tried, succeeded, read, write, attempt, ◌>>=◌,
  pure,
}
use ety_os.Disk.Laws.{
  Laws, sector, Leaves, and_then-done, done_inj, tried-sector, attempt-Leaves, attempt-read,
  attempt-write, write-done, read-Leaves,
}
use ety_os.Partition.Mbr.{find_slot, set_entry, entry_type}
use ety_os.Partition.Mbr.Entries.{Slot, free_slot, all_used, find_slot-Slot, set_entry-IsSector}
use ety_os.Partition.Fat32.{format_fat32}
use ety_os.Partition.Fat32.Writes.{format_fat32-Leaves}
use ety_os.Partition.Ext4.{format_ext4}
use ety_os.Partition.Ext4.Within.{format_ext4-Leaves}
use ety_os.Partition.Create.{
  Ending, mbr_unreadable, no_slot, mbr_unwritable, unformatted, created, take_slot,
  create_partition, create_ext4_partition, create_fat32_partition, ext4_partition_type,
  fat32_partition_type,
}
use ety_os.Partition.Create.Endings.{
  Slotted, Ended, unread, full, unwritten, was_formatted, not_formatted, set_entry-IsTaken,
}

-- A tried command that failed, and one that did not.
tried-failed : {D A : Type 0} (r : Outcome A × State D) → (tried r).0 ≡ done none → r.0 ≡ failed
tried-failed (done a, s) e = cc
tried-failed (failed, s) e = refl
tried-failed (stuck, s) e = cc

tried-done :
    {D A : Type 0} (r : Outcome A × State D) (a : A) → (tried r).0 ≡ done (some a) → r.0 ≡ done a
tried-done (done a, s) x e = cc
tried-done (failed, s) x e = cc
tried-done (stuck, s) x e = cc

succeeded-failed : (b : Bool) → succeeded b ≡ failed → b ≡ false
succeeded-failed true e = cc
succeeded-failed false e = refl

module _ (disk : Disk) {limit : ℕ} (laws : Laws disk limit) (c d kind start count : ℕ)
    (format : Cmd disk.Drives (Unit {0})) (keeps : Leaves disk c d 0 format) (byte : kind < 256)
    (short : start + count < 2 ^ 32) where
  open disk use {Drives}

  abbrev Ends : Option Buffer → Ending → Outcome Ending × State Drives → Type 0
  Ends before e r = Ended disk c d kind start count format before e (sector disk c d 0 r.1.drives)

  abbrev ending_of : Option (Unit {0}) → Ending
  ending_of formatted = elim formatted [ none ↦ unformatted | some _ ↦ created ]

  module _ (mbr : Buffer) (before : Option Buffer) (has : before ≡ some mbr) (whole : IsSector mbr)
      (e : Ending) where
    after_format :
        (mbr' : Buffer)
        → Slotted kind start count before mbr'
        → (t : State Drives) → sector disk c d 0 t.drives ≡ some mbr'
        → let rest = attempt format >>= (λ o. pure (ending_of o)) in
          (rest t).0 ≡ done e → Ends before e (rest t)
    after_format mbr' slot t holds ok =
        let next = λ (o : Option (Unit {0})). pure (ending_of o) in
        let (o, e1, f, ok') = and_then-done (attempt format t) next e ok in
        let same = attempt-Leaves disk c d format keeps t ∙ holds in
        subst (Ends before e) (sym f) (
          subst (Ended disk c d kind start count format before e) (sym same) (
            subst (λ x. Ended disk c d kind start count format before x (some mbr')) (done_inj ok')
              (ended o e1)))
      where
        ended :
            (o : Option (Unit {0}))
            → (attempt format t).0 ≡ done o
            → Ended disk c d kind start count format before (ending_of o) (some mbr')
        ended none q = not_formatted mbr' t slot holds (tried-failed (format t) q)
        ended (some x) q = was_formatted mbr' t slot holds (tried-done (format t) x q)

    after_slot :
        (i : ℕ)
        → i < 4
        → entry_type mbr i ≡ 0
        → ((j : ℕ) → j < i → entry_type mbr j ≢ 0)
        → (t : State Drives) → (take_slot disk c d kind start count format i mbr t).0 ≡ done e
        → Ends before e (take_slot disk c d kind start count format i mbr t)
    unfolding take_slot write
    after_slot i hi empty first t ok =
        let mbr' = set_entry i kind start count mbr in
        let (o, e1, f, ok') = and_then-done (attempt (write disk c d 0 mbr') t) _ e ok in
        subst (Ends before e) (sym f) (go o e1 ok')
      where
        rest : Option (Unit {0}) → Cmd Drives Ending
        rest o = elim o [
          | none ↦ pure mbr_unwritable
          | some _ ↦ attempt format >>= (λ o'. pure (ending_of o'))
        ]

        mbr' : Buffer
        mbr' = set_entry i kind start count mbr

        slot : Slotted kind start count before (set_entry i kind start count mbr)
        slot = record {
          mbr = mbr;
          i = i;
          has = has;
          in_table = hi;
          empty = empty;
          first = first;
          taken = set_entry-IsTaken i kind start count mbr (omega arith) (omega arith);
        }

        write-unwritten :
            (write disk c d 0 (set_entry i kind start count mbr) t).0 ≡ failed
            → Ended disk c d kind start count format before mbr_unwritable
                (sector disk c d 0 (write disk c d 0 (set_entry i kind start count mbr) t).1.drives)
        write-unwritten q = unwritten mbr' t.drives slot (succeeded-failed _ q)

        u : State Drives
        u = (attempt (write disk c d 0 (set_entry i kind start count mbr)) t).1

        go :
            (o : Option (Unit {0}))
            → (attempt (write disk c d 0 (set_entry i kind start count mbr)) t).0 ≡ done o
            → (rest o u).0 ≡ done e
            → Ends before e (rest o u)
        go none e1 ok' =
            subst (λ x. Ends before x (rest none u)) (done_inj ok')
              (subst (Ended disk c d kind start count format before mbr_unwritable)
                (sym (tried-sector disk c d (write disk c d 0 mbr' t)))
                (write-unwritten (tried-failed (write disk c d 0 mbr' t) e1)))
        go (some x) e1 ok' =
            after_format mbr' slot u
              (tried-sector disk c d (write disk c d 0 mbr' t)
                ∙ write-done disk c d laws 0 _ t
                    (set_entry-IsSector i kind start count hi byte whole)
                    (attempt-write disk c d laws 0 mbr' t x e1))
              ok'

    after_find :
        (r : Option ℕ)
        → Slot 0 4 mbr r
        → (t : State Drives) → sector disk c d 0 t.drives ≡ some mbr
        → let rest = elim r as (λ _. Cmd Drives Ending) [
          | none ↦ pure no_slot
          | some i ↦ take_slot disk c d kind start count format i mbr
        ] in
          (rest t).0 ≡ done e → Ends before e (rest t)
    after_find (some _) (free_slot i lo hi empty first) t same ok =
        after_slot i hi empty (λ j. first j (omega arith)) t ok
    after_find none (all_used h) t same ok =
        subst (λ x. Ends before x (done no_slot, t)) (done_inj ok)
          (subst (Ended disk c d kind start count format before no_slot) (sym same)
            (full mbr has (λ j. h j (omega arith))))

  create_partition-Ended :
      (s : State Drives) (e : Ending)
      → (create_partition disk c d kind start count format s).0 ≡ done e
      → Ended disk c d kind start count format
          (sector disk c d 0 s.drives)
          e
          (sector disk c d 0 (create_partition disk c d kind start count format s).1.drives)
  unfolding create_partition
  create_partition-Ended s e ok =
      let (o, e1, f, ok') = and_then-done (attempt (read disk c d 0) s) rest e ok in
      subst (Ends (sector disk c d 0 s.drives) e) (sym f)
        (go o (attempt-read disk c d laws 0 s o e1) ok')
    where
      rest : Option Buffer → Cmd Drives Ending
      rest o = elim o [
        | none ↦ pure mbr_unreadable
        | some mbr ↦ elim (find_slot 4 0 mbr) [
          | none ↦ pure no_slot
          | some i ↦ take_slot disk c d kind start count format i mbr
        ]
      ]

      t : State Drives
      t = (attempt (read disk c d 0) s).1

      same : sector disk c d 0 t.drives ≡ sector disk c d 0 s.drives
      same = attempt-Leaves disk c d (read disk c d 0) (read-Leaves disk c d laws 0 0) s

      go :
          (o : Option Buffer)
          → sector disk c d 0 s.drives ≡ o
          → (rest o t).0 ≡ done e
          → Ends (sector disk c d 0 s.drives) e (rest o t)
      go none has ok' =
          subst (λ x. Ends (sector disk c d 0 s.drives) x (done mbr_unreadable, t)) (done_inj ok')
            (subst
              (Ended disk c d kind start count format (sector disk c d 0 s.drives) mbr_unreadable)
              (sym (same ∙ has)) (unread has))
      go (some mbr) has ok' =
          after_find mbr (sector disk c d 0 s.drives) has (laws.read_bytes c d 0 s.drives mbr has) e
            (find_slot 4 0 mbr) (find_slot-Slot 4 0 4 mbr refl) t (same ∙ has) ok'

-- Take a drive of `Laws`, and a partition of at least 2084 sectors behind the MBR that ends below
-- sector 2 ^ 32 and the drive's limit. When `create_fat32_partition` ends, sector 0 holds what `Ended` says of its ending.
pub create_fat32_partition-Ended :
    (disk : Disk) (c d start count : ℕ) (s : State disk.Drives) (e : Ending)
    → {limit : ℕ} → Laws disk limit
    → 1 ≤ start
    → 2084 ≤ count
    → start + count < 2 ^ 32
    → start + count ≤ limit
    → (create_fat32_partition disk c d start count s).0 ≡ done e
    → Ended disk c d fat32_partition_type start count
        (format_fat32 disk c d start count)
        (sector disk c d 0 s.drives)
        e
        (sector disk c d 0 (create_fat32_partition disk c d start count s).1.drives)
unfolding create_fat32_partition
create_fat32_partition-Ended disk c d start count s e laws lo big hi fits ok =
    create_partition-Ended disk laws c d fat32_partition_type start count
      (format_fat32 disk c d start count)
      (format_fat32-Leaves disk c d start count 0 laws big hi fits (omega arith)
        (inl (omega arith)))
      (omega arith) hi s e ok

-- Take a drive of `Laws`, and a partition behind the MBR that ends below sector 2 ^ 32
-- and the drive's limit. When
-- `create_ext4_partition` ends, sector 0 holds what `Ended` says of its ending.
pub create_ext4_partition-Ended :
    (disk : Disk) (c d : ℕ) (p : Ptr) (fuel start count : ℕ) (s : State disk.Drives) (e : Ending)
    → {limit : ℕ} → Laws disk limit
    → 1 ≤ start
    → start + count < 2 ^ 32
    → start + count ≤ limit
    → (create_ext4_partition disk c d p fuel start count s).0 ≡ done e
    → Ended disk c d ext4_partition_type start count
        (format_ext4 disk c d p fuel start count)
        (sector disk c d 0 s.drives)
        e
        (sector disk c d 0 (create_ext4_partition disk c d p fuel start count s).1.drives)
unfolding create_ext4_partition
create_ext4_partition-Ended disk c d p fuel start count s e laws lo hi fits ok =
    create_partition-Ended disk laws c d ext4_partition_type start count
      (format_ext4 disk c d p fuel start count)
      (format_ext4-Leaves disk c d p fuel start count 0 laws hi fits (omega arith)
        (inl (omega arith)))
      (omega arith) hi s e ok
