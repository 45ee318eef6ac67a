-- ===== src/Disktool/Sizes.antt =====
-- The sizes of disks and partitions in disktool.c, in megabytes and in sectors.
use ety_os.Base.{
  ℕ, ◌+◌, ◌*◌, ◌^◌, ◌<◌, ◌≤◌, ◌≡◌, arith, refl, ◌==◌, if◌then◌else◌, Option, none, some, Bool-cases,
  subst, ap, sym, ◌∙◌, inl, inr, ltb,
}
use ety_os.Memory.{Ptr}
use ety_os.Partition.Create.{Ending}
use ety_os.Disk.Laws.{and_then-done, done_inj}
use ety_os.Base.{◌⊎◌}
use ety_os.Disk.{Outcome, Cmd, Disk, State, done, ◌>>=◌, pure}
use ety_os.Disktool.{
  DiskInfo, too_small, Tool, Reply, FileSystemType, mb_to_sectors, identified_size, add_disk, probe,
  init_disktool, create_partition_mb, make_partition, made, no_disk_selected, exceeds_capacity,
}

-- Each disk's size stays below 4096 megabytes.
abbrev pub IsTool : Tool → Type 0
IsTool t = (i : ℕ) → (t.available_disks i).size_mb < 4096

identified_size_lem : (words : ℕ → ℕ) → identified_size words < 4096
unfolding identified_size
identified_size_lem words = omega arith

add_disk-IsTool : (c d : ℕ) (words : ℕ → ℕ) (t : Tool) → IsTool t → IsTool (add_disk c d words t)
unfolding add_disk
add_disk-IsTool c d words t is i = elim (Bool-cases (i == t.num_disks)) [
  | inl e ↦ rw e (identified_size_lem words)
  | inr e ↦ rw e (is i)
]

module _ (disk : Disk) (identify : ℕ → ℕ → disk.Drives → Option (ℕ → ℕ) × disk.Drives) where
  probe-IsTool :
      (c d : ℕ) (t : Tool) (s : disk.Drives) → IsTool t → IsTool (probe disk identify c d (t, s)).0
  unfolding probe
  probe-IsTool c d t s is = go (identify c d s).0
    where
      go :
          (words : Option (ℕ → ℕ))
          → IsTool (elim words [ none ↦ t | some buffer ↦ add_disk c d buffer t ])
      go none = is
      go (some buffer) = add_disk-IsTool c d buffer t is

  init_disktool-IsTool :
      (t : Tool) (s : disk.Drives) → IsTool t → IsTool (init_disktool disk identify t s).0
  unfolding init_disktool
  init_disktool-IsTool t s is =
      let p0 = probe disk identify 0 0 (record t { num_disks = 0 }, s) in
      let p1 = probe disk identify 0 1 p0 in
      let p2 = probe disk identify 1 0 p1 in
      probe-IsTool 1 1 p2.0 p2.1 (
        probe-IsTool 1 0 p1.0 p1.1
          (probe-IsTool 0 1 p0.0 p0.1 (probe-IsTool 0 0 (record t { num_disks = 0 }) s is)))

-- A scan of the drives and `create_partition_mb`, whatever it replies, keep every disk's size below
-- 4096 megabytes.
pub create_partition_mb-IsTool :
    (disk : Disk) (identify : ℕ → ℕ → disk.Drives → Option (ℕ → ℕ) × disk.Drives) (p : Ptr)
    (fuel : ℕ) (t : Tool) (size_mb : ℕ) (fs_type : FileSystemType) (s : State disk.Drives)
    (reply : Reply) (t' : Tool)
    → IsTool t
    → (create_partition_mb disk identify p fuel t size_mb fs_type s).0 ≡ done (reply, t')
    → IsTool (init_disktool disk identify t s.drives).0 × IsTool t'
unfolding create_partition_mb
create_partition_mb-IsTool disk identify p fuel t size_mb fs_type s reply t' is ok =
    (init_disktool-IsTool disk identify t s.drives is, go t.current_disk ok)
  where
    rescan : Ending → Cmd disk.Drives (Reply × Tool)
    rescan ending u =
        let (t2, d) = init_disktool disk identify t u.drives in
        (done (made ending, t2), record u { drives = d })

    run : Option ℕ → Cmd disk.Drives (Reply × Tool)
    run current = elim current [
      | none ↦ pure (no_disk_selected, t)
      | some n ↦
          let info = t.available_disks n in
          if ltb info.size_mb size_mb
          then pure (exceeds_capacity, t)
          else (make_partition disk p fuel fs_type info (mb_to_sectors size_mb) >>= rescan)
    ]

    same : (r : Reply × Tool) → r.1 ≡ t → r ≡ (reply, t') → IsTool t'
    same r e e' = subst IsTool (sym e ∙ ap (λ (x : Reply × Tool). x.1) e') is

    go : (current : Option ℕ) → (run current s).0 ≡ done (reply, t') → IsTool t'
    go none e = same (no_disk_selected, t) refl (done_inj e)
    go (some n) e = elim (Bool-cases (ltb (t.available_disks n).size_mb size_mb)) [
      | inl b ↦ same (exceeds_capacity, t) refl (done_inj (rw b at e))
      | inr b ↦
          let m =
            make_partition disk p fuel fs_type (t.available_disks n) (mb_to_sectors size_mb) in
          let (ending, e1, f, ok') = and_then-done (m s) rescan (reply, t') (rw b at e) in
          subst IsTool (ap (λ (x : Reply × Tool). x.1) (done_inj ok'))
            (init_disktool-IsTool disk identify t (m s).1.drives is)
    ]

module _ (disk : Disk) (identify : ℕ → ℕ → disk.Drives → Option (ℕ → ℕ) × disk.Drives) (p : Ptr)
    (fuel : ℕ) (fs : FileSystemType) where
  abbrev partition_of : DiskInfo → ℕ → Cmd disk.Drives Ending
  partition_of info count = make_partition disk p fuel fs info count

  -- The request is refused, or a partition of just that many bytes is made and the disks are scanned.
  abbrev pub Creates :
      Tool → DiskInfo → ℕ → State disk.Drives → Outcome (Reply × Tool) × State disk.Drives → Type 0
  Creates t info size_mb s r =
      ((info.size_mb < size_mb) × (r ≡ (done (exceeds_capacity, t), s)))
      ⊎ ((size_mb ≤ info.size_mb)
          × ((count : ℕ) × (count * 512 ≡ size_mb * 2 ^ 20)
              × (r
                  ≡ (partition_of info count >>= (λ ending u.
                        let (t', d) = init_disktool disk identify t u.drives in
                        (done (made ending, t'), record u { drives = d })))
                      s)))

  -- The disk is refused, or a partition is made that begins at sector 2048 and ends with the disk.
  abbrev pub Formats : DiskInfo → State disk.Drives → Outcome Reply × State disk.Drives → Type 0
  Formats info s r =
      ((info.size_mb < 32) × (r ≡ (done too_small, s)))
      ⊎ ((32 ≤ info.size_mb)
          × ((count : ℕ) × ((2048 + count) * 512 ≡ info.size_mb * 2 ^ 20)
              × (r ≡ (partition_of info count >>= (λ ending. pure (made ending))) s)))
