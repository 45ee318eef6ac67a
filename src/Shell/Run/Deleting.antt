-- ===== src/Shell/Run/Deleting.antt =====
-- The line `delpart` of the disk tool, down to the master boot record.
use ety_os.Base.{ℕ, ◌+◌, Option, none, some, List, codes, ℤ}
use ety_os.Memory.{Ptr, Mem}
use ety_os.Bytes.{Buffer}
use ety_os.Disk.{Disk, State, Outcome, done}
use ety_os.Disktool.{Reply, deleted, delete_partition}
use ety_os.Shell.{DiskCommand, delpart, disk_command, option_map}
use ety_os.Shell.Session.{Machine, report, replied}
use ety_os.Base.{◌≡◌}
use ety_os.Disk.Laws.{Laws}
use ety_os.Base.{◌<◌, ◌≤◌, ◌⊎◌, ◌∙◌, ap, length}
use ety_os.CStr.Shape.{IsStr}
use ety_os.Disktool.Delete.{Deletion, delete_partition-Deletion}
use ety_os.Shell.Parsing.{Placed}
use ety_os.Shell.Tool.{disk_words}
use ety_os.Shell.Typed.{disk_line, IsInt, disk_command-disk_line}
use ety_os.Shell.Run.{run_disk, obey_disk}

replied-done :
    {D : Type 0} (w : Machine D) (r : Outcome Reply × State D) (reply : Reply)
    → r.0 ≡ done reply
    → replied w r ≡ some (record w { console = report reply w.console; state = r.1 })
replied-done w (o, s) reply e = ap (λ (o' : Outcome Reply). replied w (o', s)) e

module _ (disk : Disk) (identify : ℕ → ℕ → disk.Drives → Option (ℕ → ℕ) × disk.Drives)
    (lit : List ℕ → Ptr) (free_list : Ptr) (fuel : ℕ) (stack : Buffer) (behind : List ℕ) where
  open disk use {Drives}

  obey_disk-run :
      (command : Ptr) (color : ℕ) (w : Machine Drives) (cmd : DiskCommand) (m : Mem)
      (after : Machine Drives)
      → disk_command lit fuel command w.console.mem ≡ some (cmd, m)
      → run_disk disk identify lit free_list fuel stack behind color cmd
          (record w { console = record w.console { mem = m } })
        ≡ some after
      → obey_disk disk identify lit free_list fuel stack behind command color w ≡ some (cmd, after)
  unfolding obey_disk
  obey_disk-run command color w cmd m after e e' =
      ap
        (λ (o : Option (DiskCommand × Mem)).
          elim o as (λ _. Option (DiskCommand × Machine Drives)) [
            | none ↦ none
            | some (c, m') ↦
                option_map (λ w'. (c, w'))
                  (run_disk disk identify lit free_list fuel stack behind color c
                    (record w { console = record w.console { mem = m' } }))
          ])
        e
      ∙ ap (option_map (λ w'. (cmd, w'))) e'

  -- On a drive of `Laws`: the line "delpart i" in memory, with the literals placed and "ext4" apart
  -- from it, and fuel for its characters. When `delete_partition` reports success, the line is obeyed
  -- as that command, a disk is selected whose MBR had entry `i` in use, and afterwards its MBR has
  -- that entry's bytes cleared and its other bytes as they were.
  pub obey_disk-Deletion :
      (command : Ptr) (color : ℕ) (w : Machine Drives) (i : ℤ)
      → {limit : ℕ} → Laws disk limit
      → IsInt i
      → length (disk_line (delpart i)) < fuel
      → IsStr w.console.mem command (disk_line (delpart i))
      → Placed w.console.mem lit disk_words
      → (lit (codes "ext4") + 4 < command)
        ⊎ (command + length (disk_line (delpart i)) ≤ lit (codes "ext4"))
      → (delete_partition disk w.tool i w.state).0 ≡ done deleted
      → (after : Machine Drives) × (obey_disk disk identify lit free_list fuel stack behind command
            color w
          ≡ some (delpart i, after))
        × Deletion disk w.tool i w.state.drives after.state.drives
  unfolding run_disk
  obey_disk-Deletion command color w i laws int lt line placed apart ok =
      let parse =
        disk_command-disk_line lit fuel command w.console.mem (delpart i) int lt line placed
          apart in
      let w2 : Machine Drives = record w { console = record w.console { mem = parse.memory } } in
      let ran = replied-done w2 (delete_partition disk w.tool i w.state) deleted ok in
      (
        record w2 {
          console = report deleted w2.console;
          state = (delete_partition disk w.tool i w.state).1;
        },
        obey_disk-run command color w (delpart i) parse.memory _ parse.returns ran,
        delete_partition-Deletion disk w.tool i w.state laws ok,
      )
