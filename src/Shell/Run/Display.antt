-- ===== src/Shell/Run/Display.antt =====
-- The commands of the kernel other than `disktool` only show.
use ety_os.Base.{ℕ, Option, some, List, leb, codes}
use ety_os.Memory.{Ptr}
use ety_os.Bytes.{Buffer}
use ety_os.Disk.{Disk}
use ety_os.Console.{Console, print_set_color}
use ety_os.Shell.{
  KernelCommand, blank, help, disktool, clear, dsks, about, checkfs, echo, partitions, setcolor,
  unknown,
}
use ety_os.Shell.Session.{Machine, white, say, show_help, show_about, set_color, displayed}
use ety_os.Base.{◌≡◌, ◌≢◌, refl, Bool-cases, inl, inr}
use ety_os.Disk.Laws.{Laws, sector}
use ety_os.Console.Cursor.{IsCursor, Safe, print_newline-Safe, print_str-Safe, print_clear-Safe}
use ety_os.Listing.Safety.{◌▷◌, Safe-refl}
use ety_os.Listing.Reads.{
  Shows, display_partitions-Shows, display_available_disks-Shows, check_filesystem-Shows,
}
use ety_os.Shell.Run.{run_kernel}

pub say-Safe : (text : List ℕ) {c : Console} → IsCursor c → Safe c (say text c)
say-Safe text is = print_str-Safe text is ▷ print_newline-Safe

pub print_set_color-Safe : (fg bg : ℕ) {c : Console} → IsCursor c → Safe c (print_set_color fg bg c)
unfolding print_set_color
print_set_color-Safe fg bg is = record {
  cursor = record { row_in = is.row_in; col_in = is.col_in };
  off_screen = λ x o. refl;
}

show_help-Safe : {c : Console} → IsCursor c → Safe c (show_help c)
unfolding show_help
show_help-Safe is =
    say-Safe (codes "Available commands:") is
    ▷ say-Safe (codes " - help: Show this help message")
    ▷ say-Safe _
    ▷ say-Safe _
    ▷ say-Safe _
    ▷ say-Safe _
    ▷ say-Safe _
    ▷ say-Safe _

show_about-Safe : {c : Console} → IsCursor c → Safe c (show_about c)
unfolding show_about
show_about-Safe is = say-Safe (codes "etyOS 2.0") is ▷ say-Safe _ ▷ say-Safe _ ▷ say-Safe _

set_color-Safe : (n : ℕ) {c : Console} → IsCursor c → Safe c (set_color n c)
unfolding set_color
set_color-Safe n {c} is = elim (Bool-cases (leb n 14)) [
  | inl e ↦ rw e (
      print_set_color-Safe white n is
      ▷ print_clear-Safe
      ▷ print_set_color-Safe white n
      ▷ print_clear-Safe
      ▷ print_str-Safe (codes "Colors updated.")
      ▷ print_newline-Safe)
  | inr e ↦ rw e (print_str-Safe _ is ▷ print_newline-Safe)
]

-- The call returns: the cursor is on the screen and nothing is written outside of it, and the sectors
-- of the primary master, the heap, the disk tool and the keyboard are as before.
pub record OnlyShows (disk : Disk) (w : Machine disk.Drives) (r : Option (ℕ × Machine disk.Drives))
    : Type 0 where
  pub color : ℕ
  pub after : Machine disk.Drives
  pub returns : r ≡ some (color, after)
  pub safe : Safe w.console after.console
  pub sectors : (k : ℕ) → sector disk 0 0 k after.state.drives ≡ sector disk 0 0 k w.state.drives
  pub same_heap : after.state.heap ≡ w.state.heap
  pub same_tool : after.tool ≡ w.tool
  pub same_keyboard : (after.keyboard ≡ w.keyboard) × (after.scan_codes ≡ w.scan_codes)

printed :
    (disk : Disk) (w : Machine disk.Drives) (color : ℕ) (c : Console)
    → Safe w.console c
    → OnlyShows disk w (some (color, record w { console = c }))
printed disk w color c s = record {
  color = color;
  after = record w { console = c };
  returns = refl;
  safe = s;
  sectors = λ k. refl;
  same_heap = refl;
  same_tool = refl;
  same_keyboard = (refl, refl);
}

shown :
    (disk : Disk) (w : Machine disk.Drives) (color : ℕ) (r : Console × disk.Drives)
    → Shows disk w.console w.state.drives r
    → OnlyShows disk w (some (color, displayed w r))
shown disk w color (c, d) s = record {
  color = color;
  after = displayed w (c, d);
  returns = refl;
  safe = s.safe;
  sectors = s.reads;
  same_heap = refl;
  same_tool = refl;
  same_keyboard = (refl, refl);
}

module _ (disk : Disk) (identify : ℕ → ℕ → disk.Drives → Option (ℕ → ℕ) × disk.Drives)
    (lit : List ℕ → Ptr) (free_list : Ptr) (fuel : ℕ) (stack : Buffer) (behind : List ℕ) (turns : ℕ)
    (command : Ptr) where
  -- On a drive of `Laws`, where IDENTIFY changes no sector and the cursor is on the screen, every
  -- command of the kernel but `disktool` returns, keeps to the screen, and leaves the sectors of the
  -- primary master, the heap, the disk tool and the keyboard as they are.
  pub run_kernel-OnlyShows :
      (cmd : KernelCommand) (color : ℕ) (w : Machine disk.Drives)
      → {limit : ℕ} → Laws disk limit
      → ((a b k : ℕ) (d : disk.Drives) → sector disk 0 0 k (identify a b d).1 ≡ sector disk 0 0 k d)
      → IsCursor w.console
      → cmd ≢ disktool
      → OnlyShows disk w
          (run_kernel disk identify lit free_list fuel stack behind turns command cmd color w)
  unfolding run_kernel
  run_kernel-OnlyShows blank color w laws asks is ne = printed disk w color _ (Safe-refl is)
  run_kernel-OnlyShows help color w laws asks is ne = printed disk w color _ (show_help-Safe is)
  run_kernel-OnlyShows disktool color w laws asks is ne = absurd (ne refl)
  run_kernel-OnlyShows clear color w laws asks is ne = printed disk w color _ (print_clear-Safe is)
  run_kernel-OnlyShows dsks color w laws asks is ne =
      shown disk w color _
        (display_available_disks-Shows disk laws identify asks stack w.console w.state.drives is)
  run_kernel-OnlyShows about color w laws asks is ne = printed disk w color _ (show_about-Safe is)
  run_kernel-OnlyShows checkfs color w laws asks is ne =
      shown disk w color _ (check_filesystem-Shows disk laws stack w.console w.state.drives is)
  run_kernel-OnlyShows (echo text) color w laws asks is ne =
      printed disk w color _ (say-Safe text is)
  run_kernel-OnlyShows partitions color w laws asks is ne =
      shown disk w color _ (display_partitions-Shows disk laws behind w.console w.state.drives is)
  run_kernel-OnlyShows (setcolor n) color w laws asks is ne =
      printed disk w n _ (set_color-Safe n is)
  run_kernel-OnlyShows (unknown text) color w laws asks is ne =
      printed disk w color _ (print_str-Safe (codes "Unknown command: ") is ▷ say-Safe text)
