-- ===== src/Shell/Session.antt =====
-- What the commands do: the loops of `kernel_main` and `start_disktool`, and `show_help` of
-- source/implementation/kernel/commands/help_cmd.c.
--
-- A machine is the console with its memory, the disk tool, the drives with the allocator's heap, and
-- the keyboard with the scan codes to come. Left out of what is printed are the messages of the
-- create and format functions. `none` is a loop that ran out of its fuel, or of scan codes.
use ety_os.Base.{ℕ, ◌+◌, ◌-◌, ◌&&◌, Option, none, some, List, ltb, leb, if◌then◌else◌, codes}
use ety_os.Memory.{Ptr, Mem}
use ety_os.Bytes.{Buffer}
use ety_os.Disk.{State, Outcome, done, failed, stuck}
use ety_os.Console.{Console, print_str, print_newline, print_clear, print_set_color, print_dec}
use ety_os.Keyboard.{Keyboard, read_input}
use ety_os.Disktool.{
  Tool, Reply, no_disk_selected, invalid_disk_index, selected, exceeds_capacity, too_small, made,
  invalid_partition_index, error_reading_mbr, no_such_partition, error_writing_mbr, deleted,
  format_failed, formatted,
}
use ety_os.Shell.{option_map}

abbrev pub yellow : ℕ
yellow = 14

abbrev pub white : ℕ
white = 15

abbrev pub light_gray : ℕ
light_gray = 7

pub record Machine (D : Type 0) : Type 0 where
  pub console : Console
  pub tool : Tool
  pub state : State D
  pub keyboard : Keyboard
  pub scan_codes : List ℕ

-- `print_str(text); print_newline();`
abbrev pub say : List ℕ → Console → Console
say text c = print_newline (print_str text c)

unfoldable pub show_help : Console → Console
show_help c =
    let c = say (codes "Available commands:") c in
    let c = say (codes " - help: Show this help message") c in
    let c = say (codes " - clear: Clear the screen") c in
    let c = say (codes " - disktool: Manage and view storage") c in
    let c = say (codes " - echo <text>: Print text back to the console") c in
    let c = say (codes " - about: Get information about this build") c in
    let c = say (codes " - partitions: Show all partitions") c in
    say (codes " - setcolor <background>: Change the text and background colors") c

unfoldable pub show_tool_help : ℕ → Console → Console
show_tool_help color c =
    let c = say (codes "etyOS Kernel Disk tool commands:") c in
    let c = say (codes " - listdisks: Show all available disks") c in
    let c = say (codes " - selectdisk <number>: Select a disk to work with") c in
    let c =
      say (codes " - newpart <size_mb> [fat32|ext4]: Create a new partition with size in MB") c in
    let c = say (codes " - delpart <number>: Delete a partition") c in
    let c = say (codes " - partinfo: Show partition information and filesystem types") c in
    let c = say (codes " - format [fat32|ext4]: Format selected disk (defaults to ext4).") c in
    let c = print_set_color light_gray color c in
    let c = print_str (codes "Warning: remove all partitions from disk before formatting it") c in
    let c = print_newline (print_set_color white color c) in
    let c = say (codes " - update: Update disks information") c in
    say (codes " - exit: Exit from disktool") c

unfoldable pub show_about : Console → Console
show_about c =
    let c = say (codes "etyOS 2.0") c in
    let c = say (codes "Version created: 27.10.2024") c in
    let c = say (codes "Author: Mikhail Karlov") c in
    say (codes "Configuration: x86_64 multiboot2") c

-- The message that a call of the disk tool ends with.
unfoldable pub report : Reply → Console → Console
report no_disk_selected c = say (codes "No disk selected") c
report invalid_disk_index c = say (codes "Invalid disk index") c
report selected c = say (codes "Disk selected successfully.") c
report exceeds_capacity c = say (codes "Requested size exceeds disk capacity") c
report too_small c = say (codes "Disk too small for FAT32") c
report (made ending) c = c
report invalid_partition_index c = say (codes "Invalid partition index") c
report error_reading_mbr c = say (codes "Error reading MBR") c
report no_such_partition c = say (codes "Partition does not exist") c
report error_writing_mbr c = say (codes "Error writing MBR") c
report deleted c = say (codes "Partition deleted successfully") c
report format_failed c = c
report formatted c = c

-- The cases of a new colour: it is kept before it is looked at.
unfoldable pub set_color : ℕ → Console → Console
set_color background c = print_newline (
    if leb background 14
    then (let c = print_clear (print_set_color white background c) in
        let c = print_clear (print_set_color white background c) in
        print_str (codes "Colors updated.") c)
    else print_str (codes "Invalid color value. Use numbers between 0 and 14.") c)

-- A line that `read_input` leaves in the 256 bytes at `command`.
abbrev pub line_at : Ptr → Buffer → Mem → Mem
line_at command buffer m a =
    if leb command a && ltb a (command + 256) then buffer (a - command) else m a

-- What `init_disktool` prints before and after its scan.
abbrev pub found : ℕ → Console → Option Console
found n c =
    option_map (λ c'. print_newline (say (codes " disks") c'))
      (print_dec 11 n (print_str (codes "Found ") (say (codes "Analyzing disks...") c)))

module _ {D : Type 0} where
  -- The prompt, and the line that is read behind it.
  unfoldable pub read_line : ℕ → Ptr → ℕ → ℕ → List ℕ → Machine D → Option (Machine D)
  read_line fuel command foreground color prompt w =
      let c = print_str prompt (print_set_color foreground color w.console) in
      let c = print_set_color white color c in
      let buffer = λ (i : ℕ). c.mem (command + i) in
      elim (read_input fuel buffer 256 c w.keyboard w.scan_codes) [
        | none ↦ none
        | some (line, keyboard, rest) ↦
            let c' = line.console in
            some (record w {
              console = print_newline (record c' { mem = line_at command line.buffer c'.mem });
              keyboard = keyboard;
              scan_codes = rest;
            })
      ]

  -- What a command leaves of the drives and the heap, with its reply printed.
  abbrev pub replied : Machine D → Outcome Reply × State D → Option (Machine D)
  replied w (done r, s) = some (record w { console = report r w.console; state = s })
  replied w (failed, s) = some (record w { state = s })
  replied w (stuck, s) = none

  abbrev pub partitioned : Machine D → Outcome (Reply × Tool) × State D → Option (Machine D)
  partitioned w (done (made e, t), s) =
      option_map
        (λ c. record w {
          console = say (codes "Partition created successfully.") c;
          tool = t;
          state = s;
        })
        (found t.num_disks w.console)
  partitioned w (done (r, t), s) =
      some (record w { console = report r w.console; tool = t; state = s })
  partitioned w (failed, s) = some (record w { state = s })
  partitioned w (stuck, s) = none

  -- The drives after a display.
  abbrev pub displayed : Machine D → Console × D → Machine D
  displayed w (c, d) = record w { console = c; state = record w.state { drives = d } }
