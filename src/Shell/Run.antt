-- ===== src/Shell/Run.antt =====
-- The branches of the two ladders, and the two loops, of main.c and disktool_cmd.c.
pub mod Display
pub mod Turn
pub mod Round
pub mod Colors
pub mod Deleting
use ety_os.Base.{
  ℕ, zero, suc, ◌+◌, ◌-◌, ◌%◌, ◌^◌, Bool, true, false, ◌&&◌, Option, none, some, from_some, List,
  [], ◌∷◌, ◌==◌, ltb, leb, if◌then◌else◌, codes, ℤ, pos, negsuc,
}
use ety_os.Memory.{Ptr, Mem}
use ety_os.Bytes.{Buffer}
use ety_os.Disk.{Disk, State, Outcome, done, failed, stuck}
use ety_os.Console.{
  Console, print_str, print_newline, print_clear, print_set_color, print_dec, text_at,
}
use ety_os.Keyboard.{Keyboard, Line, read_input}
use ety_os.Disktool.{
  Tool, Reply, no_disk_selected, invalid_disk_index, selected, exceeds_capacity, too_small, made,
  invalid_partition_index, error_reading_mbr, no_such_partition, error_writing_mbr, deleted,
  format_failed, formatted, init_disktool, select_disk, format_disk, create_partition_mb,
  delete_partition,
}
use ety_os.Listing.{
  list_disks, display_partitions, display_partition_info, check_filesystem, display_available_disks,
}
use ety_os.Shell.{
  KernelCommand, blank, help, disktool, clear, dsks, about, checkfs, echo, partitions, setcolor,
  unknown, DiskCommand, blank_line, tool_help, listdisks, update, format, selectdisk, newpart,
  delpart, partinfo, exit, unknown_command, kernel_command, disk_command, option_map,
}
use ety_os.Allocator.{memory_allocator_init}
use ety_os.Shell.Session.{
  Machine, yellow, white, light_gray, say, show_help, show_tool_help, show_about, report, set_color,
  line_at, read_line, replied, found, partitioned, displayed,
}

-- `identify` is the IDENTIFY command; `lit` and `command` are the addresses of the literals and of the
-- two line buffers; `stack` and `behind` are bytes of the stack that are read uninitialised.
module _ (disk : Disk) (identify : ℕ → ℕ → disk.Drives → Option (ℕ → ℕ) × disk.Drives)
    (lit : List ℕ → Ptr) (free_list : Ptr) (fuel : ℕ) (stack : Buffer) (behind : List ℕ) where
  open disk use {Drives}

  unfoldable pub rescan : Machine Drives → Option (Machine Drives)
  rescan w =
      let (t, d) = init_disktool disk identify w.tool w.state.drives in
      option_map (λ c. record w { console = c; tool = t; state = record w.state { drives = d } })
        (found t.num_disks w.console)

  -- `select_disk` and the message of its caller.
  unfoldable pub select : ℤ → Machine Drives → Machine Drives
  select i w =
      let (reply, t) = select_disk i w.tool in
      elim reply [
        | selected ↦
            let model = (from_some 0 t.current_disk) in
            let name = text_at 41 (t.available_disks model).model 0 in
            let c = print_str name (print_str (codes "Selected disk: ") w.console) in
            record w { console = report selected (print_newline c); tool = t }
        | r ↦ record w { console = report r w.console; tool = t }
      ]

  -- A command of the disk tool, less `exit`.
  unfoldable pub run_disk : ℕ → DiskCommand → Machine Drives → Option (Machine Drives)
  run_disk color blank_line w = some w
  run_disk color tool_help w = some (record w { console = show_tool_help color w.console })
  run_disk color listdisks w = some (record w { console = list_disks w.tool w.console })
  run_disk color update w = rescan w
  run_disk color (format fs_type) w =
      replied w (format_disk disk free_list fuel w.tool fs_type w.state)
  run_disk color (selectdisk i) w = some (select i w)
  run_disk color (newpart size_mb fs_type) w =
      partitioned w
        (create_partition_mb disk identify free_list fuel w.tool size_mb fs_type w.state)
  run_disk color (delpart i) w = replied w (delete_partition disk w.tool i w.state)
  run_disk color partinfo w =
      some (displayed w (display_partition_info disk behind w.tool w.console w.state.drives))
  run_disk color exit w = some w
  run_disk color unknown_command w = some (record w {
    console = say (codes "Unknown command. Type 'help' for available commands.") w.console;
  })

  -- The line at `command` is taken apart and obeyed: the command, and the machine after it.
  unfoldable pub obey_disk : Ptr → ℕ → Machine Drives → Option (DiskCommand × Machine Drives)
  obey_disk command color w = elim (disk_command lit fuel command w.console.mem) [
    | none ↦ none
    | some (cmd, m) ↦
        option_map (λ w'. (cmd, w'))
          (run_disk color cmd (record w { console = record w.console { mem = m } }))
  ]

  -- One round of the loop of `start_disktool`.
  unfoldable pub disk_turn : Ptr → ℕ → Machine Drives → Option (DiskCommand × Machine Drives)
  disk_turn command color w = elim (read_line fuel command yellow color (codes "disktool > ") w) [
    | none ↦ none
    | some w' ↦ obey_disk command color w'
  ]

  unfoldable pub disk_loop : ℕ → Ptr → ℕ → Machine Drives → Option (Machine Drives)
  disk_loop zero command color w = none
  disk_loop (suc turns) command color w = elim (disk_turn command color w) [
    | none ↦ none
    | some (exit, w') ↦ some w'
    | some (_, w') ↦ disk_loop turns command color w'
  ]

  unfoldable pub start_disktool : ℕ → Ptr → ℕ → Machine Drives → Option (Machine Drives)
  start_disktool turns command color w =
      let c = say (codes "Welcome to disktool. ") w.console in
      disk_loop turns command color
        (record w { console = say (codes "Type help to get list of all commands") c })

  -- A command of the kernel: the colour, which only `setcolor` changes, and the machine.
  unfoldable pub run_kernel :
      ℕ → Ptr → KernelCommand → ℕ → Machine Drives → Option (ℕ × Machine Drives)
  run_kernel turns command blank color w = some (color, w)
  run_kernel turns command help color w = some (color, record w { console = show_help w.console })
  run_kernel turns command disktool color w =
      option_map (λ w'. (color, w')) (start_disktool turns command color w)
  run_kernel turns command clear color w =
      some (color, record w { console = print_clear w.console })
  run_kernel turns command dsks color w =
      some (color, displayed w (display_available_disks identify stack w.console w.state.drives))
  run_kernel turns command about color w = some (color, record w { console = show_about w.console })
  run_kernel turns command checkfs color w =
      some (color, displayed w (check_filesystem disk stack w.console w.state.drives))
  run_kernel turns command (echo text) color w =
      some (color, record w { console = say text w.console })
  run_kernel turns command partitions color w =
      some (color, displayed w (display_partitions disk behind w.console w.state.drives))
  run_kernel turns command (setcolor background) color w =
      some (background, record w { console = set_color background w.console })
  run_kernel turns command (unknown text) color w =
      some
        (color, record w { console = say text (print_str (codes "Unknown command: ") w.console) })

  -- One round of the loop of `kernel_main`, whose line is at `command`, and that of `start_disktool`
  -- at `tool_command`.
  unfoldable pub kernel_turn : ℕ → Ptr → Ptr → ℕ → Machine Drives → Option (ℕ × Machine Drives)
  kernel_turn turns command tool_command color w =
      elim (read_line fuel command light_gray color (codes "etyOS Kernel > ") w) [
        | none ↦ none
        | some w' ↦ elim (kernel_command lit fuel command w'.console.mem) [
          | none ↦ none
          | some cmd ↦ run_kernel turns tool_command cmd color w'
        ]
      ]

  -- What `kernel_main` does before its loop.
  unfoldable pub kernel_start : Machine Drives → Option (Machine Drives)
  kernel_start w =
      let rule = codes "================================================" in
      let margin = codes "|                                              |" in
      let c = print_set_color white 3 (print_clear w.console) in
      let c = say margin (say rule c) in
      let c = say (codes "|             Welcome to etyOS2                |") c in
      let c = say (codes "|            64-bit Kernel Started             |") c in
      let c = print_set_color light_gray 0 (say rule (say margin c)) in
      let c = say (codes "Type 'help' for a list of commands.") c in
      option_map
        (λ (w' : Machine Drives). record w' { console = print_set_color white 0 w'.console })
        (rescan (record w {
          console = c;
          state = record w.state { heap = memory_allocator_init free_list w.state.heap };
        }))
