-- ===== src/Shell/Run/Round.antt =====
-- A round of the loop of `kernel_main` ends.
use ety_os.Base.{ℕ, ◌+◌, Option, none, some, List, codes}
use ety_os.Memory.{Ptr}
use ety_os.Bytes.{Buffer}
use ety_os.Disk.{Disk}
use ety_os.Shell.{KernelCommand, disktool, kernel_command}
use ety_os.Shell.Session.{Machine, light_gray, read_line}
use ety_os.Base.{◌≡◌, ◌≢◌}
use ety_os.Disk.Laws.{Laws, sector}
use ety_os.Console.Cursor.{IsCursor}
use ety_os.Shell.Run.{run_kernel}
use ety_os.Base.{◌<◌, ◌≤◌, ◌⊎◌, arith, ◌∙◌, sym, ap, subst, length}
use ety_os.Console.{screen}
use ety_os.Console.Cursor.{screen_size}
use ety_os.Keyboard.Reading.{HasEnter}
use ety_os.Shell.Parsing.{Placed}
use ety_os.Shell.Kernel.{kernel_words, kernel_text, kernel_command-kernel_text}
use ety_os.Shell.Run.Display.{OnlyShows, run_kernel-OnlyShows}
use ety_os.Shell.Run.{kernel_turn}
use ety_os.Shell.Run.Turn.{AllElsewhere, Placed-frame, Entered, read_line-Entered}

module _ (disk : Disk) (identify : ℕ → ℕ → disk.Drives → Option (ℕ → ℕ) × disk.Drives)
    (lit : List ℕ → Ptr) (free_list : Ptr) (fuel : ℕ) (stack : Buffer) (behind : List ℕ) (turns : ℕ)
    (command tool_command : Ptr) where
  open disk use {Drives}

  kernel_turn-run :
      (color : ℕ) (w w' : Machine Drives) (cmd : KernelCommand)
      → read_line fuel command light_gray color (codes "etyOS Kernel > ") w ≡ some w'
      → kernel_command lit fuel command w'.console.mem ≡ some cmd
      → kernel_turn disk identify lit free_list fuel stack behind turns command tool_command color w
        ≡ run_kernel disk identify lit free_list fuel stack behind turns tool_command cmd color w'
  unfolding kernel_turn
  kernel_turn-run color w w' cmd e e' =
      ap
        (λ (o : Option (Machine Drives)). elim o as (λ _. Option (ℕ × Machine Drives)) [
          | none ↦ none
          | some v ↦
              elim (kernel_command lit fuel command v.console.mem)
                as (λ _. Option (ℕ × Machine Drives)) [
                  | none ↦ none
                  | some c ↦
                      run_kernel disk identify lit free_list fuel stack behind turns tool_command c
                        color v
                ]
        ])
        e
      ∙ ap
          (λ (o : Option KernelCommand). elim o as (λ _. Option (ℕ × Machine Drives)) [
            | none ↦ none
            | some c ↦
                run_kernel disk identify lit free_list fuel stack behind turns tool_command c color
                  w'
          ])
          e'

  -- Take a drive of `Laws` on which IDENTIFY changes no sector, a cursor on the screen, a line buffer
  -- off the screen, and the literals off both. With an Enter among the scan codes to come, and fuel
  -- for each of them and for 256 characters, a round of the loop of `kernel_main` reads a line of at
  -- most 255 characters, which are those of the line that was typed if no NUL is among them, and runs
  -- the command of its text. Unless that is `disktool`, the round ends, and it has only shown.
  pub kernel_turn-ends :
      (color : ℕ) (w : Machine Drives)
      → {limit : ℕ} → Laws disk limit
      → ((a b k : ℕ) (d : Drives) → sector disk 0 0 k (identify a b d).1 ≡ sector disk 0 0 k d)
      → IsCursor w.console
      → (command + 256 ≤ screen) ⊎ (screen + screen_size ≤ command)
      → Placed w.console.mem lit kernel_words
      → AllElsewhere command lit kernel_words
      → HasEnter w.scan_codes
      → length w.scan_codes < fuel
      → 256 ≤ fuel
      → let round =
          kernel_turn disk identify lit free_list fuel stack behind turns command tool_command color
            w in
        (entered : Entered command w
          (read_line fuel command light_gray color (codes "etyOS Kernel > ") w))
        × (round
            ≡ run_kernel disk identify lit free_list fuel stack behind turns tool_command
                (kernel_text entered.text)
                color
                entered.after)
        × (kernel_text entered.text ≢ disktool → OnlyShows disk entered.after round)
  kernel_turn-ends color w laws asks is off placed out enter lt big =
      let entered =
        read_line-Entered fuel command light_gray color (codes "etyOS Kernel > ") w off is lt
          enter in
      let m' = entered.after.console.mem in
      let literals =
        Placed-frame command lit kernel_words w.console.mem m' entered.elsewhere out placed in
      let parsed =
        kernel_command-kernel_text lit fuel entered.text command m' (omega (arith, entered.short))
          entered.line literals in
      let runs =
        kernel_turn-run color w entered.after (kernel_text entered.text) entered.returns parsed in
      (
        entered,
        runs,
        λ ne. subst (OnlyShows disk entered.after) (sym runs) (
            run_kernel-OnlyShows disk identify lit free_list fuel stack behind turns tool_command
              (kernel_text entered.text) color entered.after laws asks entered.cursor ne),
      )
