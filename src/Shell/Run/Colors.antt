-- ===== src/Shell/Run/Colors.antt =====
-- The line `setcolor` of the kernel.
use ety_os.Base.{ℕ, ◌+◌, ◌^◌, Option, some, List, codes}
use ety_os.Memory.{Ptr}
use ety_os.Bytes.{Buffer}
use ety_os.Disk.{Disk}
use ety_os.Console.{Console, print_set_color}
use ety_os.Shell.{setcolor}
use ety_os.Shell.Session.{Machine, white, set_color}
use ety_os.Base.{◌≡◌}
use ety_os.Shell.Run.{run_kernel}
use ety_os.Base.{◌<◌, ◌≤◌, ◌*◌, ◌++◌, ◌∙◌, ap, arith, le→leb, lt→leb}
use ety_os.Console.Colors.{color-print_newline, color-print_str, color-print_clear}
use ety_os.Console.Digits.{decimal}
use ety_os.CStr.Search.{difference, starts}
use ety_os.Shell.Kernel.{kernel_text}
use ety_os.Shell.Typed.{number-decimal}
use ety_os.Shell.Run.{run_kernel}

color-print_set_color :
    (n : ℕ) (c : Console) → n ≤ 14 → (print_set_color white n c).color ≡ 15 + 16 * n
unfolding print_set_color
color-print_set_color n c le = omega arith

-- A valid colour becomes the background, and any other leaves the console's colour.
color-set_color :
    (n : ℕ) (c : Console)
    → (n ≤ 14 → (set_color n c).color ≡ 15 + 16 * n) × (15 ≤ n → (set_color n c).color ≡ c.color)
unfolding set_color
color-set_color n c = (
  λ le. rw (le→leb n 14 le) (
      color-print_newline _
      ∙ color-print_str (codes "Colors updated.") _
      ∙ color-print_clear _
      ∙ color-print_set_color n _ le),
  λ le. rw (lt→leb n 14 (omega arith)) (color-print_newline _ ∙ color-print_str _ c),
)

kernel_text-setcolor :
    (n : ℕ) → n < 2 ^ 32 → kernel_text (codes "setcolor " ++ decimal n) ≡ setcolor n
unfolding kernel_text difference starts
kernel_text-setcolor n h = ap setcolor (number-decimal n h)

-- The line "setcolor" with a number of 32 bits is that command. The number becomes the colour of the
-- prompts whatever it is; up to 14 it also becomes the background of the console, and from 15 on the
-- console's colour stays.
pub run_kernel-set_color :
    (disk : Disk) (identify : ℕ → ℕ → disk.Drives → Option (ℕ → ℕ) × disk.Drives)
    (lit : List ℕ → Ptr) (free_list : Ptr) (fuel : ℕ) (stack : Buffer) (behind : List ℕ) (turns : ℕ)
    (command : Ptr) (color n : ℕ) (w : Machine disk.Drives)
    → n < 2 ^ 32
    → (after : Console) × (run_kernel disk identify lit free_list fuel stack behind turns command
          (kernel_text (codes "setcolor " ++ decimal n))
          color
          w
        ≡ some (n, record w { console = after }))
      × (n ≤ 14 → after.color ≡ 15 + 16 * n)
      × (15 ≤ n → after.color ≡ w.console.color)
unfolding run_kernel
run_kernel-set_color disk identify lit p fuel stack behind turns command color n w h = (
  set_color n w.console,
  ap (λ cmd. run_kernel disk identify lit p fuel stack behind turns command cmd color w)
      (kernel_text-setcolor n h),
  (color-set_color n w.console).0,
  (color-set_color n w.console).1,
)
