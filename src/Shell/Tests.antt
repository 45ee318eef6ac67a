-- ===== src/Shell/Tests.antt =====
-- Lines that stand in memory behind the literals.
use ety_os.Base.{
  ℕ, suc, ◌+◌, ◌-◌, ◌*◌, ◌/◌, ◌%◌, ◌≤◌, ◌≡◌, ◌≢◌, inl, inr, ◌==◌, ◌&&◌, not, Bool, true, false,
  Option, some, List, [], ◌∷◌, ◌++◌, length, get_or, codes, leb, ltb, if◌then◌else◌, arith, refl,
  pos, ==→eq, ==→ne, ltb→lt, ap, sym, subst,
}
use ety_os.Memory.{Ptr, Mem}
use ety_os.CStr.Shape.{IsStr}
use ety_os.Bytes.{Buffer}
use ety_os.Disk.{Disk}
use ety_os.Disk.Laws.{sector}
use ety_os.Console.{Console}
use ety_os.Console.Cursor.{IsCursor}
use ety_os.Console.Digits.{decimal, digits}
use ety_os.Disktool.{fs_ext4}
use ety_os.Disktool.Tests.{tool, identify, one_partition, one_deleted}
use ety_os.Disktool.Delete.{Deletion}
use ety_os.Partition.Tests.{ram, ram-Laws}
use ety_os.Ata.Channel.{Channel, channels}
use ety_os.Ata.Drives.{ata_disk, ata_disk-Laws}
use ety_os.Ata.Identify.{identify_drives, identify_drives-sector}
use ety_os.Ata.Tests.{calm, machine, words, answers, calm-reads}
use ety_os.Shell.{partitions, disktool, newpart, delpart, kernel_command, disk_command}
use ety_os.Shell.Parsing.{Placed}
use ety_os.Shell.Kernel.{kernel_words, kernel_text, kernel_command-kernel_text}
use ety_os.Shell.Tool.{disk_words, Parses}
use ety_os.Shell.Typed.{disk_line, disk_command-disk_line}
use ety_os.Shell.Session.{Machine, read_line, light_gray}
use ety_os.Shell.Run.{run_kernel, kernel_turn, obey_disk}
use ety_os.Shell.Run.Display.{OnlyShows, run_kernel-OnlyShows}
use ety_os.Shell.Run.Turn.{AllElsewhere, Entered}
use ety_os.Shell.Run.Round.{kernel_turn-ends}
use ety_os.Shell.Run.Colors.{run_kernel-set_color}
use ety_os.Shell.Run.Deleting.{obey_disk-Deletion}

abbrev same_text : List ℕ → List ℕ → Bool
same_text [] [] = true
same_text [] (d ∷ t) = false
same_text (c ∷ s) [] = false
same_text (c ∷ s) (d ∷ t) = (c == d) && same_text s t

abbrev index_of : List ℕ → List (List ℕ) → ℕ
index_of w [] = 0
index_of w (v ∷ vs) = let rest = index_of w vs in if same_text v w then 0 else suc rest

abbrev all_words : List (List ℕ)
all_words = kernel_words ++ disk_words

-- Each literal has 32 bytes.
abbrev lit : List ℕ → Ptr
lit w = 0x1000 + 32 * index_of w all_words

abbrev at : Ptr
at = 0x8000

abbrev memory : List ℕ → Mem
memory line a =
    if leb at a
    then get_or line (a - at) 0
    else get_or (get_or all_words ((a - 0x1000) / 32) []) ((a - 0x1000) % 32) 0

abbrev is_str : Mem → Ptr → List ℕ → Bool
is_str m p [] = m p == 0
is_str m p (c ∷ s) = (m p == c) && (not (c == 0) && is_str m (p + 1) s)

is_str-IsStr : (s : List ℕ) (m : Mem) (p : Ptr) → is_str m p s ≡ true → IsStr m p s
is_str-IsStr [] m p e = ==→eq (m p) 0 e
is_str-IsStr (c ∷ s) m p e =
    let here : (m p == c) ≡ true = ground (arith, e) in
    let char : (c == 0) ≡ false = ground (arith, e) in
    let rest : is_str m (p + 1) s ≡ true = ground (arith, e) in
    (==→eq (m p) c here, ==→ne c 0 char, is_str-IsStr s m (p + 1) rest)

abbrev all_str : Mem → List (List ℕ) → Bool
all_str m [] = true
all_str m (w ∷ ws) = is_str m (lit w) w && all_str m ws

all_str-Placed : (ws : List (List ℕ)) (m : Mem) → all_str m ws ≡ true → Placed m lit ws
all_str-Placed [] m e = tt
all_str-Placed (w ∷ ws) m e =
    let here : is_str m (lit w) w ≡ true = ground (arith, e) in
    let rest : all_str m ws ≡ true = ground (arith, e) in
    (is_str-IsStr w m (lit w) here, all_str-Placed ws m rest)

abbrev all_below : List (List ℕ) → Bool
all_below [] = true
all_below (w ∷ ws) = ltb (lit w + length w) at && all_below ws

all_below-AllElsewhere : (ws : List (List ℕ)) → all_below ws ≡ true → AllElsewhere at lit ws
all_below-AllElsewhere [] e = tt
all_below-AllElsewhere (w ∷ ws) e =
    let here : ltb (lit w + length w) at ≡ true = ground (arith, e) in
    let rest : all_below ws ≡ true = ground (arith, e) in
    let lt = ltb→lt (lit w + length w) at here in
    (λ i le. (inl (omega arith), inl (omega arith)), all_below-AllElsewhere ws rest)

abbrev hi : Mem
hi = memory (codes "echo hi")

kernel_command-kernel_text_example :
    kernel_command lit 20 at hi ≡ some (kernel_text (codes "echo hi"))
kernel_command-kernel_text_example =
    kernel_command-kernel_text lit 20 (codes "echo hi") at hi (omega arith)
      (is_str-IsStr (codes "echo hi") hi at refl) (all_str-Placed kernel_words hi refl)

new_partition_line : disk_line (newpart 100 fs_ext4) ≡ codes "newpart 100 ext4"
unfolding disk_line decimal digits
new_partition_line = refl

abbrev hundred : Mem
hundred = memory (codes "newpart 100 ext4")

hundred-IsStr : IsStr hundred at (disk_line (newpart 100 fs_ext4))
hundred-IsStr =
    subst (IsStr hundred at) (sym new_partition_line)
      (is_str-IsStr (codes "newpart 100 ext4") hundred at refl)

hundred_length : length (disk_line (newpart 100 fs_ext4)) ≡ 16
hundred_length = ap length new_partition_line

disk_command-disk_line_example :
    Parses at
      (length (disk_line (newpart 100 fs_ext4)))
      hundred
      (disk_command lit 20 at hundred)
      (newpart 100 fs_ext4)
disk_command-disk_line_example =
    disk_command-disk_line lit 20 at hundred (newpart 100 fs_ext4) (omega arith)
      (omega (arith, hundred_length)) hundred-IsStr (all_str-Placed disk_words hundred refl)
      (inl (omega arith))

abbrev typing : Console
typing = record { mem = hi; col = 0; row = 0; color = 7 }

typing-IsCursor : IsCursor typing
typing-IsCursor = record { row_in = omega arith; col_in = omega arith }

-- "help" and Enter are typed.
abbrev session : Machine (ℕ → Channel)
session = record {
  console = typing;
  tool = tool;
  state = record { drives = machine; heap = one_partition.heap };
  keyboard = record { shift = 0; caps = 0 };
  scan_codes = 0x23 ∷ 0x12 ∷ 0x26 ∷ 0x19 ∷ 0x1C ∷ [];
}

abbrev disks : Disk
disks = ata_disk (channels calm) 3

asks :
    (a b k : ℕ) (d : ℕ → Channel)
    → sector disks 0 0 k (identify_drives calm 3 words a b d).1 ≡ sector disks 0 0 k d
asks a b k d = identify_drives-sector calm 3 words a b 0 0 k d answers

run_kernel-OnlyShows_example : OnlyShows disks session (
    run_kernel disks
      (identify_drives calm 3 words)
      lit
      1000
      300
      (λ i. 0)
      []
      9
      at
      partitions
      0
      session)
run_kernel-OnlyShows_example =
    run_kernel-OnlyShows disks (identify_drives calm 3 words) lit 1000 300 (λ i. 0) [] 9 at
      partitions 0 session (ata_disk-Laws calm 3 answers calm-reads) asks typing-IsCursor (λ e. cc)

abbrev first_round : Option (ℕ × Machine (ℕ → Channel))
first_round =
    kernel_turn disks (identify_drives calm 3 words) lit 1000 300 (λ i. 0) [] 9 at 0x9000 0 session

kernel_turn-ends_example :
    (entered : Entered at session (read_line 300 at light_gray 0 (codes "etyOS Kernel > ") session))
    × (first_round
        ≡ run_kernel disks
            (identify_drives calm 3 words)
            lit
            1000
            300
            (λ i. 0)
            []
            9
            0x9000
            (kernel_text entered.text)
            0
            entered.after)
    × (kernel_text entered.text ≢ disktool → OnlyShows disks entered.after first_round)
kernel_turn-ends_example =
    kernel_turn-ends disks (identify_drives calm 3 words) lit 1000 300 (λ i. 0) [] 9 at 0x9000 0
      session (ata_disk-Laws calm 3 answers calm-reads) asks typing-IsCursor (inl (omega arith))
      (all_str-Placed kernel_words hi refl) (all_below-AllElsewhere kernel_words refl)
      (inr (inr (inr (inr (inl refl))))) (omega arith) (omega arith)

run_kernel-set_color_example :
    (after : Console) × (run_kernel disks
        (identify_drives calm 3 words)
        lit
        1000
        300
        (λ i. 0)
        []
        9
        at
        (kernel_text (codes "setcolor " ++ decimal 300))
        0
        session
      ≡ some (300, record session { console = after }))
    × (300 ≤ 14 → after.color ≡ 15 + 16 * 300)
    × (15 ≤ 300 → after.color ≡ 7)
run_kernel-set_color_example =
    run_kernel-set_color disks (identify_drives calm 3 words) lit 1000 300 (λ i. 0) [] 9 at 0 300
      session (omega arith)

delete_line : disk_line (delpart (pos 0)) ≡ codes "delpart 0"
unfolding disk_line decimal
delete_line = refl

abbrev first_out : Mem
first_out = memory (codes "delpart 0")

abbrev deleting : Machine (ℕ → Buffer)
deleting = record {
  console = record { mem = first_out; col = 0; row = 0; color = 7 };
  tool = tool;
  state = one_partition;
  keyboard = record { shift = 0; caps = 0 };
  scan_codes = [];
}

obey_disk-Deletion_example :
    (after : Machine (ℕ → Buffer)) × (obey_disk ram identify lit 1000 20 (λ i. 0) [] at 0 deleting
      ≡ some (delpart (pos 0), after))
    × Deletion ram tool (pos 0) one_partition.drives after.state.drives
obey_disk-Deletion_example =
    obey_disk-Deletion ram identify lit 1000 20 (λ i. 0) [] at 0 deleting (pos 0) ram-Laws
      (omega arith) (omega (arith, ap length delete_line))
      (subst (IsStr first_out at) (sym delete_line)
        (is_str-IsStr (codes "delpart 0") first_out at refl))
      (all_str-Placed disk_words first_out refl) (inl (omega arith)) one_deleted
