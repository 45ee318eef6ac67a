-- ===== src/Shell.antt =====
-- The command lines of source/implementation/kernel/main.c and of
-- source/implementation/kernel/commands/disktool_cmd.c: which command a line is.
--
-- A line stands in memory, as `read_input` leaves it, and the string literals that it is compared
-- with stand at the addresses `lit`, which the build chooses. The ladder of tests is kept in its
-- order. `none` is a loop of string.c that ran out of its fuel.
mod Tests
pub mod Parsing
pub mod Kernel
pub mod Cut
pub mod Tool
pub mod Typed
pub mod Session
pub mod Run
use ety_os.Base.{
  ℕ, zero, suc, ◌+◌, ◌-◌, ◌%◌, ◌^◌, Bool, true, false, Option, none, some, List, [], ◌∷◌, ◌==◌, ltb,
  leb, if◌then◌else◌, codes, length, ℤ, pos, negsuc,
}
use ety_os.Memory.{Ptr, Mem, store}
use ety_os.CStr.{strcmp, strncmp, strtoul, strchr}
use ety_os.Disktool.{FileSystemType, fs_fat32, fs_ext4}

-- The branches of `kernel_main`, with what they take of the line.
pub data KernelCommand : Type 0 where
  blank : KernelCommand
  help : KernelCommand
  disktool : KernelCommand
  clear : KernelCommand
  dsks : KernelCommand
  about : KernelCommand
  checkfs : KernelCommand
  echo : List ℕ → KernelCommand
  partitions : KernelCommand
  setcolor : ℕ → KernelCommand
  unknown : List ℕ → KernelCommand

-- The branches of `start_disktool`.
pub data DiskCommand : Type 0 where
  blank_line : DiskCommand
  tool_help : DiskCommand
  listdisks : DiskCommand
  update : DiskCommand
  format : FileSystemType → DiskCommand
  selectdisk : ℤ → DiskCommand
  newpart : ℕ → FileSystemType → DiskCommand
  delpart : ℤ → DiskCommand
  partinfo : DiskCommand
  exit : DiskCommand
  unknown_command : DiskCommand

-- A `uint32_t` as an `int`.
abbrev pub to_int : ℕ → ℤ
to_int n = if ltb n (2 ^ 31) then pos n else negsuc (2 ^ 32 - 1 - n)

abbrev pub is_zero : ℤ → Bool
is_zero (pos zero) = true
is_zero (pos (suc n)) = false
is_zero (negsuc n) = false

abbrev pub option_map {ℓ} : {A B : Type ℓ} → (A → B) → Option A → Option B
option_map f none = none
option_map f (some x) = some (f x)

-- A branch of a ladder: `then` where the test holds, and the rest of the ladder where it does not.
abbrev pub branch {ℓ} : {A : Type ℓ} → Option Bool → Option A → Option A → Option A
branch none x rest = none
branch (some true) x rest = x
branch (some false) x rest = rest

-- The characters of the C string at `p`, as `print_str` takes them.
unfoldable pub string_at : ℕ → Ptr → Mem → Option (List ℕ)
string_at zero p m = none
string_at (suc fuel) p m =
    let rest = string_at fuel (p + 1) m in
    if m p == 0 then some [] else option_map (λ s. m p ∷ s) rest

module _ (lit : List ℕ → Ptr) (fuel : ℕ) where
  -- `strcmp(command, "...") == 0`
  unfoldable pub same : Ptr → List ℕ → Mem → Option Bool
  same command word m = option_map is_zero (strcmp fuel command (lit word) m)

  -- `strncmp(command, "...", n) == 0`, with `n` the length of the literal.
  unfoldable pub begins : Ptr → List ℕ → Mem → Option Bool
  begins command word m = some (is_zero (strncmp command (lit word) (length word) m))

  unfoldable pub number_at : Ptr → Mem → Option ℕ
  number_at p m = option_map (λ r. r.0) (strtoul fuel p 10 m)

  unfoldable pub parse_fs_type : Ptr → Mem → Option FileSystemType
  parse_fs_type fs_str m =
      option_map (λ b. if b then fs_ext4 else fs_fat32) (same fs_str (codes "ext4") m)

  unfoldable pub kernel_command : Ptr → Mem → Option KernelCommand
  kernel_command command m =
      if m command == 0
      then some blank
      else branch (same command (codes "help") m) (some help) (
          branch (same command (codes "disktool") m) (some disktool) (
            branch (same command (codes "clear") m) (some clear) (
              branch (same command (codes "dsks") m) (some dsks) (
                branch (same command (codes "about") m) (some about) (
                  branch (same command (codes "checkfs") m) (some checkfs) (
                    branch (begins command (codes "echo ") m)
                      (option_map echo (string_at fuel (command + 5) m))
                      (branch (same command (codes "partitions") m) (some partitions) (
                        branch (begins command (codes "setcolor ") m)
                          (option_map setcolor (number_at (command + 9) m))
                          (option_map unknown (string_at fuel command m))))))))))

  -- The arguments of `newpart`, from `size_str` on: where there is a space, it becomes a NUL.
  unfoldable pub new_partition : Ptr → Mem → Option (DiskCommand × Mem)
  new_partition size_str m = elim (strchr fuel size_str b' ' m) [
    | none ↦ none
    | some none ↦ option_map (λ n. (newpart n fs_fat32, m)) (number_at size_str m)
    | some (some fs_str) ↦
        let m' = store m fs_str 0 in
        elim (parse_fs_type (fs_str + 1) m') [
          | none ↦ none
          | some fs_type ↦ option_map (λ n. (newpart n fs_type, m')) (number_at size_str m')
        ]
  ]

  -- The command and the memory after its line was taken apart.
  unfoldable pub disk_command : Ptr → Mem → Option (DiskCommand × Mem)
  disk_command command m =
      if m command == 0
      then some (blank_line, m)
      else branch (same command (codes "help") m) (some (tool_help, m)) (
          branch (same command (codes "listdisks") m) (some (listdisks, m)) (
            branch (same command (codes "update") m) (some (update, m)) (
              branch (same command (codes "format") m) (some (format fs_ext4, m)) (
                branch (begins command (codes "format ") m)
                  (option_map (λ t. (format t, m)) (parse_fs_type (command + 7) m))
                  (branch (begins command (codes "selectdisk ") m)
                    (option_map (λ n. (selectdisk (to_int n), m)) (number_at (command + 11) m))
                    (branch (begins command (codes "newpart ") m) (new_partition (command + 8) m) (
                      branch (begins command (codes "delpart ") m)
                        (option_map (λ n. (delpart (to_int n), m)) (number_at (command + 8) m))
                        (branch (same command (codes "partinfo") m) (some (partinfo, m)) (
                          branch (same command (codes "exit") m) (some (exit, m))
                            (some (unknown_command, m)))))))))))
