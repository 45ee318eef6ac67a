-- ===== src/Disk.antt =====
-- What partition.c and disktool.c use of the drives: `ata_read_sector_disk` and
-- `ata_write_sector_disk`, as an interface, with the commands built from them.
--
-- A command runs on the drives and on the headers of the allocator's heap. It ends with a result,
-- or with the error return -1, or is stuck: an allocator loop that ran out of its fuel.
pub mod Laws
use ety_os.Base.{ℕ, Bool, true, false, Option, none, some, ◌==◌, if◌then◌else◌}
use ety_os.Memory.{Ptr}
use ety_os.Bytes.{Buffer}
use ety_os.Allocator.{Heap, null, allocate, free}

-- Controller, drive and LBA select a sector. A read gives the sector's bytes or fails; a write says
-- whether it succeeded.
pub record Disk : Type 1 where
  pub Drives : Type 0
  pub read_sector : ℕ → ℕ → ℕ → Drives → Option Buffer × Drives
  pub write_sector : ℕ → ℕ → ℕ → Buffer → Drives → Bool × Drives

pub data Outcome (A : Type 0) : Type 0 where
  done : A → Outcome A
  failed : Outcome A
  stuck : Outcome A

-- The drives and the allocator's heap.
pub record State (D : Type 0) : Type 0 where
  pub drives : D
  pub heap : Heap

abbrev pub Cmd : Type 0 → Type 0 → Type 0
Cmd D A = State D → Outcome A × State D

module _ {D A B : Type 0} where
  abbrev pub and_then : Outcome A × State D → (A → Cmd D B) → Outcome B × State D
  and_then (done a, s) k = k a s
  and_then (failed, s) k = (failed, s)
  and_then (stuck, s) k = (stuck, s)

  infixl 5 ◌>>=◌ ◌>>◌
  abbrev pub ◌>>=◌ : Cmd D A → (A → Cmd D B) → Cmd D B
  m >>= k = λ s. and_then (m s) k

  abbrev pub ◌>>◌ : Cmd D A → Cmd D B → Cmd D B
  m >> k = m >>= λ _. k

module _ {D A : Type 0} where
  abbrev pub still_failed : Outcome (Unit {0}) × State D → Outcome A × State D
  still_failed (done _, s) = (failed, s)
  still_failed (failed, s) = (failed, s)
  still_failed (stuck, s) = (stuck, s)

  -- `on_error` runs where `m` fails, and the command still fails.
  abbrev pub cleanup : Outcome A × State D → Cmd D (Unit {0}) → Outcome A × State D
  cleanup (done a, s) on_error = (done a, s)
  cleanup (failed, s) on_error = still_failed (on_error s)
  cleanup (stuck, s) on_error = (stuck, s)

  abbrev pub or_else : Cmd D A → Cmd D (Unit {0}) → Cmd D A
  or_else m on_error = λ s. cleanup (m s) on_error

  abbrev pub pure : A → Cmd D A
  pure a s = (done a, s)

  abbrev pub fail : Cmd D A
  fail s = (failed, s)

  abbrev pub tried : Outcome A × State D → Outcome (Option A) × State D
  tried (done a, s) = (done (some a), s)
  tried (failed, s) = (done none, s)
  tried (stuck, s) = (stuck, s)

  -- The result of a call that its caller tests.
  abbrev pub attempt : Cmd D A → Cmd D (Option A)
  attempt m = λ s. tried (m s)

abbrev pub received : Option Buffer → Outcome Buffer
received none = failed
received (some bytes) = done bytes

abbrev pub succeeded : Bool → Outcome (Unit {0})
succeeded true = done tt
succeeded false = failed

module _ (disk : Disk) where
  open disk use {Drives, read_sector, write_sector}

  -- `ata_read_sector_disk(controller, drive, lba, buffer)`.
  unfoldable pub read : ℕ → ℕ → ℕ → Cmd Drives Buffer
  read controller drive lba s =
      let (b, d) = read_sector controller drive lba s.drives in
      (received b, record s { drives = d })

  -- `ata_write_sector_disk(controller, drive, lba, buffer)`.
  unfoldable pub write : ℕ → ℕ → ℕ → Buffer → Cmd Drives (Unit {0})
  write controller drive lba bytes s =
      let (good, d) = write_sector controller drive lba bytes s.drives in
      (succeeded good, record s { drives = d })

module _ {D : Type 0} (s : State D) where
  abbrev pub granted : Option (Ptr × Heap) → Outcome Ptr × State D
  granted none = (stuck, s)
  granted (some (p, h)) =
      if p == null then (failed, record s { heap = h }) else (done p, record s { heap = h })

  abbrev pub released : Option Heap → Outcome (Unit {0}) × State D
  released none = (stuck, s)
  released (some h) = (done tt, record s { heap = h })

module _ {D : Type 0} (free_list : Ptr) (fuel : ℕ) where
  -- `allocate(size)`; a null pointer is a failure of the caller.
  unfoldable pub alloc : ℕ → Cmd D Ptr
  alloc size s = granted s (allocate free_list fuel size s.heap)

  unfoldable pub release : Ptr → Cmd D (Unit {0})
  release p s = released s (free free_list fuel p s.heap)
