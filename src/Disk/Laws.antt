-- ===== src/Disk/Laws.antt =====
-- What the callers rely on of the drives, and which sectors a command leaves alone.
use ety_os.Base.{
  ℕ, ◌<◌, ◌≡◌, ◌≢◌, Bool, true, Option, none, some, false, inl, inr, Bool-cases, ◌∙◌, refl, ◌==◌,
}
use ety_os.Memory.{Ptr}
use ety_os.Bytes.{Buffer, IsSector}
use ety_os.Disk.{
  Disk, State, Cmd, Outcome, done, failed, stuck, and_then, ◌>>=◌, cleanup, succeeded, received,
  still_failed, granted, released, or_else, tried, attempt, read, write, alloc, release,
}
use ety_os.Allocator.{Heap, allocate, free, null}

-- Below sector `limit`, sectors read back as they were last written, and a transfer leaves the other
-- sectors alone.
pub record Laws (disk : Disk) (limit : ℕ) : Type 0 where
  pub after_read :
      (c d l k : ℕ) (s : disk.Drives)
      → (disk.read_sector c d k (disk.read_sector c d l s).1).0 ≡ (disk.read_sector c d k s).0
  pub read_bytes :
      (c d l : ℕ) (s : disk.Drives) (b : Buffer)
      → (disk.read_sector c d l s).0 ≡ some b
      → IsSector b
  pub after_write :
      (c d l : ℕ) (b : Buffer) (s : disk.Drives)
      → IsSector b
      → (disk.write_sector c d l b s).0 ≡ true
      → (disk.read_sector c d l (disk.write_sector c d l b s).1).0 ≡ some b
  pub other_write :
      (c d l k : ℕ) (b : Buffer) (s : disk.Drives)
      → l < limit
      → k < limit
      → k ≢ l
      → (disk.read_sector c d k (disk.write_sector c d l b s).1).0 ≡ (disk.read_sector c d k s).0

succeeded-done : (b : Bool) → succeeded b ≡ done tt → b ≡ true
succeeded-done true e = refl
succeeded-done false e = cc

pub done_inj : {A : Type 0} {x y : A} → done x ≡ done y → x ≡ y
done_inj e = cc

tried-received :
    {D : Type 0} (b : Option Buffer) (s : State D) (o : Option Buffer)
    → (tried (received b, s)).0 ≡ done o
    → b ≡ o
tried-received none s o e = cc
tried-received (some x) s o e = cc

succeeded-tried :
    {D : Type 0} (b : Bool) (s : State D) (x : Unit {0})
    → (tried (succeeded b, s)).0 ≡ done (some x)
    → succeeded b ≡ done tt
succeeded-tried true s x e = refl
succeeded-tried false s x e = cc

-- A chain that ends with a result went on with the result of its first command.
pub and_then-done :
    {D A B : Type 0} (r : Outcome A × State D) (next : A → Cmd D B) (x : B)
    → (and_then r next).0 ≡ done x
    → (a : A) × (r.0 ≡ done a) × (and_then r next ≡ next a r.1) × ((next a r.1).0 ≡ done x)
and_then-done (done a, s) next x e = (a, refl, refl, e)
and_then-done (failed, s) next x e = cc
and_then-done (stuck, s) next x e = cc

module _ (disk : Disk) (c d : ℕ) where
  open disk use {Drives}

  -- Sector `k` of the drive as a read shows it.
  abbrev pub sector : ℕ → Drives → Option Buffer
  sector k s = (disk.read_sector c d k s).0

  -- The command leaves sector `k` as it is, however it ends.
  abbrev pub Leaves : {A : Type 0} → ℕ → Cmd Drives A → Type 0
  Leaves k m = (s : State Drives) → sector k (m s).1.drives ≡ sector k s.drives

  module _ {A B : Type 0} {k : ℕ} where
    and_then-sector :
        (r : Outcome A × State Drives) (next : A → Cmd Drives B)
        → ((a : A) → Leaves k (next a))
        → sector k (and_then r next).1.drives ≡ sector k r.1.drives
    and_then-sector (done a, s) next h = h a s
    and_then-sector (failed, s) next h = refl
    and_then-sector (stuck, s) next h = refl

    pub bind-Leaves :
        (m : Cmd Drives A) (next : A → Cmd Drives B)
        → Leaves k m
        → ((a : A) → Leaves k (next a))
        → Leaves k (m >>= next)
    bind-Leaves m next first then_h s = and_then-sector (m s) next then_h ∙ first s

  still_failed-sector :
      (A : Type 0) (k : ℕ) (r : Outcome (Unit {0}) × State Drives)
      → sector k (still_failed {A = A} r).1.drives ≡ sector k r.1.drives
  still_failed-sector A k (done a, s) = refl
  still_failed-sector A k (failed, s) = refl
  still_failed-sector A k (stuck, s) = refl

  module _ {A : Type 0} {k : ℕ} where
    pub tried-sector :
        (r : Outcome A × State Drives) → sector k (tried r).1.drives ≡ sector k r.1.drives
    tried-sector (done a, s) = refl
    tried-sector (failed, s) = refl
    tried-sector (stuck, s) = refl

    pub attempt-Leaves : (m : Cmd Drives A) → Leaves k m → Leaves k (attempt m)
    attempt-Leaves m h s = tried-sector (m s) ∙ h s

    cleanup-sector :
        (r : Outcome A × State Drives) (on_error : Cmd Drives (Unit {0}))
        → Leaves k on_error
        → sector k (cleanup r on_error).1.drives ≡ sector k r.1.drives
    cleanup-sector (done a, s) on_error h = refl
    cleanup-sector (failed, s) on_error h = still_failed-sector A k (on_error s) ∙ h s
    cleanup-sector (stuck, s) on_error h = refl

    pub or_else-Leaves :
        (m : Cmd Drives A) (on_error : Cmd Drives (Unit {0}))
        → Leaves k m
        → Leaves k on_error
        → Leaves k (or_else m on_error)
    or_else-Leaves m on_error h h' s = cleanup-sector (m s) on_error h' ∙ h s

  granted-sector :
      (s : State Drives) (r : Option (Ptr × Heap)) (k : ℕ)
      → sector k (granted s r).1.drives ≡ sector k s.drives
  granted-sector s none k = refl
  granted-sector s (some (p, h)) k = elim (Bool-cases (p == null)) [
    | inl e ↦ rw e refl
    | inr e ↦ rw e refl
  ]

  released-sector :
      (s : State Drives) (r : Option Heap) (k : ℕ)
      → sector k (released s r).1.drives ≡ sector k s.drives
  released-sector s none k = refl
  released-sector s (some h) k = refl

  pub alloc-Leaves : (p : Ptr) (fuel size k : ℕ) → Leaves k (alloc p fuel size)
  unfolding alloc
  alloc-Leaves p fuel size k s = granted-sector s (allocate p fuel size s.heap) k

  pub release-Leaves : (p : Ptr) (fuel : ℕ) (q : Ptr) (k : ℕ) → Leaves k (release p fuel q)
  unfolding release
  release-Leaves p fuel q k s = released-sector s (free p fuel q s.heap) k

  module _ {limit : ℕ} (laws : Laws disk limit) where
    pub read-Leaves : (l k : ℕ) → Leaves k (read disk c d l)
    unfolding read
    read-Leaves l k s = laws.after_read c d l k s.drives

    pub attempt-read :
        (l : ℕ) (s : State Drives) (o : Option Buffer)
        → (attempt (read disk c d l) s).0 ≡ done o
        → sector l s.drives ≡ o
    unfolding read
    attempt-read l s o e = tried-received (sector l s.drives) _ o e

    pub attempt-write :
        (l : ℕ) (b : Buffer) (s : State Drives) (x : Unit {0})
        → (attempt (write disk c d l b) s).0 ≡ done (some x)
        → (write disk c d l b s).0 ≡ done tt
    unfolding write
    attempt-write l b s x e = succeeded-tried (disk.write_sector c d l b s.drives).0 _ x e

    pub write-Leaves :
        (l k : ℕ) (b : Buffer) → l < limit → k < limit → k ≢ l → Leaves k (write disk c d l b)
    unfolding write
    write-Leaves l k b hl hk ne s = laws.other_write c d l k b s.drives hl hk ne

    pub write-done :
        (l : ℕ) (b : Buffer) (s : State Drives)
        → IsSector b
        → (write disk c d l b s).0 ≡ done tt
        → sector l (write disk c d l b s).1.drives ≡ some b
    unfolding write
    write-done l b s is e =
        laws.after_write c d l b s.drives is
          (succeeded-done (disk.write_sector c d l b s.drives).0 e)
