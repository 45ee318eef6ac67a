-- ===== src/Partition/Mbr/Entries.antt =====
-- The slot that is found, and what taking or clearing it does to the other bytes of the record.
use ety_os.Base.{
  ℕ, zero, suc, ◌+◌, ◌%◌, ◌^◌, ◌<◌, ◌≤◌, ◌≡◌, ◌≢◌, ◌⊎◌, inl, inr, ◌==◌, arith, if◌then◌else◌,
  Option, none, some, Bool-cases, ==→eq, ==→ne, ◌∙◌, leb, ltb, ◌&&◌, lt→ltb,
}
use ety_os.Memory.{store}
use ety_os.Memory.Fill.{eq_or_next}
use ety_os.Bytes.Fields.{put32_ne, get32-put32, get32-put32_ne, store-IsSector, put32-IsSector}
use ety_os.Bytes.{Buffer, IsSector, put32}
use ety_os.Partition.Mbr.{
  entry, entry_status, entry_type, entry_lba_first, entry_sector_count, find_slot, set_entry,
  clear_entry,
}

-- What the search of the slots from `i` on finds: the first empty one, or none if there is none.
pub data Slot (i end : ℕ) (mbr : Buffer) : Option ℕ → Type 0 where
  free_slot :
      (k : ℕ)
      → i ≤ k
      → k < end
      → entry_type mbr k ≡ 0
      → ((j : ℕ) → i ≤ j → j < k → entry_type mbr j ≢ 0)
      → Slot i end mbr (some k)
  all_used : ((j : ℕ) → i ≤ j → j < end → entry_type mbr j ≢ 0) → Slot i end mbr none

Slot-suc :
    (i end : ℕ) (mbr : Buffer) {r : Option ℕ}
    → entry_type mbr i ≢ 0
    → Slot (i + 1) end mbr r
    → Slot i end mbr r
Slot-suc i end mbr ne (free_slot k lo hi e h) = free_slot k (omega arith) hi e before
  where
    before : (j : ℕ) → i ≤ j → j < k → entry_type mbr j ≢ 0
    before j lo' hi' = elim (eq_or_next i j lo') [ inl e' ↦ rw e' ne | inr n ↦ h j n hi' ]
Slot-suc i end mbr ne (all_used h) = all_used before
  where
    before : (j : ℕ) → i ≤ j → j < end → entry_type mbr j ≢ 0
    before j lo' hi' = elim (eq_or_next i j lo') [ inl e' ↦ rw e' ne | inr n ↦ h j n hi' ]

pub find_slot-Slot :
    (left i end : ℕ) (mbr : Buffer) → i + left ≡ end → Slot i end mbr (find_slot left i mbr)
unfolding find_slot
find_slot-Slot zero i end mbr e = all_used (λ j lo hi. absurd (omega arith))
find_slot-Slot (suc left) i end mbr e = elim (Bool-cases (entry_type mbr i == 0)) [
  | inl t ↦
      rw t (free_slot i (omega arith) (omega arith) (==→eq _ _ t) (λ j lo hi. absurd (omega arith)))
  | inr t ↦
      rw t (Slot-suc i end mbr (==→ne _ _ t) (find_slot-Slot left (i + 1) end mbr (omega arith)))
]

-- Taking slot `i` writes an inactive entry of the kind, start and length given, cut to their
-- widths, and no other byte changes: neither another entry nor the boot code.
pub set_entry_lem :
    (i kind start_lba sector_count : ℕ) (mbr : Buffer)
    → let mbr' = set_entry i kind start_lba sector_count mbr in
      (entry_status mbr' i ≡ 0)
      × (entry_type mbr' i ≡ kind)
      × (entry_lba_first mbr' i ≡ start_lba % 2 ^ 32)
      × (entry_sector_count mbr' i ≡ sector_count % 2 ^ 32)
      × ((x : ℕ)
          → x ≢ entry i
          → x ≢ entry i + 4
          → (x < entry i + 8) ⊎ (entry i + 16 ≤ x)
          → mbr' x ≡ mbr x)
unfolding set_entry
set_entry_lem i kind start_lba sector_count mbr =
    let e = entry i in
    let head = store (store mbr e 0) (e + 4) kind in
    let mid = put32 head (e + 8) start_lba in
    (
      put32_ne mid (e + 12) sector_count e (omega arith)
          ∙ put32_ne head (e + 8) start_lba e (omega arith)
          ∙ ground arith,
      put32_ne mid (e + 12) sector_count (e + 4) (omega arith)
          ∙ put32_ne head (e + 8) start_lba (e + 4) (omega arith)
          ∙ ground arith,
      get32-put32_ne mid (e + 12) sector_count (e + 8) (omega arith)
          ∙ get32-put32 head (e + 8) start_lba,
      get32-put32 mid (e + 12) sector_count,
      λ x ne ne' h.
          put32_ne mid (e + 12) sector_count x (omega arith)
          ∙ put32_ne head (e + 8) start_lba x (omega arith)
          ∙ ground arith,
    )

pub clear_entry-at :
    (left j i : ℕ) (mbr : Buffer) (x : ℕ)
    → clear_entry left j i mbr x
      ≡ (if leb (entry i + j) x && ltb x (entry i + j + left) then 0 else mbr x)
unfolding clear_entry
clear_entry-at zero j i mbr x = ground arith
clear_entry-at (suc left) j i mbr x =
    ground (arith, clear_entry-at left (j + 1) i (store mbr (entry i + j) 0) x)

pub set_entry-IsSector :
    (i kind start count : ℕ) {mbr : Buffer}
    → i < 4
    → kind < 256
    → IsSector mbr
    → IsSector (set_entry i kind start count mbr)
unfolding set_entry
set_entry-IsSector i kind start count h byte is =
    let is = store-IsSector (entry i) 0 (lt→ltb _ _ (omega arith)) (omega arith) is in
    let is = store-IsSector (entry i + 4) kind (lt→ltb _ _ (omega arith)) byte is in
    let is =
      put32-IsSector (entry i + 8) start (lt→ltb _ _ (omega arith)) (lt→ltb _ _ (omega arith))
        (lt→ltb _ _ (omega arith)) (lt→ltb _ _ (omega arith)) is in
    put32-IsSector (entry i + 12) count (lt→ltb _ _ (omega arith)) (lt→ltb _ _ (omega arith))
      (lt→ltb _ _ (omega arith)) (lt→ltb _ _ (omega arith)) is

pub clear_entry-IsSector :
    (left j i : ℕ) {mbr : Buffer}
    → j + left ≤ 16
    → i < 4
    → IsSector mbr
    → IsSector (clear_entry left j i mbr)
unfolding clear_entry
clear_entry-IsSector zero j i h hi is = is
clear_entry-IsSector (suc left) j i h hi is =
    clear_entry-IsSector left (j + 1) i (omega arith) hi
      (store-IsSector (entry i + j) 0 (lt→ltb _ _ (omega arith)) (omega arith) is)
