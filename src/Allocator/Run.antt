-- ===== src/Allocator/Run.antt =====
-- A client's sequence of calls to memory_allocator.c, from `memory_allocator_init` on.
use ety_os.Base.{
  some_inj, ℕ, ◌+◌, ◌-◌, ◌*◌, ◌^◌, ◌≤◌, ◌<◌, ◌≡◌, ◌≢◌, ◌⊎◌, inl, inr, true, some, List, [], ◌∷◌,
  Bool-cases, arith, refl, ◌↔◌, ◌==◌, if◌then◌else◌, ==→eq, ==→ne,
}
use mathlib.Core.Path.{subst, subst₂, sym, ◌∙◌}
use ety_os.Memory.{Ptr}
use ety_os.Allocator.{
  Heap, null, header_size, memory_pool_size, memory_allocator_init, allocate, free,
}
use ety_os.Allocator.Blocks.{Blocks, block, Holds}
use ety_os.Allocator.Free.{free-null}
use ety_os.Allocator.Pool.{
  IsPool, Holds-within, Served, Allocated, failed, served, allocate-Allocated, Released,
  free-Released, memory_allocator_init-IsPool,
}

-- What the client was given and has not given back: pointer and size of each.
abbrev pub Live : Type 0
Live = List (Ptr × ℕ)

abbrev pub Owns : Ptr → ℕ → Live → Type 0
Owns q n [] = ⊥
Owns q n ((p, k) ∷ live) = ((q ≡ p) × (n ≡ k)) ⊎ Owns q n live

abbrev pub give_back : Ptr → Live → Live
give_back p [] = []
give_back p ((q, n) ∷ live) = if p == q then give_back p live else (q, n) ∷ give_back p live

-- No allocation overlaps a later one of the list, headers included: each is given out once.
abbrev pub AllApart : Live → Type 0
AllApart [] = Unit {0}
AllApart ((p, n) ∷ live) =
    ((q k : ℕ) → Owns q k live → (p + n + header_size ≤ q) ⊎ (q + k + header_size ≤ p))
    × AllApart live

-- One call. A client frees only what it owns, and null.
pub data Call (free_list : Ptr) (fuel : ℕ) : Heap → Live → Heap → Live → Type 0 where
  got :
      {h h' : Heap} {live : Live} (size : ℕ) {p : Ptr}
      → allocate free_list fuel size h ≡ some (p, h')
      → p ≢ null
      → Call free_list fuel h live h' ((p, size) ∷ live)
  got_null :
      {h h' : Heap} {live : Live} (size : ℕ) {p : Ptr}
      → allocate free_list fuel size h ≡ some (p, h')
      → p ≡ null
      → Call free_list fuel h live h' live
  gave :
      {h h' : Heap} {live : Live} (p n : ℕ)
      → Owns p n live
      → free free_list fuel p h ≡ some h'
      → Call free_list fuel h live h' (give_back p live)
  gave_null :
      {h h' : Heap} {live : Live}
      → free free_list fuel null h ≡ some h'
      → Call free_list fuel h live h' live

-- The states after calls from the fresh pool.
pub data Reach (free_list : Ptr) (fuel : ℕ) (boot : Heap) : Heap → Live → Type 0 where
  start : Reach free_list fuel boot (memory_allocator_init free_list boot) []
  next :
      {h h' : Heap} {live live' : Live}
      → Reach free_list fuel boot h live
      → Call free_list fuel h live h' live'
      → Reach free_list fuel boot h' live'

-- The pool is well formed, and in use is exactly what the client owns.
pub record IsFair (free_list : Ptr) (h : Heap) (live : Live) : Type 0 where
  pub blocks : Blocks
  pub pool : IsPool free_list h blocks
  pub owned : (q n : ℕ) → Holds q n blocks ↔ Owns q n live
  pub all_apart : AllApart live

Owns-give_back : (live : Live) (p q n : ℕ) → Owns q n (give_back p live) ↔ ((q ≢ p) × Owns q n live)
Owns-give_back [] p q n = (λ a. absurd a, λ a. a.1)
Owns-give_back ((r, k) ∷ live) p q n = elim (Bool-cases (p == r)) [
  | inl e ↦ rw e (
    λ a. let b = (Owns-give_back live p q n).0 a in (b.0, inr b.1),
    λ a. (Owns-give_back live p q n).1 (a.0, drop (==→eq _ _ e) a.0 a.1),
  )
  | inr e ↦
      rw e (into (==→ne _ _ e) (Owns-give_back live p q n).0, back (Owns-give_back live p q n).1)
]
  where
    drop : p ≡ r → q ≢ p → Owns q n ((r, k) ∷ live) → Owns q n live
    drop e ne (inl b) = absurd (omega arith)
    drop e ne (inr b) = b

    into :
        p ≢ r
        → (Owns q n (give_back p live) → (q ≢ p) × Owns q n live)
        → Owns q n ((r, k) ∷ give_back p live)
        → (q ≢ p) × Owns q n ((r, k) ∷ live)
    into ne f (inl b) = (omega arith, inl b)
    into ne f (inr b) = ((f b).0, inr (f b).1)

    back :
        ((q ≢ p) × Owns q n live → Owns q n (give_back p live))
        → (q ≢ p) × Owns q n ((r, k) ∷ live)
        → Owns q n ((r, k) ∷ give_back p live)
    back f (ne, inl b) = inl b
    back f (ne, inr b) = inr (f (ne, b))

give_back-AllApart : (live : Live) (p : Ptr) → AllApart live → AllApart (give_back p live)
give_back-AllApart [] p h = tt
give_back-AllApart ((q, n) ∷ live) p (h, hs) = elim (Bool-cases (p == q)) [
  | inl e ↦ rw e (give_back-AllApart live p hs)
  | inr e ↦ rw e (λ r k o. h r k ((Owns-give_back live p r k).0 o).1, give_back-AllApart live p hs)
]

module _ (free_list : Ptr) where
  got-Served :
      {size : ℕ} {h h' : Heap} {bs : Blocks} {p : Ptr}
      → p ≢ null
      → Allocated free_list size h bs (some (p, h'))
      → Served free_list size bs p h'
  got-Served ne (failed u) = absurd (ne refl)
  got-Served ne (served s) = s

  got_null-same :
      {size : ℕ} {h h' : Heap} {bs : Blocks} {p : Ptr}
      → p ≡ null
      → Allocated free_list size h bs (some (p, h'))
      → h' ≡ h
  got_null-same e (failed u) = refl
  got_null-same e (served s) = absurd (omega (arith, s.inside.0))

  Served-IsFair :
      {h h' : Heap} {live : Live} (size : ℕ) {p : Ptr}
      → (f : IsFair free_list h live) → Served free_list size f.blocks p h'
      → IsFair free_list h' ((p, size) ∷ live)
  Served-IsFair {live} size {p} f s = record {
    blocks = s.blocks;
    pool = s.pool;
    owned = λ q n. (
      λ a. elim (s.only q n a) [ inl e ↦ inl e | inr k ↦ inr ((f.owned q n).0 k) ],
      elim [
        | inl e ↦ subst₂ (λ a b. Holds a b s.blocks) (sym e.0) (sym e.1) s.held
        | inr k ↦ s.kept q n ((f.owned q n).1 k)
      ],
    );
    all_apart = (λ q k o. s.apart q k ((f.owned q k).1 o), f.all_apart);
  }

  Released-IsFair :
      {h h' : Heap} {live : Live} (p : Ptr)
      → (f : IsFair free_list h live) → Released free_list f.blocks p h'
      → IsFair free_list h' (give_back p live)
  Released-IsFair {live} p f r = record {
    blocks = r.blocks;
    pool = r.pool;
    owned = λ q n. (
      λ a. let b = (r.others q n).0 a in (Owns-give_back live p q n).1 (b.0, (f.owned q n).0 b.1),
      λ a. let b = (Owns-give_back live p q n).0 a in (r.others q n).1 (b.0, (f.owned q n).1 b.1),
    );
    all_apart = give_back-AllApart live p f.all_apart;
  }

  module _ (fuel : ℕ) (enough : memory_pool_size < header_size * fuel) where
    Call-IsFair :
        {h h' : Heap} {live live' : Live}
        → Call free_list fuel h live h' live'
        → IsFair free_list h live
        → IsFair free_list h' live'
    Call-IsFair {h} (got size e ne) f = Served-IsFair size f (
        got-Served ne (
          subst (Allocated free_list size h f.blocks) e
            (allocate-Allocated f.blocks fuel size h free_list enough f.pool)))
    Call-IsFair {h} {live} (got_null size e z) f =
        subst (λ g. IsFair free_list g live)
          (sym (
            got_null-same z (
              subst (Allocated free_list size h f.blocks) e
                (allocate-Allocated f.blocks fuel size h free_list enough f.pool))))
          f
    Call-IsFair {h} {live} (gave p n o e) f =
        let (g, returns, r) =
          free-Released f.blocks fuel p n h free_list enough f.pool ((f.owned p n).1 o) in
        subst (λ g'. IsFair free_list g' (give_back p live)) (some_inj (sym returns ∙ e))
          (Released-IsFair p f r)
    Call-IsFair {live} (gave_null e) f =
        subst (λ g. IsFair free_list g live) (some_inj (sym (free-null free_list fuel _) ∙ e)) f

    Reach-IsFair :
        {boot h : Heap} {live : Live}
        → free_list ≢ null
        → free_list + memory_pool_size < 2 ^ 64
        → Reach free_list fuel boot h live
        → IsFair free_list h live
    Reach-IsFair {boot} ne small start = record {
      blocks = block free_list (memory_pool_size - header_size) true ∷ [];
      pool = memory_allocator_init-IsPool boot free_list ne small;
      owned = λ q n. (elim [ inl e ↦ absurd (ground (arith, e.2)) | inr k ↦ k ], λ a. absurd a);
      all_apart = tt;
    }
    Reach-IsFair ne small (next r c) = Call-IsFair c (Reach-IsFair ne small r)

-- Whatever a client allocates and gives back after `memory_allocator_init`, if it frees only what
-- it owns: every allocation that it owns lies inside the pool, and no two of them overlap, their
-- headers included; so no two have the same address.
pub Reach-apart :
    (free_list : Ptr) (fuel : ℕ) (boot h : Heap) (live : Live)
    → memory_pool_size < header_size * fuel
    → free_list ≢ null
    → free_list + memory_pool_size < 2 ^ 64
    → Reach free_list fuel boot h live
    → ((p n : ℕ)
        → Owns p n live
        → (free_list + header_size ≤ p) × (p + n ≤ free_list + memory_pool_size))
      × AllApart live
Reach-apart free_list fuel boot h live enough ne small r =
    let f = Reach-IsFair free_list fuel enough ne small r in
    (λ p n o. Holds-within f.blocks h free_list p n f.pool ((f.owned p n).1 o), f.all_apart)
