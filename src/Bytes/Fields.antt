-- ===== src/Bytes/Fields.antt =====
-- The fields of a buffer after stores to it.
use ety_os.Base.{
  ℕ, ◌+◌, ◌*◌, ◌/◌, ◌%◌, ◌^◌, ◌<◌, ◌≤◌, ◌≡◌, ◌⊎◌, arith, ap₂, true, ltb, ltb→lt, ltb→le, fun_ext,
  sym, Bool-cases, inl, inr,
}
use ety_os.Memory.{store}
use ety_os.Bytes.{Buffer, put16, put32, get16, get32, IsSector, sector_bytes}

pub put16_ne : (b : Buffer) (i v j : ℕ) → (j < i) ⊎ (i + 2 ≤ j) → put16 b i v j ≡ b j
put16_ne b i v j h = ground arith

pub put32_ne : (b : Buffer) (i v j : ℕ) → (j < i) ⊎ (i + 4 ≤ j) → put32 b i v j ≡ b j
put32_ne b i v j h = ground arith

pub get16-put16 : (b : Buffer) (i v : ℕ) → get16 (put16 b i v) i ≡ v % 2 ^ 16
get16-put16 b i v = ground arith

pub get32-put32 : (b : Buffer) (i v : ℕ) → get32 (put32 b i v) i ≡ v % 2 ^ 32
get32-put32 b i v = ground arith

pub get16-put32_ne :
    (b : Buffer) (i v j : ℕ) → (j + 2 ≤ i) ⊎ (i + 4 ≤ j) → get16 (put32 b i v) j ≡ get16 b j
get16-put32_ne b i v j h =
    ap₂ (λ x y. x + 256 * y) (put32_ne b i v j (omega arith)) (put32_ne b i v (j + 1) (omega arith))

pub get32-put32_ne :
    (b : Buffer) (i v j : ℕ) → (j + 4 ≤ i) ⊎ (i + 4 ≤ j) → get32 (put32 b i v) j ≡ get32 b j
get32-put32_ne b i v j h =
    ap₂ (λ x y. x + 65536 * y) (get16-put32_ne b i v j (omega arith))
      (get16-put32_ne b i v (j + 2) (omega arith))

pub sector_bytes-IsSector : (b : Buffer) → IsSector (sector_bytes b)
sector_bytes-IsSector b = (λ i. ground arith, λ i h. ground arith)

module _ {b : Buffer} where
  pub sector_bytes_self : IsSector b → sector_bytes b ≡ b
  sector_bytes_self (small, zero_behind) = fun_ext (λ i. elim (Bool-cases (ltb i 512)) [
    | inl e ↦ rw e (let lt = small i in omega arith)
    | inr e ↦ rw e (sym (zero_behind i (ltb→le i 512 e)))
  ])

  -- The indices are tests, so that they compute where they are literals.
  pub store-IsSector : (i v : ℕ) → ltb i 512 ≡ true → v < 256 → IsSector b → IsSector (store b i v)
  store-IsSector i v h lt (small, zero_behind) = (
    λ j. let s = small j in ground (arith, s),
    λ j hj. let z = zero_behind j hj in let lt' = ltb→lt i 512 h in ground (arith, z, lt'),
  )

  pub put16-IsSector :
      (i v : ℕ) → ltb i 512 ≡ true → ltb (i + 1) 512 ≡ true → IsSector b → IsSector (put16 b i v)
  put16-IsSector i v h h' (small, zero_behind) = (
    λ j. let s = small j in ground (arith, s),
    λ j hj.
        let z = zero_behind j hj in
        let lt = ltb→lt i 512 h in let lt' = ltb→lt (i + 1) 512 h' in ground (arith, z, lt, lt'),
  )

pub put32-IsSector :
    {b : Buffer} (i v : ℕ)
    → ltb i 512 ≡ true
    → ltb (i + 1) 512 ≡ true
    → ltb (i + 2) 512 ≡ true
    → ltb (i + 2 + 1) 512 ≡ true
    → IsSector b
    → IsSector (put32 b i v)
put32-IsSector i v h0 h1 h2 h3 is =
    put16-IsSector (i + 2) (v / 65536) h2 h3 (put16-IsSector i v h0 h1 is)
