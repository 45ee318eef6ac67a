-- ===== src/Partition/Fat32/Sectors.antt =====
-- What `format_fat32` writes are bytes, 512 of them.
use ety_os.Base.{ℕ, ◌+◌, ◌≡◌, arith, refl, List, [], ◌∷◌, Bool, true, ◌&&◌, ltb, ltb→lt}
use ety_os.Memory.{store}
use ety_os.Bytes.{Buffer, IsSector}
use ety_os.Bytes.Fields.{store-IsSector, put16-IsSector, put32-IsSector}
use ety_os.Partition.Fat32.{sectors_per_fat, fat32_boot_sector, first_fat_sector, zeros, put_bytes}

zeros-IsSector : IsSector zeros
unfolding zeros
zeros-IsSector = (λ i. omega arith, λ i h. refl)

unfoldable bytes_fit : ℕ → List ℕ → Bool
bytes_fit i [] = true
bytes_fit i (c ∷ cs) = ltb i 512 && ltb c 256 && bytes_fit (i + 1) cs

put_bytes-IsSector :
    (b : Buffer) (i : ℕ) (cs : List ℕ)
    → bytes_fit i cs ≡ true
    → IsSector b
    → IsSector (put_bytes b i cs)
unfolding put_bytes bytes_fit
put_bytes-IsSector b i [] h is = is
put_bytes-IsSector b i (c ∷ cs) h is =
    let h1 : ltb i 512 ≡ true = ground (arith, h) in
    let h2 : ltb c 256 ≡ true = ground (arith, h) in
    let h3 : bytes_fit (i + 1) cs ≡ true = ground (arith, h) in
    put_bytes-IsSector (store b i c) (i + 1) cs h3 (store-IsSector i c h1 (ltb→lt c 256 h2) is)

pub fat32_boot_sector-IsSector : (start total : ℕ) → IsSector (fat32_boot_sector start total)
unfolding fat32_boot_sector zeros put_bytes bytes_fit
fat32_boot_sector-IsSector start total =
    let is = store-IsSector 0 0xEB refl (omega arith) zeros-IsSector in
    let is = store-IsSector 1 0x58 refl (omega arith) is in
    let is = store-IsSector 2 0x90 refl (omega arith) is in
    let is =
      put_bytes-IsSector _ 3 (b'M' ∷ b'S' ∷ b'W' ∷ b'I' ∷ b'N' ∷ b'4' ∷ b'.' ∷ b'1' ∷ []) refl is in
    let is = put16-IsSector 11 512 refl refl is in
    let is = store-IsSector 13 8 refl (omega arith) is in
    let is = put16-IsSector 14 32 refl refl is in
    let is = store-IsSector 16 2 refl (omega arith) is in
    let is = put16-IsSector 17 0 refl refl is in
    let is = put16-IsSector 19 0 refl refl is in
    let is = store-IsSector 21 0xF8 refl (omega arith) is in
    let is = put16-IsSector 22 0 refl refl is in
    let is = put16-IsSector 24 63 refl refl is in
    let is = put16-IsSector 26 255 refl refl is in
    let is = put32-IsSector 28 start refl refl refl refl is in
    let is = put32-IsSector 32 total refl refl refl refl is in
    let is = put32-IsSector 36 (sectors_per_fat total) refl refl refl refl is in
    let is = put16-IsSector 40 0 refl refl is in
    let is = put16-IsSector 42 0 refl refl is in
    let is = put32-IsSector 44 2 refl refl refl refl is in
    let is = put16-IsSector 48 1 refl refl is in
    let is = put16-IsSector 50 6 refl refl is in
    let is = store-IsSector 64 0x80 refl (omega arith) is in
    let is = store-IsSector 66 0x29 refl (omega arith) is in
    let is = put32-IsSector 67 0x12345678 refl refl refl refl is in
    let is =
      put_bytes-IsSector _ 71
        (b'N' ∷ b'O' ∷ b' ' ∷ b'N' ∷ b'A' ∷ b'M' ∷ b'E' ∷ b' ' ∷ b' ' ∷ b' ' ∷ b' ' ∷ []) refl is in
    let is =
      put_bytes-IsSector _ 82 (b'F' ∷ b'A' ∷ b'T' ∷ b'3' ∷ b'2' ∷ b' ' ∷ b' ' ∷ b' ' ∷ []) refl
        is in
    put16-IsSector 510 0xAA55 refl refl is

pub first_fat_sector-IsSector : IsSector first_fat_sector
unfolding first_fat_sector
first_fat_sector-IsSector = put32-IsSector 8 0x0FFFFFFF refl refl refl refl (
    put32-IsSector 4 0x0FFFFFFF refl refl refl refl
      (put32-IsSector 0 0x0FFFFFF8 refl refl refl refl zeros-IsSector))

-- The name of the file system, which starts at byte 82.
pub fat32_boot_sector-name :
    (start total : ℕ)
    → let b = fat32_boot_sector start total in
      (b 82 ≡ b'F') × (b 83 ≡ b'A') × (b 84 ≡ b'T') × (b 85 ≡ b'3') × (b 86 ≡ b'2')
unfolding fat32_boot_sector zeros put_bytes
fat32_boot_sector-name start total = (refl, refl, refl, refl, refl)
