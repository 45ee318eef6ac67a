-- ===== src/Bytes.antt =====
-- Byte buffers by index, and the little-endian fields of the packed structs of partition.h.
pub mod Fields
use ety_os.Base.{ℕ, ◌+◌, ◌*◌, ◌/◌, ◌%◌, ◌<◌, ◌≤◌, ◌≡◌, ◌==◌, ltb, if◌then◌else◌}
use ety_os.Memory.{store}

-- A local buffer of C: the bytes at its indices.
abbrev pub Buffer : Type 0
Buffer = ℕ → ℕ

-- Stores of a `uint16_t` and of a `uint32_t`.
abbrev pub put16 : Buffer → ℕ → ℕ → Buffer
put16 b i v = store (store b i (v % 256)) (i + 1) (v / 256 % 256)

abbrev pub put32 : Buffer → ℕ → ℕ → Buffer
put32 b i v = put16 (put16 b i v) (i + 2) (v / 65536)

abbrev pub get16 : Buffer → ℕ → ℕ
get16 b i = b i + 256 * b (i + 1)

abbrev pub get32 : Buffer → ℕ → ℕ
get32 b i = get16 b i + 65536 * get16 b (i + 2)

-- What the 512 bytes of a sector are as a buffer, with nothing behind them.
abbrev pub IsSector : Buffer → Type 0
IsSector b = ((i : ℕ) → b i < 256) × ((i : ℕ) → 512 ≤ i → b i ≡ 0)

-- The first 512 bytes of a buffer.
abbrev pub sector_bytes : Buffer → Buffer
sector_bytes b i = if ltb i 512 then b i % 256 else 0
