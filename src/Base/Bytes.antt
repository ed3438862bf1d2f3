-- ===== src/Base/Bytes.antt =====
-- The little-endian fields of a packed struct, read from its bytes and written to them. A byte behind the end reads as 0.
use Prim.Native.Nat.{ℕ, zero, suc, ◌+◌, ◌*◌, ◌/◌, ◌%◌}
use nyxis_os.Base.Lists.{get_or}
use mathlib.Core.List.{List, [], ◌∷◌}

abbrev pub byte_at : List ℕ → ℕ → ℕ
byte_at bs i = get_or bs i 0

abbrev pub u16_at : List ℕ → ℕ → ℕ
u16_at bs i = byte_at bs i + 256 * byte_at bs (i + 1)

abbrev pub u32_at : List ℕ → ℕ → ℕ
u32_at bs i = u16_at bs i + 65536 * u16_at bs (i + 2)

abbrev pub u64_at : List ℕ → ℕ → ℕ
u64_at bs i = u32_at bs i + 4294967296 * u32_at bs (i + 4)

-- `n` in `k` bytes.
abbrev pub bytes_of : ℕ → ℕ → List ℕ
bytes_of zero n = []
bytes_of (suc k) n = n % 256 ∷ bytes_of k (n / 256)
