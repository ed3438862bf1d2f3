-- ===== src/Base/Words.antt =====
-- The unsigned words of `include/types.h` as native numbers, with the wrap written out, and the
-- page alignment that pfa.c, umem.c and elf.c each define for themselves.
use nyxis_os.Base.Bits.{bit_and-shifted, bit_and-ones, bit_or-shifted}
use Prim.Native.Nat.{ℕ, ◌+◌, ◌-◌, ◌*◌, ◌/◌, ◌%◌, ◌^◌, ◌<◌, bit_and, bit_or}
use mathlib.Core.Path.{◌≡◌, ap, ◌∙◌}
use native.Mathlib.Nat.{mod-eq_of_lt}
use native.Mathlib.Omega.{arith}

abbrev pub u32_mod : ℕ
u32_mod = 2 ^ 32

abbrev pub u64_mod : ℕ
u64_mod = 2 ^ 64

-- `a + b` and `a - b` of two u64.
abbrev pub add64 : ℕ → ℕ → ℕ
add64 a b = (a + b) % 2 ^ 64

abbrev pub sub64 : ℕ → ℕ → ℕ
sub64 a b = (a + 2 ^ 64 - b) % 2 ^ 64

-- `PAGE_SIZE`, `PFA_PAGE_SIZE`, `NTBLI_PAGE_SIZE`
abbrev pub page_size : ℕ
page_size = 4096

-- `v & ~(a - 1)`
unfoldable pub align_down : ℕ → ℕ → ℕ
align_down v a = bit_and v (2 ^ 64 - a)

-- `(v + a - 1) & ~(a - 1)`
unfoldable pub align_up : ℕ → ℕ → ℕ
align_up v a = bit_and (sub64 (add64 v a) 1) (2 ^ 64 - a)

page_mask : (v : ℕ) → v < 2 ^ 64 → bit_and v (2 ^ 64 - 4096) ≡ v / 4096 * 4096
page_mask v h =
    bit_and-shifted 12 (2 ^ 52 - 1) v
    ∙ ap (λ (t : ℕ). t * 4096) (bit_and-ones 52 (v / 4096) ∙ mod-eq_of_lt (omega arith))

-- Down to the page that holds `v`.
pub align_down_page : (v : ℕ) → v < 2 ^ 64 → align_down v page_size ≡ v / 4096 * 4096
unfolding align_down
align_down_page v h = page_mask v h

-- Up to the next page boundary, where the sum does not wrap.
pub align_up_page : (v : ℕ) → v + 4095 < 2 ^ 64 → align_up v page_size ≡ (v + 4095) / 4096 * 4096
unfolding align_up
align_up_page v h = ap (λ (t : ℕ). bit_and t (2 ^ 64 - 4096)) (omega arith) ∙ page_mask (v + 4095) h

-- `((u64)hi << 32) | lo`
unfoldable pub pack32 : ℕ → ℕ → ℕ
pack32 hi lo = bit_or (hi * 2 ^ 32) lo

pub pack32-eq-add : (hi lo : ℕ) → lo < 2 ^ 32 → pack32 hi lo ≡ hi * 2 ^ 32 + lo
unfolding pack32
pack32-eq-add hi lo h = bit_or-shifted 32 hi lo h
