-- ===== src/Base/Word.antt =====
-- `uint32_t` and `uint8_t` arithmetic: values are natural numbers, and the wrap-around is written out.
use Prim.Native.Nat.{ℕ, ◌+◌, ◌-◌, ◌%◌}

abbrev pub u32_mod : ℕ
u32_mod = 4294967296

abbrev pub u8_mod : ℕ
u8_mod = 256

-- `(uint32_t) (a + b)`
abbrev pub add32 : ℕ → ℕ → ℕ
add32 a b = (a + b) % u32_mod

-- `(uint32_t) (a - b)`, for `b` at most 2³².
abbrev pub sub32 : ℕ → ℕ → ℕ
sub32 a b = (a + u32_mod - b) % u32_mod
