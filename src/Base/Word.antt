-- ===== src/Base/Word.antt =====
-- Machine words as native numbers, and the byte orders in which the source reads and writes them.
use tcpflow.Base.Int.{ℤ, pos, negsuc}
use Prim.Native.Nat.{ℕ, ◌+◌, ◌-◌, ◌%◌, ◌^◌, ◌<◌}
use mathlib.Core.Path.{◌≡◌}
use native.Mathlib.Omega.{arith}
use tcpflow.Base.Tests.{ltb, if◌then◌else◌}

abbrev pub u16 : ℕ
u16 = 2 ^ 16

abbrev pub u32 : ℕ
u32 = 2 ^ 32

abbrev pub u64 : ℕ
u64 = 2 ^ 64

-- uint32_t a + b and a - b.
abbrev pub add32 : ℕ → ℕ → ℕ
add32 a b = (a + b) % u32

abbrev pub sub32 : ℕ → ℕ → ℕ
sub32 a b = (a + u32 - b) % u32

abbrev pub add64 : ℕ → ℕ → ℕ
add64 a b = (a + b) % u64

-- An int32_t from its bit pattern.
abbrev pub signed32 : ℕ → ℤ
signed32 w = if ltb w (2 ^ 31) then pos w else negsuc (u32 - w - 1)

-- The uint32_t and the uint64_t that a signed value converts to.
abbrev pub word32 : ℤ → ℕ
word32 (pos n) = n % u32
word32 (negsuc n) = (u32 - 1 - n % u32) % u32

abbrev pub word64 : ℤ → ℕ
word64 (pos n) = n % u64
word64 (negsuc n) = (u64 - 1 - n % u64) % u64

-- `signed32` and `word32` are inverse on 32-bit patterns.
pub word32-signed32 : (w : ℕ) → w < u32 → word32 (signed32 w) ≡ w
word32-signed32 w h = ground arith
