-- ===== src/Prelude/Words.antt =====
-- Go's int64 (and int, on a 64-bit platform) as two's-complement bit patterns below 2 ^ 64.
use Prim.Native.Nat.{ℕ, ◌+◌, ◌%◌, ◌^◌, ◌<◌}
use mathlib.Core.Path.{◌≡◌}
use mathlib.Core.Bool.{Bool, false}
use native.Mathlib.Omega.{arith}
use eventmesh_go.Prelude.Tests.{ltb, leb}

abbrev pub two64 : ℕ
two64 = 2 ^ 64

abbrev pub two63 : ℕ
two63 = 2 ^ 63

-- `x < 0`
abbrev pub is_negative : ℕ → Bool
is_negative x = leb two63 x

-- `a + b`, wrapped around.
abbrev pub add64 : ℕ → ℕ → ℕ
add64 a b = (a + b) % two64

-- `a < b` on signed numbers.
abbrev pub less64 : ℕ → ℕ → Bool
less64 a b = ltb ((a + two63) % two64) ((b + two63) % two64)

pub not_negative : (x : ℕ) → x < two63 → is_negative x ≡ false
not_negative x h = ground arith

pub less64-eq-ltb : (a b : ℕ) → a < two63 → b < two63 → less64 a b ≡ ltb a b
less64-eq-ltb a b h k = ground arith
