-- ===== src/Base/Int64.antt =====
-- Go's `int64` as its bit pattern, a number below 2 ^ 64: 2 ^ 63 and above stand for negatives.
use package_index.Base.Tests.{ltb}
use Prim.Native.Nat.{ℕ, ◌+◌, ◌-◌, ◌%◌, ◌^◌, ◌<◌}
use mathlib.Core.Path.{◌≡◌}
use mathlib.Core.Bool.{Bool, true, ◌&&◌}
use native.Mathlib.Omega.{arith}

-- One more than the greatest `int64`.
abbrev pub int64_bound : ℕ
int64_bound = 2 ^ 63

-- `x++`
unfoldable pub inc : ℕ → ℕ
inc x = (x + 1) % 2 ^ 64

-- `x--`
unfoldable pub dec : ℕ → ℕ
dec x = (x + 2 ^ 64 - 1) % 2 ^ 64

-- `x > 0`
unfoldable pub is_pos : ℕ → Bool
is_pos x = ltb 0 x && ltb x (2 ^ 63)

pub inc_lem : (x : ℕ) → x < int64_bound → inc x ≡ x + 1
unfolding inc
inc_lem x h = omega arith

pub dec_lem : (x : ℕ) → 0 < x → x < int64_bound → dec x ≡ x - 1
unfolding dec
dec_lem x h k = omega arith

pub is_pos_lem : (x : ℕ) → x < int64_bound → is_pos x ≡ ltb 0 x
unfolding is_pos
is_pos_lem x h = ground arith

pub is_pos_bounds : (x : ℕ) → is_pos x ≡ true → (0 < x) × (x < int64_bound)
unfolding is_pos
is_pos_bounds x h = ground arith
