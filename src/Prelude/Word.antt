-- ===== src/Prelude/Word.antt =====
-- Machine words: the wrap-around and saturating operations of Rust's `u32` and `u64`.
use Prim.Native.Nat.{ℕ, ◌+◌, ◌*◌, ◌%◌, min}

abbrev pub u32_mod : ℕ
u32_mod = 4294967296

abbrev pub u64_mod : ℕ
u64_mod = 18446744073709551616

abbrev pub u64_max : ℕ
u64_max = 18446744073709551615

-- `x += 1` on a `u32` in a release build, and `wrapping_add(1)` on a `u64`.
abbrev pub u32_incr : ℕ → ℕ
u32_incr x = (x + 1) % u32_mod

abbrev pub u64_incr : ℕ → ℕ
u64_incr x = (x + 1) % u64_mod

-- `fetch_sub(1)` on an atomic of 64 bits.
abbrev pub u64_decr : ℕ → ℕ
u64_decr n = (n + u64_max) % u64_mod

-- `as u64`, `saturating_mul` and `saturating_add` on `u64`.
abbrev pub as_u64 : ℕ → ℕ
as_u64 x = x % u64_mod

abbrev pub saturating_mul : ℕ → ℕ → ℕ
saturating_mul a b = min (a * b) u64_max

abbrev pub saturating_add : ℕ → ℕ → ℕ
saturating_add a b = min (a + b) u64_max
