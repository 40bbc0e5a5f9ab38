-- ===== src/Auth/Bits.antt =====
-- src/security.rs: the bitwise operations of `constant_time_eq` find every difference.
use llamesh.Prelude.{ℕ, zero, suc, ◌/◌, ◌%◌, ◌^◌, ◌≡◌, ◌<◌, ◌↔◌, arith, eqb_iff}
use llamesh.Auth.{bit_xor, bit_or}

pub bit_xor-zero : (bits a b : ℕ) → a < 2 ^ bits → b < 2 ^ bits → (bit_xor bits a b ≡ 0) ↔ (a ≡ b)
unfolding bit_xor
bit_xor-zero zero a b l m = ground (arith, l, m)
bit_xor-zero (suc bits) a b l m =
    ground (arith, bit_xor-zero bits (a / 2) (b / 2), l, m, eqb_iff (a % 2) (b % 2))

pub bit_or-zero :
    (bits a b : ℕ) → a < 2 ^ bits → b < 2 ^ bits → (bit_or bits a b ≡ 0) ↔ ((a ≡ 0) × (b ≡ 0))
unfolding bit_or
bit_or-zero zero a b l m = ground (arith, l, m)
bit_or-zero (suc bits) a b l m =
    ground (arith, bit_or-zero bits (a / 2) (b / 2), l, m, eqb_iff (a % 2) 0)

pub bit_xor-lt : (bits a b : ℕ) → bit_xor bits a b < 2 ^ bits
unfolding bit_xor
bit_xor-lt zero a b = ground arith
bit_xor-lt (suc bits) a b = ground (arith, bit_xor-lt bits (a / 2) (b / 2))

pub bit_or-lt : (bits a b : ℕ) → bit_or bits a b < 2 ^ bits
unfolding bit_or
bit_or-lt zero a b = ground arith
bit_or-lt (suc bits) a b = ground (arith, bit_or-lt bits (a / 2) (b / 2))
