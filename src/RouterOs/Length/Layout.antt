-- ===== src/RouterOs/Length/Layout.antt =====
-- The bytes of a length, in plain arithmetic.
use tiksrv.Base.{ℕ, ◌+◌, ◌*◌, ◌/◌, ◌%◌, ◌^◌, ◌≤◌, ◌<◌, ◌≡◌, [], ◌∷◌, bit_and, bit_or, arith}
use tiksrv.Base.Bits.{
  or_low_high, or_high_low, and_ff, and_80, and_c0, and_e0, and_f0, and_3f, and_1f, and_low_nibble,
}
use native.Mathlib.Nat.{mod-eq_of_lt}
use tiksrv.RouterOs.Sentence.{encode_length}
use tiksrv.RouterOs.Length.{short, long, invalid, length_prefix}

pub prefix_short : (n : ℕ) → 0 < n → n < 0x80 → length_prefix n ≡ short n
unfolding length_prefix
prefix_short n pos h = ground (arith, and_80 n)

pub prefix_long1 : (q : ℕ) → q < 0x40 → length_prefix (0x80 + q) ≡ long q 1
unfolding length_prefix
prefix_long1 q h = ground (arith, and_80 (0x80 + q), and_c0 (0x80 + q), and_3f (0x80 + q))

pub prefix_long2 : (q : ℕ) → q < 0x20 → length_prefix (0xc0 + q) ≡ long q 2
unfolding length_prefix
prefix_long2 q h =
    ground (arith, and_80 (0xc0 + q), and_c0 (0xc0 + q), and_e0 (0xc0 + q), and_1f (0xc0 + q))

pub prefix_long3 : (q : ℕ) → q < 0x10 → length_prefix (0xe0 + q) ≡ long q 3
unfolding length_prefix
prefix_long3 q h = ground (
  arith,
  and_80 (0xe0 + q),
  and_c0 (0xe0 + q),
  and_e0 (0xe0 + q),
  and_f0 (0xe0 + q),
  and_low_nibble (0xe0 + q),
)

-- Bytes 0xf1 and above start no length.
pub prefix_invalid : (b : ℕ) → 0xf1 ≤ b → b < 256 → length_prefix b ≡ invalid
unfolding length_prefix
prefix_invalid b lo hi = ground (arith, and_80 b, and_c0 b, and_e0 b, and_f0 b)

pub length_1 : (n : ℕ) → n < 0x80 → encode_length n ≡ n ∷ []
unfolding encode_length
length_1 n h = ground (arith, and_ff (n / 2 ^ 0))

pub length_2 : (n : ℕ) → 0x80 ≤ n → n < 0x4000 → encode_length n ≡ (0x80 + n / 256) ∷ (n % 256) ∷ []
unfolding encode_length
length_2 n lo hi =
    ground (arith, or_low_high 14 n 2, and_ff (bit_or n 0x8000 / 2 ^ 8), and_ff (bit_or n 0x8000))

pub length_3 :
    (n : ℕ)
    → 0x4000 ≤ n
    → n < 0x200000
    → encode_length n ≡ (0xc0 + n / 65536) ∷ (n / 256 % 256) ∷ (n % 256) ∷ []
unfolding encode_length
length_3 n lo hi = ground (
  arith,
  or_low_high 21 n 6,
  and_ff (bit_or n 0xc00000 / 2 ^ 16),
  and_ff (bit_or n 0xc00000 / 2 ^ 8),
  and_ff (bit_or n 0xc00000),
)

pub length_4 :
    (n : ℕ)
    → 0x200000 ≤ n
    → n < 0x10000000
    → encode_length n ≡ (0xe0 + n / 16777216) ∷ (n / 65536 % 256) ∷ (n / 256 % 256) ∷ (n % 256) ∷ []
unfolding encode_length
length_4 n lo hi = ground (
  arith,
  or_low_high 28 n 14,
  and_ff (bit_or n 0xe0000000 / 2 ^ 24),
  and_ff (bit_or n 0xe0000000 / 2 ^ 16),
  and_ff (bit_or n 0xe0000000 / 2 ^ 8),
  and_ff (bit_or n 0xe0000000),
)

pub length_5 :
    (n : ℕ)
    → 0x10000000 ≤ n
    → n < 2 ^ 32
    → encode_length n ≡ 0xf0 ∷ (n / 16777216) ∷ (n / 65536 % 256) ∷ (n / 256 % 256) ∷ (n % 256) ∷ []
unfolding encode_length
length_5 n lo hi =
    ground (arith, and_ff (n / 2 ^ 24), and_ff (n / 2 ^ 16), and_ff (n / 2 ^ 8), and_ff n)

pub join_byte :
    (w b : ℕ) → w < 2 ^ 40 → b < 256 → bit_or (w * 2 ^ 8 % 2 ^ 64) (bit_and b 0xff) ≡ w * 256 + b
join_byte w b hw hb =
    rw
      (
        and_ff b,
        mod-eq_of_lt {n = b} {m = 256} hb,
        mod-eq_of_lt {n = w * 2 ^ 8} {m = 2 ^ 64} (omega arith),
      )
      (omega (arith, or_high_low 8 b w))
