-- ===== src/Base/Bits.antt =====
-- `|` of disjoint bit fields and `&` with a mask, as arithmetic.
use Prim.Native.Nat.{
  ℕ, zero, suc, ◌+◌, ◌-◌, ◌*◌, ◌/◌, ◌%◌, ◌^◌, ◌≤◌, ◌<◌, min, max, bit_and, bit_or, digits,
  bit_and-bitwise, bit_or-bitwise,
}
use mathlib.Core.Path.{◌≡◌, refl, ap}
use mathlib.Core.Bool.{Bool, true, ◌&&◌}
use native.Mathlib.Nat.{pow-suc}
use native.Mathlib.Omega.{arith}
use tiksrv.Base.Tests.{◌==◌, ==_iff}

-- `digits` takes its first number as fuel at least: any two amounts that suffice agree.
digits_enough :
    (g : ℕ → ℕ) (op : ℕ → ℕ → ℕ) (f k x y : ℕ)
    → x ≤ f
    → x ≤ k
    → digits g op f x y ≡ digits g op k x y
digits_enough g op zero zero zero y hf hk = refl
digits_enough g op zero (suc k) zero y hf hk = refl
digits_enough g op (suc f) zero zero y hf hk = refl
digits_enough g op (suc f) (suc k) zero y hf hk = refl
digits_enough g op zero k (suc x) y hf hk = absurd (omega arith)
digits_enough g op (suc f) zero (suc x) y hf hk = absurd (omega arith)
digits_enough g op (suc f) (suc k) (suc x) y hf hk =
    omega (arith, digits_enough g op f k (suc x / 2) (y / 2) (omega arith) (omega arith))

or_zero_left : (y : ℕ) → bit_or 0 y ≡ y
or_zero_left y = bit_or-bitwise 0 y

and_zero_left : (y : ℕ) → bit_and 0 y ≡ 0
and_zero_left y = bit_and-bitwise 0 y

or_digit : (x y : ℕ) → bit_or x y ≡ bit_or (x / 2) (y / 2) * 2 + max (x % 2) (y % 2)
or_digit zero y = omega (arith, or_zero_left y, or_zero_left (y / 2))
or_digit (suc x) y = omega (
  arith,
  bit_or-bitwise (suc x) y,
  bit_or-bitwise (suc x / 2) (y / 2),
  digits_enough (λ (b : ℕ). b) max x (suc x / 2) (suc x / 2) (y / 2) (omega arith) (omega arith),
)

and_digit : (x y : ℕ) → bit_and x y ≡ bit_and (x / 2) (y / 2) * 2 + min (x % 2) (y % 2)
and_digit zero y = omega (arith, and_zero_left y, and_zero_left (y / 2))
and_digit (suc x) y = omega (
  arith,
  bit_and-bitwise (suc x) y,
  bit_and-bitwise (suc x / 2) (y / 2),
  digits_enough (λ (b : ℕ). 0) min x (suc x / 2) (suc x / 2) (y / 2) (omega arith) (omega arith),
)

doubled : (q k : ℕ) → q * 2 ^ suc k ≡ q * 2 ^ k * 2
doubled q k = omega (arith, ap (λ (t : ℕ). q * t) (pow-suc 2 k))

halved : (q k : ℕ) → q * 2 ^ suc k / 2 ≡ q * 2 ^ k
halved q k = omega (arith, doubled q k)

-- A value of `k` bits under a field that begins at bit `k`.
pub or_low_high : (k lo hi : ℕ) → lo < 2 ^ k → bit_or lo (hi * 2 ^ k) ≡ lo + hi * 2 ^ k
or_low_high zero zero hi h = omega (arith, or_zero_left hi, or_zero_left (hi * 2 ^ 0))
or_low_high zero (suc lo) hi h = absurd (omega arith)
or_low_high (suc k) lo hi h = ground (
  arith,
  or_digit lo (hi * 2 ^ suc k),
  doubled hi k,
  halved hi k,
  or_low_high k (lo / 2) hi (omega (arith, pow-suc 2 k)),
)

or_zero_fuel : (n x : ℕ) → x ≤ n → bit_or x 0 ≡ x
or_zero_fuel n zero h = or_zero_left 0
or_zero_fuel zero (suc x) h = absurd (omega arith)
or_zero_fuel (suc n) (suc x) h =
    omega (arith, or_digit (suc x) 0, or_zero_fuel n (suc x / 2) (omega arith))

pub or_high_low : (k lo hi : ℕ) → lo < 2 ^ k → bit_or (hi * 2 ^ k) lo ≡ hi * 2 ^ k + lo
or_high_low zero zero hi h = omega (arith, or_zero_fuel (hi * 2 ^ 0) (hi * 2 ^ 0) (omega arith))
or_high_low zero (suc lo) hi h = absurd (omega arith)
or_high_low (suc k) lo hi h = ground (
  arith,
  or_digit (hi * 2 ^ suc k) lo,
  doubled hi k,
  halved hi k,
  or_high_low k (lo / 2) hi (omega (arith, pow-suc 2 k)),
)

and_zero_fuel : (n x : ℕ) → x ≤ n → bit_and x 0 ≡ 0
and_zero_fuel n zero h = and_zero_left 0
and_zero_fuel zero (suc x) h = absurd (omega arith)
and_zero_fuel (suc n) (suc x) h =
    omega (arith, and_digit (suc x) 0, and_zero_fuel n (suc x / 2) (omega arith))

-- A mask of ones, one step to a bit.
and_1 : (x : ℕ) → bit_and x 1 ≡ x % 2
and_1 x = omega (arith, and_digit x 1, and_zero_fuel (x / 2) (x / 2) (omega arith))

and_3 : (x : ℕ) → bit_and x 3 ≡ x % 4
and_3 x = omega (arith, and_digit x 3, and_1 (x / 2))

and_15 : (x : ℕ) → bit_and x 0x0f ≡ x % 16
and_15 x = omega (arith, and_digit x 15, and_digit (x / 2) 7, and_3 (x / 2 / 2))

pub and_ff : (x : ℕ) → bit_and x 0xff ≡ x % 256
and_ff x = omega (
  arith,
  and_digit x 0xff,
  and_digit (x / 2) 0x7f,
  and_digit (x / 2 / 2) 0x3f,
  and_digit (x / 2 / 2 / 2) 0x1f,
  and_15 (x / 2 / 2 / 2 / 2),
)

and_0fff : (x : ℕ) → bit_and x 0x0fff ≡ x % 4096
and_0fff x = omega (
  arith,
  and_digit x 0x0fff,
  and_digit (x / 2) 0x07ff,
  and_digit (x / 2 / 2) 0x03ff,
  and_digit (x / 2 / 2 / 2) 0x01ff,
  and_ff (x / 2 / 2 / 2 / 2),
)

pub and_ffff : (x : ℕ) → bit_and x 0xffff ≡ x % 65536
and_ffff x = omega (
  arith,
  and_digit x 0xffff,
  and_digit (x / 2) 0x7fff,
  and_digit (x / 2 / 2) 0x3fff,
  and_digit (x / 2 / 2 / 2) 0x1fff,
  and_0fff (x / 2 / 2 / 2 / 2),
)

pub and_low_nibble : (x : ℕ) → bit_and x 0x0f ≡ x % 16
and_low_nibble = and_15

-- Over the bytes, a test that holds at each of them.
abbrev pub every_below : ℕ → (ℕ → Bool) → Bool
every_below zero test = true
every_below (suc n) test = test n && every_below n test

every_below-elim :
    (n : ℕ) (test : ℕ → Bool) (x : ℕ) → every_below n test ≡ true → x < n → test x ≡ true
every_below-elim zero test x all h = absurd (omega arith)
every_below-elim (suc n) test x all h = ground (arith, every_below-elim n test x)

pub table_below :
    (n : ℕ) (f g : ℕ → ℕ) → every_below n (λ b. f b == g b) ≡ true → (b : ℕ) → b < n → f b ≡ g b
table_below n f g all b h = (==_iff (f b) (g b)).0 (every_below-elim n (λ x. f x == g x) b all h)

pub byte_table :
    (f g : ℕ → ℕ) → every_below 256 (λ b. f b == g b) ≡ true → (b : ℕ) → b < 256 → f b ≡ g b
byte_table f g all b h = table_below 256 f g all b h

pub and_80 : (b : ℕ) → b < 256 → bit_and b 0x80 ≡ b / 128 * 128
and_80 = byte_table _ _ refl

pub and_c0 : (b : ℕ) → b < 256 → bit_and b 0xc0 ≡ b / 64 * 64
and_c0 = byte_table _ _ refl

pub and_e0 : (b : ℕ) → b < 256 → bit_and b 0xe0 ≡ b / 32 * 32
and_e0 = byte_table _ _ refl

pub and_f0 : (b : ℕ) → b < 256 → bit_and b 0xf0 ≡ b / 16 * 16
and_f0 = byte_table _ _ refl

pub and_3f : (b : ℕ) → b < 256 → bit_and b 0x3f ≡ b % 64
and_3f = byte_table _ _ refl

pub and_1f : (b : ℕ) → b < 256 → bit_and b 0x1f ≡ b % 32
and_1f = byte_table _ _ refl

pub and_df : (b : ℕ) → b < 256 → bit_and b 0xdf ≡ b - b / 32 % 2 * 32
and_df = byte_table _ _ refl
