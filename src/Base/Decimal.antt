-- ===== src/Base/Decimal.antt =====
-- Decimal notation: the text of a number, and the number of a text.
use Prim.Native.Nat.{ℕ, zero, suc, ◌+◌, ◌-◌, ◌*◌, ◌/◌, ◌%◌, ◌^◌, ◌≤◌, ◌<◌}
use mathlib.Core.Path.{◌≡◌, refl}
use mathlib.Core.Logic.{◌≢◌, inl, inr}
use mathlib.Core.Bool.{true}
use mathlib.Core.List.{[], ◌∷◌, ◌++◌}
use native.Mathlib.Nat.{pow-suc}
use native.Mathlib.Omega.{arith}
use tiksrv.Base.Tests.{ltb, if◌then◌else◌, Bool-cases}
use tiksrv.Base.Lists.{Bytes, All, All-append}

abbrev pub IsDigit : ℕ → Type 0
IsDigit c = (b'0' ≤ c) × (c ≤ b'9')

-- Most significant digit first; `k` bounds the digits after the first.
decimal_digits : ℕ → ℕ → Bytes
decimal_digits zero n = (b'0' + n) ∷ []
decimal_digits (suc k) n =
    let front = decimal_digits k (n / 10) in
    if ltb n 10 then (b'0' + n) ∷ [] else front ++ ((b'0' + n % 10) ∷ [])

-- Of a 32-bit number: ten digits at most.
unfoldable pub decimal : ℕ → Bytes
unfolding decimal_digits
decimal n = decimal_digits 9 n

-- The number that a text of digits denotes, read on from `acc`.
unfoldable pub digits_value : ℕ → Bytes → ℕ
digits_value acc [] = acc
digits_value acc (c ∷ cs) = digits_value (acc * 10 + (c - b'0')) cs

digits_value-append :
    (acc c : ℕ) (cs : Bytes)
    → digits_value acc (cs ++ (c ∷ [])) ≡ digits_value acc cs * 10 + (c - b'0')
unfolding digits_value
digits_value-append acc c [] = refl
digits_value-append acc c (d ∷ cs) = digits_value-append (acc * 10 + (d - b'0')) c cs

digits_value-decimal_digits : (k n : ℕ) → n < 10 ^ suc k → digits_value 0 (decimal_digits k n) ≡ n
unfolding decimal_digits
digits_value-decimal_digits zero n h = unfold digits_value in omega arith
digits_value-decimal_digits (suc k) n h = elim (Bool-cases (ltb n 10)) [
  | inl small ↦ rw small (unfold digits_value in omega arith)
  | inr large ↦ rw large (
      omega (
        arith,
        digits_value-append 0 (b'0' + n % 10) (decimal_digits k (n / 10)),
        digits_value-decimal_digits k (n / 10) (omega (arith, pow-suc 10 (suc k))),
      ))
]

pub digits_value-decimal : (n : ℕ) → n < 2 ^ 32 → digits_value 0 (decimal n) ≡ n
unfolding decimal
digits_value-decimal n h = digits_value-decimal_digits 9 n (omega arith)

decimal_digits-IsDigit : (k n : ℕ) → n < 10 ^ suc k → All IsDigit (decimal_digits k n)
unfolding decimal_digits
decimal_digits-IsDigit zero n h = omega arith
decimal_digits-IsDigit (suc k) n h = elim (Bool-cases (ltb n 10)) [
  | inl small ↦ rw small (omega (arith, small_lt n small))
  | inr large ↦ rw large (
      All-append IsDigit (decimal_digits k (n / 10)) _
        (decimal_digits-IsDigit k (n / 10) (omega (arith, pow-suc 10 (suc k)))) (omega arith))
]
  where
    small_lt : (m : ℕ) → ltb m 10 ≡ true → m < 10
    small_lt m e = ground arith

pub decimal-IsDigit : (n : ℕ) → n < 2 ^ 32 → All IsDigit (decimal n)
unfolding decimal
decimal-IsDigit n h = decimal_digits-IsDigit 9 n (omega arith)

append-ne-nil : (xs : Bytes) (c : ℕ) → xs ++ (c ∷ []) ≢ []
append-ne-nil [] c e = cc
append-ne-nil (x ∷ xs) c e = cc

decimal_digits-ne-nil : (k n : ℕ) → decimal_digits k n ≢ []
unfolding decimal_digits
decimal_digits-ne-nil zero n = λ e. cc
decimal_digits-ne-nil (suc k) n = elim (Bool-cases (ltb n 10)) [
  | inl small ↦ rw small (λ e. cc)
  | inr large ↦ rw large (append-ne-nil (decimal_digits k (n / 10)) (b'0' + n % 10))
]

pub decimal-ne-nil : (n : ℕ) → decimal n ≢ []
unfolding decimal
decimal-ne-nil n = decimal_digits-ne-nil 9 n
