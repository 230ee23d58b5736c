-- ===== src/RouterOs/Hex/RoundTrip.antt =====
-- Hexadecimal texts are read back; which characters are digits.
use tiksrv.Base.{
  ℕ, ◌+◌, ◌-◌, ◌*◌, ◌/◌, ◌%◌, ◌^◌, ◌≤◌, ◌<◌, ◌≡◌, ◌⊎◌, ◌↔◌, refl, [], ◌∷◌, ◌++◌, Bytes, length, All,
  bit_and, bit_or, arith, ltb, ltb-false, length-append, if◌then◌else◌,
}
use tiksrv.Base.Bits.{or_high_low, and_f0, and_low_nibble, and_df, table_below}
use tiksrv.Base.Outcome.{returned}
use tiksrv.RouterOs.Hex.{digit_value, decode_pairs, decode_hex_string, hex_char, encode_hex_string}

hex_char_lem : (i : ℕ) → i < 16 → hex_char i ≡ (if ltb i 10 then b'0' + i else b'a' + (i - 10))
unfolding hex_char
hex_char_lem = table_below 16 hex_char (λ i. if ltb i 10 then b'0' + i else b'a' + (i - 10)) refl

digit_value-hex_char : (i : ℕ) → i < 16 → digit_value (hex_char i) ≡ returned i
unfolding digit_value
digit_value-hex_char i h = ground (arith, hex_char_lem i h, and_df (b'a' + (i - 10)))

join_nibbles : (b : ℕ) → b < 256 → bit_or (b / 16 * 2 ^ 4) (b % 16) ≡ b
join_nibbles b h = omega (arith, or_high_low 4 (b % 16) (b / 16))

high_nibble : (b : ℕ) → b < 256 → bit_and b 0xf0 / 2 ^ 4 ≡ b / 16
high_nibble b h = omega (arith, and_f0 b)

pub length-encode_hex_string : (bs : Bytes) → length (encode_hex_string bs) ≡ 2 * length bs
unfolding encode_hex_string
length-encode_hex_string [] = refl
length-encode_hex_string (b ∷ bs) = omega (arith, length-encode_hex_string bs)

decode_pairs-encode_hex_string :
    (bs rest : Bytes)
    → All (λ b. b < 256) bs
    → decode_pairs (length bs) (encode_hex_string bs ++ rest) ≡ returned bs
unfolding decode_pairs encode_hex_string
decode_pairs-encode_hex_string [] rest h = refl
decode_pairs-encode_hex_string (b ∷ bs) rest h = rw (
  high_nibble b h.0,
  and_low_nibble b,
  digit_value-hex_char (b / 16) (omega arith),
  digit_value-hex_char (b % 16) (omega arith),
  decode_pairs-encode_hex_string bs rest h.1,
  join_nibbles b h.0,
)

-- `decode_hex_string` reads back the bytes that `encode_hex_string` wrote, whatever characters follow.
pub decode_hex_string-encode_hex_string :
    (bs rest : Bytes)
    → All (λ b. b < 256) bs
    → decode_hex_string (length bs) (encode_hex_string bs ++ rest) ≡ returned bs
unfolding decode_hex_string
decode_hex_string-encode_hex_string bs rest h =
    rw
      (ltb-false (length (encode_hex_string bs ++ rest)) (length bs * 2)
        (omega (arith, length-append (encode_hex_string bs) rest, length-encode_hex_string bs)))
      (decode_pairs-encode_hex_string bs rest h)

-- The digits that `digit_value` takes, and their values.
abbrev pub HexDigit : ℕ → ℕ → Type 0
HexDigit c v =
    ((b'0' ≤ c) × (c ≤ b'9') × (v ≡ c - b'0'))
    ⊎ (((b'A' ≤ c) × (c ≤ b'F') × (v ≡ c - b'A' + 10))
        ⊎ ((b'a' ≤ c) × (c ≤ b'f') × (v ≡ c - b'a' + 10)))

digit_value-HexDigit : (c v : ℕ) → c < 256 → digit_value c ≡ returned v → HexDigit c v
unfolding digit_value
digit_value-HexDigit c v h e = ground (arith, and_df c)

HexDigit-digit_value : (c v : ℕ) → c < 256 → HexDigit c v → digit_value c ≡ returned v
unfolding digit_value
HexDigit-digit_value c v h e = ground (arith, and_df c)

-- A character below 256 is taken for a digit of a value exactly when it is `0` to `9`, `A` to `F` or
-- `a` to `f` and that is its value in hexadecimal.
pub digit_value_iff : (c v : ℕ) → c < 256 → (digit_value c ≡ returned v) ↔ HexDigit c v
digit_value_iff c v h = (digit_value-HexDigit c v h, HexDigit-digit_value c v h)
