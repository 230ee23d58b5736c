-- ===== src/RouterOs/Hex.antt =====
-- The hexadecimal texts of routeros/src/util.cpp. std::string's characters are read as bytes.
pub mod RoundTrip
pub mod Decoding
pub mod Spelling
use tiksrv.Base.{
  ℕ, zero, suc, ◌+◌, ◌-◌, ◌*◌, ◌/◌, ◌^◌, ◌≡◌, ◌<◌, Bool, true, false, ◌&&◌, List, [], ◌∷◌, ◌++◌,
  Bytes, length, codes, bit_and, bit_or, ltb, leb, if◌then◌else◌, Option, none, some,
}
use tiksrv.Base.Outcome.{
  Outcome, returned, thrown, stopped, runtime_error, out_of_range, ◌>>=◌, ◌>>◌, throw_if,
}

-- `digit &= ~0x20` on a byte is `& 0xdf`.
abbrev upper_digit_value : ℕ → Outcome ℕ
upper_digit_value digit =
    if leb b'A' digit && leb digit b'F' then returned (digit - b'A' + 10) else thrown runtime_error

unfoldable pub digit_value : ℕ → Outcome ℕ
digit_value digit =
    if leb b'0' digit && leb digit b'9'
    then returned (digit - b'0')
    else upper_digit_value (bit_and digit 0xdf)

-- The loop over pairs of digits, `size` of them: `(digit_value(a) << 4) | digit_value(b)`, stored in
-- a byte. The caller has checked that the digits are there.
unfoldable pub decode_pairs : ℕ → Bytes → Outcome Bytes
unfolding digit_value
decode_pairs zero s = returned []
decode_pairs (suc n) [] = thrown out_of_range
decode_pairs (suc n) (a ∷ []) = thrown out_of_range
decode_pairs (suc n) (a ∷ b ∷ s) = do
  high ← digit_value a
  low ← digit_value b
  rest ← decode_pairs n s
  returned (bit_or (high * 2 ^ 4) low ∷ rest)

unfoldable pub decode_hex_string : ℕ → Bytes → Outcome Bytes
unfolding decode_pairs
decode_hex_string size hex_str = do
  throw_if (ltb (length hex_str) (size * 2)) out_of_range
  decode_pairs size hex_str

abbrev hex_chars : Bytes
hex_chars = codes "0123456789abcdef"

abbrev index : Bytes → ℕ → ℕ
index [] i = 0
index (c ∷ cs) zero = c
index (c ∷ cs) (suc i) = index cs i

-- `hex_chars[i]`; the indices are below 16.
unfoldable pub hex_char : ℕ → ℕ
hex_char i = index hex_chars i

unfoldable pub encode_hex_string : Bytes → Bytes
unfolding hex_char
encode_hex_string [] = []
encode_hex_string (b ∷ bs) =
    hex_char (bit_and b 0xf0 / 2 ^ 4) ∷ hex_char (bit_and b 0x0f) ∷ encode_hex_string bs
