-- ===== src/RouterOs/Length.antt =====
-- Word lengths on the wire as `api::on_reading_length` of routeros/src/api.cpp reads them.
pub mod Layout
pub mod RoundTrip
use tiksrv.Base.{
  ℕ, zero, suc, ◌+◌, ◌-◌, ◌*◌, ◌/◌, ◌%◌, ◌^◌, ◌≤◌, ◌<◌, ◌≡◌, refl, ap, ◌∙◌, true, false, Bool,
  Option, none, some, List, [], ◌∷◌, ◌++◌, Bytes, length, bit_and, bit_or, arith, ltb, ◌==◌,
  if◌then◌else◌, not,
}
use tiksrv.Base.Bits.{
  or_low_high, or_high_low, and_ff, byte_table, and_80, and_c0, and_e0, and_f0, and_3f, and_1f,
  and_low_nibble,
}
use native.Mathlib.Nat.{mod-eq_of_lt}
use tiksrv.RouterOs.Sentence.{append_uint, encode_length}

-- What the first byte of a length says: the sentence ends, the length itself, the high bits of a
-- length with so many more bytes, or nothing valid.
pub data Prefix : Type 0 where
  end_of_sentence : Prefix
  short : ℕ → Prefix
  long : ℕ → ℕ → Prefix
  invalid : Prefix

-- The tests of `on_reading_length`; `fbyte &= ~0xC0` on a byte is `& 0x3f`.
unfoldable pub length_prefix : ℕ → Prefix
length_prefix fbyte =
    if fbyte == 0
    then end_of_sentence
    else if not (bit_and fbyte 0x80 == 0)
    then (if bit_and fbyte 0xc0 == 0x80
        then long (bit_and fbyte 0x3f) 1
        else if bit_and fbyte 0xe0 == 0xc0
        then long (bit_and fbyte 0x1f) 2
        else if bit_and fbyte 0xf0 == 0xe0
        then long (bit_and fbyte 0x0f) 3
        else if fbyte == 0xf0
        then long fbyte 4
        else invalid)
    else short fbyte

-- The loop over the further bytes, in std::size_t.
unfoldable pub join_length : ℕ → Bytes → ℕ
join_length word_len [] = word_len
join_length word_len (b ∷ bs) = join_length (bit_or (word_len * 2 ^ 8 % 2 ^ 64) (bit_and b 0xff)) bs
