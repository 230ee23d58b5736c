-- ===== src/RouterOs/Hex/Decoding.antt =====
-- Which texts the hexadecimal decoder of routeros/src/util.cpp takes.
use tiksrv.Base.{
  ℕ, zero, suc, ◌+◌, ◌*◌, ◌≤◌, ◌<◌, ◌≡◌, ◌⊎◌, inl, inr, refl, [], ◌∷◌, Bytes, length, All, arith,
  ltb-false, bit_or, bit_and, Bool-cases, ◌&&◌, leb, ◌-◌, ◌^◌,
}
use tiksrv.Base.Bits.{and_df}
use tiksrv.Base.Outcome.{Outcome, returned, thrown, runtime_error}
use tiksrv.RouterOs.Hex.{digit_value, decode_pairs, decode_hex_string}

abbrev pub IsHexDigit : ℕ → Type 0
IsHexDigit c = ((b'0' ≤ c) × (c ≤ b'9')) ⊎ (((b'A' ≤ c) × (c ≤ b'F')) ⊎ ((b'a' ≤ c) × (c ≤ b'f')))

digit_value_cases :
    (c : ℕ)
    → c < 256
    → ((v : ℕ) × (digit_value c ≡ returned v) × IsHexDigit c)
      ⊎ ((digit_value c ≡ thrown runtime_error) × (¬ IsHexDigit c))
unfolding digit_value
digit_value_cases c h = elim (Bool-cases (leb b'0' c && leb c b'9')) [
  | inl low ↦ inl (c - b'0', rw low, ground arith)
  | inr not_low ↦ elim (Bool-cases (leb b'A' (bit_and c 0xdf) && leb (bit_and c 0xdf) b'F')) [
    | inl high ↦ inl (bit_and c 0xdf - b'A' + 10, rw (not_low, high), ground (arith, and_df c))
    | inr not_high ↦ inr (rw (not_low, not_high), λ d. ground (arith, and_df c))
  ]
]

-- What the decoder makes of a text: all its characters are digits, or it throws.
abbrev pub Decodes : ℕ → Bytes → Outcome Bytes → Type 0
Decodes n s o =
    ((bs : Bytes) × (o ≡ returned bs) × (length bs ≡ n) × All IsHexDigit s)
    ⊎ ((o ≡ thrown runtime_error) × (¬ All IsHexDigit s))

decode_pairs_cases :
    (n : ℕ) (s : Bytes) → length s ≡ n * 2 → All (λ b. b < 256) s → Decodes n s (decode_pairs n s)
unfolding decode_pairs
decode_pairs_cases zero [] l h = inl ([], refl, refl, tt)
decode_pairs_cases zero (a ∷ s) l h = absurd (omega (arith, l))
decode_pairs_cases (suc n) [] l h = absurd (omega (arith, l))
decode_pairs_cases (suc n) (a ∷ []) l h = absurd (omega (arith, l))
decode_pairs_cases (suc n) (a ∷ b ∷ s) l h = elim (digit_value_cases a h.0) [
  | inr (e, bad) ↦ inr (rw e, λ all. bad all.0)
  | inl (v, e, good) ↦ elim (digit_value_cases b h.1.0) [
    | inr (f, bad) ↦ inr (rw (e, f), λ all. bad all.1.0)
    | inl (w, f, good') ↦ elim (decode_pairs_cases n s (omega (arith, l)) h.1.1) [
      | inr (g, bad) ↦ inr (rw (e, f, g), λ all. bad all.1.1)
      | inl (bs, g, k, goods) ↦
          inl (bit_or (v * 2 ^ 4) w ∷ bs, rw (e, f, g), omega (arith, k), (good, (good', goods)))
    ]
  ]
]

pub decode_hex_string_cases :
    (n : ℕ) (s : Bytes)
    → length s ≡ n * 2
    → All (λ b. b < 256) s
    → Decodes n s (decode_hex_string n s)
unfolding decode_hex_string
decode_hex_string_cases n s l h =
    rw (ltb-false (length s) (n * 2) (omega (arith, l))) (decode_pairs_cases n s l h)
