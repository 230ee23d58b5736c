-- ===== src/RouterOs/Hex/Spelling.antt =====
-- What a hexadecimal text denotes, and that the decoder of routeros/src/util.cpp reads just that.
use tiksrv.Base.{
  ℕ, zero, suc, ◌+◌, ◌*◌, ◌^◌, ◌<◌, ◌≡◌, ◌↔◌, refl, subst, [], ◌∷◌, Bytes, length, All, arith,
  ltb-false, bit_or,
}
use tiksrv.Base.Bits.{or_high_low}
use tiksrv.Base.Outcome.{returned, >>=-eq-returned}
use tiksrv.RouterOs.Hex.{digit_value, decode_pairs, decode_hex_string}
use tiksrv.RouterOs.Hex.RoundTrip.{HexDigit, digit_value_iff}

-- Each byte is spelt by two digits, the high one first.
abbrev pub Spells : Bytes → Bytes → Type 0
Spells [] [] = Unit
Spells (a ∷ b ∷ s) (x ∷ bs) =
    ((high : ℕ) × (low : ℕ) × HexDigit a high × HexDigit b low × (x ≡ high * 16 + low))
    × Spells s bs
Spells s bs = ⊥

joined : (b high low : ℕ) → HexDigit b low → bit_or (high * 2 ^ 4) low ≡ high * 16 + low
joined b high low d = let small : low < 16 = ground arith in omega (arith, or_high_low 4 low high)

same_bytes : {x y : Bytes} → returned x ≡ returned y → x ≡ y
same_bytes h = cc

spelt :
    (n : ℕ) (s bs : Bytes)
    → length s ≡ n * 2
    → All (λ b. b < 256) s
    → decode_pairs n s ≡ returned bs
    → Spells s bs
unfolding decode_pairs
spelt zero [] bs l h e = subst (Spells []) (same_bytes e) tt
spelt zero (a ∷ s) bs l h e = absurd (omega (arith, l))
spelt (suc n) [] bs l h e = absurd (omega (arith, l))
spelt (suc n) (a ∷ []) bs l h e = absurd (omega (arith, l))
spelt (suc n) (a ∷ b ∷ s) bs l h e =
    let (high, d, e1) = >>=-eq-returned (digit_value a) _ e in
    let (low, d', e2) = >>=-eq-returned (digit_value b) _ e1 in
    let (rest, r, e3) = >>=-eq-returned (decode_pairs n s) _ e2 in
    let lowd : HexDigit b low = (digit_value_iff b low h.1.0).0 d' in
    subst (Spells (a ∷ b ∷ s)) (same_bytes e3) (
      (high, low, (digit_value_iff a high h.0).0 d, lowd, joined b high low lowd),
      spelt n s rest (omega (arith, l)) h.1.1 r,
    )

read_back :
    (n : ℕ) (s bs : Bytes)
    → length s ≡ n * 2
    → All (λ b. b < 256) s
    → Spells s bs
    → decode_pairs n s ≡ returned bs
unfolding decode_pairs
read_back zero [] [] l h k = refl
read_back zero [] (x ∷ bs) l h k = absurd k
read_back zero (a ∷ s) bs l h k = absurd (omega (arith, l))
read_back (suc n) [] bs l h k = absurd (omega (arith, l))
read_back (suc n) (a ∷ []) bs l h k = absurd (omega (arith, l))
read_back (suc n) (a ∷ b ∷ s) [] l h k = absurd k
read_back (suc n) (a ∷ b ∷ s) (x ∷ bs) l h ((high, low, d, d', e), k) = rw (
  (digit_value_iff a high h.0).1 d,
  (digit_value_iff b low h.1.0).1 d',
  read_back n s bs (omega (arith, l)) h.1.1 k,
  joined b high low d',
  e,
)

-- A text of twice as many characters as bytes are asked for is read as just the bytes that it spells.
pub decode_hex_string_iff :
    (n : ℕ) (s bs : Bytes)
    → length s ≡ n * 2
    → All (λ b. b < 256) s
    → (decode_hex_string n s ≡ returned bs) ↔ Spells s bs
unfolding decode_hex_string
decode_hex_string_iff n s bs l h =
    rw (ltb-false (length s) (n * 2) (omega (arith, l))) (spelt n s bs l h, read_back n s bs l h)
