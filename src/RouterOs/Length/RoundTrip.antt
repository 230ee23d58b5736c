-- ===== src/RouterOs/Length/RoundTrip.antt =====
-- A length is read back from its encoding, as far as the code allows.
use tiksrv.Base.{
  ℕ, ◌+◌, ◌*◌, ◌/◌, ◌%◌, ◌^◌, ◌≤◌, ◌<◌, ◌≡◌, refl, ◌∙◌, [], ◌∷◌, Bytes, length, arith, ltb,
  Bool-cases, inl, inr,
}
use tiksrv.RouterOs.Sentence.{encode_length}
use tiksrv.RouterOs.Length.{
  Prefix, end_of_sentence, short, long, invalid, length_prefix, join_length,
}
use tiksrv.RouterOs.Length.Layout.{
  prefix_short, prefix_long1, prefix_long2, prefix_long3, length_1, length_2, length_3, length_4,
  length_5, join_byte,
}

pub join_1 : (w a : ℕ) → w < 2 ^ 40 → a < 256 → join_length w (a ∷ []) ≡ w * 256 + a
unfolding join_length
join_1 w a h ha = join_byte w a h ha

join_2 :
    (w a b : ℕ)
    → w < 2 ^ 32
    → a < 256
    → b < 256
    → join_length w (a ∷ b ∷ []) ≡ (w * 256 + a) * 256 + b
unfolding join_length
join_2 w a b h ha hb = rw (join_byte w a (omega arith) ha) (join_1 (w * 256 + a) b (omega arith) hb)

join_3 :
    (w a b c : ℕ)
    → w < 256
    → a < 256
    → b < 256
    → c < 256
    → join_length w (a ∷ b ∷ c ∷ []) ≡ ((w * 256 + a) * 256 + b) * 256 + c
unfolding join_length
join_3 w a b c h ha hb hc =
    rw (join_byte w a (omega arith) ha) (join_2 (w * 256 + a) b c (omega arith) hb hc)

join_4 :
    (w a b c d : ℕ)
    → w < 256
    → a < 256
    → b < 256
    → c < 256
    → d < 256
    → join_length w (a ∷ b ∷ c ∷ d ∷ []) ≡ (((w * 256 + a) * 256 + b) * 256 + c) * 256 + d
unfolding join_length
join_4 w a b c d h ha hb hc hd =
    rw (join_byte w a (omega arith) ha, join_byte (w * 256 + a) b (omega arith) hb)
      (join_2 ((w * 256 + a) * 256 + b) c d (omega arith) hc hd)

-- The first byte and the further ones denote `n`, and the further ones are as many as the first
-- byte announces.
abbrev pub Denotes : Prefix → Bytes → ℕ → Type 0
Denotes end_of_sentence more n = ⊥
Denotes (short k) more n = (more ≡ []) × (k ≡ n)
Denotes (long high count) more n = (length more ≡ count) × (join_length high more ≡ n)
Denotes invalid more n = ⊥

-- What `encode_length` writes for 1 to 0xfffffff is a first byte that `on_reading_length` takes for
-- the start of a length, and just as many further bytes as that byte announces, from which the loop
-- puts the same number together.
pub encode_length-Denotes :
    (n : ℕ)
    → 0 < n
    → n < 0x10000000
    → (b : ℕ) × (more : Bytes) × (encode_length n ≡ b ∷ more) × Denotes (length_prefix b) more n
encode_length-Denotes n pos h = elim (Bool-cases (ltb n 0x80)) [
  | inl small ↦
      let small' : n < 0x80 = ground arith in
      (n, [], length_1 n small', rw (prefix_short n pos small') (refl, refl))
  | inr more1 ↦ elim (Bool-cases (ltb n 0x4000)) [
    | inl fits ↦ (
      _,
      _,
      length_2 n (ground arith) (ground arith),
      rw (prefix_long1 (n / 256) (ground arith))
          (refl, join_1 (n / 256) (n % 256) (omega arith) (omega arith) ∙ omega arith),
    )
    | inr more2 ↦ elim (Bool-cases (ltb n 0x200000)) [
      | inl fits ↦ (
        _,
        _,
        length_3 n (ground arith) (ground arith),
        rw (prefix_long2 (n / 65536) (ground arith)) (
          refl,
          join_2 (n / 65536) (n / 256 % 256) (n % 256) (omega arith) (omega arith) (omega arith)
              ∙ omega arith,
        ),
      )
      | inr more3 ↦ (
        _,
        _,
        length_4 n (ground arith) h,
        rw (prefix_long3 (n / 16777216) (ground arith)) (
          refl,
          join_3 (n / 16777216) (n / 65536 % 256) (n / 256 % 256) (n % 256) (omega arith)
                (omega arith) (omega arith) (omega arith)
              ∙ omega arith,
        ),
      )
    ]
  ]
]

-- From 0x10000000 on `encode_length` writes 0xf0 and four bytes, and the loop puts 0xf0 * 2 ^ 32 too
-- much together: the first byte stays in the length.
pub encode_length-Denotes_large :
    (n : ℕ)
    → 0x10000000 ≤ n
    → n < 2 ^ 32
    → (more : Bytes) × (encode_length n ≡ 0xf0 ∷ more)
      × Denotes (length_prefix 0xf0) more (0xf0 * 2 ^ 32 + n)
unfolding length_prefix
encode_length-Denotes_large n lo hi = (
  (n / 16777216) ∷ (n / 65536 % 256) ∷ (n / 256 % 256) ∷ (n % 256) ∷ [],
  length_5 n lo hi,
  (
    refl,
    join_4 0xf0 (n / 16777216) (n / 65536 % 256) (n / 256 % 256) (n % 256) (omega arith)
          (omega arith) (omega arith) (omega arith) (omega arith)
        ∙ omega arith,
  ),
)
