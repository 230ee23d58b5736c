-- ===== src/RouterOs/Api/LongWords.antt =====
-- Words whose length takes three bytes or more.
use tiksrv.Base.{
  ℕ, suc, ◌/◌, ◌^◌, ◌≤◌, ◌<◌, ◌≡◌, refl, ap, ◌∙◌, Bool, Bool-cases, inl, inr, ltb, [], ◌∷◌, ◌++◌,
  Bytes, length, aborted, arith, prepend, min,
}
use tiksrv.Base.Stream.{feed, feed-append, feed-append_aborted}
use tiksrv.Base.Outcome.{Outcome}
use tiksrv.RouterOs.Sentence.{Fmt, encode_length, encode_word}
use tiksrv.RouterOs.Length.{long, length_prefix}
use tiksrv.RouterOs.Length.Layout.{prefix_long2, prefix_long3, length_3, length_4, length_5}
use tiksrv.RouterOs.Response.{LexicalCast}
use tiksrv.RouterOs.Password.{Md5}
use tiksrv.RouterOs.Api.State.{Reply, Api, async_read, async_read_length}
use tiksrv.RouterOs.Api.Steps.{IsReady, on_length_long}
use tiksrv.RouterOs.Api.Portions.{whole, further, size, deliver, wanted, long_length, collect}
use tiksrv.RouterOs.Api.Words.{calls_for_length, rounds_of, one_word}

-- The first byte of such a length, which announces two further bytes at least, and the second.
abbrev StartsLong : Bytes → Type 0
StartsLong s =
    (b : ℕ) × (x : ℕ) × (more : Bytes) × (high : ℕ) × (count : ℕ) × (s ≡ b ∷ x ∷ more)
    × (length_prefix b ≡ long high (suc (suc count)))

encode_length-StartsLong : (n : ℕ) → 0x4000 ≤ n → n < 2 ^ 32 → StartsLong (encode_length n)
unfolding length_prefix
encode_length-StartsLong n lo hi = elim (Bool-cases (ltb n 0x200000)) [
  | inl small ↦
      (_, _, _, _, 0, length_3 n lo (ground arith), prefix_long2 (n / 65536) (ground arith))
  | inr more3 ↦ elim (Bool-cases (ltb n 0x10000000)) [
    | inl fits ↦ (
      _,
      _,
      _,
      _,
      1,
      length_4 n (ground arith) (ground arith),
      prefix_long3 (n / 16777216) (ground arith),
    )
    | inr more4 ↦ (_, _, _, _, 2, length_5 n (ground arith) hi, refl)
  ]
]

one_byte : (count : ℕ) → min 1 (suc (suc count)) ≡ 1
one_byte count = omega arith

module _ (fmt : Fmt) (md5 : Md5) (lex : LexicalCast) (keep : ℕ → Reply → Outcome Bool) where
  feed_long :
      (a : Api) (b x high count : ℕ) (rest : Bytes) (spare : ℕ)
      → IsReady a
      → length_prefix b ≡ long high (suc (suc count))
      → feed size
          (deliver fmt md5 lex keep)
          wanted
          (suc (suc spare))
          (whole 1)
          ((b ∷ []) ++ ((x ∷ []) ++ rest))
          a
        ≡ aborted
  feed_long a b x high count rest spare r p =
      feed-append size (deliver fmt md5 lex keep) wanted (suc spare) (whole 1) (b ∷ [])
        ((x ∷ []) ++ rest) a refl
        (rw (one_byte count) at (long_length fmt md5 lex keep a b high (suc (suc count)) r p)) refl
      ∙ ap (prepend (async_read_length high (suc (suc count)) 1 ∷ [])) (
          feed-append_aborted size (deliver fmt md5 lex keep) wanted spare
            (further high (suc (suc count)) 1) (x ∷ []) rest _ refl
            (on_length_long fmt md5 lex keep (record a { buffer = b ∷ [] }) high (suc (suc count)) x
              (record {
                socket_open = r.socket_open;
                expects_length = r.expects_length;
                room = refl;
              })
              (omega arith)))

  -- A word of 0x4000 bytes or more, up to what 32 bits can count, ends the program with a failed
  -- assertion in the second read, whatever follows: the code reads the further bytes of its length
  -- into a buffer of one byte. This holds for a reader that waits for the first byte of a length.
  pub feed-encode_word_large :
      (a : Api) (w rest : Bytes) (spare : ℕ)
      → IsReady a
      → 0x4000 ≤ length w
      → length w < 2 ^ 32
      → feed size
          (deliver fmt md5 lex keep)
          wanted
          (suc (suc spare))
          (whole 1)
          (encode_word w ++ rest)
          a
        ≡ aborted
  unfolding encode_word
  feed-encode_word_large a w rest spare r lo hi =
      let (b, x, more, high, count, written, p) = encode_length-StartsLong (length w) lo hi in
      ap
        (λ l.
          feed size (deliver fmt md5 lex keep) wanted (suc (suc spare)) (whole 1) ((l ++ w) ++ rest)
            a)
        written
      ∙ feed_long a b x high count ((more ++ w) ++ rest) spare r p

  -- What `encode_word` writes for a word is read back as far as the code allows, on a reader that
  -- waits for the first byte of a length. A word of 1 to 0x3fff bytes is asked for with exactly its
  -- length and collected byte for byte behind the words that were there, and the bytes that follow
  -- are left; one of 0x4000 bytes or more, up to what 32 bits can count, ends the program with a failed
  -- assertion, whatever follows.
  pub feed-encode_word :
      (a : Api) (w rest : Bytes) (spare : ℕ)
      → IsReady a
      → 0 < length w
      → length w < 2 ^ 32
      → (length w < 0x4000
          → feed size
              (deliver fmt md5 lex keep)
              wanted
              (rounds_of w spare)
              (whole 1)
              (encode_word w ++ rest)
              a
            ≡ prepend
                (calls_for_length (length w) ++ (async_read 1 ∷ []))
                (feed size (deliver fmt md5 lex keep) wanted spare (whole 1) rest (collect a w)))
        × (0x4000 ≤ length w
            → feed size
                (deliver fmt md5 lex keep)
                wanted
                (suc (suc spare))
                (whole 1)
                (encode_word w ++ rest)
                a
              ≡ aborted)
  feed-encode_word a w rest spare r pos hi = (
    λ small. one_word fmt md5 lex keep a w rest spare r (record { present = pos; fits = small }),
    λ large. feed-encode_word_large a w rest spare r large hi,
  )
