-- ===== src/RouterOs/Api/Words.antt =====
-- A stream of words, one behind the other, as `api` collects them.
use tiksrv.Base.{
  ℕ, suc, ◌+◌, ◌/◌, ◌%◌, ◌≤◌, ◌<◌, ◌≡◌, refl, sym, ap, ◌∙◌, Bool, Bool-cases, inl, inr, ltb, List,
  [], ◌∷◌, ◌++◌, Bytes, length, All, prepend, arith, append_assoc, append-nil, prepend-prepend,
  prepend-nil, if◌then◌else◌,
}
use tiksrv.Base.Stream.{feed, feed-append}
use tiksrv.Base.Outcome.{Outcome}
use tiksrv.RouterOs.Sentence.{Fmt, encode_word}
use tiksrv.RouterOs.Length.Layout.{prefix_long1, length_1, length_2}
use tiksrv.RouterOs.Response.{LexicalCast}
use tiksrv.RouterOs.Password.{Md5}
use tiksrv.RouterOs.Api.State.{Reply, Api, Call, async_read, async_read_length}
use tiksrv.RouterOs.Api.Steps.{IsReady}
use tiksrv.RouterOs.Api.Portions.{
  whole, further, size, wanted, deliver, collect, collect-IsReady, short_length, long_length,
  word_of, further_byte,
}

-- The calls that the length of a word causes.
abbrev pub calls_for_length : ℕ → List Call
calls_for_length n =
    if ltb n 0x80 then async_read n ∷ [] else async_read_length (n / 256) 1 1 ∷ async_read n ∷ []

abbrev pub calls_for : List Bytes → List Call
calls_for [] = []
calls_for (w ∷ ws) = calls_for_length (length w) ++ (async_read 1 ∷ calls_for ws)

abbrev pub after_words : Api → List Bytes → Api
after_words a [] = a
after_words a (w ∷ ws) = after_words (collect a w) ws

abbrev pub stream : List Bytes → Bytes
stream [] = []
stream (w ∷ ws) = encode_word w ++ stream ws

abbrev pub rounds_of : Bytes → ℕ → ℕ
rounds_of w n = if ltb (length w) 0x80 then suc (suc n) else suc (suc (suc n))

abbrev pub rounds : List Bytes → ℕ → ℕ
rounds [] spare = spare
rounds (w ∷ ws) spare = rounds_of w (rounds ws spare)

-- A word of a length that takes one or two bytes.
pub record IsWord (w : Bytes) : Type 0 where
  pub present : 0 < length w
  pub fits : length w < 0x4000

short_encoding : (w : Bytes) → length w < 0x80 → encode_word w ≡ length w ∷ w
unfolding encode_word
short_encoding w h = ap (λ l. l ++ w) (length_1 (length w) h)

long_encoding :
    (w : Bytes)
    → 0x80 ≤ length w
    → length w < 0x4000
    → encode_word w ≡ (0x80 + length w / 256) ∷ (length w % 256) ∷ w
unfolding encode_word
long_encoding w lo hi = ap (λ l. l ++ w) (length_2 (length w) lo hi)

module _ (fmt : Fmt) (md5 : Md5) (lex : LexicalCast) (keep : ℕ → Reply → Outcome Bool) where
  short_word :
      (a : Api) (w rest : Bytes) (fuel : ℕ)
      → IsReady a
      → 0 < length w
      → length w < 0x80
      → feed size
          (deliver fmt md5 lex keep)
          wanted
          (suc (suc fuel))
          (whole 1)
          ((length w ∷ []) ++ (w ++ rest))
          a
        ≡ prepend
            (async_read (length w) ∷ async_read 1 ∷ [])
            (feed size (deliver fmt md5 lex keep) wanted fuel (whole 1) rest (collect a w))
  short_word a w rest fuel r pos h =
      feed-append size (deliver fmt md5 lex keep) wanted (suc fuel) (whole 1) (length w ∷ [])
        (w ++ rest) a refl (short_length fmt md5 lex keep a (length w) r pos h) refl
      ∙ ap (prepend (async_read (length w) ∷ [])) (
          feed-append size (deliver fmt md5 lex keep) wanted fuel (whole (length w)) w rest _ refl
            (word_of fmt md5 lex keep a w (length w ∷ []) (length w) r refl pos) refl)
      ∙ prepend-prepend (async_read (length w) ∷ []) (async_read 1 ∷ [])
          (feed size (deliver fmt md5 lex keep) wanted fuel (whole 1) rest (collect a w))

  long_word :
      (a : Api) (w rest : Bytes) (fuel : ℕ)
      → IsReady a
      → 0x80 ≤ length w
      → length w < 0x4000
      → feed size
          (deliver fmt md5 lex keep)
          wanted
          (suc (suc (suc fuel)))
          (whole 1)
          (((0x80 + length w / 256) ∷ []) ++ ((length w % 256 ∷ []) ++ (w ++ rest)))
          a
        ≡ prepend
            (async_read_length (length w / 256) 1 1 ∷ async_read (length w) ∷ async_read 1 ∷ [])
            (feed size (deliver fmt md5 lex keep) wanted fuel (whole 1) rest (collect a w))
  long_word a w rest fuel r lo hi =
      feed-append size (deliver fmt md5 lex keep) wanted (suc (suc fuel)) (whole 1)
        ((0x80 + length w / 256) ∷ []) ((length w % 256 ∷ []) ++ (w ++ rest)) a refl
        (long_length fmt md5 lex keep a (0x80 + length w / 256) (length w / 256) 1 r
          (prefix_long1 (length w / 256) (omega arith)))
        refl
      ∙ ap (prepend (async_read_length (length w / 256) 1 1 ∷ [])) (
          feed-append size (deliver fmt md5 lex keep) wanted (suc fuel)
            (further (length w / 256) 1 1) (length w % 256 ∷ []) (w ++ rest) _ refl
            (further_byte fmt md5 lex keep a w r hi) refl
          ∙ ap (prepend (async_read (length w) ∷ [])) (
              feed-append size (deliver fmt md5 lex keep) wanted fuel (whole (length w)) w rest _
                refl
                (word_of fmt md5 lex keep a w (length w % 256 ∷ []) (length w) r refl (omega arith))
                refl))
      ∙ simp (prepend-prepend)

  pub one_word :
      (a : Api) (w rest : Bytes) (fuel : ℕ)
      → IsReady a
      → IsWord w
      → feed size
          (deliver fmt md5 lex keep)
          wanted
          (rounds_of w fuel)
          (whole 1)
          (encode_word w ++ rest)
          a
        ≡ prepend
            (calls_for_length (length w) ++ (async_read 1 ∷ []))
            (feed size (deliver fmt md5 lex keep) wanted fuel (whole 1) rest (collect a w))
  one_word a w rest fuel r v = elim (Bool-cases (ltb (length w) 0x80)) [
    | inl small ↦
        let small' : length w < 0x80 = ground arith in
        rw (small, short_encoding w small') (short_word a w rest fuel r v.present small')
    | inr large ↦
        let large' : 0x80 ≤ length w = ground arith in
        rw (large, long_encoding w large' v.fits) (long_word a w rest fuel r large' v.fits)
  ]

  -- Words of 1 to 0x3fff bytes that arrive one behind the other, each behind its length, are
  -- collected in order, byte for byte, behind those that were there, whatever bytes follow; the
  -- reader asks for exactly the bytes of each length and each word, and is ready for the next length
  -- at the end. This holds for a reader that waits for the first byte of a length.
  pub feed-words :
      (a : Api) (ws : List Bytes) (rest : Bytes) (spare : ℕ)
      → IsReady a
      → All IsWord ws
      → (feed size
            (deliver fmt md5 lex keep)
            wanted
            (rounds ws spare)
            (whole 1)
            (stream ws ++ rest)
            a
          ≡ prepend
              (calls_for ws)
              (feed size (deliver fmt md5 lex keep) wanted spare (whole 1) rest (after_words a ws)))
        × ((after_words a ws).sentence ≡ a.sentence ++ ws)
        × IsReady (after_words a ws)
  feed-words a [] rest spare r v = (sym (prepend-nil _), sym (append-nil a.sentence), r)
  feed-words a (w ∷ ws) rest spare r v =
      let (run, kept, ready) = feed-words (collect a w) ws rest spare (collect-IsReady a w r) v.1 in
      (
        ap (λ l. feed size (deliver fmt md5 lex keep) wanted (rounds (w ∷ ws) spare) (whole 1) l a)
              (append_assoc (encode_word w) (stream ws) rest)
            ∙ one_word a w (stream ws ++ rest) (rounds ws spare) r v.0
            ∙ ap (prepend (calls_for_length (length w) ++ (async_read 1 ∷ []))) run
            ∙ simp (prepend-prepend, append_assoc),
        kept ∙ append_assoc a.sentence (w ∷ []) ws,
        ready,
      )
