-- ===== src/RouterOs/Api/Portions.antt =====
-- What single portions of words do: the first byte of a length, its further byte, a word.
use tiksrv.Base.{
  ℕ, ◌+◌, ◌/◌, ◌%◌, ◌<◌, ◌≡◌, refl, ◌∙◌, Bool, Option, none, some, List, [], ◌∷◌, ◌++◌, Bytes,
  length, resize, min, ok, Act, arith, length-resize,
}
use tiksrv.Base.Outcome.{Outcome}
use tiksrv.RouterOs.Sentence.{Fmt}
use tiksrv.RouterOs.Length.{join_length, long, length_prefix}
use tiksrv.RouterOs.Length.Layout.{prefix_short}
use tiksrv.RouterOs.Length.RoundTrip.{join_1}
use tiksrv.RouterOs.Response.{LexicalCast}
use tiksrv.RouterOs.Password.{Md5}
use tiksrv.RouterOs.Api.State.{
  Reply, Api, Call, async_read, async_read_length, reading_length, reading_word,
}
use tiksrv.RouterOs.Api.Reading.{read_completed, length_completed}
use tiksrv.RouterOs.Api.Steps.{IsReady, on_first_byte, on_short, on_long, on_length, on_word}

-- A read that is pending: of the buffer's size, or of further bytes of a length, with the high bits,
-- the byte count and the size of the buffer that was given.
pub data Pending : Type 0 where
  whole : ℕ → Pending
  further : ℕ → ℕ → ℕ → Pending

abbrev pub size : Pending → ℕ
size (whole n) = n
size (further high mbytes room) = room

-- The read that a step leaves pending: the last one that it starts.
abbrev pub wanted : List Call → Option Pending
wanted [] = none
wanted (async_read n ∷ []) = some (whole n)
wanted (async_read_length high mbytes room ∷ []) = some (further high mbytes room)
wanted (c ∷ cs) = wanted cs

-- All the reads that a step starts.
abbrev pub pending_of : List Call → List Pending
pending_of [] = []
pending_of (async_read n ∷ cs) = whole n ∷ pending_of cs
pending_of (async_read_length high mbytes room ∷ cs) = further high mbytes room ∷ pending_of cs
pending_of (c ∷ cs) = pending_of cs

abbrev pub collect : Api → Bytes → Api
collect a w = record a {
  sentence = a.sentence ++ (w ∷ []);
  buffer = resize 1 0 w;
  state = reading_length;
}

pub collect-IsReady : (a : Api) (w : Bytes) → IsReady a → IsReady (collect a w)
collect-IsReady a w r = record {
  socket_open = r.socket_open;
  expects_length = refl;
  room = length-resize 1 0 w;
}

module _ (fmt : Fmt) (md5 : Md5) (lex : LexicalCast) (keep : ℕ → Reply → Outcome Bool) where
  abbrev pub deliver : Pending → Bytes → Act Api Call
  deliver (whole n) = read_completed fmt md5 lex keep none
  deliver (further high mbytes room) = length_completed fmt md5 lex keep high mbytes none

  pub short_length :
      (a : Api) (n : ℕ)
      → IsReady a
      → 0 < n
      → n < 0x80
      → read_completed fmt md5 lex keep none (n ∷ []) a
        ≡ ok (record a { state = reading_word; buffer = resize n 0 (n ∷ []) }, async_read n ∷ [])
  short_length a n r pos h =
      on_first_byte fmt md5 lex keep a n r
      ∙ rw (prefix_short n pos h)
          (on_short fmt md5 lex keep (record a { buffer = n ∷ [] }) n r.socket_open)

  pub long_length :
      (a : Api) (b high mbytes : ℕ)
      → IsReady a
      → length_prefix b ≡ long high mbytes
      → read_completed fmt md5 lex keep none (b ∷ []) a
        ≡ ok (record a { buffer = b ∷ [] }, async_read_length high mbytes (min 1 mbytes) ∷ [])
  long_length a b high mbytes r p =
      on_first_byte fmt md5 lex keep a b r
      ∙ rw p (on_long fmt md5 lex keep (record a { buffer = b ∷ [] }) high mbytes)

  pub word_of :
      (a : Api) (w : Bytes) (buf : Bytes) (n : ℕ)
      → IsReady a
      → n ≡ length w
      → 0 < length w
      → read_completed fmt md5 lex keep none w
          (record a { state = reading_word; buffer = resize n 0 buf })
        ≡ ok (collect a w, async_read 1 ∷ [])
  word_of a w buf n r e pos =
      on_word fmt md5 lex keep (record a { state = reading_word; buffer = resize n 0 buf }) w
        r.socket_open refl (length-resize n 0 buf ∙ e) pos

  pub further_byte :
      (a : Api) (w : Bytes)
      → IsReady a
      → length w < 0x4000
      → length_completed fmt md5 lex keep
          (length w / 256)
          1
          none
          (length w % 256 ∷ [])
          (record a { buffer = (0x80 + length w / 256) ∷ [] })
        ≡ ok (
          record a { state = reading_word; buffer = resize (length w) 0 (length w % 256 ∷ []) },
          async_read (length w) ∷ [],
        )
  further_byte a w r h =
      let joined : join_length (length w / 256) (length w % 256 ∷ []) ≡ length w =
        join_1 (length w / 256) (length w % 256) (omega arith) (omega arith) ∙ omega arith in
      on_length fmt md5 lex keep (record a { buffer = (0x80 + length w / 256) ∷ [] })
        (length w / 256) (length w % 256)
        (record { socket_open = r.socket_open; expects_length = r.expects_length; room = refl })
      ∙ rw joined
