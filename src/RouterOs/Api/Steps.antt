-- ===== src/RouterOs/Api/Steps.antt =====
-- Each completion of a read, in the state that it finds the API connection in.
use tiksrv.Base.{
  ℕ, ◌≤◌, ◌<◌, ◌≡◌, refl, sym, ◌∙◌, Bool, true, none, [], ◌∷◌, ◌++◌, Bytes, length, resize, min, ok,
  aborted, arith, take-all, drop-all, append-nil, prepend-nil,
}
use tiksrv.Base.Outcome.{Outcome}
use tiksrv.RouterOs.Sentence.{Fmt}
use tiksrv.RouterOs.Length.{short, long, length_prefix, join_length}
use tiksrv.RouterOs.Response.{LexicalCast}
use tiksrv.RouterOs.Password.{Md5}
use tiksrv.RouterOs.Api.State.{
  reading_length, reading_word, Reply, Api, async_read, async_read_length, is_open,
}
use tiksrv.RouterOs.Api.Reading.{by_prefix, handle_read, read_completed, length_completed}

-- The reader waits for the first byte of a length.
pub record IsReady (a : Api) : Type 0 where
  pub socket_open : a.sock_open ≡ true
  pub expects_length : a.state ≡ reading_length
  pub room : length a.buffer ≡ 1

module _ (fmt : Fmt) (md5 : Md5) (lex : LexicalCast) (keep : ℕ → Reply → Outcome Bool) where
  received_whole :
      (bytes : Bytes) (a : Api)
      → is_open a ≡ true
      → length bytes ≡ length a.buffer
      → read_completed fmt md5 lex keep none bytes a
        ≡ handle_read fmt md5 lex keep none bytes (record a { buffer = bytes })
  unfolding read_completed is_open
  received_whole bytes a o n =
      ground (arith, drop-all bytes a.buffer n, append-nil bytes, take-all bytes)

  first_byte_prefix :
      (a : Api) (b : ℕ)
      → a.sock_open ≡ true
      → a.state ≡ reading_length
      → handle_read fmt md5 lex keep none (b ∷ []) a
        ≡ by_prefix fmt md5 lex keep (length_prefix b) a
  unfolding handle_read
  first_byte_prefix a b o r = rw (r, o) (prepend-nil _ ∙ prepend-nil _)

  pub on_first_byte :
      (a : Api) (b : ℕ)
      → IsReady a
      → read_completed fmt md5 lex keep none (b ∷ []) a
        ≡ by_prefix fmt md5 lex keep (length_prefix b) (record a { buffer = b ∷ [] })
  unfolding is_open
  on_first_byte a b w =
      received_whole (b ∷ []) a (ground arith) (sym w.room)
      ∙ first_byte_prefix (record a { buffer = b ∷ [] }) b w.socket_open w.expects_length

  pub on_short :
      (a : Api) (n : ℕ)
      → a.sock_open ≡ true
      → by_prefix fmt md5 lex keep (short n) a
        ≡ ok (record a { state = reading_word; buffer = resize n 0 a.buffer }, async_read n ∷ [])
  unfolding by_prefix
  on_short a n o = ground arith

  pub on_long :
      (a : Api) (high mbytes : ℕ)
      → by_prefix fmt md5 lex keep (long high mbytes) a
        ≡ ok (a, async_read_length high mbytes (min (length a.buffer) mbytes) ∷ [])
  unfolding by_prefix
  on_long a high mbytes = refl

  pub on_length :
      (a : Api) (high x : ℕ)
      → IsReady a
      → length_completed fmt md5 lex keep high 1 none (x ∷ []) a
        ≡ ok (
          record a { state = reading_word; buffer = resize (join_length high (x ∷ [])) 0 (x ∷ []) },
          async_read (join_length high (x ∷ [])) ∷ [],
        )
  unfolding length_completed
  on_length a high x w = ground (arith, drop-all (x ∷ []) a.buffer (sym w.room))

  pub on_length_long :
      (a : Api) (high mbytes x : ℕ)
      → IsReady a
      → 2 ≤ mbytes
      → length_completed fmt md5 lex keep high mbytes none (x ∷ []) a ≡ aborted
  unfolding length_completed
  on_length_long a high mbytes x w h = ground arith

  pub on_word :
      (a : Api) (w : Bytes)
      → a.sock_open ≡ true
      → a.state ≡ reading_word
      → length a.buffer ≡ length w
      → 0 < length w
      → read_completed fmt md5 lex keep none w a
        ≡ ok (
          record a {
            sentence = a.sentence ++ (w ∷ []);
            state = reading_length;
            buffer = resize 1 0 w;
          },
          async_read 1 ∷ [],
        )
  unfolding handle_read is_open
  on_word a w o r n pos = received_whole w a (ground arith) (sym n) ∙ ground arith
