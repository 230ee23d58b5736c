-- ===== src/RouterOs/Api/Sentences.antt =====
-- A whole sentence that arrives, from the first byte of its first word to the zero byte behind the
-- last.
use tiksrv.Base.{
  ℕ, suc, ◌≡◌, refl, ap, ◌∙◌, Bool, true, none, some, List, [], ◌∷◌, ◌++◌, Bytes, All, resize, ok,
  prepend, arith, append-nil, prepend-prepend, length-resize,
}
use tiksrv.Base.Stream.{feed, feed-append}
use tiksrv.Base.Outcome.{Outcome}
use tiksrv.RouterOs.Sentence.{Fmt}
use tiksrv.RouterOs.Length.{length_prefix}
use tiksrv.RouterOs.Response.{LexicalCast}
use tiksrv.RouterOs.Password.{Md5}
use tiksrv.RouterOs.Api.State.{
  Reply, idle, reading_length, Api, Call, async_connect, async_read, async_read_length, async_send,
  on_error, reply, finished, post, is_open,
}
use tiksrv.RouterOs.Api.Reading.{
  read_next_word, read_completed, handle_response, end_sentence, by_prefix,
}
use tiksrv.RouterOs.Api.Steps.{IsReady, on_first_byte}
use tiksrv.RouterOs.Api.Portions.{whole, size, deliver, wanted}
use tiksrv.RouterOs.Api.Words.{calls_for, after_words, stream, rounds, IsWord, feed-words}

-- The connection behind a sentence: ready for the next one.
abbrev pub ready_again : Api → Api
ready_again b = record b { sentence = []; state = reading_length; buffer = resize 1 0 b.buffer }

wanted-cons : (e d : Call) (ds : List Call) → wanted (e ∷ d ∷ ds) ≡ wanted (d ∷ ds)
wanted-cons (async_read n) d ds = refl
wanted-cons (async_read_length high mbytes room) d ds = refl
wanted-cons (async_connect host port cb) d ds = refl
wanted-cons (async_send bytes req cb) d ds = refl
wanted-cons (on_error err) d ds = refl
wanted-cons (reply k r) d ds = refl
wanted-cons (finished h err) d ds = refl
wanted-cons (post req cb) d ds = refl

wanted-append : (es : List Call) → wanted (es ++ (async_read 1 ∷ [])) ≡ some (whole 1)
wanted-append [] = refl
wanted-append (e ∷ []) = wanted-cons e (async_read 1) []
wanted-append (e ∷ d ∷ ds) = wanted-cons e d (ds ++ (async_read 1 ∷ [])) ∙ wanted-append (d ∷ ds)

next_word :
    (b : Api)
    → is_open b ≡ true
    → read_next_word (record b { sentence = []; state = idle })
      ≡ ok (ready_again b, async_read 1 ∷ [])
unfolding read_next_word is_open
next_word b o = ground arith

ready_again-IsReady : (b : Api) → is_open b ≡ true → IsReady (ready_again b)
unfolding is_open
ready_again-IsReady b o = record {
  socket_open = ground arith;
  expects_length = refl;
  room = length-resize 1 0 b.buffer;
}

module _ (fmt : Fmt) (md5 : Md5) (lex : LexicalCast) (keep : ℕ → Reply → Outcome Bool) where
  end_sentence_open :
      (a b : Api) (es : List Call)
      → handle_response fmt md5 lex keep a.sentence a ≡ ok (b, es)
      → is_open b ≡ true
      → end_sentence fmt md5 lex keep a ≡ ok (ready_again b, es ++ (async_read 1 ∷ []))
  unfolding end_sentence is_open
  end_sentence_open a b es h o = rw (h, append-nil es) (ap (prepend es) (next_word b o))

  on_zero :
      (a : Api)
      → IsReady a
      → read_completed fmt md5 lex keep none (0 ∷ []) a
        ≡ end_sentence fmt md5 lex keep (record a { buffer = 0 ∷ [] })
  unfolding length_prefix by_prefix
  on_zero a r = on_first_byte fmt md5 lex keep a 0 r

  -- A sentence of words of 1 to 0x3fff bytes, up to the zero byte behind the last word, is handed to
  -- `handle_response` whole: its words in order, byte for byte. When that returns with the connection
  -- open, the calls that it made follow the reads, and the reader is ready for the next sentence,
  -- with an empty one to fill; the bytes that follow the sentence are left to it. This holds for a
  -- reader that waits for the first byte of the first length.
  pub feed-sentence :
      (a b : Api) (ws : List Bytes) (rest : Bytes) (spare : ℕ) (es : List Call)
      → IsReady a
      → a.sentence ≡ []
      → All IsWord ws
      → handle_response fmt md5 lex keep ws (record (after_words a ws) { buffer = 0 ∷ [] })
        ≡ ok (b, es)
      → is_open b ≡ true
      → (feed size
            (deliver fmt md5 lex keep)
            wanted
            (rounds ws (suc spare))
            (whole 1)
            (stream ws ++ ((0 ∷ []) ++ rest))
            a
          ≡ prepend
              (calls_for ws ++ (es ++ (async_read 1 ∷ [])))
              (feed size (deliver fmt md5 lex keep) wanted spare (whole 1) rest (ready_again b)))
        × IsReady (ready_again b)
  feed-sentence a b ws rest spare es r none_yet v h o =
      let (run, kept, ready) =
        feed-words fmt md5 lex keep a ws ((0 ∷ []) ++ rest) (suc spare) r v in
      let whole_sentence : (after_words a ws).sentence ≡ ws = kept ∙ ap (λ s. s ++ ws) none_yet in
      let ended =
        end_sentence_open (record (after_words a ws) { buffer = 0 ∷ [] }) b es
          (rw whole_sentence (rw whole_sentence at h)) o in
      (
        run
            ∙ ap (prepend (calls_for ws)) (
                feed-append size (deliver fmt md5 lex keep) wanted spare (whole 1) (0 ∷ []) rest
                  (after_words a ws) refl (on_zero (after_words a ws) ready ∙ ended)
                  (wanted-append es))
            ∙ prepend-prepend (calls_for ws) (es ++ (async_read 1 ∷ [])) _,
        ready_again-IsReady b o,
      )
