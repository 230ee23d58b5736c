-- ===== src/RouterOs/Api/Connection/Reads.antt =====
-- What the end of a read does to a sound connection.
use tiksrv.Base.{
  ℕ, ◌≤◌, ◌<◌, ◌≡◌, refl, sym, ap, Bool, true, false, Option, none, some, List, [], ◌∷◌, ◌++◌,
  Bytes, length, drop, Returns, Result, ◌≢◌, subst, run_then, modify, ok, aborted, prepend, arith,
  append-nil, length-resize, Bool-cases, inl, inr, resize,
}
use tiksrv.Base.Outcome.{Outcome, stopped}
use tiksrv.RouterOs.Sentence.{Fmt}
use tiksrv.RouterOs.Length.{
  Prefix, end_of_sentence, short, long, invalid, length_prefix, join_length,
}
use tiksrv.RouterOs.Response.{LexicalCast, response_sentence, is_valid_response}
use tiksrv.RouterOs.Password.{Md5}
use tiksrv.RouterOs.Api.State.{
  ErrorCode, idle, reading_length, reading_word, closed, Reply, Api, Call, is_open, fail, on_error,
  async_read,
}
use tiksrv.RouterOs.Api.Reading.{
  read_completed, length_completed, by_prefix, end_sentence, read_next_word, handle_response,
  handle_read,
}
use tiksrv.RouterOs.Api.Portions.{Pending, whole, further, pending_of}
use tiksrv.RouterOs.Api.Steps.{IsReady, on_first_byte, on_short, on_length, on_word}
use tiksrv.RouterOs.Api.Settled.{IsSettled}
use tiksrv.RouterOs.Api.Replies.{
  IsTakenApart, FailsReply, FailsReply-aborts, handle_response-IsSettled, pending_of-append,
}
use tiksrv.RouterOs.Api.Exchange.{long_enough}
use tiksrv.RouterOs.Api.Connection.{read_done, running, Connection, IsSound, advance, complete}
use tiksrv.RouterOs.Api.Connection.Steps.{open_running, at_most_one, shut-IsSound}

-- With a read under way, a connection that is not open is closed.
shut_of :
    (k : Connection) (p : Pending) (ps : List Pending)
    → IsSound k
    → k.pending ≡ p ∷ ps
    → is_open k.api ≡ false
    → (k.phase ≡ running) × (k.api.state ≡ closed)
unfolding is_open
shut_of k p ps s r o = ground arith

-- A first byte that does not end the sentence.
abbrev GoesOn : Prefix → Type 0
GoesOn end_of_sentence = ⊥
GoesOn (long high mbytes) = 1 ≤ mbytes
GoesOn p = Unit

length_prefix-GoesOn : (b : ℕ) → b ≢ 0 → GoesOn (length_prefix b)
unfolding length_prefix
length_prefix-GoesOn b n = ground arith

module _ (fmt : Fmt) (md5 : Md5) (lex : LexicalCast) (keep : ℕ → Reply → Outcome Bool) where
  -- The connection is closed already: the read is dropped.
  pub shut_read :
      (p : Pending) (err : Option ErrorCode) (bytes : Bytes) (a : Api)
      → is_open a ≡ false
      → complete fmt md5 lex keep p err bytes a
        ≡ ok (record a { buffer = bytes ++ drop (length bytes) a.buffer }, [])
  unfolding read_completed length_completed is_open
  shut_read (whole n) err bytes a o = rw o refl
  shut_read (further high mbytes room) err bytes a o = rw o refl

  failed_read :
      (p : Pending) (x : ErrorCode) (bytes : Bytes) (a : Api)
      → is_open a ≡ true
      → complete fmt md5 lex keep p (some x) bytes a
        ≡ ok (
          record a {
            sock_open = false;
            state = closed;
            buffer = bytes ++ drop (length bytes) a.buffer;
          },
          on_error x ∷ [],
        )
  unfolding read_completed length_completed handle_read is_open fail
  failed_read (whole n) x bytes a o = ground arith
  failed_read (further high mbytes room) x bytes a o = ground arith

  pub shut-IsSound_read :
      (k : Connection) (p : Pending) (ps : List Pending) (err : Option ErrorCode) (bytes : Bytes)
      → IsSound k
      → k.pending ≡ p ∷ ps
      → is_open k.api ≡ false
      → Returns IsSound (advance fmt md5 lex keep (read_done p err bytes) k)
  unfolding advance
  shut-IsSound_read k p ps err bytes s r o =
      let (f, c) = shut_of k p ps s r o in
      rw (shut_read p err bytes k.api o, r, append-nil ps, f)
        (shut-IsSound _ ps c s.nothing_queued (ground (arith, at_most_one k s)))

  pub break-IsSound :
      (k : Connection) (p : Pending) (ps : List Pending) (x : ErrorCode) (bytes : Bytes)
      → IsSound k
      → k.pending ≡ p ∷ ps
      → is_open k.api ≡ true
      → Returns IsSound (advance fmt md5 lex keep (read_done p (some x) bytes) k)
  unfolding advance
  break-IsSound k p ps x bytes s r o =
      rw (failed_read p x bytes k.api o, r, append-nil ps, open_running k s o)
        (shut-IsSound _ ps refl s.nothing_queued (ground (arith, at_most_one k s)))

  -- What a step on a running connection leaves, given by its state, its calls and the rest of the reads.
  abbrev pub IsGood : List Pending → Api × List Call → Type 0
  IsGood ps (a, cs) = IsSound (record { api = a; phase = running; pending = ps ++ pending_of cs })

  next_word_open :
      (a : Api)
      → a.sock_open ≡ true
      → a.state ≡ idle
      → read_next_word a
        ≡ ok (record a { state = reading_length; buffer = resize 1 0 a.buffer }, async_read 1 ∷ [])
  unfolding read_next_word is_open
  next_word_open a o i = ground arith

  next_word_shut : (a : Api) → a.sock_open ≡ false → read_next_word a ≡ ok (a, [])
  unfolding read_next_word is_open
  next_word_shut a o = ground arith

  -- After `handle_response`, the sentence is cleared and the next one is awaited.
  after_response :
      (a : Api) (cs : List Call)
      → IsSettled [] (a, cs)
      → Returns (IsGood []) (prepend cs (read_next_word (record a { sentence = []; state = idle })))
  after_response a cs (sock, o, q, m) = elim (Bool-cases a.sock_open) [
    | inl opened ↦
        rw
          (
            next_word_open (record a { sentence = []; state = idle }) opened refl,
            pending_of-append cs (async_read 1 ∷ []),
            m,
          )
          (record { nothing_queued = q; expected = (opened, length-resize 1 0 a.buffer, refl) })
    | inr shut ↦
        rw (next_word_shut (record a { sentence = []; state = idle }) shut, append-nil cs, m)
          (record { nothing_queued = q; expected = (shut, refl) })
  ]

  after_responses :
      (r : Result (Api × List Call))
      → Returns (IsSettled []) r
      → Returns (IsGood []) (
          run_then
            (run_then r (modify λ a. record a { sentence = []; state = idle }))
            read_next_word)
  after_responses (ok (a, cs)) h = rw (append-nil cs) (after_response a cs h)
  after_responses aborted h = h

  pub end-IsGood :
      (a : Api)
      → is_open a ≡ true
      → a.send_queue ≡ []
      → IsTakenApart lex a.sentence
      → ¬ FailsReply lex keep a.sentence a.read_cbs
      → Returns (IsGood []) (end_sentence fmt md5 lex keep a)
  unfolding end_sentence
  end-IsGood a o q g f = after_responses (handle_response fmt md5 lex keep a.sentence a) (
      subst (λ l. Returns (IsSettled l) (handle_response fmt md5 lex keep a.sentence a)) q
        (handle_response-IsSettled fmt md5 lex keep a.sentence a o g f))

  pub end_twice_tagged :
      (a : Api)
      → is_open a ≡ true
      → is_valid_response a.sentence ≡ true
      → 2 ≤ length a.sentence
      → response_sentence lex a.sentence ≡ stopped
      → end_sentence fmt md5 lex keep a ≡ aborted
  unfolding end_sentence handle_response
  end_twice_tagged a o v n t = rw (o, v, long_enough a.sentence n, t) refl

  pub end_failing :
      (a : Api)
      → is_open a ≡ true
      → FailsReply lex keep a.sentence a.read_cbs
      → end_sentence fmt md5 lex keep a ≡ aborted
  unfolding end_sentence
  end_failing a o f = rw (FailsReply-aborts fmt md5 lex keep a.sentence a o f) refl

  prefix-IsGood :
      (p : Prefix) (a : Api)
      → a.sock_open ≡ true
      → a.state ≡ reading_length
      → length a.buffer ≡ 1
      → a.send_queue ≡ []
      → GoesOn p
      → Returns (IsGood []) (by_prefix fmt md5 lex keep p a)
  unfolding by_prefix fail is_open
  prefix-IsGood end_of_sentence a o i b q n = absurd n
  prefix-IsGood (short n) a o i b q d = rw (on_short fmt md5 lex keep a n o) (record {
    nothing_queued = q;
    expected = (o, ap (λ m. whole m ∷ []) (sym (length-resize n 0 a.buffer)));
  })
  prefix-IsGood (long high mbytes) a o i b q d = ground arith
  prefix-IsGood invalid a o i b q d = ground arith

  -- The first byte of a length, other than 0.
  pub first_byte-IsGood :
      (a : Api) (b : ℕ)
      → IsReady a
      → a.send_queue ≡ []
      → b ≢ 0
      → Returns (IsGood []) (read_completed fmt md5 lex keep none (b ∷ []) a)
  first_byte-IsGood a b r q n = rw (on_first_byte fmt md5 lex keep a b r) (
      prefix-IsGood (length_prefix b) (record a { buffer = b ∷ [] }) r.socket_open r.expects_length
        refl q (length_prefix-GoesOn b n))

  -- The further byte of a length of two bytes.
  pub further_byte-IsGood :
      (a : Api) (high x : ℕ)
      → IsReady a
      → a.send_queue ≡ []
      → Returns (IsGood []) (length_completed fmt md5 lex keep high 1 none (x ∷ []) a)
  further_byte-IsGood a high x r q = rw (on_length fmt md5 lex keep a high x r) (record {
    nothing_queued = q;
    expected = (
      r.socket_open,
      ap (λ m. whole m ∷ []) (sym (length-resize (join_length high (x ∷ [])) 0 (x ∷ []))),
    );
  })

  pub word-IsGood :
      (a : Api) (w : Bytes)
      → a.sock_open ≡ true
      → a.state ≡ reading_word
      → length a.buffer ≡ length w
      → 0 < length w
      → a.send_queue ≡ []
      → Returns (IsGood []) (read_completed fmt md5 lex keep none w a)
  word-IsGood a w o r n pos q =
      rw (on_word fmt md5 lex keep a w o r n pos)
        (record { nothing_queued = q; expected = (o, length-resize 1 0 w, refl) })

  pub empty_word-aborts :
      (a : Api) → is_open a ≡ true → read_completed fmt md5 lex keep none [] a ≡ aborted
  unfolding read_completed handle_read is_open
  empty_word-aborts a o = ground arith
