-- ===== src/RouterOs/Api/Connection/Ends.antt =====
-- The end of a read without an error on an open connection: the step returns, or it is one of `Fails`.
use tiksrv.Base.{
  ℕ, zero, suc, ◌≤◌, ◌≡◌, refl, sym, subst, Bool, true, none, List, [], ◌∷◌, Bytes, length, drop,
  aborted, arith, inl, inr,
}
use tiksrv.Base.Outcome.{Outcome}
use tiksrv.RouterOs.Sentence.{Fmt}
use tiksrv.RouterOs.Response.{LexicalCast}
use tiksrv.RouterOs.Password.{Md5}
use tiksrv.RouterOs.Api.State.{
  ReadState, idle, reading_length, reading_word, closed, Reply, is_open,
}
use tiksrv.RouterOs.Api.Portions.{Pending, whole, further, size}
use tiksrv.RouterOs.Api.Steps.{on_length_long}
use tiksrv.RouterOs.Api.Connection.{
  Allowed, may_open, may_connect, may_log_in, may_post, may_send, may_read, may_break, may_go,
  Event, read_done, running, Connection, IsSound, AwaitsLength, advance, Fails, second_tag,
  failing_reply, wide_length, empty_word,
}
use tiksrv.RouterOs.Api.Connection.Steps.{open_running}
use tiksrv.RouterOs.Api.Connection.Reads.{further_byte-IsGood, word-IsGood, empty_word-aborts}
use tiksrv.RouterOs.Api.Connection.FirstByte.{
  AtLength, at_length, Ends, good-IsSound, end-aborts, failing-aborts, Ends-first,
}

module _ (fmt : Fmt) (md5 : Md5) (lex : LexicalCast) (keep : ℕ → Reply → Outcome Bool) where
  Ends-further :
      (k : Connection) (high mbytes x : ℕ)
      → AtLength k
      → drop 1 k.pending ≡ []
      → 1 ≤ mbytes
      → Ends fmt md5 lex keep k (read_done (further high mbytes 1) none (x ∷ []))
  unfolding advance
  Ends-further k high zero x h d pos = absurd (omega arith)
  Ends-further k high (suc zero) x h d pos = inr (
      good-IsSound fmt md5 lex keep k (further high 1 1) (x ∷ []) _ h.runs d
        (further_byte-IsGood fmt md5 lex keep k.api high x h.ready h.queue))
  Ends-further k high (suc (suc n)) x h d pos = inl (
    rw (on_length_long fmt md5 lex keep k.api high (suc (suc n)) x h.ready (omega arith)) refl,
    wide_length high (suc (suc n)) 1 (x ∷ []) h.opened (omega arith),
  )

  Ends-word :
      (k : Connection) (bytes : Bytes)
      → IsSound k
      → is_open k.api ≡ true
      → k.api.state ≡ reading_word
      → k.pending ≡ whole (length k.api.buffer) ∷ []
      → length bytes ≡ length k.api.buffer
      → Ends fmt md5 lex keep k (read_done (whole (length k.api.buffer)) none bytes)
  unfolding advance
  Ends-word k [] s o r p n =
      inl (rw (empty_word-aborts fmt md5 lex keep k.api o) refl, empty_word _ [] o r refl)
  Ends-word k (b ∷ bs) s o r p n = inr (
      good-IsSound fmt md5 lex keep k (whole (length k.api.buffer)) (b ∷ bs) _ (open_running k s o)
        (rw p refl)
        (word-IsGood fmt md5 lex keep k.api (b ∷ bs) (ground arith) r (sym n) (omega arith)
          s.nothing_queued))

  -- While a length is awaited.
  Ends-length :
      (k : Connection) (p : Pending) (ps : List Pending) (bytes : Bytes)
      → AtLength k
      → AwaitsLength (p ∷ ps)
      → k.pending ≡ p ∷ ps
      → length bytes ≡ size p
      → Ends fmt md5 lex keep k (read_done p none bytes)
  Ends-length k (whole n) [] (b ∷ []) h w e m = rw w (Ends-first fmt md5 lex keep k b h (rw e refl))
  Ends-length k (further high mbytes room) [] (x ∷ []) h (one, pos) e m =
      rw one (Ends-further k high mbytes x h (rw e refl) pos)
  Ends-length k (whole n) [] [] h w e m = absurd (omega arith)
  Ends-length k (whole n) [] (b ∷ c ∷ bs) h w e m = absurd (omega arith)
  Ends-length k (further high mbytes room) [] [] h w e m = absurd (omega arith)
  Ends-length k (further high mbytes room) [] (b ∷ c ∷ bs) h w e m = absurd (omega arith)
  Ends-length k (whole n) (q ∷ ps) bytes h w e m = absurd w
  Ends-length k (further high mbytes room) (q ∷ ps) bytes h w e m = absurd w

  -- The further bytes of a length of three bytes or more.
  wide-aborts :
      (k : Connection) (high mbytes room : ℕ) (ps : List Pending) (bytes : Bytes)
      → AtLength k
      → AwaitsLength (further high mbytes room ∷ ps)
      → length bytes ≡ room
      → 2 ≤ mbytes
      → advance fmt md5 lex keep (read_done (further high mbytes room) none bytes) k ≡ aborted
  unfolding advance
  wide-aborts k high mbytes room [] (x ∷ []) h w m wide =
      rw (on_length_long fmt md5 lex keep k.api high mbytes x h.ready wide) refl
  wide-aborts k high mbytes room [] [] h w m wide = absurd (omega arith)
  wide-aborts k high mbytes room [] (b ∷ c ∷ bs) h w m wide = absurd (omega arith)
  wide-aborts k high mbytes room (q ∷ ps) bytes h w m wide = absurd w

  empty-aborts :
      (k : Connection) (n : ℕ)
      → is_open k.api ≡ true
      → advance fmt md5 lex keep (read_done (whole n) none []) k ≡ aborted
  unfolding advance
  empty-aborts k n o = rw (empty_word-aborts fmt md5 lex keep k.api o) refl

  awaited :
      (k : Connection) (ps : List Pending)
      → IsSound k
      → k.phase ≡ running
      → k.api.state ≡ reading_length
      → k.pending ≡ ps
      → AwaitsLength ps
  awaited k ps s f r e = subst AwaitsLength e (rw (f, r) at s.expected).2

  further_at_length :
      (k : Connection) (high mbytes room : ℕ) (ps : List Pending)
      → IsSound k
      → is_open k.api ≡ true
      → k.pending ≡ further high mbytes room ∷ ps
      → k.api.state ≡ reading_length
  unfolding is_open
  further_at_length k high mbytes room ps s o e = ground arith

  -- What `Fails` names does end the program.
  pub Fails-aborts :
      (k : Connection) (ev : Event)
      → IsSound k
      → Allowed k ev
      → Fails lex keep k ev
      → advance fmt md5 lex keep ev k ≡ aborted
  Fails-aborts k _ s (may_read (whole n) ps bytes e m) (second_tag _ _ o r z v l t) =
      rw z (end-aborts fmt md5 lex keep k n (at_length k s o r) v l t)
  Fails-aborts k _ s (may_read (whole n) ps bytes e m) (failing_reply _ _ o r z f) =
      rw z (failing-aborts fmt md5 lex keep k n (at_length k s o r) f)
  Fails-aborts k _ s (may_read (further high mbytes room) ps bytes e m) (wide_length _ _ _ _ o w) =
      let r = further_at_length k high mbytes room ps s o e in
      wide-aborts k high mbytes room ps bytes (at_length k s o r)
        (awaited k _ s (open_running k s o) r e) m w
  Fails-aborts k _ s (may_read (whole n) ps bytes e m) (empty_word _ _ o r z) =
      rw z (empty-aborts k n o)
  Fails-aborts k _ s (may_open bad_address host port cb f) x = elim x [ ]
  Fails-aborts k _ s (may_connect cb err f) x = elim x [ ]
  Fails-aborts k _ s (may_log_in name password cb) x = elim x [ ]
  Fails-aborts k _ s (may_post req cb) x = elim x [ ]
  Fails-aborts k _ s (may_send req cb err) x = elim x [ ]
  Fails-aborts k _ s (may_break p ps bytes err e m) x = elim x [ ]
  Fails-aborts k _ s may_go x = elim x [ ]

  pub Ends-read :
      (k : Connection) (p : Pending) (ps : List Pending) (bytes : Bytes) (r : ReadState)
      → IsSound k
      → is_open k.api ≡ true
      → k.api.state ≡ r
      → k.pending ≡ p ∷ ps
      → length bytes ≡ size p
      → Ends fmt md5 lex keep k (read_done p none bytes)
  unfolding is_open
  Ends-read k p ps bytes idle s o i e m = absurd (ground arith)
  Ends-read k p ps bytes closed s o i e m = absurd (ground arith)
  Ends-read k p ps bytes reading_length s o i e m =
      Ends-length k p ps bytes (at_length k s o i) (awaited k (p ∷ ps) s (open_running k s o) i e) e
        m
  Ends-read k p ps bytes reading_word s o i e m =
      let f = open_running k s o in
      let w : k.pending ≡ whole (length k.api.buffer) ∷ [] = (rw (f, i) at s.expected).1 in
      let same : p ≡ whole (length k.api.buffer) = cc in
      rw same (Ends-word k bytes s o i w (rw same at m))
