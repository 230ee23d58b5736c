-- ===== src/RouterOs/Api/Connection/Safety.antt =====
-- What holds of an API connection after any history.
use tiksrv.Base.{
  ℕ, ◌≡◌, ◌≢◌, refl, Bool, none, some, ok, aborted, Returns-eq_ok, Returns-exists, Bool-cases, inl,
  inr, ◌⊎◌,
}
use tiksrv.Base.Outcome.{Outcome}
use tiksrv.RouterOs.Sentence.{Fmt}
use tiksrv.RouterOs.Response.{LexicalCast}
use tiksrv.RouterOs.Password.{Md5}
use tiksrv.RouterOs.Api.State.{Reply, is_open}
use tiksrv.RouterOs.Api.Connection.{
  Event, Connection, Allowed, may_open, may_connect, may_log_in, may_post, may_send, may_read,
  may_break, may_go, IsSound, created, advance, Reaches, here, next, Fails,
}
use tiksrv.RouterOs.Api.Connection.Steps.{
  created-IsSound, open-IsSound, connect-IsSound, log_in-IsSound, post-IsSound, send-IsSound,
  go-IsSound,
}
use tiksrv.RouterOs.Api.Connection.Reads.{shut-IsSound_read, break-IsSound}
use tiksrv.RouterOs.Api.Connection.FirstByte.{Ends}
use tiksrv.RouterOs.Api.Connection.Ends.{Ends-read, Fails-aborts}

module _ (fmt : Fmt) (md5 : Md5) (lex : LexicalCast) (keep : ℕ → Reply → Outcome Bool) where
  advance-Ends :
      (k : Connection) (ev : Event) → IsSound k → Allowed k ev → Ends fmt md5 lex keep k ev
  advance-Ends k _ s (may_open bad host port cb f) =
      inr (open-IsSound fmt md5 lex keep k bad host port cb s f)
  advance-Ends k _ s (may_connect cb err f) = inr (connect-IsSound fmt md5 lex keep k cb err s f)
  advance-Ends k _ s (may_log_in name password cb) =
      inr (log_in-IsSound fmt md5 lex keep k name password cb s)
  advance-Ends k _ s (may_post req cb) = inr (post-IsSound fmt md5 lex keep k req cb s)
  advance-Ends k _ s (may_send req cb err) = inr (send-IsSound fmt md5 lex keep k req cb err s)
  advance-Ends k _ s (may_read p ps bytes r m) = elim (Bool-cases (is_open k.api)) [
    | inl o ↦ Ends-read fmt md5 lex keep k p ps bytes k.api.state s o refl r m
    | inr o ↦ inr (shut-IsSound_read fmt md5 lex keep k p ps none bytes s r o)
  ]
  advance-Ends k _ s (may_break p ps bytes x r m) = elim (Bool-cases (is_open k.api)) [
    | inl o ↦ inr (break-IsSound fmt md5 lex keep k p ps x bytes s r o)
    | inr o ↦ inr (shut-IsSound_read fmt md5 lex keep k p ps (some x) bytes s r o)
  ]
  advance-Ends k _ s may_go = inr (go-IsSound fmt md5 lex keep k s)

  -- Not both.
  returns_or_aborts :
      (k m : Connection) (ev : Event)
      → advance fmt md5 lex keep ev k ≡ ok m
      → advance fmt md5 lex keep ev k ≢ aborted
  returns_or_aborts k m ev h a = cc

  IsSound-advance :
      (k m : Connection) (ev : Event)
      → Ends fmt md5 lex keep k ev
      → advance fmt md5 lex keep ev k ≡ ok m
      → IsSound m
  IsSound-advance k m ev (inl (a, f)) h = absurd (returns_or_aborts k m ev h a)
  IsSound-advance k m ev (inr p) h = Returns-eq_ok IsSound (advance fmt md5 lex keep ev k) p h

  pub Reaches-IsSound : {k m : Connection} → IsSound k → Reaches fmt md5 lex keep k m → IsSound m
  Reaches-IsSound s here = s
  Reaches-IsSound s (next {l} {m} ev r a h) =
      let t = Reaches-IsSound s r in IsSound-advance l m ev (advance-Ends l ev t a) h

  -- After any history of a new connection to a router that has ended no program, an event that
  -- `Allowed` admits either is one of `Fails` and ends the program, or it is none of them and returns
  -- with the connection sound. `Fails` names four, all on an open connection: the end of a sentence
  -- that starts with `!`, has two words or more and fails an assertion when it is taken apart; the end
  -- of one that is a response for a waiting function that fails an assertion on it; the end
  -- of the read of the further bytes of a length that has two or more of them; and the end of the
  -- read of a word without bytes. Sound means that no request is queued; that an open connection
  -- has one read under way, of the first byte of a length, of its further bytes, into one byte, or of
  -- a word, into a buffer of its size; that one which is closed has one at most; and that the reader
  -- is idle only when the socket is closed. This holds when the functions given to `open` and `login`
  -- and the handler of errors return, and so do the functions given to `send` on an error.
  pub advance_cases :
      {m : Connection} (ev : Event)
      → Reaches fmt md5 lex keep created m
      → Allowed m ev
      → ((advance fmt md5 lex keep ev m ≡ aborted) × Fails lex keep m ev)
        ⊎ ((m' : Connection) × (advance fmt md5 lex keep ev m ≡ ok m')
            × IsSound m'
            × (¬ Fails lex keep m ev))
  advance_cases {m} ev r a =
      let s = Reaches-IsSound created-IsSound r in
      elim (advance-Ends m ev s a) [
        | inl f ↦ inl f
        | inr p ↦
            let (m', h, t) = Returns-exists IsSound (advance fmt md5 lex keep ev m) p in
            inr (
              m',
              h,
              t,
              λ f. returns_or_aborts m m' ev h (Fails-aborts fmt md5 lex keep m ev s a f),
            )
      ]
