-- ===== src/RouterOs/Api/Connection/Closed.antt =====
-- A connection that has been closed stays closed, and tells nobody.
use tiksrv.Base.{
  ℕ, ◌≡◌, refl, ◌∙◌, Bool, true, false, none, some, List, [], ◌∷◌, ok, Returns, Returns-eq_ok,
  arith,
}
use tiksrv.Base.Outcome.{Outcome}
use tiksrv.RouterOs.Sentence.{Fmt, RequestSentence}
use tiksrv.RouterOs.Response.{LexicalCast}
use tiksrv.RouterOs.Password.{Md5, login1}
use tiksrv.RouterOs.Api.State.{
  ErrorCode, Reply, Callback, Api, Call, is_open, login, login1_reply, post, aquire_unique_tag,
  not_connected,
}
use tiksrv.RouterOs.Api.Connection.{
  Event, logging_in, posted, send_done, running, Connection, Allowed, may_open, may_connect,
  may_log_in, may_post, may_send, may_read, may_break, may_go, IsSound, created, destroy, handle,
  phase_after, advance, Reaches, here, next,
}
use tiksrv.RouterOs.Api.Connection.Steps.{
  told, posted_shut, sent_shut, sent_failed, created-IsSound, open_running,
}
use tiksrv.RouterOs.Api.Connection.Reads.{shut_read}
use tiksrv.RouterOs.Api.Connection.Safety.{Reaches-IsSound}

-- Neither being opened nor open.
pub record IsClosed (k : Connection) : Type 0 where
  pub runs : k.phase ≡ running
  pub shut : is_open k.api ≡ false
  pub queue : k.api.send_queue ≡ []

-- The calls that an event makes on a connection that is closed: the function of a request is told so.
abbrev pub silent_calls : Fmt → Event → Api → List Call
silent_calls fmt (logging_in name password cb) a =
    post (login1 fmt a.current_tag) (login1_reply name password cb) ∷ []
silent_calls fmt (posted req cb) a = told not_connected cb ∷ []
silent_calls fmt (send_done req cb err) a = told not_connected cb ∷ []
silent_calls fmt ev a = []

module _ (fmt : Fmt) (md5 : Md5) (lex : LexicalCast) (keep : ℕ → Reply → Outcome Bool) where
  -- Neither the socket nor the reader, nor the functions that wait, change.
  abbrev pub Silent : Connection → Event → Type 0
  Silent k ev =
      (a : Api) × (handle fmt md5 lex keep ev k.api ≡ ok (a, silent_calls fmt ev k.api))
      × (is_open a ≡ false)
      × (a.send_queue ≡ [])
      × (a.read_cbs ≡ k.api.read_cbs)

  closed-Silent : (k : Connection) (ev : Event) → IsClosed k → Allowed k ev → Silent k ev
  unfolding is_open login aquire_unique_tag destroy
  closed-Silent k _ s (may_open bad host port cb f) = absurd (ground arith)
  closed-Silent k _ s (may_connect cb err f) = absurd (ground arith)
  closed-Silent k _ s (may_log_in name password cb) = (_, refl, s.shut, s.queue, refl)
  closed-Silent k _ s (may_post req cb) =
      (_, posted_shut fmt md5 req cb k.api s.shut s.queue, s.shut, refl, refl)
  closed-Silent k _ s (may_send req cb err) =
      (k.api, sent_shut fmt md5 req cb err k.api s.shut, s.shut, s.queue, refl)
  closed-Silent k _ s (may_read p ps bytes e m) =
      (_, shut_read fmt md5 lex keep p none bytes k.api s.shut, s.shut, s.queue, refl)
  closed-Silent k _ s (may_break p ps bytes x e m) =
      (_, shut_read fmt md5 lex keep p (some x) bytes k.api s.shut, s.shut, s.queue, refl)
  closed-Silent k _ s may_go = (k.api, rw s.shut refl, s.shut, s.queue, refl)

  phase_still :
      (k : Connection) (ev : Event)
      → k.phase ≡ running
      → Allowed k ev
      → phase_after ev k.phase ≡ running
  phase_still k _ f (may_open bad host port cb e) = absurd (ground arith)
  phase_still k _ f (may_connect cb err e) = refl
  phase_still k _ f (may_log_in name password cb) = f
  phase_still k _ f (may_post req cb) = f
  phase_still k _ f (may_send req cb err) = f
  phase_still k _ f (may_read p ps bytes e m) = f
  phase_still k _ f (may_break p ps bytes x e m) = f
  phase_still k _ f may_go = f

  -- Closed, with the functions that waited before.
  abbrev pub StaysClosed : Connection → Connection → Type 0
  StaysClosed k m = IsClosed m × (m.api.read_cbs ≡ k.api.read_cbs)

  advance-StaysClosed :
      (k : Connection) (ev : Event)
      → IsClosed k
      → Allowed k ev
      → Returns (StaysClosed k) (advance fmt md5 lex keep ev k)
  unfolding advance
  advance-StaysClosed k ev s w =
      let (a, done, shut, queue, same) = closed-Silent k ev s w in
      rw done (record { runs = phase_still k ev s.runs w; shut = shut; queue = queue }, same)

  pub Reaches-StaysClosed :
      {k m : Connection} → IsClosed k → Reaches fmt md5 lex keep k m → StaysClosed k m
  Reaches-StaysClosed s here = (s, refl)
  Reaches-StaysClosed s (next {l} ev r w h) =
      let (t, same) = Reaches-StaysClosed s r in
      let (u, still) =
        Returns-eq_ok (StaysClosed l) (advance fmt md5 lex keep ev l) (advance-StaysClosed l ev t w)
          h in
      (u, still ∙ same)

  -- A send that fails on an open connection closes it, and the function of its request is told so.
  abbrev pub IsFailed : Connection → RequestSentence → Callback → ErrorCode → Connection → Type 0
  IsFailed k req cb x l =
      (handle fmt md5 lex keep (send_done req cb (some x)) k.api ≡ ok (l.api, told x cb ∷ []))
      × StaysClosed k l

  pub advance-IsFailed :
      {k l : Connection} (req : RequestSentence) (cb : Callback) (x : ErrorCode)
      → IsSound k
      → is_open k.api ≡ true
      → advance fmt md5 lex keep (send_done req cb (some x)) k ≡ ok l
      → IsFailed k req cb x l
  unfolding advance is_open
  advance-IsFailed {k} req cb x s o h =
      Returns-eq_ok (IsFailed k req cb x) (advance fmt md5 lex keep (send_done req cb (some x)) k)
        (rw (sent_failed fmt md5 req cb x k.api o s.nothing_queued) (
          sent_failed fmt md5 req cb x k.api o s.nothing_queued,
          (record { runs = open_running k s o; shut = refl; queue = s.nothing_queued }, refl),
        ))
        h

  -- When a send fails on an open connection to a router, the function of its request is told so, and
  -- the connection is closed without a report to its handler. From then on, through any history, it is
  -- not open, each event returns, the functions of the requests that had been sent before are never
  -- called, and those of later requests are told not_connected.
  pub failed_send-Silent :
      {k l m : Connection} (req : RequestSentence) (cb : Callback) (x : ErrorCode) (ev : Event)
      → Reaches fmt md5 lex keep created k
      → is_open k.api ≡ true
      → advance fmt md5 lex keep (send_done req cb (some x)) k ≡ ok l
      → Reaches fmt md5 lex keep l m
      → Allowed m ev
      → (handle fmt md5 lex keep (send_done req cb (some x)) k.api ≡ ok (l.api, told x cb ∷ []))
        × (is_open m.api ≡ false)
        × (m.api.read_cbs ≡ k.api.read_cbs)
        × Silent m ev
  failed_send-Silent req cb x ev r o h t w =
      let s = Reaches-IsSound fmt md5 lex keep created-IsSound r in
      let (told_so, (closed, waiting)) = advance-IsFailed req cb x s o h in
      let (still, same) = Reaches-StaysClosed closed t in
      (told_so, still.shut, same ∙ waiting, closed-Silent _ ev still w)
