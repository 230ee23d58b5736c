-- ===== src/RouterOs/Api/Connection/Steps.antt =====
-- Each event that is no read keeps an API connection sound, and no assertion of api.cpp fails.
use tiksrv.Base.{
  ℕ, ◌≤◌, ◌≡◌, refl, Bool, true, false, Option, none, some, List, [], ◌∷◌, ◌++◌, Bytes, length,
  Returns, ok, arith, append-nil, length-resize, Bool-cases, inl, inr,
}
use tiksrv.Base.Outcome.{Outcome}
use tiksrv.RouterOs.Sentence.{Fmt, RequestSentence}
use tiksrv.RouterOs.Response.{LexicalCast}
use tiksrv.RouterOs.Password.{Md5}
use tiksrv.RouterOs.Api.State.{
  ErrorCode, closed, Reply, failure, Handler, Callback, login1_reply, login2_reply, other, Api,
  Call, finished, reply, is_open, close, login, open_connection, not_connected,
}
use tiksrv.RouterOs.Api.Sending.{send_posted, send_completed, invoke, call_back, completed}
use tiksrv.RouterOs.Api.Reading.{connect_completed}
use tiksrv.RouterOs.Api.Portions.{Pending, pending_of}
use tiksrv.RouterOs.Api.Early.{posted_open}
use tiksrv.RouterOs.Api.Exchange.{on_sent}
use tiksrv.RouterOs.Api.Settled.{reports}
use tiksrv.RouterOs.Api.Connection.{
  opening, connected, logging_in, posted, send_done, session_gone, fresh, connecting, running,
  Connection, IsSound, created, destroy, advance,
}

pub created-IsSound : IsSound created
created-IsSound = record { nothing_queued = refl; expected = (refl, refl, refl) }

pub open_running : (k : Connection) → IsSound k → is_open k.api ≡ true → k.phase ≡ running
unfolding is_open
open_running k s o = ground arith

pub at_most_one : (k : Connection) → IsSound k → length k.pending ≤ 1
at_most_one k s = ground arith

-- A connection that is closed with its socket, with at most one read under way.
pub shut-IsSound :
    (a : Api) (ps : List Pending)
    → a.state ≡ closed
    → a.send_queue ≡ []
    → length ps ≤ 1
    → IsSound (record { api = a; phase = running; pending = ps })
shut-IsSound a ps c q n = ground arith

-- What the state of the reader rests on does not change, and no read starts.
pub still-IsSound :
    (k : Connection) (a : Api) (cs : List Call)
    → IsSound k
    → a.sock_open ≡ k.api.sock_open
    → a.state ≡ k.api.state
    → a.buffer ≡ k.api.buffer
    → a.send_queue ≡ []
    → pending_of cs ≡ []
    → IsSound (record { api = a; phase = k.phase; pending = k.pending ++ pending_of cs })
still-IsSound k a cs s o r b q n = rw (n, append-nil k.pending) (ground arith)

-- What is called when a function that waits is told of an error.
abbrev pub told : ErrorCode → Callback → Call
told err (login1_reply name password h) = finished h (some err)
told err (login2_reply h) = finished h (some err)
told err (other k) = reply k (failure err)

pub told-quiet :
    (err : ErrorCode) (cb : Callback)
    → (pending_of (told err cb ∷ []) ≡ []) × (reports (told err cb ∷ []) ≡ false)
told-quiet err (login1_reply name password h) = (refl, refl)
told-quiet err (login2_reply h) = (refl, refl)
told-quiet err (other k) = (refl, refl)

module _ (fmt : Fmt) (md5 : Md5) where
  -- The functions that wait take an error without an exception.
  invoke_failure :
      (cb : Callback) (err : ErrorCode) (a : Api)
      → invoke fmt md5 cb (failure err) a ≡ completed a (told err cb ∷ [])
  unfolding invoke
  invoke_failure (login1_reply name password h) err a = refl
  invoke_failure (login2_reply h) err a = refl
  invoke_failure (other k) err a = refl

  pub posted_shut :
      (req : RequestSentence) (cb : Callback) (a : Api)
      → is_open a ≡ false
      → a.send_queue ≡ []
      → send_posted fmt md5 req cb a ≡ ok (record a { send_queue = [] }, told not_connected cb ∷ [])
  unfolding send_posted call_back is_open
  posted_shut req cb a o q =
      rw (q, o, invoke_failure cb not_connected (record a { send_queue = [] })) refl

  pub sent_shut :
      (req : RequestSentence) (cb : Callback) (err : Option ErrorCode) (a : Api)
      → is_open a ≡ false
      → send_completed fmt md5 req cb err a ≡ ok (a, told not_connected cb ∷ [])
  unfolding send_completed call_back
  sent_shut req cb err a o = rw (o, invoke_failure cb not_connected a) refl

  -- `cb(err, {})` and `close`.
  pub sent_failed :
      (req : RequestSentence) (cb : Callback) (x : ErrorCode) (a : Api)
      → is_open a ≡ true
      → a.send_queue ≡ []
      → send_completed fmt md5 req cb (some x) a
        ≡ ok (record a { sock_open = false; state = closed }, told x cb ∷ [])
  unfolding send_completed close is_open
  sent_failed req cb x a o q = rw (o, invoke_failure cb x a) (ground arith)

module _ (fmt : Fmt) (md5 : Md5) (lex : LexicalCast) (keep : ℕ → Reply → Outcome Bool) where
  pub open-IsSound :
      (k : Connection) (bad : Option ErrorCode) (host : Bytes) (port : ℕ) (cb : Handler)
      → IsSound k
      → k.phase ≡ fresh
      → Returns IsSound (advance fmt md5 lex keep (opening bad host port cb) k)
  unfolding advance open_connection
  open-IsSound k none host port cb s f = ground arith
  open-IsSound k (some x) host port cb s f = ground arith

  pub connect-IsSound :
      (k : Connection) (cb : Handler) (err : Option ErrorCode)
      → IsSound k
      → k.phase ≡ connecting
      → Returns IsSound (advance fmt md5 lex keep (connected cb err) k)
  unfolding advance connect_completed
  connect-IsSound k cb none s f = ground (arith, length-resize 1 0 k.api.buffer)
  connect-IsSound k cb (some x) s f = ground arith

  pub log_in-IsSound :
      (k : Connection) (name password : Bytes) (cb : Handler)
      → IsSound k
      → Returns IsSound (advance fmt md5 lex keep (logging_in name password cb) k)
  unfolding advance login
  log_in-IsSound k name password cb s = still-IsSound k _ [] s refl refl refl s.nothing_queued refl

  pub post-IsSound :
      (k : Connection) (req : RequestSentence) (cb : Callback)
      → IsSound k
      → Returns IsSound (advance fmt md5 lex keep (posted req cb) k)
  unfolding advance
  post-IsSound k req cb s = elim (Bool-cases (is_open k.api)) [
    | inl o ↦
        rw (posted_open fmt md5 req cb k.api o s.nothing_queued)
          (still-IsSound k k.api [] s refl refl refl s.nothing_queued refl)
    | inr o ↦ rw (posted_shut fmt md5 req cb k.api o s.nothing_queued) (
        still-IsSound k _ (told not_connected cb ∷ []) s refl refl refl refl
          (told-quiet not_connected cb).0)
  ]

  sent-IsSound :
      (k : Connection) (req : RequestSentence) (cb : Callback) (err : Option ErrorCode)
      → IsSound k
      → is_open k.api ≡ true
      → Returns IsSound (advance fmt md5 lex keep (send_done req cb err) k)
  unfolding advance
  sent-IsSound k req cb none s o =
      rw (on_sent fmt md5 req cb k.api o s.nothing_queued)
        (still-IsSound k _ [] s refl refl refl s.nothing_queued refl)
  sent-IsSound k req cb (some x) s o =
      rw
        (
          sent_failed fmt md5 req cb x k.api o s.nothing_queued,
          open_running k s o,
          (told-quiet x cb).0,
          append-nil k.pending,
        )
        (shut-IsSound _ k.pending refl s.nothing_queued (at_most_one k s))

  pub send-IsSound :
      (k : Connection) (req : RequestSentence) (cb : Callback) (err : Option ErrorCode)
      → IsSound k
      → Returns IsSound (advance fmt md5 lex keep (send_done req cb err) k)
  unfolding advance
  send-IsSound k req cb err s = elim (Bool-cases (is_open k.api)) [
    | inl o ↦ sent-IsSound k req cb err s o
    | inr o ↦ rw (sent_shut fmt md5 req cb err k.api o) (
        still-IsSound k k.api (told not_connected cb ∷ []) s refl refl refl s.nothing_queued
          (told-quiet not_connected cb).0)
  ]

  pub go-IsSound :
      (k : Connection) → IsSound k → Returns IsSound (advance fmt md5 lex keep session_gone k)
  unfolding advance destroy
  go-IsSound k s = ground (arith, append-nil k.pending, at_most_one k s)
