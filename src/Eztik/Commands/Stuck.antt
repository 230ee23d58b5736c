-- ===== src/Eztik/Commands/Stuck.antt =====
-- What a client sees when the connection of its session has failed.
use tiksrv.Base.{
  ℕ, ◌≡◌, refl, ap, ◌∙◌, Bool, true, false, Option, some, [], ◌∷◌, ok, ◌==◌, if◌then◌else◌, ==_refl,
  arith, Bool-cases, inl, inr,
}
use tiksrv.Net.Message.{Request, operation_pending, response_code}
use tiksrv.Base.Outcome.{Outcome}
use tiksrv.RouterOs.Sentence.{Fmt, RequestSentence}
use tiksrv.RouterOs.Response.{LexicalCast}
use tiksrv.RouterOs.Password.{Md5}
use tiksrv.RouterOs.Api.State
use tiksrv.RouterOs.Api.State.{Api, ErrorCode, Reply, Callback, is_open, fail}
use tiksrv.RouterOs.Api.Connection.{Connection, send_done, created, advance, Reaches}
use tiksrv.RouterOs.Api.Connection.Closed.{advance-IsFailed, Reaches-StaysClosed}
use tiksrv.RouterOs.Api.Connection.Steps.{created-IsSound}
use tiksrv.RouterOs.Api.Connection.Safety.{Reaches-IsSound}
use tiksrv.Eztik.Sessions
use tiksrv.Eztik.Sessions.{
  Handler, Session, Sessions, Config, readable, find_session, is_ready, on_close,
}
use tiksrv.Eztik.Sessions.Closing.{IsKept, IsErased, closing_calls, on_close_lem}
use tiksrv.Eztik.Commands.{
  Eztik, ros_session_not_open, make_response_code, on_sessions, session_effects, open_execute,
}
use tiksrv.Eztik.Commands.Requests.{Messages, send_command, load_command}
use tiksrv.Eztik.Commands.Guard.{refusal, commands-session}
use tiksrv.Eztik.Commands.Opening.{on_sessions_ok}

unready : (apis : ℕ → Api) (s : Session) → is_open (apis s.api) ≡ false → is_ready apis s ≡ false
unfolding is_ready
unready apis s o = rw o refl

module _ (conf : Config) (fmt : Fmt) (msgs : Messages) where
  -- A session whose connection is not open.
  refuses_all :
      (client : ℕ) (req : Request) (s : Session) (h : Handler) (t : Eztik)
      → find_session client t.sessions.entries ≡ some (s, h)
      → is_open (t.apis s.api) ≡ false
      → (open_execute (readable conf) client req t
          ≡ refusal client req t (response_code operation_pending))
        × (send_command fmt msgs client req t
            ≡ refusal client req t (make_response_code ros_session_not_open))
        × (load_command fmt msgs client req t
            ≡ refusal client req t (make_response_code ros_session_not_open))
  refuses_all client req s h t f o =
      let (send, load, open_so) = commands-session client req t conf fmt msgs (some (s, h)) f in
      let pick = unready t.apis s o in
      (open_so ∙ rw pick refl, send ∙ rw pick refl, load ∙ rw pick refl)

  module _ (md5 : Md5) (lex : LexicalCast) (keep : ℕ → Reply → Outcome Bool) where
    -- Once a send has failed on the open connection of a client's session, whatever happens to the
    -- connection later, the session is of no use as long as it stands under its client: each request
    -- of the client to open a session is answered with operation_pending, and each to send or to load
    -- with ros_session_not_open, and nothing else happens or changes.
    pub failed_send-refuses :
        {k l m : Connection} (out : RequestSentence) (cb : Callback) (x : ErrorCode) (client : ℕ)
        (req : Request) (s : Session) (h : Handler) (t : Eztik)
        → Reaches fmt md5 lex keep created k
        → is_open k.api ≡ true
        → advance fmt md5 lex keep (send_done out cb (some x)) k ≡ ok l
        → Reaches fmt md5 lex keep l m
        → find_session client t.sessions.entries ≡ some (s, h)
        → t.apis s.api ≡ m.api
        → (open_execute (readable conf) client req t
            ≡ refusal client req t (response_code operation_pending))
          × (send_command fmt msgs client req t
              ≡ refusal client req t (make_response_code ros_session_not_open))
          × (load_command fmt msgs client req t
              ≡ refusal client req t (make_response_code ros_session_not_open))
    failed_send-refuses out cb x client req s h t r o a later f at =
        let sound = Reaches-IsSound fmt md5 lex keep created-IsSound r in
        let (told_so, (closed, waiting)) = advance-IsFailed fmt md5 lex keep out cb x sound o a in
        let (still, same) = Reaches-StaysClosed fmt md5 lex keep closed later in
        refuses_all client req s h t f (ap is_open at ∙ still.shut)

-- The plugin's state when a connection is in the given state.
abbrev pub with_api : ℕ → Api → Eztik → Eztik
with_api n a t = record t { apis = λ k. if k == n then a else t.apis k }

-- What `api::on_error` leaves.
fail_closed :
    (err : ErrorCode) (a : Api)
    → (b : Api) × (fail err a ≡ ok (b, State.on_error err ∷ [])) × (is_open b ≡ false)
unfolding fail is_open
fail_closed err a = elim (Bool-cases (is_open a)) [
  | inl o ↦ (record a { sock_open = false; state = State.closed }, ground arith, refl)
  | inr o ↦ (a, ground arith, o)
]

closing_calls-unready :
    (apis : ℕ → Api) (s : Session) (h : Handler) (e : Option (Session × Handler))
    → e ≡ some (s, h)
    → is_ready apis s ≡ false
    → closing_calls apis e ≡ []
closing_calls-unready apis s h e f r = rw (f, r) refl

-- When the connection of a session meets an error, `api::on_error` closes it and calls the session's
-- `on_error`, which finds it closed: the session is removed and all others are as they were, but the
-- function that was given for its closing is never called, and so its client gets no response. This
-- holds for each error and in each state of the connection, while each session stands under its own
-- id.
pub on_error-untold :
    (err : ErrorCode) (a : Api) (s : Session) (h : Handler) (t : Eztik)
    → IsKept t.sessions
    → find_session s.id t.sessions.entries ≡ some (s, h)
    → (b : Api) × (u : Eztik) × (fail err a ≡ ok (b, State.on_error err ∷ []))
      × (on_sessions (λ apis. Sessions.on_error apis s err) (with_api s.api b t) ≡ ok (u, []))
      × IsErased s.id t.sessions u.sessions
unfolding Sessions.on_error session_effects
on_error-untold err a s h t k f =
    let (b, failed, shut) = fail_closed err a in
    let v = with_api s.api b t in
    let r = unready v.apis s (rw (==_refl s.api) shut) in
    let (w, closes, erased, kept) = on_close_lem v.apis s.id t.sessions k in
    (
      b,
      record v { sessions = w },
      failed,
      on_sessions_ok (λ apis. Sessions.on_error apis s err) v
          (closes ∙ ap (λ cs. ok (w, cs)) (closing_calls-unready v.apis s h _ f r)),
      erased,
    )
