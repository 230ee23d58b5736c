-- ===== src/Eztik/Commands/Opening.antt =====
-- A request to open a session, to its end: plugins/eztik/commands/src/api_open_command.cpp and
-- plugins/eztik/services/src/sessions_service.cpp.
use tiksrv.Base.{ℕ, ◌≡◌, refl, Bool, true, false, none, some, List, [], ◌∷◌, ok, Act, ◌>>◌, reading}
use tiksrv.Net.Message.{Request, success, response_code}
use tiksrv.Net.Client.{build_response}
use tiksrv.RouterOs.Api.State.{Api, ErrorCode}
use tiksrv.Eztik.Sessions
use tiksrv.Eztik.Sessions.{
  Handler, Session, Sessions, Config, readable, open_api, login_api, close_cb, find_session,
  has_session, has_ready, is_ready, on_error, on_close, create, api_opened, api_logged_in,
}
use tiksrv.Eztik.Sessions.Closing.{IsKept}
use tiksrv.Eztik.Sessions.Opening.{made, with_made, create_missing}
use tiksrv.Eztik.Commands.{
  Eztik, Call, answer, session_call, ros_session_open_failed, make_response_code, on_sessions,
  session_effects, open_execute,
}

-- The functions of a request have captured its client and its tag.
abbrev pub handler_of : ℕ → Request → Handler
handler_of client req = record { client = client; tag = req.header.tag }

pub on_sessions_ok :
    (act : (ℕ → Api) → Act Sessions Sessions.Call) (t : Eztik) {u : Sessions}
    {cs : List Sessions.Call}
    → act t.apis t.sessions ≡ ok (u, cs)
    → on_sessions act t ≡ session_effects cs (record t { sessions = u })
unfolding on_sessions
on_sessions_ok act t h = rw (on_sessions, h) refl

pub open_missing :
    (conf : Config) (client : ℕ) (req : Request) (t : Eztik)
    → find_session client t.sessions.entries ≡ none
    → open_execute (readable conf) client req t
      ≡ ok (
        record t { sessions = with_made client (handler_of client req) t.sessions },
        session_call (
              open_api
                (made client t.sessions)
                (handler_of client req)
                conf.ros_ip
                conf.ros_api_port)
            ∷ [],
      )
unfolding open_execute has_ready has_session session_effects
open_missing conf client req t m =
    rw (open_execute, m)
      (on_sessions_ok
        (λ apis. create apis (readable conf) client (handler_of client req) (handler_of client req))
        t
        (create_missing t.apis conf client (handler_of client req) (handler_of client req)
          t.sessions m))

-- While a session is on its way: it stands under its client, with the functions of the request, and
-- its connection is ready or not.
pub record Awaits (s : Session) (h : Handler) (ready : Bool) (t : Eztik) : Type 0 where
  pub kept : IsKept t.sessions
  pub still : find_session s.id t.sessions.entries ≡ some (s, h)
  pub readiness : is_ready t.apis s ≡ ready

abbrev pub failed_answer : Handler → Call
failed_answer h =
    answer h.client (build_response [] (make_response_code ros_session_open_failed) h.tag)

-- How the opening of a session goes on the router's side: with an error or a success of `api::open` and
-- of `api::login`, or, when the connection reports an error while the login is awaited, without a call
-- of the login's function.
pub data OpeningEnd : Type 0 where
  connection_failed login_failed lost : ErrorCode → OpeningEnd
  went : OpeningEnd

abbrev pub is_went : OpeningEnd → Bool
is_went went = true
is_went o = false

-- What else has happened meanwhile leads to `t`.
abbrev pub meanwhile : Eztik → Act Eztik Call → Act Eztik Call
meanwhile t act u = act t

-- What follows: the completion of `api::open` in the state `t`, and of `api::login`, or the
-- connection's error, in the state `u`.
abbrev pub completions : Config → Session → Handler → OpeningEnd → Eztik → Eztik → Act Eztik Call
completions conf s h (connection_failed x) t u =
    meanwhile t (on_sessions λ apis. api_opened apis (readable conf) s h (some x))
completions conf s h (login_failed x) t u =
    meanwhile t (on_sessions λ apis. api_opened apis (readable conf) s h none)
    >> meanwhile u (on_sessions λ apis. api_logged_in apis s h (some x))
completions conf s h (lost x) t u =
    meanwhile t (on_sessions λ apis. api_opened apis (readable conf) s h none)
    >> meanwhile u (on_sessions λ apis. on_error apis s x)
completions conf s h went t u =
    meanwhile t (on_sessions λ apis. api_opened apis (readable conf) s h none)
    >> meanwhile u (on_sessions λ apis. api_logged_in apis s h none)

-- The request and its completions.
abbrev pub open_to_end : Config → ℕ → Request → OpeningEnd → Eztik → Eztik → Act Eztik Call
open_to_end conf client req end t u = reading λ v.
    open_execute (readable conf) client req
    >> completions conf (made client v.sessions) (handler_of client req) end t u

-- The calls: the connection is opened, then logged in, and one response goes to the client.
abbrev pub opening_calls : Config → Session → Handler → OpeningEnd → List Call
opening_calls conf s h end = session_call (open_api s h conf.ros_ip conf.ros_api_port) ∷ elim end [
  | connection_failed x ↦ failed_answer h ∷ []
  | login_failed x ↦
      session_call (login_api s h conf.ros_api_user conf.ros_api_password) ∷ failed_answer h ∷ []
  | lost x ↦ session_call (login_api s h conf.ros_api_user conf.ros_api_password) ∷ []
  | went ↦
      session_call (login_api s h conf.ros_api_user conf.ros_api_password)
      ∷ answer h.client (build_response [] (response_code success) h.tag)
      ∷ []
]
