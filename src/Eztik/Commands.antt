-- ===== src/Eztik/Commands.antt =====
-- src/plugins/eztik/commands: the plugin's state, the responses to clients, and the command that opens
-- a session, with the functions that it leaves behind. Log messages are left out.
pub mod Opening
pub mod Requests
pub mod Guard
pub mod Sending
pub mod Replies
pub mod Stuck
use tiksrv.Base.{
  ℕ, ◌+◌, ◌*◌, ◌%◌, ◌^◌, ◌≡◌, Bool, true, false, not, Option, none, some, List, [], ◌∷◌, ◌++◌,
  Bytes, length, bit_and, bit_or, Result, ok, aborted, Act, prepend, ◌>>◌, skip, emit, modify,
  assert, reading, ◌==◌, if◌then◌else◌,
}
use tiksrv.Base.Outcome.{Outcome, returned, thrown, stopped}
use tiksrv.Net.Message.{
  Request, Response, ResponseCode, success, invalid_request, operation_pending, unknown_error,
  response_code,
}
use tiksrv.Net.Client.{build_response}
use tiksrv.RouterOs.Sentence.{Fmt, RequestSentence, push}
use tiksrv.RouterOs.Response.{ResponseSentence, ResponseType, empty}
use tiksrv.RouterOs.Password.{getall}
use tiksrv.RouterOs.Api.State
use tiksrv.RouterOs.Api.State.{
  Api, ErrorCode, Reply, failure, response, other, is_open, make_request, send, aquire_unique_tag,
}
use tiksrv.Eztik.Data.{
  HotspotUser, api_path, create_user, Loaded, load_failed, loaded, load_ended, stream_reply,
}
use tiksrv.Eztik.Sessions
use tiksrv.Eztik.Sessions.{
  Handler, Session, Sessions, RouterSettings, open_cb, close_cb, find_session, has_session,
  has_ready, create, on_close,
}

-- `eztik::response_code`.
pub data RosCode : Type 0 where
  ros_session_open_failed ros_session_close_failed ros_session_already_open : RosCode
  ros_session_not_open ros_session_closed : RosCode

abbrev pub ros_code : RosCode → ℕ
ros_code ros_session_open_failed = 0
ros_code ros_session_close_failed = 1
ros_code ros_session_already_open = 2
ros_code ros_session_not_open = 3
ros_code ros_session_closed = 4

abbrev pub response_category : ℕ
response_category = 1

unfoldable pub make_response_code : RosCode → ℕ
make_response_code code = bit_or (response_category * 2 ^ 16) (bit_and (ros_code code) 0xffff)

-- The functions that are given to `api::send`, by what they have captured: a client, and the tag of
-- its request. A function's number is its place in `waiting`.
pub data Waiting : Type 0 where
  send_waiting load_waiting : ℕ → ℕ → Waiting

-- The plugin's state, with the connections to the routers by number. Each of the two commands that
-- need a session keeps the last one in `session_`; a null pointer is none.
pub record Eztik : Type 0 where
  pub sessions : Sessions
  pub apis : ℕ → Api
  pub send_session : Option Session
  pub load_session : Option Session
  pub waiting : List Waiting

-- Calls on a client, on a session's connection, and by the sessions service.
pub data Call : Type 0 where
  answer : ℕ → Response → Call
  api_call : ℕ → State.Call → Call
  session_call : Sessions.Call → Call

-- The overloads of `respond`.
unfoldable pub answer_number : ℕ → ℕ → ℕ → Act Eztik Call
unfolding build_response
answer_number client code tag = emit (answer client (build_response [] code tag))

unfoldable pub answer_code : ℕ → ResponseCode → ℕ → Act Eztik Call
unfolding build_response response_code
answer_code client code tag = emit (answer client (build_response [] (response_code code) tag))

unfoldable pub answer_body : ℕ → Bytes → ℕ → Act Eztik Call
unfolding build_response
answer_body client body tag = emit (answer client (build_response body 0 tag))

abbrev pub is_some {ℓ} : {A : Type ℓ} → Option A → Bool
is_some none = false
is_some (some a) = true

-- The first function of open_command, when the opening has ended.
unfoldable pub opened : Handler → Option ErrorCode → Option Session → Act Eztik Call
unfolding answer_number answer_code make_response_code
opened h (some err) s =
    assert (not (is_some s))
    >> answer_number h.client (make_response_code ros_session_open_failed) h.tag
opened h none s = assert (is_some s) >> answer_code h.client success h.tag

-- Its second function, when the session is closed.
unfoldable pub closed : Handler → Act Eztik Call
unfolding answer_number make_response_code
closed h = answer_number h.client (make_response_code ros_session_closed) h.tag

unfoldable pub session_effect : Sessions.Call → Act Eztik Call
unfolding opened closed
session_effect (open_cb h err s) = opened h err s
session_effect (close_cb h s) = closed h
session_effect c = emit (session_call c)

unfoldable pub session_effects : List Sessions.Call → Act Eztik Call
unfolding session_effect
session_effects [] = skip
session_effects (c ∷ cs) = session_effect c >> session_effects cs

-- An operation of the sessions service, with the functions that it calls.
unfoldable pub on_sessions : ((ℕ → Api) → Act Sessions Sessions.Call) → Act Eztik Call
unfolding session_effects
on_sessions act t = elim (act t.apis t.sessions) [
  | ok (u, cs) ↦ session_effects cs (record t { sessions = u })
  | aborted ↦ aborted
]

-- The hook for lost clients, with what is in the std::any that it gets. If that is empty, the
-- any_cast throws, and nothing before `main` catches it.
unfoldable pub client_lost : Option ℕ → Act Eztik Call
unfolding on_sessions on_close
client_lost none t = aborted
client_lost (some client) t = on_sessions (λ apis. on_close apis client) t

-- `open_command::execute`.
unfoldable pub open_execute : RouterSettings → ℕ → Request → Act Eztik Call
unfolding answer_number answer_code make_response_code on_sessions has_ready has_session create
open_execute conf client req = reading λ t.
    if has_ready t.apis client t.sessions
    then answer_number client (make_response_code ros_session_already_open) req.header.tag
    else if has_session client t.sessions
    then answer_code client operation_pending req.header.tag
    else on_sessions λ apis.
      create apis conf client (record { client = client; tag = req.header.tag })
        (record { client = client; tag = req.header.tag })
