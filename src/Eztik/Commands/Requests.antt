-- ===== src/Eztik/Commands/Requests.antt =====
-- The commands that need a session, of src/plugins/eztik/commands: sending a request and loading
-- models, and the functions that they leave behind. Protocol Buffers' generated code is a parameter.
use tiksrv.Base.{
  ℕ, zero, suc, Bool, false, not, Option, none, some, List, [], ◌∷◌, ◌++◌, Bytes, length, ok,
  aborted, Act, ◌>>◌, skip, modify, assert, reading, ◌==◌, if◌then◌else◌,
}
use tiksrv.Base.Outcome.{Outcome, returned, thrown, stopped}
use tiksrv.Net.Message.{Request, success, invalid_request, unknown_error}
use tiksrv.RouterOs.Sentence.{Fmt, RequestSentence, push}
use tiksrv.RouterOs.Response.{ResponseType, empty}
use tiksrv.RouterOs.Password.{getall}
use tiksrv.RouterOs.Api.State
use tiksrv.RouterOs.Api.State.{
  Api, ErrorCode, Reply, failure, response, other, is_open, make_request, send, aquire_unique_tag,
}
use tiksrv.Eztik.Data.{api_path, create_user, Loaded, load_failed, loaded, load_ended, stream_reply}
use tiksrv.Eztik.Sessions.{Session, find_session, has_ready}
use tiksrv.Eztik.Commands.{
  Eztik, Call, api_call, Waiting, send_waiting, load_waiting, ros_session_not_open,
  make_response_code, answer_number, answer_code, answer_body,
}

-- The messages of api_send.proto and hotspot_user.proto: `ParseFromString`, and `SerializeAsString` of
-- a response with its type and parameters and of a user with its name.
pub record Messages : Type 0 where
  pub parse_request : Bytes → Option (Bytes × List Bytes)
  pub serialize_response : ResponseType → List (Bytes × Bytes) → Bytes
  pub serialize_user : Bytes → Bytes

abbrev api_calls : ℕ → List State.Call → List Call
api_calls n [] = []
api_calls n (c ∷ cs) = api_call n c ∷ api_calls n cs

-- An operation of a connection.
unfoldable pub on_api : ℕ → Act Api State.Call → Act Eztik Call
on_api n act t = elim (act (t.apis n)) [
  | ok (a, cs) ↦ ok (record t { apis = λ k. if k == n then a else t.apis k }, api_calls n cs)
  | aborted ↦ aborted
]

abbrev pub session_of : ℕ → Eztik → Option Session
session_of client t = elim (find_session client t.sessions.entries) [
  | none ↦ none
  | some (s, h) ↦ some s
]

-- `session_required_command::operator()`, with what keeps the session, and `execute`.
unfoldable pub require_session :
    (Option Session → Eztik → Eztik) → (ℕ → Request → Act Eztik Call) → ℕ → Request → Act Eztik Call
unfolding has_ready answer_number make_response_code find_session
require_session keep execute client req = reading λ t.
    if has_ready t.apis client t.sessions
    then (modify (keep (session_of client t)) >> execute client req)
    else answer_number client (make_response_code ros_session_not_open) req.header.tag

-- A call through a null pointer ends the program here.
abbrev pub on_session : Option Session → (Session → Act Eztik Call) → Act Eztik Call
on_session none act t = aborted
on_session (some s) act t = act s t

-- `api::send` of a request that is made with the connection's next tag, and of a function.
unfoldable pub send_request : (Api → RequestSentence × Api) → Waiting → Session → Act Eztik Call
unfolding on_api send
send_request make w s =
    reading (λ t. on_api s.api λ a. let (req, b) = make a in send req (other (length t.waiting)) b)
    >> modify (λ t. record t { waiting = t.waiting ++ (w ∷ []) })

unfoldable pub push_all : List Bytes → RequestSentence → RequestSentence
unfolding push
push_all [] s = s
push_all (w ∷ ws) s = push_all ws (push w s)

-- `session_` of either command.
abbrev pub keep_send : Option Session → Eztik → Eztik
keep_send s t = record t { send_session = s }

abbrev pub keep_load : Option Session → Eztik → Eztik
keep_load s t = record t { load_session = s }

module _ (fmt : Fmt) (msgs : Messages) where
  unfoldable pub make_with_words : Bytes → List Bytes → Api → RequestSentence × Api
  unfolding make_request push_all
  make_with_words command words a =
      let (req, b) = make_request fmt command a in (push_all words req, b)

  -- `send_command::execute`.
  unfoldable pub send_execute : ℕ → Request → Act Eztik Call
  unfolding answer_code send_request make_with_words
  send_execute client req = elim (msgs.parse_request req.body) [
    | none ↦ answer_code client invalid_request req.header.tag
    | some (command, words) ↦ reading λ t.
        on_session t.send_session
          (send_request (make_with_words command words) (send_waiting client req.header.tag))
  ]

  unfoldable pub make_getall : Bytes → Api → RequestSentence × Api
  unfolding aquire_unique_tag getall
  make_getall path a = let (tag, b) = aquire_unique_tag a in (getall fmt tag path, b)

  -- `load_stream` for hotspot_user, over a session's connection.
  unfoldable pub load_stream : Waiting → Session → Act Eztik Call
  unfolding send_request make_getall is_open
  load_stream w s =
      reading (λ t. assert (is_open (t.apis s.api))) >> send_request (make_getall api_path) w s

  -- `load_command::execute`.
  unfoldable pub load_execute : ℕ → Request → Act Eztik Call
  unfolding load_stream
  load_execute client req =
      reading λ t. on_session t.load_session (load_stream (load_waiting client req.header.tag))

  unfoldable pub send_command : ℕ → Request → Act Eztik Call
  unfolding require_session send_execute
  send_command = require_session keep_send send_execute

  unfoldable pub load_command : ℕ → Request → Act Eztik Call
  unfolding require_session load_execute
  load_command = require_session keep_load load_execute

  -- The function of send_command. Its log message of an error reads the id of the current session.
  unfoldable pub send_reply : ℕ → ℕ → Reply → Act Eztik Call
  unfolding answer_code answer_body
  send_reply client tag (failure err) =
      reading λ t. on_session t.send_session λ s. answer_code client unknown_error tag
  send_reply client tag (response r) =
      answer_body client (msgs.serialize_response r.type r.params) tag

  unfoldable pub on_loaded : ℕ → ℕ → Outcome (Loaded create_user × Bool) → Act Eztik Call
  unfolding answer_code answer_body
  on_loaded client tag (returned (load_failed err, kept)) = skip
  on_loaded client tag (returned (load_ended, kept)) = answer_code client success tag
  on_loaded client tag (returned (loaded user, kept)) =
      answer_body client (msgs.serialize_user user.name) tag
  on_loaded client tag (thrown x) = λ t. aborted
  on_loaded client tag stopped = λ t. aborted

  -- The function of load_command, through `load_stream`; `create_response` keeps the name only.
  unfoldable pub load_reply : ℕ → ℕ → Reply → Act Eztik Call
  unfolding on_loaded stream_reply
  load_reply client tag r = on_loaded client tag (stream_reply create_user r)

  unfoldable pub call_waiting : Option Waiting → Reply → Act Eztik Call
  unfolding send_reply load_reply
  call_waiting none r = λ t. aborted
  call_waiting (some (send_waiting client tag)) r = send_reply client tag r
  call_waiting (some (load_waiting client tag)) r = load_reply client tag r

abbrev pub nth_waiting : ℕ → List Waiting → Option Waiting
nth_waiting n [] = none
nth_waiting zero (w ∷ ws) = some w
nth_waiting (suc n) (w ∷ ws) = nth_waiting n ws

-- How the function of either command ends: `!resp.empty()`, and no error; that of a load as
-- `load_stream` does, with a failed assertion where the model cannot be made.
abbrev pub answer_of : Outcome (Loaded create_user × Bool) → Outcome Bool
answer_of (returned (l, kept)) = returned kept
answer_of (thrown x) = thrown x
answer_of stopped = stopped

abbrev pub ends_on : Option Waiting → Reply → Outcome Bool
ends_on none r = stopped
ends_on (some (send_waiting client tag)) (failure err) = returned false
ends_on (some (send_waiting client tag)) (response r) = returned (not (empty r))
ends_on (some (load_waiting client tag)) r = answer_of (stream_reply create_user r)

-- Of the functions that wait, by number.
unfoldable pub waits_on : List Waiting → ℕ → Reply → Outcome Bool
unfolding empty stream_reply
waits_on ws k r = ends_on (nth_waiting k ws) r
