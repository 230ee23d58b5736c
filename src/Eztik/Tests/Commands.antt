-- ===== src/Eztik/Tests/Commands.antt =====
-- The commands at concrete inputs.
use tiksrv.Base.{
  ℕ, ◌≡◌, ◌≢◌, refl, true, Option, none, some, List, [], ◌∷◌, ◌++◌, Bytes, codes, ok, arith,
}
use tiksrv.Base.Decimal.{decimal, digits_value}
use tiksrv.Base.Tests.{str_eq}
use tiksrv.Net.Message.{Request, operation_pending, response_code}
use tiksrv.Net.Client.{build_response}
use tiksrv.RouterOs.Sentence.{RequestSentence}
use tiksrv.RouterOs.Response.{
  ResponseSentence, normal, re, empty, has, lookup, value_at, response_sentence, is_valid_response,
  response_type, param_groups, tag_group, add_word,
}
use tiksrv.RouterOs.Api.State
use tiksrv.RouterOs.Api.State.{
  Api, Reply, failure, failed, response, other, post, reading_length, is_open, find_callback,
}
use tiksrv.RouterOs.Tests.{substituting, digits_cast, one_digest}
use tiksrv.Eztik.Commands.{
  Eztik, answer, api_call, load_waiting, ros_session_not_open, ros_session_already_open,
  make_response_code, open_execute, session_call,
}
use tiksrv.Eztik.Commands.Guard.{by_session, refusal, commands-session}
use tiksrv.Eztik.Commands.Opening.{handler_of}
use tiksrv.Eztik.Commands.Replies.{
  UserSentence, IsUser, IsEnd, sentences, handle_responses, serve_calls, user_answers,
  handle_responses-load,
}
use tiksrv.Eztik.Commands.Requests.{
  Messages, nth_waiting, keep_send, keep_load, send_execute, load_execute, send_command,
  load_command, call_waiting,
}
use tiksrv.Eztik.Commands.Sending.{with_sent, send_command-answers}
use tiksrv.Eztik.Data.{HotspotUser, create_user}
use tiksrv.Eztik.Sessions.{readable, Handler, Session, open_api, find_session, is_ready}
use tiksrv.Eztik.Sessions.Opening.{made, with_made}
use tiksrv.Eztik.Tests.{apis, conf, none_yet}

-- A text is its command; a response is its first value.
abbrev first_value : List (Bytes × Bytes) → Bytes
first_value [] = []
first_value ((k, v) ∷ ps) = v

abbrev pub messages : Messages
messages = record {
  parse_request = λ s. some (s, codes "=disabled=no" ∷ []);
  serialize_response = λ t ps. first_value ps;
  serialize_user = λ name. name;
}

abbrev pub request : Request
request = record {
  header = record { command = 0x10000; flags = 0; tag = 20; body_size = 0 };
  body = codes "/ip/address/print";
}

abbrev pub before : Eztik
before = record {
  sessions = none_yet;
  apis = apis;
  send_session = none;
  load_session = none;
  waiting = load_waiting 3 7 ∷ [];
}

-- Connection 1 is logged in now.
abbrev later : Eztik
later = record before {
  sessions = with_made 9 (handler_of 9 request) none_yet;
  apis = λ n. record (apis n) { logged_in = true };
}

abbrev meantime : Eztik
meantime = record later { apis = apis }

abbrev found : Option (Session × Handler)
found = some (made 9 none_yet, handler_of 9 request)

later_found : find_session 9 later.sessions.entries ≡ found
unfolding find_session
later_found = refl

later_ready : is_ready later.apis (made 9 none_yet) ≡ true
unfolding is_ready is_open
later_ready = refl

commands-session_example :
    (send_command substituting messages 9 request meantime
      ≡ by_session meantime found
          (refusal 9 request meantime (make_response_code ros_session_not_open))
          (refusal 9 request meantime (make_response_code ros_session_not_open))
          (λ s. send_execute substituting messages 9 request (keep_send (some s) meantime)))
    × (load_command substituting messages 9 request meantime
        ≡ by_session meantime found
            (refusal 9 request meantime (make_response_code ros_session_not_open))
            (refusal 9 request meantime (make_response_code ros_session_not_open))
            (λ s. load_execute substituting messages 9 request (keep_load (some s) meantime)))
    × (open_execute (readable conf) 9 request meantime
        ≡ by_session meantime found
            (ok (
              record meantime { sessions = with_made 9 (handler_of 9 request) meantime.sessions },
              session_call (
                    open_api
                      (made 9 meantime.sessions)
                      (handler_of 9 request)
                      (codes "10.0.0.1")
                      8728)
                  ∷ [],
            ))
            (refusal 9 request meantime (response_code operation_pending))
            (λ s. refusal 9 request meantime (make_response_code ros_session_already_open)))
commands-session_example =
    commands-session 9 request meantime conf substituting messages found later_found

abbrev print_reply : ResponseSentence
print_reply = record {
  params = (codes "address", codes "10.0.0.7") ∷ [];
  type = re;
  tagged = true;
  tag = 2;
}

abbrev grown : Eztik
grown = record later { waiting = (with_sent 9 request (made 9 none_yet) later).waiting ++ [] }

send_command-answers_example :
    (out : RequestSentence) × (send_command substituting messages 9 request later
      ≡ ok (with_sent 9 request (made 9 none_yet) later, api_call 1 (post out (other 1)) ∷ []))
    × (out.words
        ≡ codes "/ip/address/print" ∷ (codes ".tag=" ++ decimal 2) ∷ codes "=disabled=no" ∷ [])
    × (out.tag ≡ 2)
    × (call_waiting substituting messages (nth_waiting 1 grown.waiting) (response print_reply) grown
        ≡ ok (grown, answer 9 (build_response (codes "10.0.0.7") 0 20) ∷ []))
send_command-answers_example =
    send_command-answers substituting messages 9 request (made 9 none_yet) (handler_of 9 request)
      later grown (codes "/ip/address/print") (codes "=disabled=no" ∷ []) [] print_reply later_found
      later_ready refl refl

abbrev user_words : List Bytes
user_words = codes "!re" ∷ codes "=name=ann" ∷ codes "=password=xy" ∷ codes ".tag=5" ∷ []

abbrev user_response : ResponseSentence
user_response = record {
  params = (codes "name", codes "ann") ∷ (codes "password", codes "xy") ∷ [];
  type = re;
  tagged = true;
  tag = 5;
}

abbrev ann : HotspotUser
ann = record { name = codes "ann"; password = codes "xy" }

abbrev end_words : List Bytes
end_words = codes "!done" ∷ codes ".tag=5" ∷ []

abbrev end_response : ResponseSentence
end_response = record { params = []; type = normal; tagged = true; tag = 5 }

ann-IsUser : IsUser substituting one_digest digits_cast 5 (user_words, user_response, ann)
unfolding response_sentence is_valid_response response_type param_groups tag_group str_eq add_word
    digits_value empty create_user has value_at lookup
ann-IsUser =
    (record { starts = refl; long = omega arith; parses = refl; has_tag = refl }, refl, refl, refl)

done-IsEnd : IsEnd substituting one_digest digits_cast 5 (end_words, end_response)
unfolding response_sentence is_valid_response response_type param_groups tag_group str_eq add_word
    digits_value empty
done-IsEnd =
    (record { starts = refl; long = omega arith; parses = refl; has_tag = refl }, refl, refl)

-- A connection on which the function 0 waits for the answer to a load.
abbrev loading : Api
loading = record (apis 1) { read_cbs = (5, other 0) ∷ [] }

loading-is_open : is_open loading ≡ true
unfolding is_open
loading-is_open = refl

loading-waits : find_callback 5 loading.read_cbs ≡ some (other 0)
unfolding find_callback
loading-waits = refl

abbrev users : List UserSentence
users = (user_words, user_response, ann) ∷ []

handle_responses-load_example :
    (c : Api) × (cs : List State.Call) × (handle_responses substituting one_digest digits_cast
        before.waiting
        (sentences substituting one_digest digits_cast users ++ (end_words ∷ []))
        loading
      ≡ ok (c, cs))
    × (is_open c ≡ true)
    × (find_callback 5 c.read_cbs ≡ none)
    × ((u : ℕ) → u ≢ 5 → find_callback u c.read_cbs ≡ find_callback u loading.read_cbs)
    × (serve_calls substituting one_digest digits_cast messages 1 cs before
        ≡ ok (before, user_answers substituting one_digest digits_cast messages 3 7 users))
handle_responses-load_example =
    handle_responses-load substituting one_digest digits_cast messages 1 0 3 7 5 users
      (end_words, end_response) loading before loading-is_open loading-waits refl (ann-IsUser, tt)
      done-IsEnd
