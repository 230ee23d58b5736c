-- ===== src/Eztik/Plugin/Operating.antt =====
-- What a call of a command's object comes to: the executions of plugins/eztik/commands and of
-- plugins/core, one request at a time.
use tiksrv.Base.{
  ℕ, ◌≡◌, refl, ap, ◌∙◌, true, Bool-cases, inl, inr, Option, none, some, List, [], Result, aborted,
  arith, Bytes,
}
use tiksrv.Net.Client.{build_response}
use tiksrv.Net.Message.{
  Request, ResponseCode, invalid_request, response_code, set_body, set_tag, set_code, set_flags,
}
use tiksrv.RouterOs.Sentence.{Fmt}
use tiksrv.RouterOs.Api.State.{Api, is_open, send, aquire_unique_tag}
use tiksrv.Eztik.Commands.{Eztik, Call, send_waiting, load_waiting, answer_body, answer_code}
use tiksrv.Eztik.Commands.Requests.{
  Messages, keep_send, keep_load, send_execute, load_execute, load_stream, send_request, on_api,
  make_getall,
}
use tiksrv.Eztik.Commands.Guard.{by_session, refusal, commands-session}
use tiksrv.Eztik.Commands.Sending.{send_execute_posts}
use tiksrv.Eztik.Commands.Opening.{handler_of}
use tiksrv.Base.{◌≢◌, ◌⊎◌, sym, subst}
use tiksrv.Base.Outcome.{Outcome, Exception, returned, thrown, stopped}
use tiksrv.Eztik.Sessions.{
  Handler, Session, Config, Sessions, RouterSettings, readable, create, is_found, find_session,
  has_session, has_ready, is_ready,
}
use tiksrv.Eztik.Commands.{open_execute, on_sessions}
use tiksrv.Eztik.Sessions.Opening.{made}
use tiksrv.Eztik.Plugin.Answering.{
  CommandObject, echoing, opening, sending, loading, operate, answered, awaits_session,
  awaits_router, Ends,
}

tag-build_response : (body : Bytes) (code tag : ℕ) → (build_response body code tag).header.tag ≡ tag
unfolding build_response set_body set_tag set_flags set_code
tag-build_response body code tag = refl

refusal-Ends :
    (client : ℕ) (req : Request) (t : Eztik) (code : ℕ)
    → Ends client req t (refusal client req t code)
refusal-Ends client req t code =
    answered (build_response [] code req.header.tag) refl
      (tag-build_response [] code req.header.tag) refl refl

pub code-Ends :
    (client : ℕ) (req : Request) (t : Eztik) (code : ResponseCode)
    → Ends client req t (answer_code client code req.header.tag t)
unfolding answer_code
code-Ends client req t code = refusal-Ends client req t (response_code code)

open_of_ready :
    (apis : ℕ → Api) (s : Session) → is_ready apis s ≡ true → is_open (apis s.api) ≡ true
unfolding is_ready
open_of_ready apis s h = ground arith

module _ (conf : Config) (fmt : Fmt) (msgs : Messages) where
  send_parsed-Ends :
      (client : ℕ) (req : Request) (t : Eztik) (s : Session) (h : Handler)
      (p : Option (Bytes × List Bytes))
      → find_session client t.sessions.entries ≡ some (s, h)
      → msgs.parse_request req.body ≡ p
      → Ends client req t (send_execute fmt msgs client req (keep_send (some s) t))
  unfolding send_execute answer_code
  send_parsed-Ends client req t s h none f p =
      rw (send_execute, p)
        (answered (build_response [] (response_code invalid_request) req.header.tag) refl
          (tag-build_response [] (response_code invalid_request) req.header.tag) refl refl)
  send_parsed-Ends client req t s h (some (command, words)) f p =
      rw (send_execute_posts fmt msgs client req s t command words p)
        (awaits_router s h _ (send_waiting client req.header.tag) refl f refl refl refl)

  load-Ends :
      (client : ℕ) (req : Request) (t : Eztik) (s : Session) (h : Handler)
      → find_session client t.sessions.entries ≡ some (s, h)
      → is_ready t.apis s ≡ true
      → Ends client req t (load_execute fmt msgs client req (keep_load (some s) t))
  unfolding load_execute load_stream send_request on_api send make_getall aquire_unique_tag
  load-Ends client req t s h f r =
      rw (load_execute, open_of_ready t.apis s r)
        (awaits_router s h _ (load_waiting client req.header.tag) refl f refl refl refl)

  -- A command that wants a session.
  by_session-Ends :
      (client : ℕ) (req : Request) (t : Eztik) (e : Option (Session × Handler)) (code : ℕ)
      (run : Session → Result (Eztik × List Call))
      → ((s : Session) (h : Handler)
          → e ≡ some (s, h)
          → is_ready t.apis s ≡ true
          → Ends client req t (run s))
      → Ends client req t
          (by_session t e (refusal client req t code) (refusal client req t code) run)
  by_session-Ends client req t none code run ready = refusal-Ends client req t code
  by_session-Ends client req t (some (s, h)) code run ready =
      elim (Bool-cases (is_ready t.apis s)) [
        | inl r ↦ rw r (ready s h refl r)
        | inr unready ↦ rw unready (refusal-Ends client req t code)
      ]

  operate-Ends :
      (o : CommandObject) (client : ℕ) (req : Request) (t : Eztik) (e : Option (Session × Handler))
      → find_session client t.sessions.entries ≡ e
      → Ends client req t (operate (readable conf) fmt msgs o client req t)
  unfolding operate answer_body
  operate-Ends echoing client req t e f =
      answered (build_response req.body 0 req.header.tag) refl
        (tag-build_response req.body 0 req.header.tag) refl refl
  operate-Ends sending client req t e f = rw ((commands-session client req t conf fmt msgs e f).0) (
      by_session-Ends client req t e _ _
        (λ s h g r. send_parsed-Ends client req t s h _ (f ∙ g) refl))
  operate-Ends loading client req t e f =
      rw ((commands-session client req t conf fmt msgs e f).1)
        (by_session-Ends client req t e _ _ (λ s h g r. load-Ends client req t s h (f ∙ g) r))
  operate-Ends opening client req t none f =
      rw ((commands-session client req t conf fmt msgs none f).2)
        (awaits_session (made client t.sessions) refl f refl refl)
  operate-Ends opening client req t (some (s, h)) f =
      rw ((commands-session client req t conf fmt msgs (some (s, h)) f).2)
        (elim (Bool-cases (is_ready t.apis s)) [
          | inl r ↦ rw r (refusal-Ends client req t _)
          | inr unready ↦ rw unready (refusal-Ends client req t _)
        ])

-- The router's address is no value that can be read.
abbrev pub IsUnreadable : RouterSettings → Type 0
IsUnreadable conf = (address : Bytes × ℕ) → conf.address ≢ returned address

-- What a request comes to that a command's object executes: it ends the program, or one of the fates.
abbrev OperateEnds :
    RouterSettings → CommandObject → ℕ → Request → Eztik → Result (Eztik × List Call) → Type 0
OperateEnds conf o client req t r =
    ((r ≡ aborted)
      × ((o ≡ opening) × (find_session client t.sessions.entries ≡ none) × IsUnreadable conf))
    ⊎ Ends client req t r

address_only :
    (conf : RouterSettings) (ip : Bytes) (port : ℕ)
    → conf.address ≡ returned (ip, port)
    → (fmt : Fmt) (msgs : Messages) (o : CommandObject) (client : ℕ) (req : Request) (t : Eztik)
    → operate
        (readable
          (record { ros_ip = ip; ros_api_port = port; ros_api_user = []; ros_api_password = [] }))
        fmt
        msgs
        o
        client
        req
        t
      ≡ operate conf fmt msgs o client req t
unfolding operate open_execute create
address_only conf ip port e fmt msgs echoing client req t = refl
address_only conf ip port e fmt msgs opening client req t = rw e refl
address_only conf ip port e fmt msgs sending client req t = refl
address_only conf ip port e fmt msgs loading client req t = refl

thrown-ne-returned : {x : Exception} {a : Bytes × ℕ} → thrown x ≢ returned a
thrown-ne-returned h = cc

stopped-ne-returned : {a : Bytes × ℕ} → stopped ≢ returned a
stopped-ne-returned h = cc

open_known :
    (conf other : RouterSettings) (client : ℕ) (req : Request) (t : Eztik)
    → has_session client t.sessions ≡ true
    → open_execute conf client req t ≡ open_execute other client req t
unfolding open_execute
open_known conf other client req t h = elim (Bool-cases (has_ready t.apis client t.sessions)) [
  | inl r ↦ rw r refl
  | inr r ↦ rw (r, h) refl
]

create_unreadable :
    (apis : ℕ → Api) (conf : RouterSettings) (o : Outcome (Bytes × ℕ)) (client : ℕ) (h : Handler)
    (t : Sessions)
    → conf.address ≡ o
    → ((address : Bytes × ℕ) → o ≢ returned address)
    → find_session client t.entries ≡ none
    → create apis conf client h h t ≡ aborted
unfolding create has_session
create_unreadable apis conf (returned address) client h t e n m = absurd (n address refl)
create_unreadable apis conf (thrown x) client h t e n m = rw (m, e)
create_unreadable apis conf stopped client h t e n m = rw (m, e)

open_unreadable :
    (conf : RouterSettings) (client : ℕ) (req : Request) (t : Eztik)
    → IsUnreadable conf
    → find_session client t.sessions.entries ≡ none
    → open_execute conf client req t ≡ aborted
unfolding open_execute has_session has_ready on_sessions
open_unreadable conf client req t n m = rw (
  m,
  on_sessions,
  create_unreadable t.apis conf conf.address client (handler_of client req) t.sessions refl n m,
)

module _ (conf : RouterSettings) (fmt : Fmt) (msgs : Messages) where
  -- Any address that can be read, for what does not read it.
  abbrev some_config : Config
  some_config = record { ros_ip = []; ros_api_port = 0; ros_api_user = []; ros_api_password = [] }

  unread :
      (o : CommandObject) (client : ℕ) (req : Request) (t : Eztik) (e : Option (Session × Handler))
      → find_session client t.sessions.entries ≡ e
      → IsUnreadable conf
      → OperateEnds conf o client req t (operate conf fmt msgs o client req t)
  unfolding operate has_session
  unread echoing client req t e f n =
      inr (operate-Ends some_config fmt msgs echoing client req t e f)
  unread sending client req t e f n =
      inr (operate-Ends some_config fmt msgs sending client req t e f)
  unread loading client req t e f n =
      inr (operate-Ends some_config fmt msgs loading client req t e f)
  unread opening client req t none f n = inl (open_unreadable conf client req t n f, (refl, f, n))
  unread opening client req t (some (s, h)) f n = inr (
      subst (Ends client req t)
        (open_known (readable some_config) conf client req t (ap is_found f))
        (operate-Ends some_config fmt msgs opening client req t (some (s, h)) f))

  pub operate_cases :
      (a : Outcome (Bytes × ℕ)) (o : CommandObject) (client : ℕ) (req : Request) (t : Eztik)
      → conf.address ≡ a
      → OperateEnds conf o client req t (operate conf fmt msgs o client req t)
  operate_cases (returned (ip, port)) o client req t e = inr (
      subst (Ends client req t) (address_only conf ip port e fmt msgs o client req t) (
        operate-Ends (record some_config { ros_ip = ip; ros_api_port = port }) fmt msgs o client req
          t _ refl))
  operate_cases (thrown x) o client req t e =
      unread o client req t _ refl (λ address r. thrown-ne-returned (sym e ∙ r))
  operate_cases stopped o client req t e =
      unread o client req t _ refl (λ address r. stopped-ne-returned (sym e ∙ r))
