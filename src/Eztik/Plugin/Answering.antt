-- ===== src/Eztik/Plugin/Answering.antt =====
-- What becomes of a request: the server's dispatch of src/app/src/server.cpp with the bodies of the
-- commands that the two plugins export.
use tiksrv.Base.{
  ℕ, ◌≡◌, none, some, List, [], ◌∷◌, ◌++◌, Result, Act, ◌>>◌, skip, Returns, length, ◌==◌,
  if◌then◌else◌,
}
use tiksrv.Net.Message.{Request, Response}
use tiksrv.RouterOs.Sentence.{Fmt, RequestSentence}
use tiksrv.RouterOs.Api.State.{post, other}
use tiksrv.App.Hooks.{Hook}
use tiksrv.App.Server
use tiksrv.App.Server.{Command, Commands, find_command}
use tiksrv.Eztik.Commands.{
  Eztik, Call, answer, api_call, Waiting, send_waiting, load_waiting, answer_body, answer_code,
  client_lost, open_execute,
}
use tiksrv.Eztik.Commands.Requests
use tiksrv.Eztik.Commands.Requests.{Messages, nth_waiting}
use tiksrv.Eztik.Commands.Opening.{handler_of}
use tiksrv.Eztik.Sessions.{Handler, Session, RouterSettings, find_session}

-- The objects of the commands, by class: `echo_command`, `open_command`, `send_command` and
-- `load_command`.
pub data CommandObject : Type 0 where
  echoing opening sending loading : CommandObject

module _ (conf : RouterSettings) (fmt : Fmt) (msgs : Messages) where
  -- A call of a command's `operator()`.
  unfoldable pub operate : CommandObject → ℕ → Request → Act Eztik Call
  unfolding answer_body open_execute Requests.send_command Requests.load_command
  operate echoing client req = answer_body client req.body req.header.tag
  operate opening client req = open_execute conf client req
  operate sending client req = Requests.send_command fmt msgs client req
  operate loading client req = Requests.load_command fmt msgs client req

  -- `object` is the command's object behind its number, `hook` the number of eztik's hook.
  module _ (object : Command → CommandObject) (hook : Hook) where
    -- A call that the server makes. The reader of a client is an object of its own.
    unfoldable pub perform : Server.Call → Act Eztik Call
    unfolding operate answer_code client_lost
    perform (Server.start client) = skip
    perform (Server.respond client code tag) = answer_code client code tag
    perform (Server.run cmd client req) = operate (object cmd) client req
    perform (Server.hook h lost) = if h == hook then client_lost lost else skip

    unfoldable pub perform_all : List Server.Call → Act Eztik Call
    unfolding perform
    perform_all [] = skip
    perform_all (c ∷ cs) = perform c >> perform_all cs

    -- `server::on_request` to its end.
    unfoldable pub serve : Commands → ℕ → Request → Act Eztik Call
    unfolding Server.on_request perform_all
    serve cmds client req = perform_all (Server.on_request client req cmds)

    -- Requests of any clients, one after the other.
    unfoldable pub serve_all : Commands → List (ℕ × Request) → Act Eztik Call
    unfolding serve
    serve_all cmds [] = skip
    serve_all cmds ((client, req) ∷ rs) = serve cmds client req >> serve_all cmds rs

-- The responses to clients among the calls, in order.
abbrev pub answers : List Call → List (ℕ × Response)
answers [] = []
answers (answer client r ∷ cs) = (client, r) ∷ answers cs
answers (c ∷ cs) = answers cs

-- The client and the tag that a function has captured.
abbrev pub captured : Waiting → Handler
captured (send_waiting client tag) = record { client = client; tag = tag }
captured (load_waiting client tag) = record { client = client; tag = tag }

-- What becomes of a request, from the state `t` to the state `u`: it is answered under its tag; or a
-- session is being opened for the client, with a function that has captured client and tag; or one
-- request goes to the router over the client's own session, with such a function.
pub data Fate (client : ℕ) (req : Request) (t u : Eztik) (cs : List Call) : Type 0 where
  answered :
      (r : Response)
      → answers cs ≡ (client, r) ∷ []
      → r.header.tag ≡ req.header.tag
      → u.sessions ≡ t.sessions
      → u.waiting ≡ t.waiting
      → Fate client req t u cs
  awaits_session :
      (s : Session)
      → answers cs ≡ []
      → find_session client t.sessions.entries ≡ none
      → u.sessions.entries ≡ t.sessions.entries ++ ((client, s, handler_of client req) ∷ [])
      → u.waiting ≡ t.waiting
      → Fate client req t u cs
  awaits_router :
      (s : Session) (h : Handler) (out : RequestSentence) (w : Waiting)
      → cs ≡ api_call s.api (post out (other (length t.waiting))) ∷ []
      → find_session client t.sessions.entries ≡ some (s, h)
      → u.sessions ≡ t.sessions
      → u.waiting ≡ t.waiting ++ (w ∷ [])
      → captured w ≡ handler_of client req
      → Fate client req t u cs

-- The step returns with one of these.
abbrev pub Ends : ℕ → Request → Eztik → Result (Eztik × List Call) → Type 0
Ends client req t r = Returns (λ (u, cs). Fate client req t u cs) r
