-- ===== src/Eztik/Commands/Guard.antt =====
-- Which requests are served in which state of a client's session.
use tiksrv.Base.{
  ℕ, ◌≡◌, refl, ap, ◌∙◌, true, false, Bool-cases, inl, inr, Option, none, some, List, [], ◌∷◌, ok,
  Act, Result, prepend-nil, if◌then◌else◌,
}
use tiksrv.Net.Message.{Request, operation_pending, response_code}
use tiksrv.Net.Client.{build_response}
use tiksrv.RouterOs.Sentence.{Fmt}
use tiksrv.Eztik.Sessions.{
  Handler, Session, Config, RouterSettings, readable, find_session, has_session, has_ready,
  is_ready, is_found, open_api,
}
use tiksrv.Eztik.Commands.{
  Eztik, Call, answer, session_call, ros_session_already_open, ros_session_not_open,
  make_response_code, answer_number, answer_code, open_execute,
}
use tiksrv.Eztik.Commands.Requests.{
  Messages, require_session, send_execute, load_execute, send_command, load_command, keep_send,
  keep_load,
}
use tiksrv.Eztik.Commands.Opening.{handler_of, open_missing}
use tiksrv.Eztik.Sessions.Opening.{made, with_made}

-- A response with this code goes to the client, and nothing changes.
abbrev pub refusal : ℕ → Request → Eztik → ℕ → Result (Eztik × List Call)
refusal client req t code = ok (t, answer client (build_response [] code req.header.tag) ∷ [])

-- The cases of a client without a session, with one that is not ready, and with one that is.
abbrev pub by_session {ℓ} :
    {A : Type ℓ} → Eztik → Option (Session × Handler) → A → A → (Session → A) → A
by_session t none x y z = x
by_session t (some (s, h)) x y z = if is_ready t.apis s then z s else y

module _ (client : ℕ) (req : Request) (t : Eztik) where
  pub has_ready-found :
      {s : Session} {h : Handler}
      → find_session client t.sessions.entries ≡ some (s, h)
      → has_ready t.apis client t.sessions ≡ is_ready t.apis s
  unfolding has_ready
  has_ready-found f = rw f refl

  has_ready-missing :
      find_session client t.sessions.entries ≡ none → has_ready t.apis client t.sessions ≡ false
  unfolding has_ready
  has_ready-missing m = rw m refl

  require_session-unready :
      (keep : Option Session → Eztik → Eztik) (execute : ℕ → Request → Act Eztik Call)
      → has_ready t.apis client t.sessions ≡ false
      → require_session keep execute client req t
        ≡ refusal client req t (make_response_code ros_session_not_open)
  unfolding require_session answer_number
  require_session-unready keep execute n = rw (require_session, n) refl

  pub require_session-ready :
      (keep : Option Session → Eztik → Eztik) (execute : ℕ → Request → Act Eztik Call) {s : Session}
      {h : Handler}
      → find_session client t.sessions.entries ≡ some (s, h)
      → has_ready t.apis client t.sessions ≡ true
      → require_session keep execute client req t ≡ execute client req (keep (some s) t)
  unfolding require_session
  require_session-ready keep execute f r =
      rw (require_session, r) (prepend-nil _ ∙ ap (λ o. execute client req (keep (current o) t)) f)
    where
      current : Option (Session × Handler) → Option Session
      current o = elim o [ none ↦ none | some (s, h) ↦ some s ]

  open_execute-ready :
      (conf : RouterSettings)
      → has_ready t.apis client t.sessions ≡ true
      → open_execute conf client req t
        ≡ refusal client req t (make_response_code ros_session_already_open)
  unfolding open_execute answer_number
  open_execute-ready conf r = rw (open_execute, r) refl

  open_execute-unready :
      (conf : RouterSettings)
      → has_ready t.apis client t.sessions ≡ false
      → has_session client t.sessions ≡ true
      → open_execute conf client req t ≡ refusal client req t (response_code operation_pending)
  unfolding open_execute answer_code
  open_execute-unready conf r h = rw (open_execute, r, h) refl

  module _ (conf : Config) (fmt : Fmt) (msgs : Messages) where
    -- A request to send or to load is executed, with the client's own session as the command's
    -- current one, when that session is ready; without one, or with one that is not ready, it is
    -- answered with ros_session_not_open, and nothing else happens or changes. A request to open starts
    -- a session for a client without one, and is refused likewise with operation_pending while the
    -- session is not ready, and with ros_session_already_open when it is. All answers are under the
    -- request's tag. The settings of the router are taken to be readable.
    pub commands-session :
        (e : Option (Session × Handler))
        → find_session client t.sessions.entries ≡ e
        → (send_command fmt msgs client req t
            ≡ by_session t e
                (refusal client req t (make_response_code ros_session_not_open))
                (refusal client req t (make_response_code ros_session_not_open))
                (λ s. send_execute fmt msgs client req (keep_send (some s) t)))
          × (load_command fmt msgs client req t
              ≡ by_session t e
                  (refusal client req t (make_response_code ros_session_not_open))
                  (refusal client req t (make_response_code ros_session_not_open))
                  (λ s. load_execute fmt msgs client req (keep_load (some s) t)))
          × (open_execute (readable conf) client req t
              ≡ by_session t e
                  (ok (
                    record t { sessions = with_made client (handler_of client req) t.sessions },
                    session_call (
                          open_api
                            (made client t.sessions)
                            (handler_of client req)
                            conf.ros_ip
                            conf.ros_api_port)
                        ∷ [],
                  ))
                  (refusal client req t (response_code operation_pending))
                  (λ s. refusal client req t (make_response_code ros_session_already_open)))
    unfolding send_command load_command has_session
    commands-session none f =
        let unready = has_ready-missing f in
        (
          require_session-unready keep_send (send_execute fmt msgs) unready,
          require_session-unready keep_load (load_execute fmt msgs) unready,
          open_missing conf client req t f,
        )
    commands-session (some (s, h)) f = elim (Bool-cases (is_ready t.apis s)) [
      | inl ready ↦ rw ready (
        require_session-ready keep_send (send_execute fmt msgs) f (has_ready-found f ∙ ready),
        require_session-ready keep_load (load_execute fmt msgs) f (has_ready-found f ∙ ready),
        open_execute-ready (readable conf) (has_ready-found f ∙ ready),
      )
      | inr unready ↦ rw unready (
        require_session-unready keep_send (send_execute fmt msgs) (has_ready-found f ∙ unready),
        require_session-unready keep_load (load_execute fmt msgs) (has_ready-found f ∙ unready),
        open_execute-unready (readable conf) (has_ready-found f ∙ unready) (ap is_found f),
      )
    ]
