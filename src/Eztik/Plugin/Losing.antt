-- ===== src/Eztik/Plugin/Losing.antt =====
-- What a lost client leaves behind.
use tiksrv.Base.{
  ℕ, ◌≡◌, refl, ◌∙◌, Bool-cases, inl, inr, Option, none, some, List, [], ◌∷◌, ok, if◌then◌else◌,
}
use tiksrv.Base.{false}
use tiksrv.Net.Message.{Endian, Response}
use tiksrv.Net.Client
use tiksrv.Net.Client.{build_response, is_closed}
use tiksrv.App.Hooks.{Hook, disconnection, call_hooks, run_hooks}
use tiksrv.App.Hooks.Order.{hooks_of, push_hook-own}
use tiksrv.App.Plugins.{World}
use tiksrv.App.Server
use tiksrv.App.Server.{hook_calls, run_for}
use tiksrv.Eztik.Commands.{
  Eztik, Call, answer, ros_session_closed, make_response_code, closed, answer_number,
  session_effect, session_effects, client_lost,
}
use tiksrv.Eztik.Commands.Opening.{on_sessions_ok}
use tiksrv.Eztik.Plugin.Serving.{with_eztik}
use tiksrv.Eztik.Sessions.{Handler, Session, find_session, is_ready, on_close}
use tiksrv.Eztik.Sessions.Closing.{IsKept, IsErased, closing_calls, on_close_lem}

-- `respond` is called for the client of a session that was ready, under the tag of its request to open it.
abbrev pub closing_answers : Eztik → Option (Session × Handler) → List Call
closing_answers t none = []
closing_answers t (some (s, h)) =
    if is_ready t.apis s
    then answer h.client (build_response [] (make_response_code ros_session_closed) h.tag) ∷ []
    else []

closing_effects :
    (t u : Eztik) (e : Option (Session × Handler))
    → session_effects (closing_calls t.apis e) u ≡ ok (u, closing_answers t e)
unfolding session_effects session_effect closed answer_number
closing_effects t u none = refl
closing_effects t u (some (s, h)) = elim (Bool-cases (is_ready t.apis s)) [
  | inl ready ↦ rw ready refl
  | inr unready ↦ rw unready refl
]

-- After an error of a client, the handler called and the socket closed, a response that is posted is
-- not sent.
unsent :
    (e : Endian) (c : Client.Client) (err : Client.ErrorCode)
    → is_closed c.state ≡ false
    → c.send_queue ≡ []
    → (d : Client.Client) × (Client.fail err c ≡ ok (d, Client.on_error err ∷ []))
      × ((r : Response) (cb : Client.SendHandler)
          → Client.respond_posted e r cb d
            ≡ ok (d, Client.handler cb (some Client.not_connected) ∷ []))
unfolding Client.fail Client.close Client.respond_posted Client.send_next Client.send_front
    Client.is_open
unsent e c err o q =
    (record c { sock_open = false; state = Client.closed }, rw o refl, λ r cb. rw q refl)

module _ (moved : Option ℕ → Option ℕ) (hook : Hook) where
  on_error-with_eztik :
      (client : ℕ) (w : World)
      → hooks_of disconnection w.groups ≡ []
      → Server.on_error moved client (with_eztik moved hook w).groups
        ≡ ok (Server.hook hook (some client) ∷ [])
  unfolding Server.on_error run_for run_hooks call_hooks
  on_error-with_eztik client w none_yet =
      rw (Server.on_error, run_for, run_hooks, push_hook-own disconnection hook w.groups, none_yet)
        refl

  -- When the server loses a client, and eztik's hook is the only one for lost clients, the hook is
  -- called with that client, and it returns: the client has no session any more, all other sessions
  -- are as they were, and `respond` is called for the client with ros_session_closed, under the tag
  -- with which it had opened the session, just if the session was ready. But the client's socket is
  -- closed behind the hook, and then a response that is posted is not sent: its handler is told
  -- not_connected. This holds while each session stands under its own id, for a client that is not
  -- closed yet and has no response queued.
  pub on_error-client_lost :
      (client : ℕ) (w : World) (t : Eztik) (e : Endian) (c : Client.Client) (err : Client.ErrorCode)
      → hooks_of disconnection w.groups ≡ []
      → IsKept t.sessions
      → is_closed c.state ≡ false
      → c.send_queue ≡ []
      → (u : Eztik) × (Server.on_error moved client (with_eztik moved hook w).groups
          ≡ ok (Server.hook hook (some client) ∷ []))
        × (client_lost (some client) t
            ≡ ok (u, closing_answers t (find_session client t.sessions.entries)))
        × IsErased client t.sessions u.sessions
        × IsKept u.sessions
        × ((d : Client.Client) × (Client.fail err c ≡ ok (d, Client.on_error err ∷ []))
            × ((r : Response) (cb : Client.SendHandler)
                → Client.respond_posted e r cb d
                  ≡ ok (d, Client.handler cb (some Client.not_connected) ∷ [])))
  unfolding client_lost
  on_error-client_lost client w t e c err none_yet kept o q =
      let (s, closes, erased, kept_so) = on_close_lem t.apis client t.sessions kept in
      (
        record t { sessions = s },
        on_error-with_eztik client w none_yet,
        on_sessions_ok (λ apis. on_close apis client) t closes
            ∙ closing_effects t (record t { sessions = s })
                (find_session client t.sessions.entries),
        erased,
        kept_so,
        unsent e c err o q,
      )
