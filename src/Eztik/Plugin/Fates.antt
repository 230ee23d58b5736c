-- ===== src/Eztik/Plugin/Fates.antt =====
-- What becomes of the requests that the server dispatches: app/src/server.cpp, with the commands of
-- plugins/core and plugins/eztik/commands.
use tiksrv.Base.{
  ℕ, ◌+◌, ◌≡◌, refl, ap, Bool, ◌&&◌, inl, inr, Option, none, some, List, [], ◌∷◌, ◌++◌, Result, ok,
  skip, append-nil, Returns-exists, run_then, aborted, count_if, count_if-append, arith, ◌==◌,
  Bytes,
}
use tiksrv.Net.Message.{Request, unknown_command}
use tiksrv.RouterOs.Sentence.{Fmt}
use tiksrv.App.Hooks.{Hook}
use tiksrv.App.Server
use tiksrv.App.Server.{Command, Commands, find_command}
use tiksrv.Eztik.Commands.{Eztik, Call, answer, api_call, session_call}
use tiksrv.Eztik.Commands.Requests.{Messages}
use tiksrv.Eztik.Commands.Opening.{handler_of}
use tiksrv.Base.{◌⊎◌}
use tiksrv.Base.Outcome.{returned}
use tiksrv.Eztik.Sessions.{Handler, RouterSettings, find_session}
use tiksrv.Eztik.Plugin.Answering.{
  CommandObject, opening, perform_all, serve, serve_all, answers, captured, Fate, answered,
  awaits_session, awaits_router, Ends,
}
use tiksrv.Eztik.Plugin.Operating.{code-Ends, IsUnreadable, operate_cases}

then_skip-Ends :
    (client : ℕ) (req : Request) (t : Eztik) (r : Result (Eztik × List Call))
    → Ends client req t r
    → Ends client req t (run_then r skip)
then_skip-Ends client req t (ok (u, cs)) h = rw (append-nil cs) h
then_skip-Ends client req t aborted h = h

answers-append : (cs ds : List Call) → answers (cs ++ ds) ≡ answers cs ++ answers ds
answers-append [] ds = refl
answers-append (answer client r ∷ cs) ds = ap (◌∷◌ (client, r)) (answers-append cs ds)
answers-append (api_call n c ∷ cs) ds = answers-append cs ds
answers-append (session_call c ∷ cs) ds = answers-append cs ds

-- Whether it is this client and this tag.
abbrev pub is_for : Handler → ℕ → ℕ → Bool
is_for h client tag = client == h.client && tag == h.tag

-- What there is for a client and a tag: answers among the calls, functions left with connections,
-- and sessions.
abbrev pub accounted : Handler → Eztik → List Call → ℕ
accounted h t cs =
    count_if (λ (client, r). is_for h client r.header.tag) (answers cs)
    + count_if (λ w. is_for h (captured w).client (captured w).tag) t.waiting
    + count_if (λ (id, s, opened). is_for h opened.client opened.tag) t.sessions.entries

-- How often a client has used a tag in its requests.
abbrev pub demanded : Handler → List (ℕ × Request) → ℕ
demanded h rs = count_if (λ (client, req). is_for h client req.header.tag) rs

accounted-Fate :
    (k : Handler) (client : ℕ) (req : Request) (t u : Eztik) (cs : List Call)
    → Fate client req t u cs
    → accounted k u cs ≡ demanded k ((client, req) ∷ []) + accounted k t []
accounted-Fate k client req t u cs (answered r a tag s w) = rw (a, s, w, tag) (omega arith)
accounted-Fate k client req t u cs (awaits_session s a none_yet e w) =
    rw (a, e, w)
      (omega (
        arith,
        count_if-append (λ (id, s, opened). is_for k opened.client opened.tag) t.sessions.entries
            ((client, s, handler_of client req) ∷ []),
      ))
accounted-Fate k client req t u cs (awaits_router s h out w a f e v c) =
    rw (a, e, v)
      (omega (
        arith,
        count_if-append (λ w. is_for k (captured w).client (captured w).tag) t.waiting (w ∷ []),
        ap (λ (g : Handler). count_if (λ g. is_for k g.client g.tag) (g ∷ [])) c,
      ))

module _ (conf : RouterSettings) (fmt : Fmt) (msgs : Messages) (object : Command → CommandObject)
    (hook : Hook) where
  -- The request asks for the command that opens sessions, its client has none, and the router's
  -- address is no value that can be read.
  abbrev pub EndsProgram : Commands → ℕ → Request → Eztik → Type 0
  EndsProgram cmds client req t =
      (cmd : Command) × (find_command req.header.command cmds ≡ some cmd)
      × (object cmd ≡ opening)
      × (find_session client t.sessions.entries ≡ none)
      × IsUnreadable conf

  answer_cases :
      (o : Option Command) (client : ℕ) (req : Request) (t : Eztik)
      → ((perform_all conf fmt msgs object hook (Server.answer client req o ∷ []) t ≡ aborted)
          × ((cmd : Command) × (o ≡ some cmd)
              × (object cmd ≡ opening)
              × (find_session client t.sessions.entries ≡ none)
              × IsUnreadable conf))
        ⊎ Ends client req t
            (perform_all conf fmt msgs object hook (Server.answer client req o ∷ []) t)
  unfolding perform_all
  answer_cases none client req t = inr (code-Ends client req t unknown_command)
  answer_cases (some cmd) client req t =
      elim (operate_cases conf fmt msgs conf.address (object cmd) client req t refl) [
        | inl (stops, (opens, missing, unreadable)) ↦
            inl (rw stops refl, (cmd, refl, opens, missing, unreadable))
        | inr ends ↦ inr (then_skip-Ends client req t _ ends)
      ]

  -- Whatever commands the server knows, each an object of one of the four classes of the two plugins,
  -- one of four things becomes of a request. It ends the program, when it asks to open a session, its
  -- client has none, and the router's address cannot be read from the configuration; or else it is
  -- answered at once, exactly once, to its client and under its tag, and no session begins and no
  -- function is left waiting; or its client, which had no session, gets one, with the client and the
  -- tag to answer under; or one request goes to the router over the client's own session, with a
  -- function that has captured the client and the tag, and no answer is given yet.
  pub serve-Fate :
      (cmds : Commands) (client : ℕ) (req : Request) (t : Eztik)
      → ((serve conf fmt msgs object hook cmds client req t ≡ aborted)
          × EndsProgram cmds client req t)
        ⊎ ((u : Eztik) × (cs : List Call) × (serve conf fmt msgs object hook cmds client req t
              ≡ ok (u, cs))
            × Fate client req t u cs)
  unfolding serve Server.on_request
  serve-Fate cmds client req t =
      elim (answer_cases (find_command req.header.command cmds) client req t) [
        | inl stops ↦ inl stops
        | inr ends ↦ let ((u, cs), h, f) = Returns-exists _ _ ends in inr (u, cs, h, f)
      ]

  served :
      (cmds : Commands) (client : ℕ) (req : Request) (t : Eztik) (address : Bytes × ℕ)
      → conf.address ≡ returned address
      → (u : Eztik) × (cs : List Call) × (serve conf fmt msgs object hook cmds client req t
          ≡ ok (u, cs))
        × Fate client req t u cs
  served cmds client req t address a = elim (serve-Fate cmds client req t) [
    | inl (stops, (cmd, known, opens, missing, unreadable)) ↦ absurd (unreadable address a)
    | inr ends ↦ ends
  ]

  -- Requests of any clients, one after the other, are all served without an end of the program, and
  -- none is lost or counted twice: for each client and each tag, the answers that are given to it
  -- under the tag, the functions left with connections for it, and the sessions that answer under it
  -- are together as many more than before as there were requests of that client with that tag. This
  -- holds when the router's address can be read from the configuration.
  pub serve_all-accounted :
      (cmds : Commands) (h : Handler) (rs : List (ℕ × Request)) (t : Eztik) (address : Bytes × ℕ)
      → conf.address ≡ returned address
      → (u : Eztik) × (cs : List Call) × (serve_all conf fmt msgs object hook cmds rs t
          ≡ ok (u, cs))
        × (accounted h u cs ≡ demanded h rs + accounted h t [])
  unfolding serve_all
  serve_all-accounted cmds h [] t address a = (t, [], refl, omega arith)
  serve_all-accounted cmds h ((client, req) ∷ rs) t address a =
      let (u, cs, first, f) = served cmds client req t address a in
      let (v, ds, rest, sum) = serve_all-accounted cmds h rs u address a in
      (
        v,
        cs ++ ds,
        rw (first, rest) refl,
        omega (
          arith,
          sum,
          accounted-Fate h client req t u cs f,
          ap (count_if (λ (k, r). is_for h k r.header.tag)) (answers-append cs ds),
          count_if-append (λ (k, r). is_for h k r.header.tag) (answers cs) (answers ds),
        ),
      )
