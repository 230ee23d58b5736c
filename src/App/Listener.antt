-- ===== src/App/Listener.antt =====
-- src/net/include/net/tcp_listener.hpp and src/net/src/tcp_listener.cpp. `io_.run()`, which serves
-- the completions, is the environment.
use tiksrv.Base.{
  ℕ, ◌+◌, ◌%◌, ◌^◌, ◌≡◌, refl, ap, Bool, true, false, not, Option, none, some, List, [], ◌∷◌, ◌++◌,
  ok, Act, prepend, ◌>>◌, skip, emit, modify, assert, reading, if◌then◌else◌, arith,
}

pub record Listener : Type 0 where
  pub running : Bool
  pub current_client_id : ℕ
  pub backlog : ℕ

-- The calls on the acceptor, on the listener's handler and on the I/O context. `async_accept` is for
-- the client with the id.
pub data Call : Type 0 where
  listen : ℕ → Call
  cancel close stop_io run_io : Call
  async_accept : ℕ → Call
  on_accept : ℕ → Call

unfoldable pub accept_next : Act Listener Call
accept_next = reading λ l.
    if l.running
    then (modify (λ m. record m { current_client_id = (m.current_client_id + 1) % 2 ^ 32 })
        >> emit (async_accept l.current_client_id))
    else skip

-- The completion of `accept_next`'s accept, for the client that it was for.
unfoldable pub accept_completed : ℕ → Option ℕ → Act Listener Call
unfolding accept_next
accept_completed client err =
    elim err [ some x ↦ skip | none ↦ emit (on_accept client) ] >> accept_next

unfoldable pub start : Act Listener Call
unfolding accept_next
start =
    reading (λ l. assert (not l.running) >> emit (listen l.backlog))
    >> modify (λ l. record l { running = true })
    >> accept_next
    >> emit run_io

-- Also the destructor.
unfoldable pub stop : Act Listener Call
stop =
    reading (λ l. assert l.running)
    >> emit cancel
    >> emit close
    >> emit stop_io
    >> modify (λ l. record l { running = false })

-- The accepts complete one after the other, the first for the client `client`, each as it is said.
abbrev pub serve : ℕ → List (Option ℕ) → Act Listener Call
unfolding accept_completed
serve client [] = skip
serve client (err ∷ errs) = accept_completed client err >> serve ((client + 1) % 2 ^ 32) errs

-- What comes of them: a client whose accept went well is handed over under its own number, and after
-- each the next number is awaited.
abbrev pub accepts : ℕ → List (Option ℕ) → List Call
accepts client [] = []
accepts client (none ∷ errs) =
    on_accept client ∷ async_accept ((client + 1) % 2 ^ 32) ∷ accepts ((client + 1) % 2 ^ 32) errs
accepts client (some x ∷ errs) =
    async_accept ((client + 1) % 2 ^ 32) ∷ accepts ((client + 1) % 2 ^ 32) errs

abbrev taken : Listener → ℕ → Listener
taken l client = record l { current_client_id = (client + 1) % 2 ^ 32 }

accept_completed_lem :
    (l : Listener) (client : ℕ) (err : Option ℕ)
    → l.running ≡ true
    → accept_completed client err l
      ≡ ok (
        taken l l.current_client_id,
        elim err [ some x ↦ [] | none ↦ on_accept client ∷ [] ]
            ++ (async_accept l.current_client_id ∷ []),
      )
unfolding accept_completed
accept_completed_lem l client none r = ground arith
accept_completed_lem l client (some x) r = ground arith

-- While the listener runs, clients are numbered one up in 32 bits, whatever accepts fail: each accept
-- that succeeds hands the client to the handler under the number that it was made with, a failed one
-- uses its number up, and after each one exactly one accept is started, for the next number.
pub serve-accepts :
    (l : Listener) (client : ℕ) (errs : List (Option ℕ))
    → l.running ≡ true
    → l.current_client_id ≡ (client + 1) % 2 ^ 32
    → (m : Listener) × (serve client errs l ≡ ok (m, accepts client errs)) × (m.running ≡ true)
unfolding serve
serve-accepts l client [] r c = (l, refl, r)
serve-accepts l client (none ∷ errs) r c =
    let (m, run, still) =
      serve-accepts (taken l ((client + 1) % 2 ^ 32)) ((client + 1) % 2 ^ 32) errs r refl in
    (
      m,
      rw (accept_completed_lem l client none r, c)
          (ap (prepend (on_accept client ∷ async_accept ((client + 1) % 2 ^ 32) ∷ [])) run),
      still,
    )
serve-accepts l client (some x ∷ errs) r c =
    let (m, run, still) =
      serve-accepts (taken l ((client + 1) % 2 ^ 32)) ((client + 1) % 2 ^ 32) errs r refl in
    (
      m,
      rw (accept_completed_lem l client (some x) r, c)
          (ap (prepend (async_accept ((client + 1) % 2 ^ 32) ∷ [])) run),
      still,
    )
