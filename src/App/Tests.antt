-- ===== src/App/Tests.antt =====
-- The application at concrete inputs.
pub mod Options
pub mod Start
use tiksrv.Base.{
  ℕ, ◌≡◌, ◌≢◌, refl, true, Option, none, some, List, [], ◌∷◌, ◌++◌, length, ok, arith,
}
use tiksrv.Net.Message.{Request, unknown_command}
use tiksrv.App.Hooks.{Groups, find_group, register_hook, call_hooks, run_hooks}
use tiksrv.App.Hooks.Order.{hooks_of, moved_from, register_hook-run_hooks}
use tiksrv.App.Listener.{Listener, serve, accepts, serve-accepts}
use tiksrv.App.Server.{Command, make_command_id, load_commands, on_request, run, respond}
use tiksrv.App.Server.Dispatch.{exported, on_request-load_commands}

-- A moved-from std::any is empty here.
abbrev emptied : Option ℕ → Option ℕ
emptied d = none

abbrev groups : Groups
groups = (0, 4 ∷ []) ∷ (1, []) ∷ []

register_hook-run_hooks_example :
    (gs' : Groups) × (register_hook emptied 0 6 groups ≡ ok (gs', []))
    × (run_hooks emptied 0 (some 9) gs'
        ≡ ok (
          gs',
          call_hooks emptied (hooks_of 0 groups) (some 9)
              ++ ((6, moved_from emptied (length (hooks_of 0 groups)) (some 9)) ∷ []),
        ))
    × ((other : ℕ) → other ≢ 0 → find_group other gs' ≡ find_group other groups)
register_hook-run_hooks_example = register_hook-run_hooks emptied 0 6 groups (some 9)

abbrev listener : Listener
listener = record { running = true; current_client_id = 1; backlog = 128 }

serve-accepts_example :
    (m : Listener) × (serve 0 (none ∷ some 5 ∷ none ∷ []) listener
      ≡ ok (m, accepts 0 (none ∷ some 5 ∷ none ∷ [])))
    × (m.running ≡ true)
serve-accepts_example = serve-accepts listener 0 (none ∷ some 5 ∷ none ∷ []) refl refl

abbrev exports : List (ℕ × ℕ × Command)
exports = (1, 1, 30) ∷ (1, 2, 31) ∷ (1, 1, 32) ∷ []

abbrev request : Request
request = record {
  header = record { command = make_command_id 1 2; flags = 0; tag = 5; body_size = 0 };
  body = [];
}

on_request-load_commands_example :
    ((cmd : Command)
      → exported 1 2 exports ≡ some cmd
      → on_request 9 request (load_commands exports []) ≡ run cmd 9 request ∷ [])
    × (exported 1 2 exports ≡ none
        → on_request 9 request (load_commands exports []) ≡ respond 9 unknown_command 5 ∷ [])
on_request-load_commands_example =
    on_request-load_commands 9 1 2 request exports (omega arith) (omega arith)
      ((omega arith, omega arith), ((omega arith, omega arith), ((omega arith, omega arith), tt)))
      refl
