-- ===== src/App/Server.antt =====
-- src/app/include/app/server.hpp, src/app/src/server.cpp and `load_plugins` of src/app/src/app.cpp:
-- commands by number, and what becomes of a request. Log messages are left out; a command is the
-- number of a ts::interop::command object, a client its id.
pub mod Dispatch
use tiksrv.Base.{
  ℕ, ◌+◌, ◌*◌, ◌%◌, ◌^◌, ◌≡◌, ◌≢◌, refl, ap, ◌∙◌, Bool, true, false, Option, none, some, List, [],
  ◌∷◌, ◌++◌, Result, ok, aborted, Act, prepend, bit_and, bit_or, ◌==◌, if◌then◌else◌, arith,
}
use tiksrv.Net.Message.{Request, ResponseCode, unknown_command}
use tiksrv.App.Hooks.{Groups, connection, disconnection, Hook, run_hooks}

abbrev pub Command : Type 0
Command = ℕ

-- `make_command_id`, in the std::uint32_t that `add_command` takes.
unfoldable pub make_command_id : ℕ → ℕ → ℕ
make_command_id type key = bit_or (type * 2 ^ 16 % 2 ^ 32) (bit_and key 0xffff)

-- `commands_`, by command number.
abbrev pub Commands : Type 0
Commands = List (ℕ × Command)

unfoldable pub find_command : ℕ → Commands → Option Command
find_command id [] = none
find_command id ((i, cmd) ∷ cmds) = if i == id then some cmd else find_command id cmds

abbrev keep_present : Option Command → Commands → Commands → Commands
keep_present (some cmd) present added = present
keep_present none present added = added

-- `emplace` keeps a command that is there.
unfoldable pub add_command : ℕ → Command → Commands → Commands
unfolding find_command
add_command id cmd cmds = keep_present (find_command id cmds) cmds (cmds ++ ((id, cmd) ∷ []))

-- What the plugins export, in order: a type, a key and a command each.
unfoldable pub load_commands : List (ℕ × ℕ × Command) → Commands → Commands
unfolding add_command make_command_id
load_commands [] cmds = cmds
load_commands ((type, key, cmd) ∷ es) cmds =
    load_commands es (add_command (make_command_id type key) cmd cmds)

-- The calls that the server makes: on a client, on a command, and on a hook, with the client.
pub data Call : Type 0 where
  start : ℕ → Call
  respond : ℕ → ResponseCode → ℕ → Call
  run : Command → ℕ → Request → Call
  hook : Hook → Option ℕ → Call

abbrev pub answer : ℕ → Request → Option Command → Call
answer client req (some cmd) = run cmd client req
answer client req none = respond client unknown_command req.header.tag

unfoldable pub on_request : ℕ → Request → Commands → List Call
unfolding find_command
on_request client req cmds = answer client req (find_command req.header.command cmds) ∷ []

abbrev pub hook_calls : List (Hook × Option ℕ) → List Call
hook_calls [] = []
hook_calls ((h, c) ∷ hs) = hook h c ∷ hook_calls hs

unfoldable pub run_for : ℕ → (Option ℕ → Option ℕ) → ℕ → Groups → Result (List Call)
unfolding run_hooks
run_for group moved client gs = elim (run_hooks moved group (some client) gs) [
  | ok (gs', cs) ↦ ok (hook_calls cs)
  | aborted ↦ aborted
]

-- `moved` is what is left of a std::any that holds a client when it has been moved from. `connected`
-- says whether the socket still has a remote endpoint: without one `endpoint` throws, and the
-- exception is only logged. Hooks do not throw here.
unfoldable pub on_accept : (Option ℕ → Option ℕ) → Bool → ℕ → Groups → Result (List Call)
unfolding run_for
on_accept moved false client gs = ok []
on_accept moved true client gs = elim (run_for connection moved client gs) [
  | ok cs ↦ ok (start client ∷ cs)
  | aborted ↦ aborted
]

unfoldable pub on_error : (Option ℕ → Option ℕ) → ℕ → Groups → Result (List Call)
unfolding run_for
on_error moved client gs = run_for disconnection moved client gs
