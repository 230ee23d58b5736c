-- ===== src/App/Server/Dispatch.antt =====
-- Which command serves a request.
use tiksrv.Base.{
  ℕ, ◌+◌, ◌*◌, ◌^◌, ◌<◌, ◌≡◌, refl, sym, ap, ◌∙◌, Bool, true, false, Bool-cases, inl, inr, ◌&&◌,
  Option, none, some, Option-cases, List, [], ◌∷◌, ◌++◌, All, ◌==◌, if◌then◌else◌, arith, ==_iff,
}
use tiksrv.Base.Bits.{or_high_low, and_ffff}
use native.Mathlib.Nat.{mod-eq_of_lt}
use tiksrv.Net.Message.{Request, unknown_command}
use tiksrv.App.Server.{
  Command, Commands, make_command_id, find_command, add_command, load_commands, answer, run,
  respond, on_request,
}

make_command_id_lem :
    (type key : ℕ) → type < 2 ^ 16 → key < 2 ^ 16 → make_command_id type key ≡ type * 2 ^ 16 + key
unfolding make_command_id
make_command_id_lem type key ht hk =
    rw
      (
        mod-eq_of_lt {n = type * 2 ^ 16} {m = 2 ^ 32} (omega arith),
        and_ffff key,
        mod-eq_of_lt {n = key} {m = 2 ^ 16} hk,
      )
      (or_high_low 16 key type hk)

-- Two commands have the same number only if they have the same type and the same key.
make_command_id_same :
    (t k type key : ℕ)
    → t < 2 ^ 16
    → k < 2 ^ 16
    → type < 2 ^ 16
    → key < 2 ^ 16
    → (make_command_id t k == make_command_id type key) ≡ (t == type && k == key)
make_command_id_same t k type key ht hk hT hK =
    ground (arith, make_command_id_lem t k ht hk, make_command_id_lem type key hT hK)

-- The first of the exports under a type and a key.
abbrev pub exported : ℕ → ℕ → List (ℕ × ℕ × Command) → Option Command
exported type key [] = none
exported type key ((t, k, cmd) ∷ es) =
    if t == type && k == key then some cmd else exported type key es

abbrev pub Fits : ℕ × ℕ × Command → Type 0
Fits (type, key, cmd) = (type < 2 ^ 16) × (key < 2 ^ 16)

abbrev or_else : Option Command → Option Command → Option Command
or_else (some cmd) o = some cmd
or_else none o = o

or_else_if :
    (o e : Option Command) (b : Bool) (cmd : Command)
    → or_else (or_else o (if b then some cmd else none)) e ≡ or_else o (if b then some cmd else e)
or_else_if none e true cmd = refl
or_else_if none e false cmd = refl
or_else_if (some c) e b cmd = refl

or_else-none : (o : Option Command) → or_else o none ≡ o
or_else-none none = refl
or_else-none (some cmd) = refl

find_command-append :
    (id i : ℕ) (cmd : Command) (cmds : Commands)
    → find_command id (cmds ++ ((i, cmd) ∷ []))
      ≡ or_else (find_command id cmds) (if i == id then some cmd else none)
unfolding find_command
find_command-append id i cmd [] = refl
find_command-append id i cmd ((j, c) ∷ cmds) = ground (arith, find_command-append id i cmd cmds)

find_command-add_command :
    (id i : ℕ) (cmd : Command) (cmds : Commands)
    → find_command id (add_command i cmd cmds)
      ≡ or_else (find_command id cmds) (if i == id then some cmd else none)
unfolding add_command
find_command-add_command id i cmd cmds = elim (Option-cases (find_command i cmds)) [
  | inl missing ↦ rw missing (find_command-append id i cmd cmds)
  | inr (c, present) ↦ rw present (elim (Bool-cases (i == id)) [
    | inl same ↦ rw (ap (λ j. find_command j cmds) (sym ((==_iff i id).0 same)) ∙ present)
    | inr differs ↦ rw differs (sym (or_else-none (find_command id cmds)))
  ])
]

find_command-load_commands :
    (type key : ℕ) (es : List (ℕ × ℕ × Command)) (cmds : Commands)
    → type < 2 ^ 16
    → key < 2 ^ 16
    → All Fits es
    → find_command (make_command_id type key) (load_commands es cmds)
      ≡ or_else (find_command (make_command_id type key) cmds) (exported type key es)
unfolding load_commands
find_command-load_commands type key [] cmds ht hk v =
    sym (or_else-none (find_command (make_command_id type key) cmds))
find_command-load_commands type key ((t, k, cmd) ∷ es) cmds ht hk v =
    find_command-load_commands type key es (add_command (make_command_id t k) cmd cmds) ht hk v.1
    ∙ rw
        (
          find_command-add_command (make_command_id type key) (make_command_id t k) cmd cmds,
          make_command_id_same t k type key v.0.0 v.0.1 ht hk,
        )
        (or_else_if (find_command (make_command_id type key) cmds) (exported type key es)
          (t == type && k == key) cmd)

-- A request whose command is the number of a type and a key is served by the first command that the
-- plugins export under that type and that key, or, if there is none, answered with unknown_command
-- under its own tag, and by nothing else. Types and keys of 16 bits each are never confused. This
-- holds for a server that had no commands before the plugins were loaded.
pub on_request-load_commands :
    (client type key : ℕ) (req : Request) (es : List (ℕ × ℕ × Command))
    → type < 2 ^ 16
    → key < 2 ^ 16
    → All Fits es
    → req.header.command ≡ make_command_id type key
    → ((cmd : Command)
        → exported type key es ≡ some cmd
        → on_request client req (load_commands es []) ≡ run cmd client req ∷ [])
      × (exported type key es ≡ none
          → on_request client req (load_commands es [])
            ≡ respond client unknown_command req.header.tag ∷ [])
unfolding on_request
on_request-load_commands client type key req es ht hk v c =
    let found : find_command req.header.command (load_commands es []) ≡ exported type key es =
      ap (λ id. find_command id (load_commands es [])) c
      ∙ find_command-load_commands type key es [] ht hk v in
    let answered = λ (o : Option Command) (e : exported type key es ≡ o).
      ap (λ p. answer client req p ∷ []) (found ∙ e) in
    (λ cmd e. answered (some cmd) e, λ e. answered none e)
