-- ===== src/App/Plugins.antt =====
-- src/interop/src/plugin_loader.cpp, plugin.hpp and plugin_loader.hpp of src/interop/include/interop,
-- and `load_plugins` of src/app/src/app.cpp: shared objects of a directory, and the commands that they
-- export. Boost.DLL opens a shared object, and the file system lists the directory.
pub mod Loading
use tiksrv.Base.{
  ℕ, ◌≡◌, Bool, true, false, ◌&&◌, Option, none, some, List, [], ◌∷◌, ◌++◌, Bytes, codes, Result,
  ok, aborted, if◌then◌else◌, str_eq,
}
use tiksrv.Base.Outcome.{Outcome, returned, thrown, stopped, runtime_error, ◌>>=◌}
use tiksrv.App.Config.{Options}
use tiksrv.App.Hooks.{Groups}
use tiksrv.App.Server.{Command, Commands, load_commands}
use tiksrv.App.Services.{ServicesManager}

-- What the creation of a plugin may change: the services, and the state of two of them.
pub record World : Type 0 where
  pub manager : ServicesManager
  pub groups : Groups
  pub options : Options

-- A plugin's `create_plugin`, which may throw (true), and what `export_commands`, which is noexcept,
-- exports: a type, a key and a command each.
pub record Plugin : Type 0 where
  pub create : World → Result (World × Bool)
  pub exports : List (ℕ × ℕ × Command)

-- A directory's entry. `library` is none if the shared object cannot be opened or has no
-- `create_plugin`.
pub record Entry : Type 0 where
  pub is_regular_file : Bool
  pub extension : Bytes
  pub library : Option Plugin

abbrev pub created : Plugin → Result (World × Bool) → Outcome (World × List Plugin)
created p (ok (w, false)) = returned (w, p ∷ [])
created p (ok (w, true)) = returned (w, [])
created p aborted = stopped

-- `load`; the loop of `load_all` catches what it throws.
unfoldable pub load : Option Plugin → World → Outcome (World × List Plugin)
load none w = returned (w, [])
load (some p) w = created p (p.create w)

unfoldable pub is_plugin : Entry → Bool
is_plugin e = e.is_regular_file && str_eq e.extension (codes ".so")

abbrev pub and_then : List Plugin → Outcome (World × List Plugin) → Outcome (World × List Plugin)
and_then ps (returned (w, qs)) = returned (w, ps ++ qs)
and_then ps (thrown x) = thrown x
and_then ps stopped = stopped

-- The loop of `load_all`.
unfoldable pub load_entries : List Entry → World → Outcome (World × List Plugin)
unfolding load is_plugin
load_entries [] w = returned (w, [])
load_entries (e ∷ es) w = (if is_plugin e then load e.library w else returned (w, [])) >>= λ r.
    and_then r.1 (load_entries es r.0)

-- None is a path that does not exist or is no directory.
unfoldable pub load_all : Option (List Entry) → World → Outcome (World × List Plugin)
unfolding load_entries
load_all none w = thrown runtime_error
load_all (some es) w = load_entries es w

-- The commands of all plugins, one plugin after the other.
unfoldable pub export_all : List Plugin → Commands → Commands
unfolding load_commands
export_all [] cmds = cmds
export_all (p ∷ ps) cmds = export_all ps (load_commands p.exports cmds)

unfoldable pub load_plugins : Option (List Entry) → World → Commands → Outcome (World × Commands)
unfolding load_all export_all
load_plugins dir w cmds = load_all dir w >>= λ r. returned (r.0, export_all r.1 cmds)
