-- ===== src/App/Start/Readiness.antt =====
-- The application runs, and its groups of hooks are there.
use tiksrv.Base.{
  ◌+◌, ◌%◌, ◌^◌, ℕ, ◌≡◌, ◌≢◌, refl, ap, Bool, true, false, inl, inr, Option, some, Option-cases,
  List, [], ◌∷◌, All, Bytes, ok,
}
use tiksrv.Base.Tests.{str_eq}
use tiksrv.Base.Outcome.{returned}
use tiksrv.App.Config.{ProgramOptions, help, version, has, from_argv, plugins_path, listen_port, at}
use tiksrv.App.Config.Values.{from_argv-HasSettings}
use tiksrv.App.Hooks.{
  Groups, connection, disconnection, find_group, has_group, call_hooks, run_hooks, initialize,
  create_group,
}
use tiksrv.App.Listener
use tiksrv.App.Listener.{Listener}
use tiksrv.App.Plugins.{World, Entry}
use tiksrv.App.Plugins.Loading.{BehavesIn, IsStarted, load_plugins-Behaves}
use tiksrv.App.Server.{Call, hook_calls, on_accept, start, on_error, run_for}
use tiksrv.App.Services
use tiksrv.App.Services.{
  config_manager, hooks_manager, config_manager_name, hooks_manager_name, uninitialized,
  initialized, before, find_service, insert_service, start_services, register_service,
}
use tiksrv.App.Start.{
  as_text, as_uint16, load_services, TiksrvApp, make_server, make_app, load_plugins_from,
  load_config, run, main, ran,
}
use tiksrv.App.Start.Settings.{Reads, HasSettings-Reads}

run_for-returns :
    (moved : Option ℕ → Option ℕ) (group client : ℕ) (gs : Groups)
    → has_group group gs ≡ true
    → (cs : List Call) × (run_for group moved client gs ≡ ok cs)
unfolding run_for run_hooks has_group
run_for-returns moved group client gs h = elim (Option-cases (find_group group gs)) [
  | inl missing ↦ absurd (false-ne-true (rw missing at h))
  | inr (hs, found) ↦
      (hook_calls (call_hooks moved hs (some client)), rw (run_for, run_hooks, found) refl)
]
  where
    false-ne-true : false ≢ true
    false-ne-true e = cc

-- Accepting a client and losing one return, without a failed assertion.
abbrev pub Serves : (Option ℕ → Option ℕ) → Groups → Type 0
Serves moved gs =
    (client : ℕ)
    → ((connected : Bool) → (cs : List Call) × (on_accept moved connected client gs ≡ ok cs))
      × ((cs : List Call) × (on_error moved client gs ≡ ok cs))

Serves-has_group :
    (moved : Option ℕ → Option ℕ) (gs : Groups)
    → has_group connection gs ≡ true
    → has_group disconnection gs ≡ true
    → Serves moved gs
unfolding on_accept on_error
Serves-has_group moved gs c d client = (accepts, run_for-returns moved disconnection client gs d)
  where
    accepts : (connected : Bool) → (cs : List Call) × (on_accept moved connected client gs ≡ ok cs)
    accepts false = ([], refl)
    accepts true =
        let (cs, returns) = run_for-returns moved connection client gs c in
        (start client ∷ cs, rw (on_accept, returns) refl)

abbrev pub fresh_world : World
fresh_world = record {
  manager = record { services = []; state = uninitialized };
  groups = [];
  options = [];
}

-- The world when the two services have been started.
abbrev started_world : World
started_world = record {
  manager = record {
    services =
        (config_manager_name, some config_manager) ∷ (hooks_manager_name, some hooks_manager) ∷ [];
    state = initialized;
  };
  groups = (connection, []) ∷ (disconnection, []) ∷ [];
  options = [];
}

load_services-fresh :
    (moved : Option ℕ → Option ℕ) → load_services moved fresh_world ≡ returned started_world
unfolding load_services initialize register_service Services.initialize Services.has find_service
    insert_service before start_services create_group has_group find_group str_eq
load_services-fresh moved = refl

started_world-IsStarted : IsStarted started_world
unfolding has_group find_group find_service str_eq
started_world-IsStarted = record { config = refl; hooks = refl; accepting = refl; losing = refl }

start-running :
    (l : Listener)
    → l.running ≡ false
    → (m : Listener) × (cs : List Listener.Call) × (Listener.start l ≡ ok (m, cs))
      × (m.running ≡ true)
unfolding Listener.start Listener.accept_next
start-running l r = (
  record l { running = true; current_client_id = (l.current_client_id + 1) % 2 ^ 32 },
  Listener.listen l.backlog ∷ Listener.async_accept l.current_client_id ∷ Listener.run_io ∷ [],
  rw r refl,
  refl,
)

module _ (po : ProgramOptions) where
  abbrev pub fresh_app : po.VariablesMap → ℕ → TiksrvApp po
  fresh_app vm backlog = record {
    values = vm;
    world = fresh_world;
    commands = [];
    listener = record { running = false; current_client_id = 0; backlog = backlog };
  }

  make_app-Reads :
      (opens : ℕ → Bool) (vm : po.VariablesMap)
      → Reads po vm
      → ((port : ℕ) → as_uint16 (at po listen_port vm) ≡ returned port → opens port ≡ true)
      → (backlog : ℕ) × (make_app po opens vm ≡ returned (fresh_app vm backlog))
  unfolding make_app make_server
  make_app-Reads opens vm ((p, port), (n, backlog), plugins, file) o =
      (n, rw (port, backlog, o p port) refl)

  -- The application starts to serve, with the groups of hooks in place.
  abbrev pub IsServing : (Option ℕ → Option ℕ) → TiksrvApp po → Type 0
  IsServing moved a = (a.listener.running ≡ true) × Serves moved a.world.groups

  module _ (file : Bytes → po.Source) (directory : Bytes → Option (List Entry)) where
    load_plugins_from-reads :
        (a : TiksrvApp po) (path : Bytes) (es : List Entry)
        → as_text (at po plugins_path a.values) ≡ returned path
        → directory path ≡ some es
        → All BehavesIn es
        → IsStarted a.world
        → (b : TiksrvApp po) × (load_plugins_from po file directory a ≡ returned b)
          × IsStarted b.world
          × (b.listener ≡ a.listener)
    unfolding load_plugins_from
    load_plugins_from-reads a path es reads lists b started =
        let (w, cmds, loads, keeps) = load_plugins-Behaves es a.world a.commands b started in
        (record a { world = w; commands = cmds }, rw (reads, lists, loads) refl, keeps, refl)

    module _ (moved : Option ℕ → Option ℕ) where
      run-IsServing :
          (vm : po.VariablesMap) (backlog : ℕ) (path : Bytes) (es : List Entry)
          → as_text (at po plugins_path vm) ≡ returned path
          → directory path ≡ some es
          → All BehavesIn es
          → (a : TiksrvApp po) × (run po file directory moved (fresh_app vm backlog) ≡ returned a)
            × IsServing moved a
      unfolding run
      run-IsServing vm backlog path es reads lists b =
          let a : TiksrvApp po = record (fresh_app vm backlog) { world = started_world } in
          let (c, loads, keeps, same) =
            load_plugins_from-reads a path es reads lists b started_world-IsStarted in
          let (l, cs, starts, running) = start-running c.listener (ap Listener.running same) in
          (
            record c { values = load_config po file c.world.options c.values; listener = l },
            rw (load_services-fresh moved, loads, starts) refl,
            (running, Serves-has_group moved c.world.groups keeps.accepting keeps.losing),
          )

      -- On a command line that can be parsed and asks for neither help nor version, `main` gets as far
      -- as `io_.run()`, when the listener's acceptor opens on the port that the values say, and the
      -- directory of plugins that they say exists and creating a plugin in it always returns
      -- or throws, and takes no service and no group of hooks away: the services have been started, the
      -- plugins and the configuration file read, the listener runs, and from then on neither an accepted
      -- client nor a lost one fails an assertion. A configuration file that cannot be parsed, and plugins
      -- that throw, do not stop it.
      pub main-IsServing :
          (opens : ℕ → Bool) (args : po.Source) (vm : po.VariablesMap)
          → from_argv po args ≡ some vm
          → has po help vm ≡ false
          → has po version vm ≡ false
          → ((port : ℕ) → as_uint16 (at po listen_port vm) ≡ returned port → opens port ≡ true)
          → ((path : Bytes)
              → as_text (at po plugins_path vm) ≡ returned path
              → (es : List Entry) × (directory path ≡ some es) × All BehavesIn es)
          → (a : TiksrvApp po) × (main po file directory moved opens args ≡ ran a)
            × IsServing moved a
      unfolding main
      main-IsServing opens args vm parses no_help no_version can_open lists =
          let settings = HasSettings-Reads po vm (from_argv-HasSettings po args vm parses) in
          let (port, backlog_read, (path, reads), file_read) = settings in
          let (backlog, makes) = make_app-Reads opens vm settings can_open in
          let (es, listed, behave) = lists path reads in
          let (a, runs, serving) = run-IsServing vm backlog path es reads listed behave in
          (a, rw (main, parses, no_help, no_version, makes, runs) refl, serving)
