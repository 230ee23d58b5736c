-- ===== src/App/Start.antt =====
-- src/app/include/app/app.hpp, src/app/src/app.cpp and src/main/src/main.cpp: the application's parts
-- are put together and started. The file system and the command line are arguments; log messages are
-- left out.
pub mod Readiness
pub mod Settings
use tiksrv.Base.{
  ℕ, ◌≡◌, Bool, not, true, false, Option, none, some, List, [], ◌∷◌, ◌++◌, Bytes, codes, Result, ok,
  aborted, Act, ◌>>◌, skip, ◌==◌, if◌then◌else◌,
}
use tiksrv.Base.Outcome.{
  Outcome, returned, thrown, stopped, runtime_error, bad_any_cast, throw_if, ◌>>=◌,
}
use tiksrv.App.Config.{
  Value, uint16, uint32, text, Options, ProgramOptions, listen_port, liten_backlog, plugins_path,
  config_file, help, version, config_options, at, has, from_argv, parse_config_file, app_name,
  app_version,
}
use tiksrv.App.Hooks
use tiksrv.App.Hooks.{Groups, HookCall}
use tiksrv.App.Listener
use tiksrv.App.Listener.{Listener}
use tiksrv.App.Plugins.{World, Entry, load_plugins}
use tiksrv.App.Server.{Commands}
use tiksrv.App.Services
use tiksrv.App.Services.{
  config_manager, hooks_manager, config_manager_name, hooks_manager_name, Service, ServicesManager,
  Ending, uninitialized, undefined, register_service,
}

-- `as` of variable_value: another type, and an empty value, throw bad_any_cast.
unfoldable pub as_uint16 : Option Value → Outcome ℕ
as_uint16 (some (uint16 n)) = returned n
as_uint16 _ = thrown bad_any_cast

unfoldable pub as_uint32 : Option Value → Outcome ℕ
as_uint32 (some (uint32 n)) = returned n
as_uint32 _ = thrown bad_any_cast

unfoldable pub as_text : Option Value → Outcome Bytes
as_text (some (text s)) = returned s
as_text _ = thrown bad_any_cast

module _ (moved : Option ℕ → Option ℕ) where
  -- `initialize` of the two services, by their numbers: that of config_manager is empty.
  abbrev pub initialize_called : List ℕ → Act Groups (HookCall moved)
  initialize_called [] = skip
  initialize_called (n ∷ ns) =
      (if n == 1 then Hooks.initialize moved else skip) >> initialize_called ns

  abbrev pub with_groups : World → Result (Groups × List (HookCall moved)) → Outcome World
  with_groups w (ok (gs, cs)) = returned (record w { groups = gs })
  with_groups w aborted = stopped

  abbrev pub ended : World → Ending × List ℕ × ServicesManager → Outcome World
  ended w (Services.returned, ns, m) =
      with_groups (record w { manager = m }) (initialize_called ns w.groups)
  ended w (Services.threw x, ns, m) = thrown runtime_error
  ended w (undefined, ns, m) = stopped

  -- Neither `initialize` throws.
  unfoldable pub load_services : World → Outcome World
  unfolding Services.initialize register_service Hooks.initialize
  load_services w = ended w (
      Services.initialize (λ n. true)
        (record w.manager {
          services =
              register_service hooks_manager_name hooks_manager
                (register_service config_manager_name config_manager w.manager.services);
        }))

module _ (po : ProgramOptions) where
  pub record TiksrvApp : Type 0 where
    pub values : po.VariablesMap
    pub world : World
    pub commands : Commands
    pub listener : Listener

  -- The server's constructor: the port and the backlog of its listener.
  unfoldable pub make_server : po.VariablesMap → Outcome (ℕ × ℕ)
  unfolding as_uint16 as_uint32 at
  make_server vm = do
    port ← as_uint16 (at po listen_port vm)
    backlog ← as_uint32 (at po liten_backlog vm)
    returned (port, backlog)

  -- The constructor. `opens` says on which ports the listener's acceptor, made there, opens; on others
  -- it throws Boost's system_error, which is a std::runtime_error.
  unfoldable pub make_app : (ℕ → Bool) → po.VariablesMap → Outcome TiksrvApp
  unfolding make_server
  make_app opens vm = do
    settings ← make_server vm
    opened ← throw_if (not (opens settings.0)) runtime_error
    returned (record {
      values = vm;
      world = record {
        manager = record { services = []; state = uninitialized };
        groups = [];
        options = [];
      };
      commands = [];
      listener = record { running = false; current_client_id = 0; backlog = settings.1 };
    })

  abbrev pub run_server : TiksrvApp → Result (Listener × List Listener.Call) → Outcome TiksrvApp
  run_server a (ok (l, cs)) = returned (record a { listener = l })
  run_server a aborted = stopped

  abbrev pub rethrown : Outcome TiksrvApp → Outcome TiksrvApp
  rethrown (thrown x) = thrown runtime_error
  rethrown o = o

  -- The text of a configuration file, by its path; a file that is missing is made, and empty.
  module _ (file : Bytes → po.Source) where
    unfoldable pub parsed_twice : po.Source → Options → po.VariablesMap × Bool → po.VariablesMap
    unfolding parse_config_file
    parsed_twice src os (vm, true) = vm
    parsed_twice src os (vm, false) = (parse_config_file po src os vm).0

    unfoldable pub parsed_from : Outcome Bytes → Options → po.VariablesMap → po.VariablesMap
    unfolding parse_config_file config_options parsed_twice
    parsed_from (returned path) os vm =
        parsed_twice (file path) os (parse_config_file po (file path) config_options vm)
    parsed_from (thrown x) os vm = vm
    parsed_from stopped os vm = vm

    -- What is thrown is only logged.
    unfoldable pub load_config : Options → po.VariablesMap → po.VariablesMap
    unfolding as_text at parsed_from
    load_config os vm = parsed_from (as_text (at po config_file vm)) os vm

    -- The directories of plugins, by path.
    module _ (directory : Bytes → Option (List Entry)) where
      -- `load_plugins`, with the path that the configuration says.
      unfoldable pub load_plugins_from : TiksrvApp → Outcome TiksrvApp
      unfolding as_text at load_plugins
      load_plugins_from a = do
        path ← as_text (at po plugins_path a.values)
        r ← load_plugins (directory path) a.world a.commands
        returned (record a { world = r.0; commands = r.1 })

      module _ (moved : Option ℕ → Option ℕ) where
        -- `run`, up to `io_.run()`. What is thrown is thrown again, with a message of its own.
        unfoldable pub run : TiksrvApp → Outcome TiksrvApp
        unfolding load_services load_plugins_from load_config Listener.start
        run a = rethrown do
          w ← load_services moved a.world
          b ← load_plugins_from (record a { world = w })
          let c : TiksrvApp = record b { values = load_config b.world.options b.values }
          run_server c (Listener.start c.listener)

        -- `main`: what it prints, whether the application runs, and whether it exits with success.
        pub data Exit : Type 0 where
          usage shown_version failure : Exit
          ran : TiksrvApp → Exit
          halted : Exit

        abbrev pub exit_of : Outcome TiksrvApp → Exit
        exit_of (returned a) = ran a
        exit_of (thrown x) = failure
        exit_of stopped = halted

        abbrev pub main_with : (ℕ → Bool) → Option po.VariablesMap → Exit
        unfolding has make_app run
        main_with opens none = failure
        main_with opens (some vm) =
            if has po help vm
            then usage
            else if has po version vm
            then shown_version
            else exit_of (make_app opens vm >>= run)

        unfoldable pub main : (ℕ → Bool) → po.Source → Exit
        unfolding has make_app run from_argv
        main opens args = main_with opens (from_argv po args)
