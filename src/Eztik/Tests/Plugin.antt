-- ===== src/Eztik/Tests/Plugin.antt =====
-- The plugins and their settings at concrete inputs.
use tiksrv.Base.{
  ℕ, ◌≡◌, refl, true, false, Option, none, some, [], ◌∷◌, Bytes, codes, inr, ok, arith,
}
use tiksrv.Base.Tests.{str_eq}
use tiksrv.Base.Outcome.{returned}
use tiksrv.Net.Message.{Request, Response}
use tiksrv.App.Config.{
  config_options, add_option, config_string_key, config_file, find_option, at, from_argv, at_name,
}
use tiksrv.App.Hooks.{find_group, has_group}
use tiksrv.App.Plugins.{World, Entry, is_plugin, load_plugins}
use tiksrv.App.Plugins.Loading.{IsStarted, IsPassed, IsEntryOf, directory_of}
use tiksrv.App.Server.{Commands, answer, on_request}
use tiksrv.App.Services.{
  initialized, find_service, config_manager, hooks_manager, config_manager_name, hooks_manager_name,
}
use tiksrv.App.Hooks.{disconnection}
use tiksrv.App.Hooks.Order.{hooks_of}
use tiksrv.App.Server
use tiksrv.Eztik.Sessions.{Sessions, find_session, is_ready, readable}
use tiksrv.Eztik.Sessions.Closing.{IsKept, IsErased}
use tiksrv.Eztik.Commands
use tiksrv.Eztik.Commands.{Eztik, client_lost, make_response_code, ros_session_closed}
use tiksrv.Eztik.Plugin.Losing.{closing_answers, on_error-client_lost}
use tiksrv.RouterOs.Tests.Session.{ready}
use tiksrv.RouterOs.Api.State.{is_open}
use tiksrv.Net.Client
use tiksrv.Net.Client.{build_response}
use tiksrv.Net.Tests.{little_endian, waiting}
use tiksrv.App.Start.{as_text, as_uint16, load_config}
use tiksrv.App.Tests.Options.{Values, Source, options, nothing}
use tiksrv.Core.{core_plugin}
use tiksrv.Eztik.Plugin.{
  eztik_plugin, setup_config, ros_settings, default_ros_ip, default_ros_api_port,
  default_ros_api_user, default_ros_api_password,
}
use tiksrv.Eztik.Plugin.Serving.{with_eztik, served, load_plugins-on_request}
use tiksrv.Eztik.Plugin.Settings.{Settled, load_config-ros_settings}

abbrev emptied : Option ℕ → Option ℕ
emptied d = none

abbrev started : World
started = record {
  manager = record {
    services =
        (config_manager_name, some config_manager) ∷ (hooks_manager_name, some hooks_manager) ∷ [];
    state = initialized;
  };
  groups = (0, []) ∷ (1, []) ∷ [];
  options = [];
}

started-IsStarted : IsStarted started
unfolding find_service has_group find_group str_eq
started-IsStarted = record { config = refl; hooks = refl; accepting = refl; losing = refl }

abbrev core_entry : Entry
core_entry = record {
  is_regular_file = true;
  extension = codes ".so";
  library = some (core_plugin 30);
}

abbrev eztik_entry : Entry
eztik_entry = record {
  is_regular_file = true;
  extension = codes ".so";
  library = some (eztik_plugin emptied 4 31 32 33);
}

abbrev notes : Entry
notes = record { is_regular_file = true; extension = codes ".txt"; library = none }

core_entry-IsEntryOf : IsEntryOf (core_plugin 30) core_entry
unfolding is_plugin str_eq
core_entry-IsEntryOf = (refl, refl)

eztik_entry-IsEntryOf : IsEntryOf (eztik_plugin emptied 4 31 32 33) eztik_entry
unfolding is_plugin str_eq
eztik_entry-IsEntryOf = (refl, refl)

notes-IsPassed : IsPassed notes
notes-IsPassed = inr refl

load_plugins-on_request_example :
    (cmds : Commands) × (load_plugins
        (some (directory_of (notes ∷ []) eztik_entry [] core_entry (notes ∷ [])))
        started
        []
      ≡ returned (with_eztik emptied 4 started, cmds))
    × IsStarted (with_eztik emptied 4 started)
    × ((client : ℕ) (req : Request)
        → on_request client req cmds
          ≡ answer client req (served emptied 4 30 31 32 33 req.header.command) ∷ [])
load_plugins-on_request_example =
    load_plugins-on_request emptied 4 30 31 32 33 false eztik_entry core_entry (notes ∷ []) []
      (notes ∷ []) started started-IsStarted eztik_entry-IsEntryOf core_entry-IsEntryOf
      (notes-IsPassed, tt) tt (notes-IsPassed, tt)

abbrev stored_values : Values
stored_values = (options.store config_options nothing options.no_values).0

parses : from_argv options nothing ≡ some stored_values
unfolding from_argv
parses = refl

reads_path : as_text (at options config_file stored_values) ≡ returned (codes "tiksrv.cfg")
unfolding as_text at config_string_key config_options add_option find_option str_eq
reads_path = refl

-- A file that cannot be parsed.
abbrev broken : Bytes → Source
broken path = (true, λ name. none)

no_second : true ≡ false → (options.store (setup_config []) (broken []) stored_values).1 ≡ false
no_second e = cc

load_config-ros_settings_example :
    Settled options broken true (load_config options broken (setup_config []) stored_values)
load_config-ros_settings_example =
    load_config-ros_settings options broken nothing stored_values (codes "tiksrv.cfg") true parses
      reads_path refl no_second

-- One that gives nothing: the defaults are read.
abbrev files : Bytes → Source
files path = nothing

defaults_read :
    ros_settings options (load_config options files (setup_config []) stored_values)
    ≡ readable (record {
      ros_ip = default_ros_ip;
      ros_api_port = default_ros_api_port;
      ros_api_user = default_ros_api_user;
      ros_api_password = default_ros_api_password;
    })
unfolding ros_settings load_config config_options add_option find_option str_eq setup_config at
    as_text config_string_key at_name as_uint16
defaults_read = refl

abbrev ending_session : Sessions
ending_session = record {
  entries = (9, record { id = 9; api = 1 }, record { client = 9; tag = 20 }) ∷ [];
  next_api = 2;
}

ending_session-IsKept : IsKept ending_session
unfolding find_session
ending_session-IsKept = record { own_ids = ground arith }

abbrev losing : Eztik
losing = record {
  sessions = ending_session;
  apis = λ n. record ready { logged_in = true };
  send_session = none;
  load_session = none;
  waiting = [];
}

no_hooks : hooks_of disconnection started.groups ≡ []
unfolding find_group
no_hooks = refl

-- The session was ready.
told :
    closing_answers losing (find_session 9 ending_session.entries)
    ≡ Commands.answer 9 (build_response [] (make_response_code ros_session_closed) 20) ∷ []
unfolding find_session is_ready is_open
told = refl

on_error-client_lost_example :
    (u : Eztik) × (Server.on_error emptied 9 (with_eztik emptied 4 started).groups
      ≡ ok (Server.hook 4 (some 9) ∷ []))
    × (client_lost (some 9) losing
        ≡ ok (u, closing_answers losing (find_session 9 ending_session.entries)))
    × IsErased 9 ending_session u.sessions
    × IsKept u.sessions
    × ((d : Client.Client) × (Client.fail Client.eof waiting
          ≡ ok (d, Client.on_error Client.eof ∷ []))
        × ((r : Response) (cb : Client.SendHandler)
            → Client.respond_posted little_endian r cb d
              ≡ ok (d, Client.handler cb (some Client.not_connected) ∷ [])))
on_error-client_lost_example =
    on_error-client_lost emptied 4 9 started losing little_endian waiting Client.eof no_hooks
      ending_session-IsKept refl refl
