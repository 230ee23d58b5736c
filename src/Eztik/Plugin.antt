-- ===== src/Eztik/Plugin.antt =====
-- src/plugins/eztik/eztik, src/plugins/eztik/shared/include/eztik/config.hpp, and the reading of the
-- router's settings and the hook of src/plugins/eztik/services/src/sessions_service.cpp. A command and a
-- hook are the numbers of their objects.
pub mod Settings
pub mod Serving
pub mod Losing
pub mod Answering
pub mod Operating
pub mod Fates
pub mod Heard
pub mod Echoing
use tiksrv.Base.{
  ℕ, true, false, Bool, Option, none, some, List, [], ◌∷◌, Bytes, codes, Result, ok, aborted,
  if◌then◌else◌,
}
use tiksrv.Base.Outcome.{Outcome, returned, ◌>>=◌}
use tiksrv.App.Config.{
  Options, ProgramOptions, is_uint16, is_text, uint16, text, add_option, at_name,
}
use tiksrv.App.Hooks.{Groups, Hook, HookCall, disconnection, register_hook}
use tiksrv.App.Plugins.{World, Plugin}
use tiksrv.App.Server.{Command}
use tiksrv.App.Services.{Service, Services, config_manager_name, hooks_manager_name, has, get}
use tiksrv.App.Start.{as_text, as_uint16}
use tiksrv.Eztik.Sessions.{RouterSettings}

-- `config_keys`.
abbrev pub ros_ip_key : Bytes
ros_ip_key = codes "eztik.ros_ip"

abbrev pub ros_api_port_key : Bytes
ros_api_port_key = codes "eztik.ros_api_port"

abbrev pub ros_api_user_key : Bytes
ros_api_user_key = codes "eztik.ros_user"

abbrev pub ros_api_password_key : Bytes
ros_api_password_key = codes "eztik.ros_password"

-- `config_defaults`.
abbrev pub default_ros_ip : Bytes
default_ros_ip = codes "127.0.0.1"

abbrev pub default_ros_api_port : ℕ
default_ros_api_port = 8728

abbrev pub default_ros_api_user : Bytes
default_ros_api_user = codes "admin"

abbrev pub default_ros_api_password : Bytes
default_ros_api_password = []

unfoldable pub setup_config : Options → Options
unfolding add_option
setup_config os = add_option ros_api_password_key is_text (text default_ros_api_password) (
    add_option ros_api_user_key is_text (text default_ros_api_user) (
      add_option ros_api_port_key is_uint16 (uint16 default_ros_api_port)
        (add_option ros_ip_key is_text (text default_ros_ip) os)))

-- The settings that the sessions service reads: in `create`, and when the connection is open.
module _ (po : ProgramOptions) where
  unfoldable pub ros_address : po.VariablesMap → Outcome (Bytes × ℕ)
  unfolding as_text as_uint16 at_name
  ros_address vm = do
    ip ← as_text (at_name po ros_ip_key vm)
    port ← as_uint16 (at_name po ros_api_port_key vm)
    returned (ip, port)

  unfoldable pub ros_credentials : po.VariablesMap → Outcome (Bytes × Bytes)
  unfolding as_text at_name
  ros_credentials vm = do
    user ← as_text (at_name po ros_api_user_key vm)
    password ← as_text (at_name po ros_api_password_key vm)
    returned (user, password)

  -- As the sessions service gets them.
  unfoldable pub ros_settings : po.VariablesMap → RouterSettings
  unfolding ros_address ros_credentials
  ros_settings vm = record { address = ros_address vm; credentials = ros_credentials vm }

-- `eztik_command`, the number of a command within the plugin.
pub data EztikCommand : Type 0 where
  api_open api_close api_send api_load_hotspot_users : EztikCommand

abbrev pub command_key : EztikCommand → ℕ
command_key api_open = 0
command_key api_close = 1
command_key api_send = 2
command_key api_load_hotspot_users = 3

abbrev pub commands_type : ℕ
commands_type = 1

unfoldable pub export_commands : Command → Command → Command → List (ℕ × ℕ × Command)
export_commands open_cmd send_cmd load_cmd =
    (commands_type, command_key api_open, open_cmd)
    ∷ (commands_type, command_key api_send, send_cmd)
    ∷ (commands_type, command_key api_load_hotspot_users, load_cmd)
    ∷ []

module _ (moved : Option ℕ → Option ℕ) (hook : Hook) where
  abbrev registered : World → Result (Groups × List (HookCall moved)) → Result (World × Bool)
  unfolding setup_config
  registered w (ok (gs, cs)) =
      ok (record w { groups = gs; options = setup_config w.options }, false)
  registered w aborted = aborted

  -- The constructor: the sessions service's hook, then the options. A call through a null pointer ends
  -- the program here.
  abbrev construct : Option Service → Option Service → World → Result (World × Bool)
  unfolding register_hook setup_config
  construct (some hooks) (some config) w =
      registered w (register_hook moved disconnection hook w.groups)
  construct _ _ w = aborted

  abbrev got_both : World → Services × Option Service → Option Service → Result (World × Bool)
  unfolding construct
  got_both w (services, config) hooks =
      construct hooks config (record w { manager = record w.manager { services = services } })

  -- `create` throws without a hooks manager.
  unfoldable pub create : World → Result (World × Bool)
  unfolding has get register_hook setup_config got_both
  create w =
      if has hooks_manager_name w.manager.services
      then (let (services, hooks) = get hooks_manager_name w.manager.services in
          got_both w (get config_manager_name services) hooks)
      else ok (w, true)

  unfoldable pub eztik_plugin : Command → Command → Command → Plugin
  unfolding create export_commands
  eztik_plugin open_cmd send_cmd load_cmd = record {
    create = create;
    exports = export_commands open_cmd send_cmd load_cmd;
  }
