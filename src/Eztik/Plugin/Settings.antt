-- ===== src/Eztik/Plugin/Settings.antt =====
-- The settings of the router's connection.
use tiksrv.Base.{◌≡◌, refl, sym, ap, ◌∙◌, subst, Bool, true, false, none, some, [], Bytes}
use tiksrv.Base.Tests.{str_eq}
use tiksrv.Base.Outcome.{returned, thrown, bad_any_cast}
use tiksrv.App.Config.{
  at_name, OptionDescription, Fits, ProgramOptions, find_option, config_options, config_file, at,
  from_argv, parse_config_file, add_option,
}
use tiksrv.App.Config.Values.{IsA, store-IsA, from_argv_stores}
use tiksrv.App.Start.{as_text, load_config, parsed_from, parsed_twice}
use tiksrv.App.Start.Settings.{as_text-IsA, as_uint16-IsA}
use tiksrv.Eztik.Plugin.{
  ros_ip_key, ros_api_port_key, ros_api_user_key, ros_api_password_key, setup_config, ros_address,
  ros_credentials, ros_settings,
}
use tiksrv.Eztik.Sessions.{Config, RouterSettings, readable}

-- No setting can be read.
abbrev pub unreadable : RouterSettings
unreadable = record { address = thrown bad_any_cast; credentials = thrown bad_any_cast }

module _ (po : ProgramOptions) where
  -- None of the four has a value.
  pub record IsUnset (vm : po.VariablesMap) : Type 0 where
    pub ip : po.value_of ros_ip_key vm ≡ none
    pub port : po.value_of ros_api_port_key vm ≡ none
    pub user : po.value_of ros_api_user_key vm ≡ none
    pub password : po.value_of ros_api_password_key vm ≡ none

  stored-IsUnset :
      (src : po.Source) (vm : po.VariablesMap)
      → IsUnset vm
      → IsUnset (po.store config_options src vm).0
  unfolding config_options find_option add_option str_eq
  stored-IsUnset src vm h = record {
    ip = po.store-other config_options src vm ros_ip_key refl ∙ h.ip;
    port = po.store-other config_options src vm ros_api_port_key refl ∙ h.port;
    user = po.store-other config_options src vm ros_api_user_key refl ∙ h.user;
    password = po.store-other config_options src vm ros_api_password_key refl ∙ h.password;
  }

  no_values-IsUnset : IsUnset po.no_values
  no_values-IsUnset = record {
    ip = po.value_of-no_values ros_ip_key;
    port = po.value_of-no_values ros_api_port_key;
    user = po.value_of-no_values ros_api_user_key;
    password = po.value_of-no_values ros_api_password_key;
  }

  from_argv-IsUnset :
      (args : po.Source) (vm : po.VariablesMap) → from_argv po args ≡ some vm → IsUnset vm
  from_argv-IsUnset args vm h =
      subst IsUnset (from_argv_stores po args vm h)
        (stored-IsUnset args po.no_values no_values-IsUnset)

  unset_throws : (vm : po.VariablesMap) → IsUnset vm → ros_settings po vm ≡ unreadable
  unfolding ros_settings ros_address ros_credentials at_name as_text
  unset_throws vm h = rw (h.ip, h.user) refl

  set_returns :
      (src : po.Source) (vm : po.VariablesMap)
      → IsUnset vm
      → (po.store (setup_config []) src vm).1 ≡ false
      → (c : Config) × (ros_settings po (po.store (setup_config []) src vm).0 ≡ readable c)
  unfolding ros_settings ros_address ros_credentials at_name setup_config find_option add_option
      str_eq
  set_returns src vm h went =
      let new = (po.store (setup_config []) src vm).0 in
      let set =
        λ (name : Bytes) (o : OptionDescription) (f : find_option name (setup_config []) ≡ some o)
            (d : IsA o.type o.default) (n : po.value_of name vm ≡ none).
          store-IsA po (setup_config []) src vm name f d (subst (Fits o.type) (sym n) tt) went in
      let (ip, has_ip) = as_text-IsA (po.value_of ros_ip_key new) (set ros_ip_key _ refl tt h.ip) in
      let (port, has_port) =
        as_uint16-IsA (po.value_of ros_api_port_key new) (set ros_api_port_key _ refl tt h.port) in
      let (user, has_user) =
        as_text-IsA (po.value_of ros_api_user_key new) (set ros_api_user_key _ refl tt h.user) in
      let (password, has_password) =
        as_text-IsA (po.value_of ros_api_password_key new)
          (set ros_api_password_key _ refl tt h.password) in
      (
        record {
          ros_ip = ip;
          ros_api_port = port;
          ros_api_user = user;
          ros_api_password = password;
        },
        rw (has_ip, has_port, has_user, has_password) refl,
      )

  module _ (file : Bytes → po.Source) where
    -- The settings as the sessions service gets them: it throws at each, or it reads all.
    abbrev pub Settled : Bool → po.VariablesMap → Type 0
    Settled true vm = ros_settings po vm ≡ unreadable
    Settled false vm = (c : Config) × (ros_settings po vm ≡ readable c)

    load_config_twice :
        (vm : po.VariablesMap) (path : Bytes) (threw : Bool)
        → as_text (at po config_file vm) ≡ returned path
        → (po.store config_options (file path) vm).1 ≡ threw
        → load_config po file (setup_config []) vm
          ≡ parsed_twice po file
              (file path)
              (setup_config [])
              ((po.store config_options (file path) vm).0, threw)
    unfolding load_config parsed_from parse_config_file
    load_config_twice vm path threw reads first =
        rw (load_config, reads)
          (ap
            (λ t.
              parsed_twice po file (file path) (setup_config [])
                ((po.store config_options (file path) vm).0, t))
            first)

    -- When the command line has been parsed and eztik has added its options, two parses of the
    -- configuration file in `load_config` decide about the router's settings. If the first, for the
    -- program's own options, throws, which is only logged, the sessions service gets bad_any_cast for the
    -- router's address and for name and password, whatever the second would do. If it does not
    -- throw, and the second, for eztik's options, does not either, all four can be read under their
    -- types, from the file or from their defaults. Nothing is said of a second parse that throws behind
    -- a first that does not.
    pub load_config-ros_settings :
        (args : po.Source) (vm : po.VariablesMap) (path : Bytes) (threw : Bool)
        → from_argv po args ≡ some vm
        → as_text (at po config_file vm) ≡ returned path
        → (po.store config_options (file path) vm).1 ≡ threw
        → (threw ≡ false
            → (po.store (setup_config []) (file path) (po.store config_options (file path) vm).0).1
              ≡ false)
        → Settled threw (load_config po file (setup_config []) vm)
    unfolding parsed_twice parse_config_file
    load_config-ros_settings args vm path true parses reads first second =
        subst (Settled true) (sym (load_config_twice vm path true reads first)) (
          unset_throws (po.store config_options (file path) vm).0
            (stored-IsUnset (file path) vm (from_argv-IsUnset args vm parses)))
    load_config-ros_settings args vm path false parses reads first second =
        subst (Settled false) (sym (load_config_twice vm path false reads first)) (
          set_returns (file path) (po.store config_options (file path) vm).0
            (stored-IsUnset (file path) vm (from_argv-IsUnset args vm parses)) (second refl))
