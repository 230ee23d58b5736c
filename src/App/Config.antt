-- ===== src/App/Config.antt =====
-- src/config/include/config/config.hpp, src/config/src/config.cpp and the options of
-- src/services/include/services/config_manager.hpp. Boost.ProgramOptions parses and stores.
pub mod Values
use tiksrv.Base.{
  ℕ, ◌≡◌, ◌≢◌, Bool, true, false, Option, none, some, List, [], ◌∷◌, ◌++◌, Bytes, codes,
  if◌then◌else◌, str_eq,
}

-- The values that are stored, by their C++ type.
pub data Value : Type 0 where
  uint16 uint32 : ℕ → Value
  text : Bytes → Value

pub data ValueType : Type 0 where
  is_uint16 is_uint32 is_text : ValueType

abbrev pub HasType : ValueType → Value → Type 0
HasType is_uint16 (uint16 n) = Unit
HasType is_uint32 (uint32 n) = Unit
HasType is_text (text s) = Unit
HasType _ _ = ⊥

-- The value, if there is one, has the type.
abbrev pub Fits : ValueType → Option Value → Type 0
Fits t none = Unit
Fits t (some v) = HasType t v

-- An option by its long name. One without a type takes no value, and a text is stored for it.
pub record OptionDescription : Type 0 where
  pub name : Bytes
  pub type : ValueType
  pub default : Option Value

abbrev pub Options : Type 0
Options = List OptionDescription

unfoldable pub find_option : Bytes → Options → Option OptionDescription
find_option name [] = none
find_option name (o ∷ os) = if str_eq o.name name then some o else find_option name os

-- `add_option` of config_manager, and `add_options` of Boost.
unfoldable pub add_option : Bytes → ValueType → Value → Options → Options
add_option name t def os = os ++ (record { name = name; type = t; default = some def } ∷ [])

-- What the code relies on in Boost.ProgramOptions. A parse with its `store` leaves a map, also when it
-- throws, as the Boolean says. `Source` is a command line or the text of a file. What is stored under
-- an option's name has its type, an option with a default has a value afterwards, values stay, and
-- nothing is stored under other names.
pub record ProgramOptions : Type 1 where
  pub VariablesMap : Type 0
  pub Source : Type 0
  pub no_values : VariablesMap
  pub value_of : Bytes → VariablesMap → Option Value
  pub store : Options → Source → VariablesMap → VariablesMap × Bool
  pub value_of-no_values : (name : Bytes) → value_of name no_values ≡ none
  pub store-typed :
      (os : Options) (src : Source) (vm : VariablesMap) (name : Bytes) {o : OptionDescription}
      → find_option name os ≡ some o
      → Fits o.type o.default
      → Fits o.type (value_of name vm)
      → Fits o.type (value_of name (store os src vm).0)
  pub store-default :
      (os : Options) (src : Source) (vm : VariablesMap) (name : Bytes) {o : OptionDescription}
      → find_option name os ≡ some o
      → o.default ≢ none
      → (store os src vm).1 ≡ false
      → value_of name (store os src vm).0 ≢ none
  pub store-keeps :
      (os : Options) (src : Source) (vm : VariablesMap) (name : Bytes)
      → value_of name vm ≢ none
      → value_of name (store os src vm).0 ≢ none
  pub store-other :
      (os : Options) (src : Source) (vm : VariablesMap) (name : Bytes)
      → find_option name os ≡ none
      → value_of name (store os src vm).0 ≡ value_of name vm

pub data ConfigKey : Type 0 where
  listen_port liten_backlog plugins_path config_file help version : ConfigKey

-- `config_string_keys`, at the key's number.
unfoldable pub config_string_key : ConfigKey → Bytes
config_string_key listen_port = codes "port"
config_string_key liten_backlog = codes "backlog"
config_string_key plugins_path = codes "plugins"
config_string_key config_file = codes "config"
config_string_key help = codes "help"
config_string_key version = codes "version"

-- `config::defaults`.
abbrev pub default_listen_port : ℕ
default_listen_port = 3434

abbrev pub default_liten_backlog : ℕ
default_liten_backlog = 100

abbrev pub default_plugins_path : Bytes
default_plugins_path = codes "plugins"

abbrev pub default_config_file : Bytes
default_config_file = codes "tiksrv.cfg"

-- `config::constants`.
abbrev pub app_name : Bytes
app_name = codes "tiksrv"

abbrev pub app_version : Bytes
app_version = codes "0.1"

abbrev pub switch : Bytes → OptionDescription
switch name = record { name = name; type = is_text; default = none }

-- The options of config's constructor.
unfoldable pub config_options : Options
unfolding add_option
config_options =
    add_option (codes "config") is_text (text default_config_file) (
      add_option (codes "plugins") is_text (text default_plugins_path) (
        add_option (codes "backlog") is_uint32 (uint32 default_liten_backlog)
          (add_option (codes "port") is_uint16 (uint16 default_listen_port) [])))
    ++ (switch (codes "help") ∷ switch (codes "version") ∷ [])

abbrev pub is_some {ℓ} : {A : Type ℓ} → Option A → Bool
is_some none = false
is_some (some a) = true

module _ (po : ProgramOptions) where
  -- `operator[]` and `has` by name; none is the empty value.
  unfoldable pub at_name : Bytes → po.VariablesMap → Option Value
  at_name name vm = po.value_of name vm

  unfoldable pub has_name : Bytes → po.VariablesMap → Bool
  has_name name vm = is_some (po.value_of name vm)

  -- The same by key.
  unfoldable pub at : ConfigKey → po.VariablesMap → Option Value
  unfolding config_string_key at_name
  at key vm = at_name (config_string_key key) vm

  unfoldable pub has : ConfigKey → po.VariablesMap → Bool
  unfolding config_string_key has_name
  has key vm = has_name (config_string_key key) vm

  unfoldable pub parse_argv : po.Source → po.VariablesMap → po.VariablesMap × Bool
  unfolding config_options
  parse_argv args vm = po.store config_options args vm

  -- An exception leaves no configuration.
  unfoldable pub from_argv : po.Source → Option po.VariablesMap
  unfolding config_options parse_argv
  from_argv args = let (vm, threw) = parse_argv args po.no_values in if threw then none else some vm

  unfoldable pub parse_config_file : po.Source → Options → po.VariablesMap → po.VariablesMap × Bool
  parse_config_file file os vm = po.store os file vm
