-- ===== src/App/Start/Settings.antt =====
-- What the configuration holds when the application runs.
use tiksrv.Base.{◌≡◌, Bool, true, false, some, Bytes, ℕ, refl, Option, none}
use tiksrv.Base.Outcome.{Outcome, returned, thrown, stopped}
use tiksrv.App.Config.{
  Options, Value, uint16, uint32, text, is_uint16, is_uint32, is_text, listen_port, liten_backlog,
  plugins_path, from_argv, ProgramOptions, config_file, at, parse_config_file,
}
use tiksrv.App.Config.Values.{
  from_argv-HasSettings, HasSettings, IsSeparate, IsA, store-own, store-others,
}
use tiksrv.App.Start.{as_uint16, as_uint32, as_text, load_config, parsed_from, parsed_twice}

pub as_uint16-IsA : (o : Option Value) → IsA is_uint16 o → (n : ℕ) × (as_uint16 o ≡ returned n)
unfolding as_uint16
as_uint16-IsA (some (uint16 n)) i = (n, refl)
as_uint16-IsA (some (uint32 n)) i = absurd i
as_uint16-IsA (some (text s)) i = absurd i
as_uint16-IsA none i = absurd i

pub as_uint32-IsA : (o : Option Value) → IsA is_uint32 o → (n : ℕ) × (as_uint32 o ≡ returned n)
unfolding as_uint32
as_uint32-IsA (some (uint16 n)) i = absurd i
as_uint32-IsA (some (uint32 n)) i = (n, refl)
as_uint32-IsA (some (text s)) i = absurd i
as_uint32-IsA none i = absurd i

pub as_text-IsA : (o : Option Value) → IsA is_text o → (s : Bytes) × (as_text o ≡ returned s)
unfolding as_text
as_text-IsA (some (uint16 n)) i = absurd i
as_text-IsA (some (uint32 n)) i = absurd i
as_text-IsA (some (text s)) i = (s, refl)
as_text-IsA none i = absurd i

module _ (po : ProgramOptions) where
  -- The four values can be read under their types, without an exception.
  abbrev pub Reads : po.VariablesMap → Type 0
  Reads vm =
      ((n : ℕ) × (as_uint16 (at po listen_port vm) ≡ returned n))
      × ((n : ℕ) × (as_uint32 (at po liten_backlog vm) ≡ returned n))
      × ((s : Bytes) × (as_text (at po plugins_path vm) ≡ returned s))
      × ((s : Bytes) × (as_text (at po config_file vm) ≡ returned s))

  pub HasSettings-Reads : (vm : po.VariablesMap) → HasSettings po vm → Reads vm
  HasSettings-Reads vm h = (
    as_uint16-IsA _ h.port,
    as_uint32-IsA _ h.backlog,
    as_text-IsA _ h.plugins,
    as_text-IsA _ h.file,
  )

module _ (po : ProgramOptions) (file : Bytes → po.Source) where
  parsed_twice-HasSettings :
      (src : po.Source) (os : Options) (vm : po.VariablesMap) (threw : Bool)
      → IsSeparate os
      → HasSettings po vm
      → HasSettings po (parsed_twice po file src os (vm, threw))
  unfolding parse_config_file parsed_twice
  parsed_twice-HasSettings src os vm true s h = h
  parsed_twice-HasSettings src os vm false s h = store-others po os src vm s h

  parsed_from-HasSettings :
      (path : Outcome Bytes) (os : Options) (vm : po.VariablesMap)
      → IsSeparate os
      → HasSettings po vm
      → HasSettings po (parsed_from po file path os vm)
  unfolding parse_config_file parsed_from
  parsed_from-HasSettings (returned path) os vm s h =
      parsed_twice-HasSettings (file path) os _ _ s (store-own po (file path) vm h)
  parsed_from-HasSettings (thrown x) os vm s h = h
  parsed_from-HasSettings stopped os vm s h = h

  pub load_config-HasSettings :
      (os : Options) (vm : po.VariablesMap)
      → IsSeparate os
      → HasSettings po vm
      → HasSettings po (load_config po file os vm)
  unfolding load_config
  load_config-HasSettings os vm s h =
      parsed_from-HasSettings (as_text (at po config_file vm)) os vm s h

  -- When the command line can be parsed, the listening port, the backlog, the plugins' path and the
  -- configuration file's path can be read as the types under which the program reads them, and still
  -- so when `load_config` has read the configuration file, whether that can be parsed or not, for any
  -- options of plugins that do not take the names of those four.
  pub from_argv-load_config :
      (args : po.Source) (vm : po.VariablesMap) (os : Options)
      → from_argv po args ≡ some vm
      → IsSeparate os
      → Reads po vm × Reads po (load_config po file os vm)
  from_argv-load_config args vm os h s =
      let settings = from_argv-HasSettings po args vm h in
      (
        HasSettings-Reads po vm settings,
        HasSettings-Reads po (load_config po file os vm) (load_config-HasSettings os vm s settings),
      )
