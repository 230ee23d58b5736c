-- ===== src/App/Config/Values.antt =====
-- The values that the program reads are there, with the types under which it reads them.
use tiksrv.Base.{◌≡◌, ◌≢◌, refl, sym, subst, Bool-cases, inl, inr, false, Option, none, some, Bytes}
use tiksrv.Base.Tests.{str_eq}
use tiksrv.App.Config.{
  Value, ValueType, is_uint16, is_uint32, is_text, HasType, Fits, OptionDescription, Options,
  find_option, ProgramOptions, listen_port, liten_backlog, plugins_path, config_file,
  config_string_key, config_options, add_option, at, from_argv,
}

-- A value of the type is there.
abbrev pub IsA : ValueType → Option Value → Type 0
IsA t none = ⊥
IsA t (some v) = HasType t v

IsA_iff : (t : ValueType) (o : Option Value) → Fits t o → o ≢ none → IsA t o
IsA_iff t none f n = absurd (n refl)
IsA_iff t (some v) f n = f

IsA-Fits : (t : ValueType) (o : Option Value) → IsA t o → Fits t o
IsA-Fits t none i = absurd i
IsA-Fits t (some v) i = i

IsA-ne-none : (t : ValueType) (o : Option Value) → IsA t o → o ≢ none
IsA-ne-none t none i = absurd i
IsA-ne-none t (some v) i = λ e. cc

module _ {A : Type 0} where
  some-inj : {a b : A} → some a ≡ some b → a ≡ b
  some-inj e = cc

  none-ne-some : {a : A} → none ≢ some a
  none-ne-some e = cc

module _ (po : ProgramOptions) where
  -- An option with a default has a value of its type when it has been stored.
  pub store-IsA :
      (os : Options) (src : po.Source) (vm : po.VariablesMap) (name : Bytes) {o : OptionDescription}
      → find_option name os ≡ some o
      → IsA o.type o.default
      → Fits o.type (po.value_of name vm)
      → (po.store os src vm).1 ≡ false
      → IsA o.type (po.value_of name (po.store os src vm).0)
  store-IsA os src vm name {o} found def old went =
      IsA_iff o.type (po.value_of name (po.store os src vm).0)
        (po.store-typed os src vm name found (IsA-Fits o.type o.default def) old)
        (po.store-default os src vm name found (IsA-ne-none o.type o.default def) went)

  -- A later file, whether it can be parsed or not, leaves a value of the type.
  pub store-IsA_again :
      (os : Options) (src : po.Source) (vm : po.VariablesMap) (name : Bytes) {o : OptionDescription}
      → find_option name os ≡ some o
      → IsA o.type o.default
      → IsA o.type (po.value_of name vm)
      → IsA o.type (po.value_of name (po.store os src vm).0)
  store-IsA_again os src vm name {o} found def old =
      IsA_iff o.type (po.value_of name (po.store os src vm).0)
        (po.store-typed os src vm name found (IsA-Fits o.type o.default def)
          (IsA-Fits o.type (po.value_of name vm) old))
        (po.store-keeps os src vm name (IsA-ne-none o.type (po.value_of name vm) old))

  -- The values that `listen_port`, `liten_backlog`, `plugins_path` and `config_file` are read as.
  pub record HasSettings (vm : po.VariablesMap) : Type 0 where
    pub port : IsA is_uint16 (at po listen_port vm)
    pub backlog : IsA is_uint32 (at po liten_backlog vm)
    pub plugins : IsA is_text (at po plugins_path vm)
    pub file : IsA is_text (at po config_file vm)

  stored-HasSettings :
      (src : po.Source)
      → (po.store config_options src po.no_values).1 ≡ false
      → HasSettings (po.store config_options src po.no_values).0
  unfolding config_options config_string_key at find_option add_option str_eq
  stored-HasSettings src went =
      let stored =
        λ (name : Bytes) (o : OptionDescription) (f : find_option name config_options ≡ some o)
            (d : IsA o.type o.default).
          store-IsA config_options src po.no_values name f d
            (subst (Fits o.type) (sym (po.value_of-no_values name)) tt) went in
      record {
        port = stored (config_string_key listen_port) _ refl tt;
        backlog = stored (config_string_key liten_backlog) _ refl tt;
        plugins = stored (config_string_key plugins_path) _ refl tt;
        file = stored (config_string_key config_file) _ refl tt;
      }

  from_argv_split :
      (args : po.Source) (vm : po.VariablesMap)
      → from_argv po args ≡ some vm
      → ((po.store config_options args po.no_values).1 ≡ false)
        × ((po.store config_options args po.no_values).0 ≡ vm)
  unfolding from_argv
  from_argv_split args vm h = elim (Bool-cases (po.store config_options args po.no_values).1) [
    | inl threw ↦ absurd (none-ne-some (rw threw at h))
    | inr went ↦ (went, some-inj (rw went at h))
  ]

  pub from_argv_stores :
      (args : po.Source) (vm : po.VariablesMap)
      → from_argv po args ≡ some vm
      → (po.store config_options args po.no_values).0 ≡ vm
  from_argv_stores args vm h = (from_argv_split args vm h).1

  pub from_argv-HasSettings :
      (args : po.Source) (vm : po.VariablesMap) → from_argv po args ≡ some vm → HasSettings vm
  from_argv-HasSettings args vm h =
      let (went, stored) = from_argv_split args vm h in
      subst HasSettings stored (stored-HasSettings args went)

  abbrev Keeps : (ValueType → Bytes → Type 0) → Type 0
  Keeps P =
      P is_uint16 (config_string_key listen_port)
      × P is_uint32 (config_string_key liten_backlog)
      × P is_text (config_string_key plugins_path)
      × P is_text (config_string_key config_file)

  HasSettings-of :
      (vm vm' : po.VariablesMap)
      → Keeps (λ t name. IsA t (po.value_of name vm) → IsA t (po.value_of name vm'))
      → HasSettings vm
      → HasSettings vm'
  unfolding at
  HasSettings-of vm vm' (port, backlog, plugins, file) h = record {
    port = port h.port;
    backlog = backlog h.backlog;
    plugins = plugins h.plugins;
    file = file h.file;
  }

  -- Parsing a file for the program's own options leaves the settings.
  pub store-own :
      (src : po.Source) (vm : po.VariablesMap)
      → HasSettings vm
      → HasSettings (po.store config_options src vm).0
  unfolding config_options config_string_key find_option add_option str_eq
  store-own src vm =
      let again =
        λ (name : Bytes) (o : OptionDescription) (f : find_option name config_options ≡ some o)
            (d : IsA o.type o.default).
          store-IsA_again config_options src vm name f d in
      HasSettings-of vm (po.store config_options src vm).0 (
        again (config_string_key listen_port) _ refl tt,
        again (config_string_key liten_backlog) _ refl tt,
        again (config_string_key plugins_path) _ refl tt,
        again (config_string_key config_file) _ refl tt,
      )

-- Options that have no name of those that the program reads.
abbrev pub IsSeparate : Options → Type 0
IsSeparate os =
    (find_option (config_string_key listen_port) os ≡ none)
    × (find_option (config_string_key liten_backlog) os ≡ none)
    × (find_option (config_string_key plugins_path) os ≡ none)
    × (find_option (config_string_key config_file) os ≡ none)

module _ (po : ProgramOptions) where
  -- So does parsing one for other options.
  pub store-others :
      (os : Options) (src : po.Source) (vm : po.VariablesMap)
      → IsSeparate os
      → HasSettings po vm
      → HasSettings po (po.store os src vm).0
  store-others os src vm (port, backlog, plugins, file) =
      let same =
        λ (t : ValueType) (name : Bytes) (n : find_option name os ≡ none)
            (h : IsA t (po.value_of name vm)).
          subst (IsA t) (sym (po.store-other os src vm name n)) h in
      HasSettings-of po vm (po.store os src vm).0 (
        same is_uint16 _ port,
        same is_uint32 _ backlog,
        same is_text _ plugins,
        same is_text _ file,
      )
