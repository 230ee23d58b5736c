-- ===== src/App/Tests/Start.antt =====
-- The start of the application at concrete inputs.
use tiksrv.Base.{
  ℕ, ◌≡◌, refl, Bool, true, false, Option, none, some, List, [], ◌∷◌, ◌++◌, Bytes, codes, ok, ◌==◌,
  not,
}
use tiksrv.Base.Tests.{str_eq}
use tiksrv.App.Config.{
  text, Options, config_options, add_option, find_option, help, version, has, config_string_key,
  from_argv, is_text,
}
use tiksrv.App.Config.Values.{IsSeparate}
use tiksrv.App.Plugins.{Plugin, Entry}
use tiksrv.App.Services.{
  Service, ServicesManager, uninitialized, initialized, find_service, config_manager, hooks_manager,
  config_manager_name, hooks_manager_name, initialize, threw, already_initialized,
}
use tiksrv.App.Services.Initialize.{ending, tried, objects, initialize_lem}
use tiksrv.App.Services.Registry.{
  Op, registering, getting, IsSorted, perform_all, replay, perform_all-refines,
}
use tiksrv.App.Start.{TiksrvApp, load_config, main, ran}
use tiksrv.App.Start.Readiness.{IsServing, main-IsServing}
use tiksrv.App.Start.Settings.{Reads, from_argv-load_config}
use tiksrv.App.Tests.Options.{Values, Source, options, nothing}

abbrev calls : List Op
calls =
    registering hooks_manager_name hooks_manager
    ∷ registering config_manager_name config_manager
    ∷ registering hooks_manager_name config_manager
    ∷ getting (codes "sessions")
    ∷ getting hooks_manager_name
    ∷ []

none_found : (n : Bytes) → find_service n [] ≡ none
unfolding find_service
none_found n = refl

perform_all-refines_example :
    IsSorted (perform_all calls []).0
    × ((n : Bytes) → find_service n (perform_all calls []).0 ≡ (replay calls (λ m. none)).0 n)
    × ((perform_all calls []).1 ≡ (replay calls (λ m. none)).1)
perform_all-refines_example = perform_all-refines calls [] (λ m. none) tt none_found

abbrev optional : Service
optional = record { display_name = codes "Extra"; required = true; object = 7 }

abbrev manager : ServicesManager
manager = record {
  services =
      (config_manager_name, some config_manager)
      ∷ (codes "extra", some optional)
      ∷ (hooks_manager_name, some hooks_manager)
      ∷ [];
  state = uninitialized;
}

-- The service with the number 7 does not start.
abbrev starts : ℕ → Bool
starts n = not (n == 7)

initialize_lem_example :
    (initialize starts manager ≡ (
      ending starts
          ((codes "extra", some optional) ∷ (hooks_manager_name, some hooks_manager) ∷ []),
      objects starts ((config_manager_name, some config_manager) ∷ [])
          ++ tried starts
              ((codes "extra", some optional) ∷ (hooks_manager_name, some hooks_manager) ∷ []),
      record manager { state = initialized },
    ))
    × (initialize starts (record manager { state = initialized })
        ≡ (threw already_initialized, [], record manager { state = initialized }))
initialize_lem_example =
    initialize_lem starts manager ((config_manager_name, some config_manager) ∷ [])
      ((codes "extra", some optional) ∷ (hooks_manager_name, some hooks_manager) ∷ []) refl refl
      (refl, tt) refl

abbrev stored_values : Values
stored_values = (options.store config_options nothing options.no_values).0

parses : from_argv options nothing ≡ some stored_values
unfolding from_argv
parses = refl

-- An option of a plugin.
abbrev extra_options : Options
extra_options = record { name = codes "extra.path"; type = is_text; default = some (text []) } ∷ []

separate : IsSeparate extra_options
unfolding find_option config_string_key str_eq
separate = (refl, refl, refl, refl)

-- Every file gives nothing.
abbrev files : Bytes → Source
files path = nothing

from_argv-load_config_example :
    Reads options stored_values
    × Reads options (load_config options files extra_options stored_values)
from_argv-load_config_example =
    from_argv-load_config options files nothing stored_values extra_options parses separate

-- A plugin that throws when it is created.
abbrev throwing : Plugin
throwing = record { create = λ w. ok (w, true); exports = [] }

abbrev entries : List Entry
entries =
    record { is_regular_file = true; extension = codes ".so"; library = some throwing }
    ∷ record { is_regular_file = false; extension = []; library = none }
    ∷ []

no_help : has options help stored_values ≡ false
unfolding has config_string_key config_options add_option find_option str_eq
no_help = refl

no_version : has options version stored_values ≡ false
unfolding has config_string_key config_options add_option find_option str_eq
no_version = refl

abbrev emptied : Option ℕ → Option ℕ
emptied d = none

main-IsServing_example :
    (a : TiksrvApp options) × (main options files
        (λ path. some entries)
        emptied
        (λ port. true)
        nothing
      ≡ ran a)
    × IsServing options emptied a
main-IsServing_example =
    main-IsServing options files (λ path. some entries) emptied (λ port. true) nothing stored_values
      parses no_help no_version (λ port r. refl)
      (λ path r. (entries, refl, ((λ w h. (w, true, refl, h)), (tt, tt))))
