-- ===== src/App/Services.antt =====
-- src/services/include/services/services_manager.hpp and src/services/src/services_manager.cpp: the
-- services by name, and their start. The std::map is a list of pairs in the order of the names; a
-- service is an object with a number, and a null pointer is none. Log messages are left out.
pub mod Registry
pub mod Initialize
use tiksrv.Base.{
  ℕ, Bool, true, false, Option, none, some, List, [], ◌∷◌, Bytes, codes, ltb, if◌then◌else◌, str_eq,
}

-- ts::services::service, with the answers of its virtual functions.
pub record Service : Type 0 where
  pub display_name : Bytes
  pub required : Bool
  pub object : ℕ

-- config_manager and hooks_manager, with their names.
abbrev pub config_manager : Service
config_manager = record {
  display_name = codes "Configuration Manager";
  required = true;
  object = 0;
}

abbrev pub hooks_manager : Service
hooks_manager = record { display_name = codes "Hooks Manager"; required = true; object = 1 }

abbrev pub config_manager_name : Bytes
config_manager_name = codes "config_manager"

abbrev pub hooks_manager_name : Bytes
hooks_manager_name = codes "hooks_manager"

-- `services_`.
abbrev pub Services : Type 0
Services = List (Bytes × Option Service)

pub data ManagerState : Type 0 where
  uninitialized initializing initialized : ManagerState

pub record ServicesManager : Type 0 where
  pub services : Services
  pub state : ManagerState

-- `operator<` of std::string.
unfoldable pub before : Bytes → Bytes → Bool
before [] [] = false
before [] (y ∷ ys) = true
before (x ∷ xs) [] = false
before (x ∷ xs) (y ∷ ys) =
    let rest = before xs ys in if ltb x y then true else if ltb y x then false else rest

unfoldable pub find_service : Bytes → Services → Option (Option Service)
find_service name [] = none
find_service name ((n, p) ∷ es) = if str_eq n name then some p else find_service name es

abbrev pub is_found {ℓ} : {A : Type ℓ} → Option A → Bool
is_found none = false
is_found (some a) = true

-- `insert` of a name that is not there.
unfoldable pub insert_service : Bytes → Option Service → Services → Services
unfolding before
insert_service name p [] = (name, p) ∷ []
insert_service name p ((n, q) ∷ es) =
    if before name n then (name, p) ∷ (n, q) ∷ es else (n, q) ∷ insert_service name p es

unfoldable pub has : Bytes → Services → Bool
unfolding find_service
has name es = is_found (find_service name es)

abbrev pub got : Bytes → Option (Option Service) → Services → Services × Option Service
unfolding insert_service
got name none es = (insert_service name none es, none)
got name (some p) es = (es, p)

-- `operator[]` of std::map: a name that is missing is entered with a null pointer.
unfoldable pub get : Bytes → Services → Services × Option Service
unfolding find_service insert_service
get name es = got name (find_service name es) es

unfoldable pub register_service : Bytes → Service → Services → Services
unfolding has insert_service
register_service name svc es = if has name es then es else insert_service name (some svc) es

-- std::runtime_error, by its message.
pub data StartError : Type 0 where
  already_initialized : StartError
  could_not_initialize : Bytes → StartError

-- How `initialize` ends. `undefined`: the loop goes on from an element that it has erased, or calls
-- a function of a null pointer, for which the language says nothing.
pub data Ending : Type 0 where
  returned : Ending
  threw : StartError → Ending
  undefined : Ending

-- `starts n`: `initialize` of the service with the number `n` returns, and throws otherwise.
module _ (starts : ℕ → Bool) where
  abbrev pub failed_start : Service → Ending
  failed_start svc =
      if svc.required then threw (could_not_initialize svc.display_name) else undefined

  abbrev pub called : Service → Ending × List ℕ → Ending × List ℕ
  called svc (e, cs) = (e, svc.object ∷ cs)

  -- The loop, with the services whose `initialize` is called.
  unfoldable pub start_services : Services → Ending × List ℕ
  start_services [] = (returned, [])
  start_services ((name, none) ∷ es) = (undefined, [])
  start_services ((name, some svc) ∷ es) =
      let rest = start_services es in
      called svc (if starts svc.object then rest else (failed_start svc, []))

  abbrev initialize_from : ManagerState → ServicesManager → Ending × List ℕ × ServicesManager
  unfolding start_services
  initialize_from uninitialized m =
      let (e, cs) = start_services m.services in (e, cs, record m { state = initialized })
  initialize_from s m = (threw already_initialized, [], m)

  unfoldable pub initialize : ServicesManager → Ending × List ℕ × ServicesManager
  unfolding start_services
  initialize m = initialize_from m.state m
