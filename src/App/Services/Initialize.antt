-- ===== src/App/Services/Initialize.antt =====
-- How the start of the services goes.
use tiksrv.Base.{
  ℕ, ◌≡◌, refl, Bool, true, false, Option, none, some, List, [], ◌∷◌, ◌++◌, All, if◌then◌else◌,
}
use tiksrv.App.Services.{
  Service, Services, ServicesManager, uninitialized, initialized, Ending, returned, threw,
  already_initialized, could_not_initialize, undefined, start_services, initialize,
}

module _ (starts : ℕ → Bool) where
  abbrev pub Starts : Option Service → Type 0
  Starts none = ⊥
  Starts (some svc) = starts svc.object ≡ true

  -- The services that are there and whose `initialize` returns.
  abbrev pub AllStart : Services → Type 0
  AllStart es = All (λ e. Starts e.1) es

  abbrev pub object_of : Option Service → List ℕ
  object_of none = []
  object_of (some svc) = svc.object ∷ []

  -- The numbers of the services, in the order of the names.
  abbrev pub objects : Services → List ℕ
  objects [] = []
  objects ((name, p) ∷ es) = object_of p ++ objects es

  abbrev after : List ℕ → Ending × List ℕ → Ending × List ℕ
  after cs (e, ds) = (e, cs ++ ds)

  start_services-append :
      (es fs : Services)
      → AllStart es
      → start_services starts (es ++ fs) ≡ after (objects es) (start_services starts fs)
  unfolding start_services
  start_services-append [] fs h = refl
  start_services-append ((name, some svc) ∷ es) fs (s, h) =
      rw (s, start_services-append es fs h) refl
  start_services-append ((name, none) ∷ es) fs (s, h) = absurd s

  -- What is left when a start has failed, or nothing.
  abbrev pub IsStop : Services → Type 0
  IsStop [] = Unit
  IsStop ((name, none) ∷ es) = Unit
  IsStop ((name, some svc) ∷ es) = starts svc.object ≡ false

  abbrev pub ending : Services → Ending
  ending [] = returned
  ending ((name, none) ∷ es) = undefined
  ending ((name, some svc) ∷ es) =
      if svc.required then threw (could_not_initialize svc.display_name) else undefined

  abbrev pub tried : Services → List ℕ
  tried [] = []
  tried ((name, p) ∷ es) = object_of p

  start_services-IsStop :
      (fs : Services) → IsStop fs → start_services starts fs ≡ (ending fs, tried fs)
  unfolding start_services
  start_services-IsStop [] f = refl
  start_services-IsStop ((name, none) ∷ fs) f = refl
  start_services-IsStop ((name, some svc) ∷ fs) f = rw f refl

  -- On a manager that has not started its services, `initialize` calls them in the order of their
  -- names, each once, as long as they return: if all do, it returns; the first that throws is the
  -- last one called, and if it is required, `initialize` throws with its name, while an optional one
  -- leaves the loop on an element that it has erased, which is undefined, as is a null pointer. However
  -- that ends, the manager counts as initialized, and a second call throws and calls no service.
  pub initialize_lem :
      (m : ServicesManager) (es fs : Services)
      → m.state ≡ uninitialized
      → m.services ≡ es ++ fs
      → AllStart es
      → IsStop fs
      → (initialize starts m
          ≡ (ending fs, objects es ++ tried fs, record m { state = initialized }))
        × (initialize starts (record m { state = initialized })
            ≡ (threw already_initialized, [], record m { state = initialized }))
  unfolding initialize
  initialize_lem m es fs u e all stop =
      (rw (u, e, start_services-append es fs all, start_services-IsStop fs stop) refl, refl)
