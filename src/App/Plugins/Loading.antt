-- ===== src/App/Plugins/Loading.antt =====
-- What the loading of a directory of plugins keeps.
use tiksrv.Base.{
  ap, ◌⊎◌, ◌∙◌, ◌≡◌, refl, Bool, true, false, Bool-cases, inl, inr, Option, none, some, List, [],
  ◌∷◌, ◌++◌, All, ok,
}
use tiksrv.Base.Outcome.{Outcome, returned, thrown, stopped}
use tiksrv.App.Hooks.{connection, disconnection, has_group}
use tiksrv.App.Services.{
  config_manager, hooks_manager, config_manager_name, hooks_manager_name, find_service,
}
use tiksrv.App.Plugins.{
  World, Plugin, Entry, load, is_plugin, created, and_then, load_entries, load_all, export_all,
  load_plugins,
}
use tiksrv.App.Server.{Commands}

-- The services are started: both are registered, and the groups of hooks are there.
pub record IsStarted (w : World) : Type 0 where
  pub config : find_service config_manager_name w.manager.services ≡ some (some config_manager)
  pub hooks : find_service hooks_manager_name w.manager.services ≡ some (some hooks_manager)
  pub accepting : has_group connection w.groups ≡ true
  pub losing : has_group disconnection w.groups ≡ true

-- The creation of the plugin returns or throws, and takes away nothing of that.
abbrev pub Behaves : Option Plugin → Type 0
Behaves none = Unit
Behaves (some p) =
    (w : World)
    → IsStarted w
    → (w' : World) × (threw : Bool) × (p.create w ≡ ok (w', threw)) × IsStarted w'

abbrev pub BehavesIn : Entry → Type 0
BehavesIn e = Behaves e.library

load-Behaves :
    (l : Option Plugin) (w : World)
    → Behaves l
    → IsStarted w
    → (w' : World) × (ps : List Plugin) × (load l w ≡ returned (w', ps)) × IsStarted w'
unfolding load
load-Behaves none w b h = (w, [], refl, h)
load-Behaves (some p) w b h =
    let (w', threw, returns, keeps) = b w h in
    let (ps, makes) = creates threw w' in (w', ps, rw returns makes, keeps)
  where
    creates :
        (threw : Bool) (v : World)
        → (ps : List Plugin) × (created p (ok (v, threw)) ≡ returned (v, ps))
    creates true v = ([], refl)
    creates false v = (p ∷ [], refl)

pub load_entries-Behaves :
    (es : List Entry) (w : World)
    → All BehavesIn es
    → IsStarted w
    → (w' : World) × (ps : List Plugin) × (load_entries es w ≡ returned (w', ps)) × IsStarted w'
unfolding load_entries
load_entries-Behaves [] w b h = (w, [], refl, h)
load_entries-Behaves (e ∷ es) w (b, bs) h = elim (Bool-cases (is_plugin e)) [
  | inl taken ↦
      let (v, ps, loads, keeps) = load-Behaves e.library w b h in
      let (w', qs, others, kept) = load_entries-Behaves es v bs keeps in
      (w', ps ++ qs, rw (taken, loads, others) refl, kept)
  | inr skipped ↦
      let (w', qs, others, kept) = load_entries-Behaves es w bs h in
      (w', qs, rw (skipped, others) refl, kept)
]

pub load_plugins-Behaves :
    (es : List Entry) (w : World) (cmds : Commands)
    → All BehavesIn es
    → IsStarted w
    → (w' : World) × (cmds' : Commands) × (load_plugins (some es) w cmds ≡ returned (w', cmds'))
      × IsStarted w'
unfolding load_plugins load_all
load_plugins-Behaves es w cmds b h =
    let (w', ps, loads, keeps) = load_entries-Behaves es w b h in
    (w', export_all ps cmds, rw loads refl, keeps)

-- An entry that is passed over: no shared object, or one that cannot be opened or has no plugin.
abbrev pub IsPassed : Entry → Type 0
IsPassed e = (is_plugin e ≡ false) ⊎ (e.library ≡ none)

-- The entry of a plugin.
abbrev pub IsEntryOf : Plugin → Entry → Type 0
IsEntryOf p e = (is_plugin e ≡ true) × (e.library ≡ some p)

and_then-nil : (o : Outcome (World × List Plugin)) → and_then [] o ≡ o
and_then-nil (returned (w, ps)) = refl
and_then-nil (thrown x) = refl
and_then-nil stopped = refl

load_entries_passed_one :
    (e : Entry) (es : List Entry) (w : World)
    → IsPassed e
    → load_entries (e ∷ es) w ≡ load_entries es w
unfolding load_entries load
load_entries_passed_one e es w (inl other) = rw other (and_then-nil (load_entries es w))
load_entries_passed_one e es w (inr broken) = elim (Bool-cases (is_plugin e)) [
  | inl plugin ↦ rw (plugin, broken) (and_then-nil (load_entries es w))
  | inr other ↦ rw other (and_then-nil (load_entries es w))
]

pub load_entries_passed :
    (js es : List Entry) (w : World)
    → All IsPassed js
    → load_entries (js ++ es) w ≡ load_entries es w
load_entries_passed [] es w h = refl
load_entries_passed (j ∷ js) es w (h, hs) =
    load_entries_passed_one j (js ++ es) w h ∙ load_entries_passed js es w hs

pub load_entries_plugin :
    (p : Plugin) (e : Entry) (es : List Entry) (w : World) {w' : World}
    → IsEntryOf p e
    → p.create w ≡ ok (w', false)
    → load_entries (e ∷ es) w ≡ and_then (p ∷ []) (load_entries es w')
unfolding load_entries load
load_entries_plugin p e es w (plugin, there) makes = rw (plugin, there, makes) refl

-- A directory with two plugins, among entries that are passed over.
abbrev pub directory_of : List Entry → Entry → List Entry → Entry → List Entry → List Entry
directory_of js first ks second ls = js ++ (first ∷ (ks ++ (second ∷ (ls ++ []))))

pub load_entries_two :
    (p q : Plugin) (first second : Entry) (js ks ls : List Entry) (w : World) {u v : World}
    → IsEntryOf p first
    → IsEntryOf q second
    → All IsPassed js
    → All IsPassed ks
    → All IsPassed ls
    → p.create w ≡ ok (u, false)
    → q.create u ≡ ok (v, false)
    → load_entries (directory_of js first ks second ls) w ≡ returned (v, p ∷ q ∷ [])
unfolding load_entries
load_entries_two p q first second js ks ls w {u} {v} f g hj hk hl makes makes_too =
    load_entries_passed js (first ∷ (ks ++ (second ∷ (ls ++ [])))) w hj
    ∙ load_entries_plugin p first (ks ++ (second ∷ (ls ++ []))) w f makes
    ∙ ap (and_then (p ∷ [])) (
        load_entries_passed ks (second ∷ (ls ++ [])) u hk
        ∙ load_entries_plugin q second (ls ++ []) u g makes_too
        ∙ ap (and_then (q ∷ [])) (load_entries_passed ls [] v hl))
