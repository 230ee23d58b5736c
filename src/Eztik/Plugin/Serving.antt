-- ===== src/Eztik/Plugin/Serving.antt =====
-- Which commands are served when both plugins are loaded.
use tiksrv.Base.{
  ℕ, ◌≡◌, ◌≢◌, refl, ap, Bool, true, false, inl, inr, Option, none, some, Option-cases, List, [],
  ◌∷◌, All, ok, ◌==◌, if◌then◌else◌, arith,
}
use tiksrv.Base.Outcome.{returned}
use tiksrv.Net.Message.{Request}
use tiksrv.App.Hooks.{Groups, Hook, disconnection, find_group, has_group, push_hook}
use tiksrv.App.Hooks.Order.{register_present, has_group-push_hook}
use tiksrv.App.Plugins.{World, Plugin, Entry, load_entries, load_all, export_all, load_plugins}
use tiksrv.App.Plugins.Loading.{
  IsStarted, Behaves, IsPassed, IsEntryOf, directory_of, load_entries_two,
}
use tiksrv.App.Server.{
  Command, Commands, answer, on_request, make_command_id, find_command, add_command, load_commands,
}
use tiksrv.App.Services
use tiksrv.App.Services.{config_manager_name, hooks_manager_name, get}
use tiksrv.Core
use tiksrv.Core.{core_plugin}
use tiksrv.Eztik.Plugin.{setup_config, create, export_commands, eztik_plugin}

found_group :
    (group : ℕ) (gs : Groups)
    → has_group group gs ≡ true
    → (hs : List Hook) × (find_group group gs ≡ some hs)
unfolding has_group
found_group group gs h = elim (Option-cases (find_group group gs)) [
  | inl missing ↦ absurd (false-ne-true (rw missing at h))
  | inr found ↦ found
]
  where
    false-ne-true : false ≢ true
    false-ne-true e = cc

module _ (moved : Option ℕ → Option ℕ) (hook : Hook) where
  -- The world with the plugin's hook and options.
  abbrev pub with_eztik : World → World
  with_eztik w = record w {
    groups = push_hook disconnection hook w.groups;
    options = setup_config w.options;
  }

  with_eztik-IsStarted : (w : World) → IsStarted w → IsStarted (with_eztik w)
  with_eztik-IsStarted w h = record {
    config = h.config;
    hooks = h.hooks;
    accepting = has_group-push_hook disconnection hook _ w.groups h.accepting;
    losing = has_group-push_hook disconnection hook _ w.groups h.losing;
  }

  create-IsStarted : (w : World) → IsStarted w → create moved hook w ≡ ok (with_eztik w, false)
  unfolding create Services.has get
  create-IsStarted w h =
      let (hs, found) = found_group disconnection w.groups h.losing in
      rw (create, h.hooks, h.config, register_present moved disconnection hook w.groups found) refl

  pub eztik_plugin-Behaves :
      (open_cmd send_cmd load_cmd : Command)
      → Behaves (some (eztik_plugin moved hook open_cmd send_cmd load_cmd))
  unfolding eztik_plugin
  eztik_plugin-Behaves open_cmd send_cmd load_cmd w h =
      (with_eztik w, false, create-IsStarted w h, with_eztik-IsStarted w h)

  pub core_plugin-Behaves : (echo : Command) → Behaves (some (core_plugin echo))
  unfolding core_plugin
  core_plugin-Behaves echo w h = (w, false, refl, h)

  module _ (echo open_cmd send_cmd load_cmd : Command) where
    -- The two plugins, in either order.
    abbrev pub plugins : Bool → Plugin × Plugin
    plugins true = (core_plugin echo, eztik_plugin moved hook open_cmd send_cmd load_cmd)
    plugins false = (eztik_plugin moved hook open_cmd send_cmd load_cmd, core_plugin echo)

    -- The command under a number.
    abbrev pub served : ℕ → Option Command
    served c =
        if c == 0x00000
        then some echo
        else if c == 0x10000
        then some open_cmd
        else if c == 0x10002
        then some send_cmd
        else if c == 0x10003
        then some load_cmd
        else none

    abbrev commands : Bool → Commands
    unfolding export_all core_plugin eztik_plugin
    commands b = let (p, q) = plugins b in export_all (p ∷ q ∷ []) []

    find_command-commands : (b : Bool) (c : ℕ) → find_command c (commands b) ≡ served c
    unfolding commands find_command export_all core_plugin eztik_plugin load_commands add_command
        make_command_id Core.export_commands export_commands
    find_command-commands true c = ground arith
    find_command-commands false c = ground arith

    load_pair :
        (b : Bool) (first second : Entry) (js ks ls : List Entry) (w : World)
        → IsStarted w
        → IsEntryOf (plugins b).0 first
        → IsEntryOf (plugins b).1 second
        → All IsPassed js
        → All IsPassed ks
        → All IsPassed ls
        → load_entries (directory_of js first ks second ls) w
          ≡ returned (with_eztik w, (plugins b).0 ∷ (plugins b).1 ∷ [])
    unfolding core_plugin eztik_plugin
    load_pair true first second js ks ls w h f g hj hk hl =
        load_entries_two (core_plugin echo) (eztik_plugin moved hook open_cmd send_cmd load_cmd)
          first second js ks ls w f g hj hk hl refl (create-IsStarted w h)
    load_pair false first second js ks ls w h f g hj hk hl =
        load_entries_two (eztik_plugin moved hook open_cmd send_cmd load_cmd) (core_plugin echo)
          first second js ks ls w f g hj hk hl (create-IsStarted w h) refl

    -- When the directory of plugins holds core and eztik, in either order and among entries that are no
    -- plugins or cannot be opened, and the services are started, then both are loaded, and a server
    -- without commands serves just four: echo under 0x00000, opening a session under 0x10000, sending
    -- under 0x10002 and loading users under 0x10003. Any other number, that of api_close included,
    -- is answered with unknown_command.
    pub load_plugins-on_request :
        (b : Bool) (first second : Entry) (js ks ls : List Entry) (w : World)
        → IsStarted w
        → IsEntryOf (plugins b).0 first
        → IsEntryOf (plugins b).1 second
        → All IsPassed js
        → All IsPassed ks
        → All IsPassed ls
        → (cmds : Commands) × (load_plugins (some (directory_of js first ks second ls)) w []
            ≡ returned (with_eztik w, cmds))
          × IsStarted (with_eztik w)
          × ((client : ℕ) (req : Request)
              → on_request client req cmds ≡ answer client req (served req.header.command) ∷ [])
    unfolding load_plugins load_all commands on_request
    load_plugins-on_request b first second js ks ls w h f g hj hk hl = (
      commands b,
      rw (load_pair b first second js ks ls w h f g hj hk hl) refl,
      with_eztik-IsStarted w h,
      λ client req. ap (λ o. answer client req o ∷ []) (find_command-commands b req.header.command),
    )
