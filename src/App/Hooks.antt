-- ===== src/App/Hooks.antt =====
-- src/services/include/services/hooks_manager.hpp and src/services/src/hooks_manager.cpp: groups of
-- functions that are run together. The std::map from group numbers is an association list with
-- distinct keys; a function is a number.
pub mod Order
use tiksrv.Base.{
  ℕ, ◌≡◌, ◌≢◌, refl, sym, ap, ◌∙◌, Bool, true, false, not, Bool-cases, inl, inr, Option, none, some,
  List, [], ◌∷◌, ◌++◌, Result, ok, aborted, Act, ◌>>◌, skip, emit, modify, assert, reading, ◌==◌,
  if◌then◌else◌, arith, ==_refl,
}

abbrev pub Hook : Type 0
Hook = ℕ

abbrev pub Groups : Type 0
Groups = List (ℕ × List Hook)

-- `hooks_group`.
abbrev pub connection : ℕ
connection = 0

abbrev pub disconnection : ℕ
disconnection = 1

unfoldable pub find_group : ℕ → Groups → Option (List Hook)
find_group group [] = none
find_group group ((g, hs) ∷ gs) = if g == group then some hs else find_group group gs

abbrev is_found : Option (List Hook) → Bool
is_found none = false
is_found (some hs) = true

unfoldable pub has_group : ℕ → Groups → Bool
unfolding find_group
has_group group gs = is_found (find_group group gs)

-- `groups_[group].push_back(h)`; a group that is missing is made.
unfoldable pub push_hook : ℕ → Hook → Groups → Groups
push_hook group h [] = (group, h ∷ []) ∷ []
push_hook group h ((g, hs) ∷ gs) =
    if g == group then (g, hs ++ (h ∷ [])) ∷ gs else (g, hs) ∷ push_hook group h gs

-- The std::any that the functions get has the type `D`, and `moved d` is what is left of `d` when it
-- has been moved from; the standard library leaves that open.
module _ {D : Type 0} (moved : D → D) where
  -- The calls: a function and what it is given.
  abbrev pub HookCall : Type 0
  HookCall = Hook × D

  unfoldable pub create_group : ℕ → Act Groups HookCall
  unfolding has_group
  create_group group =
      reading (λ gs. assert (not (has_group group gs))) >> modify (λ gs. gs ++ ((group, []) ∷ []))

  unfoldable pub initialize : Act Groups HookCall
  unfolding create_group
  initialize = create_group connection >> create_group disconnection

  unfoldable pub register_hook : ℕ → Hook → Act Groups HookCall
  unfolding create_group has_group push_hook
  register_hook group h =
      reading (λ gs. if has_group group gs then skip else create_group group)
      >> modify (push_hook group h)

  -- The loop over a group's functions, which moves from `data` each time.
  unfoldable pub call_hooks : List Hook → D → List HookCall
  call_hooks [] d = []
  call_hooks (h ∷ hs) d = (h, d) ∷ call_hooks hs (moved d)

  abbrev pub run_group : Option (List Hook) → D → Act Groups HookCall
  unfolding call_hooks
  run_group none d gs = aborted
  run_group (some hs) d gs = ok (gs, call_hooks hs d)

  unfoldable pub run_hooks : ℕ → D → Act Groups HookCall
  unfolding find_group call_hooks
  run_hooks group d gs = run_group (find_group group gs) d gs
