-- ===== src/App/Hooks/Order.antt =====
-- Functions of a group run in the order in which they were registered.
use tiksrv.Base.{
  ℕ, zero, suc, ◌≡◌, ◌≢◌, refl, sym, ap, ◌∙◌, true, inl, inr, Option, none, some, Option-cases,
  List, [], ◌∷◌, ◌++◌, length, ok, arith, ==_refl,
}
use tiksrv.App.Hooks.{
  Hook, Groups, find_group, has_group, push_hook, create_group, register_hook, run_group,
  call_hooks, run_hooks,
}

-- The functions of a group; a group that is missing has none.
abbrev pub hooks_in : Option (List Hook) → List Hook
hooks_in none = []
hooks_in (some hs) = hs

abbrev pub hooks_of : ℕ → Groups → List Hook
hooks_of group gs = hooks_in (find_group group gs)

pub push_hook-own :
    (group h : ℕ) (gs : Groups)
    → find_group group (push_hook group h gs) ≡ some (hooks_in (find_group group gs) ++ (h ∷ []))
unfolding find_group push_hook
push_hook-own group h [] = ground (arith, ==_refl group)
push_hook-own group h ((g, hs) ∷ gs) = ground (arith, push_hook-own group h gs)

pub push_hook-other :
    (group h other : ℕ) (gs : Groups)
    → other ≢ group
    → find_group other (push_hook group h gs) ≡ find_group other gs
unfolding find_group push_hook
push_hook-other group h other [] n = ground arith
push_hook-other group h other ((g, hs) ∷ gs) n = ground (arith, push_hook-other group h other gs n)

-- A group that is there stays.
pub has_group-push_hook :
    (group h other : ℕ) (gs : Groups)
    → has_group other gs ≡ true
    → has_group other (push_hook group h gs) ≡ true
unfolding has_group find_group push_hook
has_group-push_hook group h other [] f = cc
has_group-push_hook group h other ((g, hs) ∷ gs) f =
    ground (arith, has_group-push_hook group h other gs)

append_group-own :
    (group : ℕ) (gs : Groups)
    → find_group group gs ≡ none
    → find_group group (gs ++ ((group, []) ∷ [])) ≡ some []
unfolding find_group
append_group-own group [] m = ground (arith, ==_refl group)
append_group-own group ((g, hs) ∷ gs) m = ground (arith, append_group-own group gs)

append_group-other :
    (group other : ℕ) (gs : Groups)
    → other ≢ group
    → find_group other (gs ++ ((group, []) ∷ [])) ≡ find_group other gs
unfolding find_group
append_group-other group other [] n = ground arith
append_group-other group other ((g, hs) ∷ gs) n =
    ground (arith, append_group-other group other gs n)

module _ {D : Type 0} (moved : D → D) where
  -- What is left of `d` when it has been moved from so often.
  abbrev pub moved_from : ℕ → D → D
  moved_from zero d = d
  moved_from (suc n) d = moved_from n (moved d)

  call_hooks-append :
      (hs : List Hook) (h : Hook) (d : D)
      → call_hooks moved (hs ++ (h ∷ [])) d
        ≡ call_hooks moved hs d ++ ((h, moved_from (length hs) d) ∷ [])
  unfolding call_hooks
  call_hooks-append [] h d = refl
  call_hooks-append (g ∷ hs) h d = ap (λ cs. (g, d) ∷ cs) (call_hooks-append hs h (moved d))

  pub register_present :
      (group : ℕ) (h : Hook) (gs : Groups) {hs : List Hook}
      → find_group group gs ≡ some hs
      → register_hook moved group h gs ≡ ok (push_hook group h gs, [])
  unfolding register_hook has_group
  register_present group h gs f = rw f

  create_missing :
      (group : ℕ) (gs : Groups)
      → find_group group gs ≡ none
      → create_group moved group gs ≡ ok (gs ++ ((group, []) ∷ []), [])
  unfolding create_group has_group
  create_missing group gs m = rw m

  register_missing :
      (group : ℕ) (h : Hook) (gs : Groups)
      → find_group group gs ≡ none
      → register_hook moved group h gs ≡ ok (push_hook group h (gs ++ ((group, []) ∷ [])), [])
  unfolding register_hook has_group
  register_missing group h gs m = rw (m, create_missing group gs m)

  -- A group that is run behind the registration, however the group was made.
  run_pushed :
      (group : ℕ) (h : Hook) (gs : Groups) (hs : List Hook) (d : D)
      → hooks_in (find_group group gs) ≡ hs
      → run_hooks moved group d (push_hook group h gs)
        ≡ ok (push_hook group h gs, call_hooks moved hs d ++ ((h, moved_from (length hs) d) ∷ []))
  unfolding run_hooks
  run_pushed group h gs hs d e =
      ap (λ o. run_group moved o d (push_hook group h gs)) (push_hook-own group h gs)
      ∙ ap (λ l. ok (push_hook group h gs, l))
          (ap (λ l. call_hooks moved (l ++ (h ∷ [])) d) e ∙ call_hooks-append hs h d)

  -- `register_hook` returns, and when the group is run then, the functions that were registered for
  -- it before are called as they would have been, in their order, and the new one after them, with
  -- what the functions before it have left of the data: each call moves from the same object, so
  -- that only the first function gets the data itself. No other group changes.
  pub register_hook-run_hooks :
      (group : ℕ) (h : Hook) (gs : Groups) (d : D)
      → (gs' : Groups) × (register_hook moved group h gs ≡ ok (gs', []))
        × (run_hooks moved group d gs'
            ≡ ok (
              gs',
              call_hooks moved (hooks_of group gs) d
                  ++ ((h, moved_from (length (hooks_of group gs)) d) ∷ []),
            ))
        × ((other : ℕ) → other ≢ group → find_group other gs' ≡ find_group other gs)
  register_hook-run_hooks group h gs d = elim (Option-cases (find_group group gs)) [
    | inl missing ↦ (
      push_hook group h (gs ++ ((group, []) ∷ [])),
      register_missing group h gs missing,
      run_pushed group h (gs ++ ((group, []) ∷ [])) (hooks_of group gs) d
          (ap hooks_in (append_group-own group gs missing) ∙ sym (ap hooks_in missing)),
      λ other n. push_hook-other group h other _ n ∙ append_group-other group other gs n,
    )
    | inr (hs, present) ↦ (
      push_hook group h gs,
      register_present group h gs present,
      run_pushed group h gs (hooks_of group gs) d refl,
      λ other n. push_hook-other group h other gs n,
    )
  ]
