-- ===== src/RouterOs/Api/Callbacks.antt =====
-- The map from tags to the functions that wait for responses.
use tiksrv.Base.{
  ℕ, ◌≡◌, ◌≢◌, refl, Bool-cases, inl, inr, none, some, List, [], ◌∷◌, ◌++◌, ◌==◌, arith, ==_refl,
}
use tiksrv.RouterOs.Api.State.{Callback, find_callback, erase_callback, emplace_callback}

-- An erased callback is not found, and all others are found as before.
pub find_callback-erase_callback :
    (tag : ℕ) (cbs : List (ℕ × Callback))
    → (find_callback tag (erase_callback tag cbs) ≡ none)
      × ((t : ℕ) → t ≢ tag → find_callback t (erase_callback tag cbs) ≡ find_callback t cbs)
unfolding find_callback erase_callback
find_callback-erase_callback tag [] = (refl, λ t h. refl)
find_callback-erase_callback tag ((u, cb) ∷ cbs) =
    let (gone, others) = find_callback-erase_callback tag cbs in
    (ground arith, λ t h. ground (arith, others t h))

some-ne-none : {c : Callback} → some c ≢ none
some-ne-none h = cc

find_callback-append :
    (tag : ℕ) (cb : Callback) (cbs : List (ℕ × Callback))
    → find_callback tag cbs ≡ none
    → (find_callback tag (cbs ++ ((tag, cb) ∷ [])) ≡ some cb)
      × ((t : ℕ) → t ≢ tag → find_callback t (cbs ++ ((tag, cb) ∷ [])) ≡ find_callback t cbs)
unfolding find_callback
find_callback-append tag cb [] h = (ground (arith, ==_refl tag), λ t h. ground arith)
find_callback-append tag cb ((u, c) ∷ cbs) h = elim (Bool-cases (u == tag)) [
  | inl same ↦ absurd (some-ne-none (rw same at h))
  | inr differs ↦
      let (found, others) = find_callback-append tag cb cbs (rw differs at h) in
      (rw differs found, λ t n. ground (arith, others t n))
]

-- A callback for a tag that has none is found, and all others are found as before.
pub find_callback-emplace_callback :
    (tag : ℕ) (cb : Callback) (cbs : List (ℕ × Callback))
    → find_callback tag cbs ≡ none
    → (find_callback tag (emplace_callback tag cb cbs) ≡ some cb)
      × ((t : ℕ) → t ≢ tag → find_callback t (emplace_callback tag cb cbs) ≡ find_callback t cbs)
unfolding emplace_callback
find_callback-emplace_callback tag cb cbs h = rw h (find_callback-append tag cb cbs h)
