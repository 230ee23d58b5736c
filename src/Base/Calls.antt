-- ===== src/Base/Calls.antt =====
-- Operations of an object as state passing: each returns the new state and the calls that it makes
-- on other objects, in order, or stops the program.
use mathlib.Core.Path.{◌≡◌, refl, ap, sym, subst}
use mathlib.Core.Bool.{Bool, true, false}
use mathlib.Core.List.{List, [], ◌∷◌, ◌++◌, append_assoc}

-- `aborted`: an `assert` failed.
pub data Result {ℓ} (A : Type ℓ) : Type ℓ where
  ok : A → Result A
  aborted : Result A

-- The calls that were made before stand in front.
abbrev pub prepend : {S E : Type 0} → List E → Result (S × List E) → Result (S × List E)
prepend es (ok (s, fs)) = ok (s, es ++ fs)
prepend es aborted = aborted

-- An operation on an object with state `S`, which makes calls `E`.
abbrev pub Act : Type 0 → Type 0 → Type 0
Act S E = S → Result (S × List E)

abbrev pub run_then : {S E : Type 0} → Result (S × List E) → Act S E → Result (S × List E)
run_then (ok (s, es)) k = prepend es (k s)
run_then aborted k = aborted

infixl 5 ◌>>◌
abbrev pub ◌>>◌ : {S E : Type 0} → Act S E → Act S E → Act S E
◌>>◌ m k s = run_then (m s) k

abbrev pub skip : {S E : Type 0} → Act S E
skip s = ok (s, [])

abbrev pub emit : {S E : Type 0} → E → Act S E
emit e s = ok (s, e ∷ [])

abbrev pub modify : {S E : Type 0} → (S → S) → Act S E
modify f s = ok (f s, [])

abbrev pub assert : {S E : Type 0} → Bool → Act S E
assert true s = ok (s, [])
assert false s = aborted

-- The body of an operation may read the state.
abbrev pub reading : {S E : Type 0} → (S → Act S E) → Act S E
reading k s = k s s

pub prepend-prepend :
    {S E : Type 0} (es fs : List E) (r : Result (S × List E))
    → prepend es (prepend fs r) ≡ prepend (es ++ fs) r
prepend-prepend {E = E} es fs (ok (s, gs)) =
    ap (λ (l : List E). ok (s, l)) (sym (append_assoc es fs gs))
prepend-prepend es fs aborted = refl

pub prepend-nil : {S E : Type 0} (r : Result (S × List E)) → prepend {E = E} [] r ≡ r
prepend-nil (ok (s, es)) = refl
prepend-nil aborted = refl

-- The operation returns, and its result satisfies `P`.
abbrev pub Returns {ℓ} : {A : Type ℓ} → (A → Type 0) → Result A → Type 0
Returns P (ok a) = P a
Returns P aborted = ⊥

pub Returns-eq_ok {ℓ} :
    {A : Type ℓ} (P : A → Type 0) (r : Result A) {a : A} → Returns P r → r ≡ ok a → P a
Returns-eq_ok P r p h = subst (Returns P) h p

pub Returns-exists {ℓ} :
    {A : Type ℓ} (P : A → Type 0) (r : Result A) → Returns P r → (a : A) × (r ≡ ok a) × P a
Returns-exists P (ok a) p = (a, refl, p)
Returns-exists P aborted p = absurd p
