-- ===== src/App/Services/Registry.antt =====
-- What the map of services holds after any calls.
use tiksrv.Base.{
  ◌≡◌, ◌≢◌, refl, sym, ap, ◌∙◌, true, false, Bool-cases, inl, inr, Option, none, some, Option-cases,
  List, [], ◌∷◌, ◌++◌, Bytes, All, if◌then◌else◌, arith, str_eq_iff, str_eq_refl,
}
use tiksrv.Base.Tests.{str_eq}
use tiksrv.App.Services.{
  Service, Services, before, find_service, insert_service, get, register_service, has,
}

-- The names stand in their order, each once.
abbrev pub IsSorted : Services → Type 0
IsSorted [] = Unit
IsSorted ((n, p) ∷ es) = All (λ e. before n e.0 ≡ true) es × IsSorted es

before_trans : (a b c : Bytes) → before a b ≡ true → before b c ≡ true → before a c ≡ true
unfolding before
before_trans [] (y ∷ b) (z ∷ c) h k = refl
before_trans (x ∷ a) (y ∷ b) (z ∷ c) h k = ground (arith, before_trans a b c)
before_trans [] [] c h k = cc
before_trans (x ∷ a) [] c h k = cc
before_trans a (y ∷ b) [] h k = cc

before_total : (a b : Bytes) → before a b ≡ false → str_eq b a ≡ false → before b a ≡ true
unfolding before str_eq
before_total [] [] h n = cc
before_total [] (y ∷ b) h n = cc
before_total (x ∷ a) [] h n = refl
before_total (x ∷ a) (y ∷ b) h n = ground (arith, before_total a b)

All-before :
    (name n : Bytes) (es : Services)
    → before name n ≡ true
    → All (λ e. before n e.0 ≡ true) es
    → All (λ e. before name e.0 ≡ true) es
All-before name n [] h k = tt
All-before name n (e ∷ es) h k = (before_trans name n e.0 h k.0, All-before name n es h k.1)

insert-All :
    (m name : Bytes) (p : Option Service) (es : Services)
    → before m name ≡ true
    → All (λ e. before m e.0 ≡ true) es
    → All (λ e. before m e.0 ≡ true) (insert_service name p es)
unfolding insert_service
insert-All m name p [] h k = (h, tt)
insert-All m name p ((n, q) ∷ es) h k = elim (Bool-cases (before name n)) [
  | inl first ↦ rw first (h, k)
  | inr later ↦ rw later (k.0, insert-All m name p es h k.1)
]

missing_later :
    (name n : Bytes) (q : Option Service) (es : Services)
    → find_service name ((n, q) ∷ es) ≡ none
    → (str_eq n name ≡ false) × (find_service name es ≡ none)
unfolding find_service
missing_later name n q es m = elim (Bool-cases (str_eq n name)) [
  | inl same ↦ absurd (some-ne-none (rw same at m))
  | inr differs ↦ (differs, rw differs at m)
]
  where
    some-ne-none : {p : Option Service} → some p ≢ none
    some-ne-none h = cc

insert-IsSorted :
    (name : Bytes) (p : Option Service) (es : Services)
    → find_service name es ≡ none
    → IsSorted es
    → IsSorted (insert_service name p es)
unfolding insert_service
insert-IsSorted name p [] m s = (tt, tt)
insert-IsSorted name p ((n, q) ∷ es) m (a, s) =
    let (differs, missing) = missing_later name n q es m in
    elim (Bool-cases (before name n)) [
      | inl first ↦ rw first ((first, All-before name n es first a), (a, s))
      | inr later ↦ rw later (
        insert-All n name p es (before_total name n later differs) a,
        insert-IsSorted name p es missing s,
      )
    ]

find-insert :
    (name n : Bytes) (p : Option Service) (es : Services)
    → find_service name es ≡ none
    → find_service n (insert_service name p es)
      ≡ (if str_eq name n then some p else find_service n es)
unfolding find_service insert_service
find-insert name n p [] m = refl
find-insert name n p ((k, q) ∷ es) m =
    let (differs, missing) = missing_later name k q es m in
    elim (Bool-cases (before name k)) [
      | inl first ↦ rw first refl
      | inr later ↦
          rw (later, find-insert name n p es missing)
            (ground (arith, str_eq_iff k n, str_eq_iff name n, str_eq_iff k name))
    ]

-- Calls on the manager, with the service that `get` returns.
pub data Op : Type 0 where
  registering : Bytes → Service → Op
  getting : Bytes → Op

abbrev pub perform : Op → Services → Services × List (Option Service)
unfolding register_service get
perform (registering name svc) es = (register_service name svc es, [])
perform (getting name) es = let (fs, p) = get name es in (fs, p ∷ [])

abbrev pub perform_all : List Op → Services → Services × List (Option Service)
perform_all [] es = (es, [])
perform_all (op ∷ ops) es =
    let (fs, ps) = perform op es in let (gs, qs) = perform_all ops fs in (gs, ps ++ qs)

-- The same calls on a function: what is entered under a name first stays.
abbrev pub Registry : Type 0
Registry = Bytes → Option (Option Service)

abbrev pub or_else : Option (Option Service) → Option Service → Option Service
or_else none q = q
or_else (some p) q = p

abbrev pub enter : Bytes → Option Service → Registry → Registry
enter name p f n = if str_eq name n then some (or_else (f name) p) else f n

abbrev pub replay : List Op → Registry → Registry × List (Option Service)
replay [] f = (f, [])
replay (registering name svc ∷ ops) f = replay ops (enter name (some svc) f)
replay (getting name ∷ ops) f =
    let (g, qs) = replay ops (enter name none f) in (g, or_else (f name) none ∷ qs)

Enters : Bytes → Option Service → Services → Services → Type 0
Enters name p es fs =
    (IsSorted es → IsSorted fs)
    × ((n : Bytes) → find_service n fs ≡ enter name p (λ k. find_service k es) n)

entered_missing :
    (name : Bytes) (p : Option Service) (es : Services)
    → find_service name es ≡ none
    → Enters name p es (insert_service name p es)
unfolding Enters
entered_missing name p es m = (insert-IsSorted name p es m, λ n. rw m (find-insert name n p es m))

entered_present :
    (name : Bytes) (p q : Option Service) (es : Services)
    → find_service name es ≡ some q
    → Enters name p es es
unfolding Enters
entered_present name p q es f = (λ s. s, λ n. entered n)
  where
    entered : (n : Bytes) → find_service n es ≡ enter name p (λ k. find_service k es) n
    entered n = elim (Bool-cases (str_eq name n)) [
      | inl same ↦ rw (sym ((str_eq_iff name n).0 same), f, str_eq_refl name) refl
      | inr differs ↦ rw differs refl
    ]

register-Enters :
    (name : Bytes) (svc : Service) (es : Services)
    → Enters name (some svc) es (register_service name svc es)
unfolding register_service has
register-Enters name svc es = elim (Option-cases (find_service name es)) [
  | inl m ↦ rw m (entered_missing name (some svc) es m)
  | inr (q, f) ↦ rw f (entered_present name (some svc) q es f)
]

get-Enters :
    (name : Bytes) (es : Services)
    → Enters name none es (get name es).0 × ((get name es).1 ≡ or_else (find_service name es) none)
unfolding get
get-Enters name es = elim (Option-cases (find_service name es)) [
  | inl m ↦ rw m (entered_missing name none es m, refl)
  | inr (q, f) ↦ rw f (entered_present name none q es f, refl)
]

enter-eq :
    (name : Bytes) (p : Option Service) {f g : Registry}
    → ((n : Bytes) → f n ≡ g n)
    → (n : Bytes) → enter name p f n ≡ enter name p g n
enter-eq name p h n = rw (h name, h n) refl

-- After any calls of `register_service` and `get`, the manager's map is in the order of its names,
-- reads as the function on which the same calls are played, and `get` has returned what that
-- function says: the service that was registered first under the name, or a null pointer if the name
-- had been asked for before any registration. This holds from any map that is in order.
pub perform_all-refines :
    (ops : List Op) (es : Services) (f : Registry)
    → IsSorted es
    → ((n : Bytes) → find_service n es ≡ f n)
    → IsSorted (perform_all ops es).0
      × ((n : Bytes) → find_service n (perform_all ops es).0 ≡ (replay ops f).0 n)
      × ((perform_all ops es).1 ≡ (replay ops f).1)
unfolding Enters perform register_service
perform_all-refines [] es f s h = (s, h, refl)
perform_all-refines (registering name svc ∷ ops) es f s h =
    let (sorted, reads) = register-Enters name svc es in
    perform_all-refines ops (register_service name svc es) (enter name (some svc) f) (sorted s)
      (λ n. reads n ∙ enter-eq name (some svc) h n)
perform_all-refines (getting name ∷ ops) es f s h =
    let ((sorted, reads), value) = get-Enters name es in
    let (in_order, replayed, values) =
      perform_all-refines ops (get name es).0 (enter name none f) (sorted s)
        (λ n. reads n ∙ enter-eq name none h n) in
    (
      in_order,
      replayed,
      ap (λ p. p ∷ (perform_all ops (get name es).0).1) (value ∙ ap (λ q. or_else q none) (h name))
          ∙ ap (λ ps. or_else (f name) none ∷ ps) values,
    )
