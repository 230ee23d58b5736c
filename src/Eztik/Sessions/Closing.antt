-- ===== src/Eztik/Sessions/Closing.antt =====
-- How sessions end.
use tiksrv.Base.{
  ℕ, ◌≡◌, ◌≢◌, refl, sym, ap, ◌∙◌, true, false, Bool-cases, inl, inr, Option, none, some,
  Option-cases, List, [], ◌∷◌, ◌++◌, ok, ◌==◌, if◌then◌else◌, arith, ==_iff, subst,
}
use tiksrv.RouterOs.Api.State.{Api, ErrorCode}
use tiksrv.Eztik.Sessions.{
  Handler, Session, Entries, is_found, Sessions, RouterSettings, Call, open_cb, close_cb,
  find_session, erase_session, has_session, is_ready, close_found, close, on_close, api_opened,
  api_logged_in,
}

-- Each session stands under its own id.
abbrev pub HasOwnId : ℕ → Option (Session × Handler) → Type 0
HasOwnId id none = Unit
HasOwnId id (some (s, cb)) = s.id ≡ id

pub record IsKept (t : Sessions) : Type 0 where
  pub own_ids : (id : ℕ) → HasOwnId id (find_session id t.entries)

-- A session is gone, and all others are as they were.
pub record IsErased (id : ℕ) (t u : Sessions) : Type 0 where
  pub gone : find_session id u.entries ≡ none
  pub others : (i : ℕ) → i ≢ id → find_session i u.entries ≡ find_session i t.entries

find_session-erase_session :
    (id : ℕ) (es : Entries)
    → (find_session id (erase_session id es) ≡ none)
      × ((i : ℕ) → i ≢ id → find_session i (erase_session id es) ≡ find_session i es)
unfolding find_session erase_session
find_session-erase_session id [] = (refl, λ i n. refl)
find_session-erase_session id ((j, s, cb) ∷ es) =
    let (gone, others) = find_session-erase_session id es in
    (ground arith, λ i n. ground (arith, others i n))

-- The calls that closing an entry makes.
abbrev pub closing_calls : (ℕ → Api) → Option (Session × Handler) → List Call
closing_calls apis none = []
closing_calls apis (some (s, cb)) = if is_ready apis s then close_cb cb s ∷ [] else []

pub some-ne-none : {e : Session × Handler} → some e ≢ none
some-ne-none h = cc

erased : (id : ℕ) (t : Sessions) → IsErased id t (record t { entries = erase_session id t.entries })
erased id t =
    let (gone, others) = find_session-erase_session id t.entries in
    record { gone = gone; others = others }

erased-IsKept :
    (id : ℕ) (t : Sessions) → IsKept t → IsKept (record t { entries = erase_session id t.entries })
erased-IsKept id t k = record { own_ids = own }
  where
    own : (i : ℕ) → HasOwnId i (find_session i (erase_session id t.entries))
    own i = elim (Bool-cases (i == id)) [
      | inl same ↦
          subst (HasOwnId i)
            (sym (
              ap (λ j. find_session j (erase_session id t.entries)) ((==_iff i id).0 same)
              ∙ (erased id t).gone))
            tt
      | inr differs ↦
          subst (HasOwnId i) (sym ((erased id t).others i (λ e. cc (differs, (==_iff i id).1 e))))
            (k.own_ids i)
    ]

module _ (apis : ℕ → Api) where
  close_found_lem :
      (id : ℕ) (o : Option (Session × Handler)) (t : Sessions)
      → HasOwnId id o
      → o ≢ none
      → close_found apis id o t
        ≡ ok (record t { entries = erase_session id t.entries }, closing_calls apis o)
  close_found_lem id none t h n = absurd (n refl)
  close_found_lem id (some (s, cb)) t h n = elim (Bool-cases (is_ready apis s)) [
    | inl ready ↦ ground arith
    | inr unready ↦ ground arith
  ]

  on_close_missing :
      (id : ℕ) (t : Sessions) → find_session id t.entries ≡ none → on_close apis id t ≡ ok (t, [])
  unfolding on_close has_session
  on_close_missing id t m = rw m

  on_close_found :
      (id : ℕ) (t : Sessions) {e : Session × Handler}
      → find_session id t.entries ≡ some e
      → on_close apis id t ≡ close_found apis id (find_session id t.entries) t
  unfolding on_close has_session close
  on_close_found id t f = ap (λ o. (if is_found o then close apis id else (λ u. ok (u, []))) t) f

  -- Whatever client leaves or whatever session reports an error, `on_close` returns: afterwards the
  -- client has no session, all other sessions are as they were, and the function that was given to
  -- `create` for the closing is called just when the session was ready. This holds while each session
  -- stands under its own id, which stays so.
  pub on_close_lem :
      (id : ℕ) (t : Sessions)
      → IsKept t
      → (u : Sessions) × (on_close apis id t
          ≡ ok (u, closing_calls apis (find_session id t.entries)))
        × IsErased id t u
        × IsKept u
  on_close_lem id t k = elim (Option-cases (find_session id t.entries)) [
    | inl missing ↦ (
      t,
      on_close_missing id t missing ∙ ap (λ o. ok (t, closing_calls apis o)) (sym missing),
      record { gone = missing; others = λ i n. refl },
      k,
    )
    | inr (e, found) ↦ (
      record t { entries = erase_session id t.entries },
      on_close_found id t found
          ∙ close_found_lem id _ t (k.own_ids id) (λ e. some-ne-none (sym found ∙ e)),
      erased id t,
      erased-IsKept id t k,
    )
  ]

  -- `close` is what `on_close` does where there is a session.
  close_of :
      (id : ℕ) (t : Sessions) → has_session id t ≡ true → on_close apis id t ≡ close apis id t
  unfolding on_close
  close_of id t h = rw h

  opened_found :
      (conf : RouterSettings) (s : Session) (opened : Handler) (x : ErrorCode) (t : Sessions)
      {u : Sessions} {cs : List Call}
      → is_ready apis s ≡ false
      → has_session s.id t ≡ true
      → close apis s.id t ≡ ok (u, cs)
      → api_opened apis conf s opened (some x) t ≡ ok (u, cs ++ (open_cb opened (some x) none ∷ []))
  unfolding api_opened
  opened_found conf s opened x t r h c = rw (r, h, c)

  opened_missing :
      (conf : RouterSettings) (s : Session) (opened : Handler) (x : ErrorCode) (t : Sessions)
      → is_ready apis s ≡ false
      → has_session s.id t ≡ false
      → api_opened apis conf s opened (some x) t ≡ ok (t, [])
  unfolding api_opened
  opened_missing conf s opened x t r h = rw (r, h)

  -- When the connection to a router cannot be opened, or a login fails, the client's session is
  -- removed, with the call that closing it makes, and then the function that was given to `create`
  -- for the opening is called with the error and no session; no other session changes. If the session
  -- is gone already, a failed login is still reported, a failed opening is not. This holds for a
  -- connection that is not open and logged in, while each session stands under its own id.
  pub api_opened-failed :
      (conf : RouterSettings) (s : Session) (opened : Handler) (x : ErrorCode) (t : Sessions)
      → IsKept t
      → is_ready apis s ≡ false
      → (u : Sessions) × (api_logged_in apis s opened (some x) t
          ≡ ok (
            u,
            closing_calls apis (find_session s.id t.entries) ++ (open_cb opened (some x) none ∷ []),
          ))
        × (api_opened apis conf s opened (some x) t ≡ (
            if has_session s.id t
            then ok (
              u,
              closing_calls apis (find_session s.id t.entries)
                  ++ (open_cb opened (some x) none ∷ []),
            )
            else ok (t, [])))
        × IsErased s.id t u
        × IsKept u
  unfolding api_logged_in
  api_opened-failed conf s opened x t k r =
      let (u, closes, gone, kept) = on_close_lem s.id t k in
      (
        u,
        rw (r, closes),
        elim (Bool-cases (has_session s.id t)) [
          | inl here ↦
              rw here (opened_found conf s opened x t r here (sym (close_of s.id t here) ∙ closes))
          | inr missing ↦ rw missing (opened_missing conf s opened x t r missing)
        ],
        gone,
        kept,
      )
