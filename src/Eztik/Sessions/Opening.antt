-- ===== src/Eztik/Sessions/Opening.antt =====
-- How sessions begin.
use tiksrv.Base.{
  ℕ, ◌+◌, ◌≡◌, ◌≢◌, sym, ap, ◌∙◌, subst, Bool-cases, inl, inr, none, some, [], ◌∷◌, ◌++◌, ok, ◌==◌,
  arith, ==_refl, ==_iff,
}
use tiksrv.RouterOs.Api.State.{Api}
use tiksrv.Eztik.Sessions.{
  Handler, Session, Entries, Sessions, readable, Config, open_api, find_session, has_session,
  on_close, create,
}
use tiksrv.Eztik.Sessions.Closing.{HasOwnId, IsKept, closing_calls, on_close_lem, some-ne-none}

find_session-append :
    (id : ℕ) (s : Session) (cb : Handler) (es : Entries)
    → find_session id es ≡ none
    → (find_session id (es ++ ((id, s, cb) ∷ [])) ≡ some (s, cb))
      × ((i : ℕ) → i ≢ id → find_session i (es ++ ((id, s, cb) ∷ [])) ≡ find_session i es)
unfolding find_session
find_session-append id s cb [] h = (ground (arith, ==_refl id), λ i n. ground arith)
find_session-append id s cb ((j, r, c) ∷ es) h = elim (Bool-cases (j == id)) [
  | inl same ↦ absurd (some-ne-none (rw same at h))
  | inr differs ↦
      let (found, others) = find_session-append id s cb es (rw differs at h) in
      (rw differs found, λ i n. ground (arith, others i n))
]

-- The session that `create` makes.
abbrev pub made : ℕ → Sessions → Session
made id t = record { id = id; api = t.next_api }

abbrev pub with_made : ℕ → Handler → Sessions → Sessions
with_made id closed t = record t {
  entries = t.entries ++ ((id, made id t, closed) ∷ []);
  next_api = t.next_api + 1;
}

with_made-IsKept :
    (id : ℕ) (closed : Handler) (t : Sessions)
    → IsKept t
    → find_session id t.entries ≡ none
    → IsKept (with_made id closed t)
with_made-IsKept id closed t k none_yet = record { own_ids = own }
  where
    own : (i : ℕ) → HasOwnId i (find_session i (t.entries ++ ((id, made id t, closed) ∷ [])))
    own i =
        let (found, others) = find_session-append id (made id t) closed t.entries none_yet in
        elim (Bool-cases (i == id)) [
          | inl same ↦
              subst (HasOwnId i)
                (sym (
                  ap (λ j. find_session j (t.entries ++ ((id, made id t, closed) ∷ [])))
                    ((==_iff i id).0 same)
                  ∙ found))
                (sym ((==_iff i id).0 same))
          | inr differs ↦
              subst (HasOwnId i) (sym (others i (λ e. cc (differs, (==_iff i id).1 e))))
                (k.own_ids i)
        ]

module _ (apis : ℕ → Api) (conf : Config) where
  pub create_missing :
      (id : ℕ) (opened closed : Handler) (t : Sessions)
      → find_session id t.entries ≡ none
      → create apis (readable conf) id opened closed t
        ≡ ok (with_made id closed t, open_api (made id t) opened conf.ros_ip conf.ros_api_port ∷ [])
  unfolding create has_session
  create_missing id opened closed t m = rw m

  -- For a client without a session, `create` returns: the client then has the new session, whose
  -- connection is asked to open at the configured address, and no other client's session changes.
  -- When the client leaves, `on_close` brings back what was found before, for every client. This holds
  -- while each session stands under its own id, which stays so, and with settings that can be read.
  pub create-on_close :
      (id : ℕ) (opened closed : Handler) (t : Sessions)
      → IsKept t
      → find_session id t.entries ≡ none
      → (u : Sessions) × (v : Sessions) × (create apis (readable conf) id opened closed t
          ≡ ok (u, open_api (made id t) opened conf.ros_ip conf.ros_api_port ∷ []))
        × (find_session id u.entries ≡ some (made id t, closed))
        × (on_close apis id u ≡ ok (v, closing_calls apis (some (made id t, closed))))
        × ((i : ℕ) → find_session i v.entries ≡ find_session i t.entries)
        × IsKept v
  create-on_close id opened closed t k m =
      let (found, others) = find_session-append id (made id t) closed t.entries m in
      let (v, closes, erased, kept) =
        on_close_lem apis id (with_made id closed t) (with_made-IsKept id closed t k m) in
      (
        with_made id closed t,
        v,
        create_missing id opened closed t m,
        found,
        closes ∙ ap (λ o. ok (v, closing_calls apis o)) found,
        λ i. elim (Bool-cases (i == id)) [
          | inl same ↦
              ap (λ j. find_session j v.entries) ((==_iff i id).0 same)
              ∙ erased.gone
              ∙ sym m
              ∙ ap (λ j. find_session j t.entries) (sym ((==_iff i id).0 same))
          | inr differs ↦
              let apart : i ≢ id = λ e. cc (differs, (==_iff i id).1 e) in
              erased.others i apart ∙ others i apart
        ],
        kept,
      )
