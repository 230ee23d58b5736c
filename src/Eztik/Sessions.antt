-- ===== src/Eztik/Sessions.antt =====
-- src/plugins/eztik/services/include/eztik/services/sessions.hpp and sessions_service.cpp, session.cpp
-- of src/plugins/eztik/services/src: the routers' connections of the server's clients. A session is an
-- object with the number of its API connection; `apis` gives the state of each connection at the
-- moment. A completion of `api::open` or `api::login` is an operation of its own, with what the
-- source's lambda has captured.
pub mod Closing
pub mod Opening
use tiksrv.Base.{
  ℕ, ◌+◌, ◌≡◌, Bool, true, false, not, ◌&&◌, Option, none, some, List, [], ◌∷◌, ◌++◌, Bytes, Result,
  ok, aborted, Act, ◌>>◌, skip, emit, modify, assert, reading, ◌==◌, if◌then◌else◌,
}
use tiksrv.Base.Outcome.{Outcome, returned, thrown, stopped}
use tiksrv.RouterOs.Api.State.{Api, ErrorCode, is_open}

pub record Session : Type 0 where
  pub id : ℕ
  pub api : ℕ

-- A function that is given to `create`, by what it has captured: a client, and the tag of its request.
pub record Handler : Type 0 where
  pub client : ℕ
  pub tag : ℕ

abbrev pub Entries : Type 0
Entries = List (ℕ × Session × Handler)

-- `sessions_`, and the number that the next API connection gets.
pub record Sessions : Type 0 where
  pub entries : Entries
  pub next_api : ℕ

-- What the configuration holds for the router.
pub record Config : Type 0 where
  pub ros_ip : Bytes
  pub ros_api_port : ℕ
  pub ros_api_user : Bytes
  pub ros_api_password : Bytes

-- What `conf_[…].as<…>()` gives for the router's address in `create`, and for the name and the password
-- when the connection is open. A value that cannot be read throws bad_any_cast.
pub record RouterSettings : Type 0 where
  pub address : Outcome (Bytes × ℕ)
  pub credentials : Outcome (Bytes × Bytes)

abbrev pub readable : Config → RouterSettings
readable conf = record {
  address = returned (conf.ros_ip, conf.ros_api_port);
  credentials = returned (conf.ros_api_user, conf.ros_api_password);
}

-- Calls on an API connection, which carry what their completions need, and of the functions that
-- were given to `create`.
pub data Call : Type 0 where
  open_api : Session → Handler → Bytes → ℕ → Call
  login_api : Session → Handler → Bytes → Bytes → Call
  open_cb : Handler → Option ErrorCode → Option Session → Call
  close_cb : Handler → Session → Call

unfoldable pub find_session : ℕ → Entries → Option (Session × Handler)
find_session id [] = none
find_session id ((i, s, cb) ∷ es) = if i == id then some (s, cb) else find_session id es

unfoldable pub erase_session : ℕ → Entries → Entries
erase_session id [] = []
erase_session id ((i, s, cb) ∷ es) =
    if i == id then erase_session id es else (i, s, cb) ∷ erase_session id es

abbrev pub is_found {ℓ} : {A : Type ℓ} → Option A → Bool
is_found none = false
is_found (some a) = true

unfoldable pub has_session : ℕ → Sessions → Bool
unfolding find_session
has_session id s = is_found (find_session id s.entries)

module _ (apis : ℕ → Api) where
  unfoldable pub is_ready : Session → Bool
  unfolding is_open
  is_ready s = is_open (apis s.api) && (apis s.api).logged_in

  abbrev ready_in : Option (Session × Handler) → Bool
  ready_in none = false
  ready_in (some (s, cb)) = is_ready s

  unfoldable pub has_ready : ℕ → Sessions → Bool
  unfolding find_session is_ready
  has_ready id s = ready_in (find_session id s.entries)

  -- The body of `close` with the entry that is found; none is the failed assertion.
  abbrev pub close_found : ℕ → Option (Session × Handler) → Act Sessions Call
  close_found id none = λ _. aborted
  close_found id (some (s, cb)) =
      assert (s.id == id)
      >> (if is_ready s then emit (close_cb cb s) else skip)
      >> modify λ t. record t { entries = erase_session id t.entries }

  unfoldable pub close : ℕ → Act Sessions Call
  unfolding find_session is_ready erase_session
  close id = reading λ s. close_found id (find_session id s.entries)

  -- Also what the disconnection hook does, with the client's id.
  unfoldable pub on_close : ℕ → Act Sessions Call
  unfolding close has_session
  on_close id = reading λ s. if has_session id s then close id else skip

  -- `session::on_error`, what the session does when its connection reports an error.
  unfoldable pub on_error : Session → ErrorCode → Act Sessions Call
  unfolding on_close
  on_error s err = on_close s.id

  -- Nothing catches an exception between a request, or a completion, and `main`, which ends the program.
  abbrev pub with_setting {ℓ} :
      {A : Type ℓ} → Outcome A → (A → Act Sessions Call) → Act Sessions Call
  with_setting (returned a) act = act a
  with_setting (thrown x) act = λ _. aborted
  with_setting stopped act = λ _. aborted

  module _ (conf : RouterSettings) where
    unfoldable pub create : ℕ → Handler → Handler → Act Sessions Call
    unfolding has_session
    create id opened closed = reading λ t.
        assert (not (has_session id t))
        >> with_setting conf.address λ (ip, port).
          modify (λ u. record u {
            entries = u.entries ++ ((id, record { id = id; api = t.next_api }, closed) ∷ []);
            next_api = t.next_api + 1;
          })
          >> emit (open_api (record { id = id; api = t.next_api }) opened ip port)

    unfoldable pub api_opened : Session → Handler → Option ErrorCode → Act Sessions Call
    unfolding is_ready has_session close
    api_opened s opened err =
        assert (not (is_ready s))
        >> reading λ t.
          if has_session s.id t
          then elim err [
            | some x ↦ close s.id >> emit (open_cb opened (some x) none)
            | none ↦
                with_setting conf.credentials
                  λ (user, password). emit (login_api s opened user password)
          ]
          else skip

  unfoldable pub api_logged_in : Session → Handler → Option ErrorCode → Act Sessions Call
  unfolding is_ready has_session on_close
  api_logged_in s opened err = elim err [
    | some x ↦ assert (not (is_ready s)) >> on_close s.id >> emit (open_cb opened (some x) none)
    | none ↦ reading λ t.
        if has_session s.id t
        then (assert (is_ready s) >> emit (open_cb opened none (some s)))
        else skip
  ]
