-- ===== src/Eztik/Data.antt =====
-- src/plugins/eztik/data: models that are loaded from a router's answers. A function that waits for
-- responses is a function from a reply to what it calls and to its answer, whether it waits on.
pub mod Loading
use tiksrv.Base.{
  ℕ, ◌≡◌, Bool, true, false, Option, none, some, List, [], ◌∷◌, ◌++◌, Bytes, codes, if◌then◌else◌,
}
use tiksrv.Base.Outcome.{Outcome, returned, thrown, stopped, ◌>>=◌, ◌>>◌, asserting}
use tiksrv.RouterOs.Response.{ResponseSentence, has, value_at, empty}
use tiksrv.RouterOs.Api.State.{ErrorCode, Reply, failure, response}

pub record HotspotUser : Type 0 where
  pub name : Bytes
  pub password : Bytes

abbrev pub api_path : Bytes
api_path = codes "/ip/hotspot/user"

-- `hotspot_user::create`.
unfoldable pub create_user : ResponseSentence → Outcome HotspotUser
unfolding has value_at
create_user m = do
  asserting (has (codes "name") m)
  asserting (has (codes "password") m)
  name ← value_at (codes "name") m
  password ← value_at (codes "password") m
  returned (record { name = name; password = password })

-- A model's `create`.
module _ {M : Type 0} (create : ResponseSentence → Outcome M) where
  -- The calls of a `load_handler`: an error, a model, or the end, which the last argument says.
  pub data Loaded : Type 0 where
    load_failed : ErrorCode → Loaded
    loaded : M → Loaded
    load_ended : Loaded

  -- The function that `load_stream` sends with its request.
  unfoldable pub stream_reply : Reply → Outcome (Loaded × Bool)
  unfolding empty
  stream_reply (failure err) = returned (load_failed err, false)
  stream_reply (response r) =
      if empty r
      then returned (load_ended, false)
      else (create r >>= λ m. returned (loaded m, true))

  -- The calls of a `load_all_handler`.
  pub data LoadedAll : Type 0 where
    load_all_failed : ErrorCode → LoadedAll
    loaded_all : List M → LoadedAll

  -- The function that `load_all` sends, with the vector that it fills.
  unfoldable pub collect_reply : List M → Reply → Outcome (Option LoadedAll × List M × Bool)
  unfolding empty
  collect_reply ret (failure err) = returned (some (load_all_failed err), ret, false)
  collect_reply ret (response r) =
      if empty r
      then returned (some (loaded_all ret), [], false)
      else (create r >>= λ m. returned (none, ret ++ (m ∷ []), true))

  abbrev pub go_on : Loaded × Bool → Outcome (List Loaded) → Outcome (List Loaded)
  go_on (l, false) rest = returned (l ∷ [])
  go_on (l, true) rest = rest >>= λ ls. returned (l ∷ ls)

  -- The calls for the replies to a request: a function that has answered false gets no more.
  unfoldable pub stream_replies : List Reply → Outcome (List Loaded)
  unfolding stream_reply
  stream_replies [] = returned []
  stream_replies (r ∷ rs) = stream_reply r >>= λ s. go_on s (stream_replies rs)

  abbrev pub called : Option LoadedAll → List LoadedAll
  called none = []
  called (some l) = l ∷ []

  abbrev pub collect_on :
      Option LoadedAll × List M × Bool
      → (List M → Outcome (List LoadedAll))
      → Outcome (List LoadedAll)
  collect_on (l, ret, false) rest = returned (called l)
  collect_on (l, ret, true) rest = rest ret >>= λ ls. returned (called l ++ ls)

  unfoldable pub collect_replies : List Reply → List M → Outcome (List LoadedAll)
  unfolding collect_reply
  collect_replies [] ret = returned []
  collect_replies (r ∷ rs) ret = collect_reply ret r >>= λ s. collect_on s (collect_replies rs)
