-- ===== src/Eztik/Tests.antt =====
-- Sessions at concrete inputs.
pub mod Commands
pub mod Plugin
pub mod Answering
pub mod Stuck
use tiksrv.Base.{
  ℕ, zero, suc, arith, ◌≡◌, refl, true, false, none, some, [], ◌∷◌, ◌++◌, codes, ok, if◌then◌else◌,
}
use tiksrv.RouterOs.Api.State.{Api, reading_length, failed}
use tiksrv.Eztik.Sessions.{
  readable, Handler, Sessions, Config, open_api, open_cb, find_session, has_session, is_ready,
  on_close, create, api_opened, api_logged_in,
}
use tiksrv.Eztik.Sessions.Closing.{IsKept, IsErased, closing_calls, on_close_lem, api_opened-failed}
use tiksrv.Eztik.Sessions.Opening.{made, create-on_close}

abbrev opened : Handler
opened = record { client = 9; tag = 20 }

abbrev closed : Handler
closed = record { client = 9; tag = 21 }

-- Connection 0 is logged in, all others are not.
abbrev apis : ℕ → Api
apis n = record {
  sock_open = true;
  state = reading_length;
  buffer = 0 ∷ [];
  sentence = [];
  logged_in = elim n [ zero ↦ true | suc m ↦ false ];
  current_tag = 2;
  read_cbs = [];
  send_queue = [];
}

abbrev conf : Config
conf = record {
  ros_ip = codes "10.0.0.1";
  ros_api_port = 8728;
  ros_api_user = codes "admin";
  ros_api_password = codes "secret";
}

abbrev none_yet : Sessions
none_yet = record { entries = []; next_api = 1 }

none_yet-IsKept : IsKept none_yet
unfolding find_session
none_yet-IsKept = record { own_ids = λ id. tt }

not_found : find_session 9 none_yet.entries ≡ none
unfolding find_session
not_found = refl

create-on_close_example :
    (u : Sessions) × (v : Sessions) × (create apis (readable conf) 9 opened closed none_yet
      ≡ ok (u, open_api (made 9 none_yet) opened (codes "10.0.0.1") 8728 ∷ []))
    × (find_session 9 u.entries ≡ some (made 9 none_yet, closed))
    × (on_close apis 9 u ≡ ok (v, closing_calls apis (some (made 9 none_yet, closed))))
    × ((i : ℕ) → find_session i v.entries ≡ find_session i none_yet.entries)
    × IsKept v
create-on_close_example =
    create-on_close apis conf 9 opened closed none_yet none_yet-IsKept not_found

abbrev one : Sessions
one = record { entries = (9, record { id = 9; api = 1 }, closed) ∷ []; next_api = 2 }

one-IsKept : IsKept one
unfolding find_session
one-IsKept = record { own_ids = ground arith }

on_close_lem_example :
    (u : Sessions) × (on_close apis 9 one ≡ ok (u, closing_calls apis (find_session 9 one.entries)))
    × IsErased 9 one u
    × IsKept u
on_close_lem_example = on_close_lem apis 9 one one-IsKept

unready : is_ready apis (record { id = 9; api = 1 }) ≡ false
unfolding is_ready
unready = refl
