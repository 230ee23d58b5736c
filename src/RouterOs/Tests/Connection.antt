-- ===== src/RouterOs/Tests/Connection.antt =====
-- The life of an API connection at concrete inputs.
use tiksrv.Base.{◌≡◌, refl, ◌⊎◌, true, none, some, false, codes, [], ◌∷◌, ok, aborted}
use tiksrv.RouterOs.Length.{length_prefix, join_length}
use tiksrv.RouterOs.Api.State.{
  closed, reading_length, reading_word, other, failed, is_open, open_connection,
}
use tiksrv.RouterOs.Api.Reading.{connect_completed, read_completed, length_completed}
use tiksrv.RouterOs.Api.Portions.{whole, further}
use tiksrv.RouterOs.Api.Connection.{
  opening, connected, read_done, posted, send_done, may_post, handle, connecting, running,
  Connection, may_open, may_connect, may_read, IsSound, created, advance, Reaches, here, next,
  Fails,
}
use tiksrv.RouterOs.Sentence.{RequestSentence}
use tiksrv.RouterOs.Api.Sending.{send_completed}
use tiksrv.RouterOs.Api.Connection.Steps.{told}
use tiksrv.RouterOs.Api.Connection.Closed.{Silent, failed_send-Silent}
use tiksrv.RouterOs.Api.Connection.Safety.{advance_cases}
use tiksrv.RouterOs.Tests.{substituting, one_digest, digits_cast, keep}

abbrev pub dialled : Connection
dialled = record created { api = record created.api { sock_open = true }; phase = connecting }

-- The first byte of a length is awaited.
abbrev pub started : Connection
started = record {
  api = record created.api { sock_open = true; state = reading_length; buffer = 0 ∷ [] };
  phase = running;
  pending = whole 1 ∷ [];
}

pub started_reached : Reaches substituting one_digest digits_cast keep created started
unfolding advance open_connection connect_completed
started_reached =
    next (connected 7 none) (next (opening none [] 8728 7) here (may_open none [] 8728 7 refl) refl)
      (may_connect 7 none refl) refl

advance_cases_example :
    ((advance substituting one_digest digits_cast keep (read_done (whole 1) none (5 ∷ [])) started
        ≡ aborted)
      × Fails digits_cast keep started (read_done (whole 1) none (5 ∷ [])))
    ⊎ ((m : Connection) × (advance substituting one_digest digits_cast keep
            (read_done (whole 1) none (5 ∷ []))
            started
          ≡ ok m)
        × IsSound m
        × (¬ Fails digits_cast keep started (read_done (whole 1) none (5 ∷ []))))
advance_cases_example =
    advance_cases substituting one_digest digits_cast keep (read_done (whole 1) none (5 ∷ []))
      started_reached (may_read (whole 1) [] (5 ∷ []) refl refl)

-- The length 0x80 0x00 announces a word without bytes.
abbrev empty_announced : Connection
empty_announced = record {
  api = record started.api { state = reading_word; buffer = [] };
  phase = running;
  pending = whole 0 ∷ [];
}

announced_reached : Reaches substituting one_digest digits_cast keep created empty_announced
unfolding advance read_completed length_completed length_prefix join_length
announced_reached =
    next (read_done (further 0 1 1) none (0 ∷ []))
      (next (read_done (whole 1) none (0x80 ∷ [])) started_reached
        (may_read (whole 1) [] (0x80 ∷ []) refl refl) refl)
      (may_read (further 0 1 1) [] (0 ∷ []) refl refl) refl

empty_word_aborts :
    advance substituting one_digest digits_cast keep (read_done (whole 0) none []) empty_announced
    ≡ aborted
unfolding advance read_completed
empty_word_aborts = refl

abbrev pub request : RequestSentence
request = record { words = codes "/ip/address/getall" ∷ codes ".tag=1" ∷ []; tag = 1 }

abbrev pub after_failure : Connection
after_failure = record started { api = record started.api { sock_open = false; state = closed } }

pub started_fails :
    advance substituting one_digest digits_cast keep
      (send_done request (other 5) (some (failed 32)))
      started
    ≡ ok after_failure
unfolding advance send_completed
started_fails = refl

pub started-is_open : is_open started.api ≡ true
unfolding is_open
started-is_open = refl

failed_send-Silent_example :
    (handle substituting one_digest digits_cast keep
        (send_done request (other 5) (some (failed 32)))
        started.api
      ≡ ok (after_failure.api, told (failed 32) (other 5) ∷ []))
    × (is_open after_failure.api ≡ false)
    × (after_failure.api.read_cbs ≡ started.api.read_cbs)
    × Silent substituting one_digest digits_cast keep after_failure (posted request (other 6))
failed_send-Silent_example =
    failed_send-Silent substituting one_digest digits_cast keep request (other 5) (failed 32)
      (posted request (other 6)) started_reached started-is_open started_fails here
      (may_post request (other 6))
