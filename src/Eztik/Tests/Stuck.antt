-- ===== src/Eztik/Tests/Stuck.antt =====
-- Sessions whose connections have failed, at concrete inputs.
use tiksrv.Base.{◌≡◌, refl, some, [], ◌∷◌, ok, arith}
use tiksrv.Net.Message.{operation_pending, response_code}
use tiksrv.RouterOs.Api.State
use tiksrv.RouterOs.Api.State.{Api, other, failed, fail}
use tiksrv.RouterOs.Api.Connection.{here}
use tiksrv.RouterOs.Tests.{substituting, one_digest, digits_cast, keep}
use tiksrv.RouterOs.Tests.Connection
use tiksrv.RouterOs.Tests.Connection.{
  started_reached, started-is_open, started_fails, after_failure, started,
}
use tiksrv.Eztik.Sessions
use tiksrv.Eztik.Sessions.{readable, Handler, find_session}
use tiksrv.Eztik.Sessions.Closing.{IsKept, IsErased}
use tiksrv.Eztik.Sessions.Opening.{made, with_made}
use tiksrv.Eztik.Commands.{
  Eztik, ros_session_not_open, make_response_code, open_execute, on_sessions,
}
use tiksrv.Eztik.Commands.Guard.{refusal}
use tiksrv.Eztik.Commands.Opening.{handler_of}
use tiksrv.Eztik.Commands.Requests.{send_command, load_command}
use tiksrv.Eztik.Commands.Stuck.{with_api, failed_send-refuses, on_error-untold}
use tiksrv.Eztik.Tests.{conf, none_yet}
use tiksrv.Eztik.Tests.Commands.{messages, request, before}

-- Client 9 has a session, over a connection on which a send has failed.
abbrev failed_session : Eztik
failed_session = record before {
  sessions = with_made 9 (handler_of 9 request) none_yet;
  apis = λ n. after_failure.api;
}

its_session :
    find_session 9 failed_session.sessions.entries ≡ some (made 9 none_yet, handler_of 9 request)
unfolding find_session
its_session = refl

failed_send-refuses_example :
    (open_execute (readable conf) 9 request failed_session
      ≡ refusal 9 request failed_session (response_code operation_pending))
    × (send_command substituting messages 9 request failed_session
        ≡ refusal 9 request failed_session (make_response_code ros_session_not_open))
    × (load_command substituting messages 9 request failed_session
        ≡ refusal 9 request failed_session (make_response_code ros_session_not_open))
failed_send-refuses_example =
    failed_send-refuses conf substituting messages one_digest digits_cast keep Connection.request
      (other 5) (failed 32) 9 request (made 9 none_yet) (handler_of 9 request) failed_session
      started_reached started-is_open started_fails here its_session refl

kept : IsKept failed_session.sessions
unfolding find_session
kept = record { own_ids = ground arith }

on_error-untold_example :
    (b : Api) × (u : Eztik) × (fail (failed 104) started.api
      ≡ ok (b, State.on_error (failed 104) ∷ []))
    × (on_sessions
          (λ apis. Sessions.on_error apis (made 9 none_yet) (failed 104))
          (with_api (made 9 none_yet).api b failed_session)
        ≡ ok (u, []))
    × IsErased 9 failed_session.sessions u.sessions
on_error-untold_example =
    on_error-untold (failed 104) started.api (made 9 none_yet) (handler_of 9 request) failed_session
      kept its_session
