-- ===== src/Eztik/Tests/Answering.antt =====
-- Requests at concrete inputs, from the server's dispatch to the commands' bodies.
use tiksrv.Base.{ℕ, ◌+◌, ◌≡◌, refl, ◌==◌, if◌then◌else◌, [], ◌∷◌, List, codes, ok, map, some, arith}
use tiksrv.Net.Message.{Request, header_size}
use tiksrv.Base.Stream.{feed}
use tiksrv.Net.Client
use tiksrv.Net.Client.{Client}
use tiksrv.Net.Client.Requests.{
  IsFrame, IsWaiting, stream, rounds, portion_size, deliver_portion, wanted,
}
use tiksrv.Net.Tests.{little_endian, waiting}
use tiksrv.App.Server.{Command, Commands, find_command}
use tiksrv.RouterOs.Tests.{substituting}
use tiksrv.Eztik.Commands.{Eztik, Call}
use tiksrv.Eztik.Plugin.Answering.{
  CommandObject, echoing, opening, sending, loading, serve, serve_all, Fate, answers,
}
use tiksrv.Eztik.Plugin.Heard.{requests_of, heard}
use tiksrv.Eztik.Plugin.Echoing.{of_client, respond_all, AreEchoes, echo_stream}
use tiksrv.Eztik.Plugin.Fates.{accounted, demanded, serve-Fate, EndsProgram, serve_all-accounted}
use tiksrv.Eztik.Tests.{conf}
use tiksrv.Eztik.Sessions.{readable}
use tiksrv.Base.{◌⊎◌, aborted}
use tiksrv.Eztik.Tests.Commands.{messages, request, before}

abbrev objects : Command → CommandObject
objects cmd =
    if cmd == 30
    then echoing
    else if cmd == 31
    then opening
    else if cmd == 32
    then sending
    else loading

abbrev four : Commands
four = (0x00000, 30) ∷ (0x10000, 31) ∷ (0x10002, 32) ∷ (0x10003, 33) ∷ []

-- To open, to echo, and to run a command that does not exist.
abbrev requests : List (ℕ × Request)
requests =
    (9, request)
    ∷ (8, record request { header = record request.header { command = 0 } })
    ∷ (9, record request { header = record request.header { command = 0x10001 } })
    ∷ []

serve-Fate_example :
    ((serve (readable conf) substituting messages objects 4 four 9 request before ≡ aborted)
      × EndsProgram (readable conf) substituting messages objects 4 four 9 request before)
    ⊎ ((u : Eztik) × (cs : List Call) × (serve
            (readable conf)
            substituting
            messages
            objects
            4
            four
            9
            request
            before
          ≡ ok (u, cs))
        × Fate 9 request before u cs)
serve-Fate_example =
    serve-Fate (readable conf) substituting messages objects 4 four 9 request before

serve_all-accounted_example :
    (u : Eztik) × (cs : List Call) × (serve_all
        (readable conf)
        substituting
        messages
        objects
        4
        four
        requests
        before
      ≡ ok (u, cs))
    × (accounted (record { client = 9; tag = 20 }) u cs
        ≡ demanded (record { client = 9; tag = 20 }) requests
          + accounted (record { client = 9; tag = 20 }) before [])
serve_all-accounted_example =
    serve_all-accounted (readable conf) substituting messages objects 4 four
      (record { client = 9; tag = 20 }) requests before (conf.ros_ip, conf.ros_api_port) refl

two_demanded : demanded (record { client = 9; tag = 20 }) requests ≡ 2
two_demanded = refl

abbrev hello : Request
hello = record {
  header = record { command = 0; flags = 0; tag = 5; body_size = 5 };
  body = codes "hello";
}

abbrev empty_request : Request
empty_request = record {
  header = record { command = 0; flags = 0; tag = 6; body_size = 0 };
  body = [];
}

hello-IsFrame : IsFrame hello
hello-IsFrame = record {
  header_fits = record {
    command_fits = omega arith;
    flags_fits = omega arith;
    tag_fits = omega arith;
    body_size_fits = omega arith;
  };
  announced = refl;
  allowed = omega arith;
}

empty_request-IsFrame : IsFrame empty_request
empty_request-IsFrame = record {
  header_fits = record {
    command_fits = omega arith;
    flags_fits = omega arith;
    tag_fits = omega arith;
    body_size_fits = omega arith;
  };
  announced = refl;
  allowed = omega arith;
}

finds_echo : find_command 0 four ≡ some 30
unfolding find_command
finds_echo = refl

echo_stream_example :
    (d : Client) × (calls : List Client.Call) × (cs : List Call) × (sent : List Client.Call) × (feed
        portion_size
        (deliver_portion little_endian)
        wanted
        (rounds (hello ∷ empty_request ∷ []) 0)
        header_size
        (stream (hello ∷ empty_request ∷ []))
        waiting
      ≡ ok (d, calls))
    × (serve_all
          (readable conf)
          substituting
          messages
          objects
          4
          four
          (map (of_client 3) (requests_of calls))
          before
        ≡ ok (before, cs))
    × (respond_all little_endian 7 (answers cs) d ≡ ok (d, sent))
    × AreEchoes little_endian 7 (map heard (hello ∷ empty_request ∷ [])) sent
    × IsWaiting d
echo_stream_example =
    echo_stream (readable conf) substituting messages objects 4 little_endian 7 four 30 0 waiting
      (hello ∷ empty_request ∷ []) 0 before finds_echo refl
      (record { socket_open = refl; expects_header = refl; room = refl }) refl
      (hello-IsFrame, (empty_request-IsFrame, tt)) (refl, (refl, tt))
