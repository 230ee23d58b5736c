-- ===== src/Eztik/Plugin/Echoing.antt =====
-- Echo requests from the bytes that a client sends to the bytes that it gets.
use tiksrv.Base.{
  ℕ, ◌≡◌, refl, ap, ◌∙◌, true, some, List, [], ◌∷◌, length, All, map, ok, Act, ◌>>◌, skip, arith,
}
use tiksrv.Base.Stream.{feed}
use tiksrv.Net.Message.{
  Endian, Request, Response, header_size, decode, update_header_buffer, set_body, set_tag, set_code,
  set_flags, new_response,
}
use tiksrv.Net.Message.RoundTrip.{update_header_buffer-set_body}
use tiksrv.Net.Client
use tiksrv.Net.Client.{
  Client, SendHandler, build_response, respond_posted, is_open, async_read, async_send, on_request,
  max_allowed_body_size,
}
use tiksrv.Net.Client.Requests.{
  IsFrame, IsWaiting, stream, calls_for_all, last_client, rounds, portion_size, deliver_portion,
  wanted, feed-stream,
}
use tiksrv.Net.Client.Sending.{posted_open}
use tiksrv.RouterOs.Sentence.{Fmt}
use tiksrv.App.Hooks.{Hook}
use tiksrv.App.Server
use tiksrv.App.Server.{Command, Commands, find_command}
use tiksrv.Eztik.Commands.{Eztik, Call, answer, answer_body}
use tiksrv.Eztik.Commands.Requests.{Messages}
use tiksrv.Eztik.Sessions.{RouterSettings}
use tiksrv.Eztik.Plugin.Heard.{
  Asks, Fits, heard, requests_of, requests_of-calls_for_all, heard-Fits, heard-Asks,
  open_while_waiting, last_client-IsWaiting,
}
use tiksrv.Eztik.Plugin.Answering.{
  CommandObject, echoing, operate, perform, perform_all, serve, serve_all, answers,
}

abbrev pub echo_of : Request → Response
echo_of r = build_response r.body 0 r.header.tag

abbrev pub of_client : ℕ → Request → ℕ × Request
of_client id r = (id, r)

module _ (conf : RouterSettings) (fmt : Fmt) (msgs : Messages) (object : Command → CommandObject)
    (hook : Hook) (cmds : Commands) (cmd number : ℕ) (known : find_command number cmds ≡ some cmd)
    (echoes : object cmd ≡ echoing) where
  serve_echo :
      (id : ℕ) (r : Request) (t : Eztik)
      → Asks number r
      → serve conf fmt msgs object hook cmds id r t ≡ ok (t, answer id (echo_of r) ∷ [])
  unfolding serve Server.on_request perform_all perform operate answer_body
  serve_echo id r t n = rw (serve, n, known, echoes) refl

  serve_echoes :
      (id : ℕ) (rs : List Request) (t : Eztik)
      → All (Asks number) rs
      → (cs : List Call) × (serve_all conf fmt msgs object hook cmds (map (of_client id) rs) t
          ≡ ok (t, cs))
        × (answers cs ≡ map (λ r. (id, echo_of r)) rs)
  unfolding serve_all
  serve_echoes id [] t a = ([], refl, refl)
  serve_echoes id (r ∷ rs) t a =
      let (cs, served, same) = serve_echoes id rs t a.1 in
      (
        answer id (echo_of r) ∷ cs,
        rw (serve_echo id r t a.0, served) refl,
        ap (◌∷◌ (id, echo_of r)) same,
      )

module _ (e : Endian) (cb : SendHandler) where
  -- The posted parts of responses to one client, in order.
  pub respond_all : List (ℕ × Response) → Act Client Client.Call
  respond_all [] = skip
  respond_all ((id, r) ∷ rs) = respond_posted e r cb >> respond_all rs

  -- What is sent for requests, in order: a header with the code of success, the request's tag and the
  -- body's length, and the request's body.
  abbrev pub AreEchoes : List Request → List Client.Call → Type 0
  AreEchoes [] [] = Unit
  AreEchoes (r ∷ rs) (async_send head body h ∷ cs) =
      (decode e head
        ≡ ok (record { command = 0; flags = 0; tag = r.header.tag; body_size = length r.body }))
      × (body ≡ r.body)
      × AreEchoes rs cs
  AreEchoes _ _ = ⊥

  echo_sent :
      (r : Request) (c : Client)
      → is_open c ≡ true
      → c.send_queue ≡ []
      → respond_posted e (echo_of r) cb c
        ≡ ok (c, async_send (update_header_buffer e (echo_of r)).header_buffer r.body cb ∷ [])
  unfolding build_response set_body set_tag set_flags set_code
  echo_sent r c o q = posted_open e c (echo_of r) cb q o ∙ ground arith

  echo_head :
      (r : Request)
      → Fits r
      → decode e (update_header_buffer e (echo_of r)).header_buffer
        ≡ ok (record { command = 0; flags = 0; tag = r.header.tag; body_size = length r.body })
  unfolding build_response set_tag set_flags set_code
  echo_head r f =
      update_header_buffer-set_body e (set_tag r.header.tag (set_flags 0 (set_code 0 new_response)))
        r.body (omega arith) (omega arith) f.0 f.1

  respond_echoes :
      (id : ℕ) (rs : List Request) (c : Client)
      → is_open c ≡ true
      → c.send_queue ≡ []
      → All Fits rs
      → (sent : List Client.Call) × (respond_all (map (λ r. (id, echo_of r)) rs) c ≡ ok (c, sent))
        × AreEchoes rs sent
  unfolding respond_all
  respond_echoes id [] c o q f = ([], refl, tt)
  respond_echoes id (r ∷ rs) c o q f =
      let (sent, posted, are) = respond_echoes id rs c o q f.1 in
      (
        async_send (update_header_buffer e (echo_of r)).header_buffer r.body cb ∷ sent,
        rw (echo_sent r c o q, posted) refl,
        (echo_head r f.0, refl, are),
      )

module _ (conf : RouterSettings) (fmt : Fmt) (msgs : Messages) (object : Command → CommandObject)
    (hook : Hook) (e : Endian) (cb : SendHandler) where
  -- A client that sends a stream of echo requests, cut into reads as the server asks for them, gets as
  -- many responses, in the order of its requests, as the posted parts of `respond` run: each is sent as 16 bytes of header, which decode
  -- to the code of success, no flags, the request's tag and the length of what follows, and then the
  -- request's own body, byte for byte, or for an empty body the 16 bytes of the request's header. The
  -- plugin's state does not change, and the client's reader waits for the next header. This holds for
  -- a client whose reader waits for a header and that has no response queued, and for requests whose
  -- header announces the length of the body, which is at most 0x4000, and whose command is one under
  -- which the server has an object of `echo_command`.
  pub echo_stream :
      (cmds : Commands) (cmd number : ℕ) (c : Client) (rs : List Request) (spare : ℕ) (t : Eztik)
      → find_command number cmds ≡ some cmd
      → object cmd ≡ echoing
      → IsWaiting c
      → c.send_queue ≡ []
      → All IsFrame rs
      → All (Asks number) rs
      → (d : Client) × (calls : List Client.Call) × (cs : List Call) × (sent : List Client.Call)
        × (feed portion_size (deliver_portion e) wanted (rounds rs spare) header_size (stream rs) c
            ≡ ok (d, calls))
        × (serve_all conf fmt msgs object hook cmds (map (of_client c.id) (requests_of calls)) t
            ≡ ok (t, cs))
        × (respond_all e cb (answers cs) d ≡ ok (d, sent))
        × AreEchoes e cb (map heard rs) sent
        × IsWaiting d
  echo_stream cmds cmd number c rs spare t known echoes w q f a =
      let (waits, queue) = last_client-IsWaiting c rs w in
      let (cs, served, same) =
        serve_echoes conf fmt msgs object hook cmds cmd number known echoes c.id (map heard rs) t
          (heard-Asks number rs a) in
      let (sent, posted, are) =
        respond_echoes e cb c.id (map heard rs) (last_client c rs) (open_while_waiting _ waits)
          (queue ∙ q) (heard-Fits rs f) in
      (
        last_client c rs,
        calls_for_all rs,
        cs,
        sent,
        feed-stream e c rs spare w f,
        ap (λ l. serve_all conf fmt msgs object hook cmds (map (of_client c.id) l) t)
              (requests_of-calls_for_all rs)
            ∙ served,
        ap (λ l. respond_all e cb l (last_client c rs)) (same) ∙ posted,
        are,
        waits,
      )
