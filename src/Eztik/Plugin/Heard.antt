-- ===== src/Eztik/Plugin/Heard.antt =====
-- The requests of a stream as src/net/src/tcp_client.cpp passes them on, and the reader after it.
use tiksrv.Base.{
  ℕ, ◌^◌, ◌≤◌, ◌<◌, ◌≡◌, refl, ap, ◌∙◌, true, List, [], ◌∷◌, ◌++◌, Bytes, length, All, map, arith,
}
use tiksrv.Net.Message.{RequestHeader, Request}
use tiksrv.Net.Message.RoundTrip.{header_bytes}
use tiksrv.Net.Client
use tiksrv.Net.Client.{
  Client, SendHandler, build_response, respond_posted, is_open, async_read, async_send, on_request,
  max_allowed_body_size,
}
use tiksrv.Net.Client.Requests.{IsFrame, IsWaiting, calls_for, calls_for_all, last_client}

-- A request for a command.
abbrev pub Asks : ℕ → Request → Type 0
Asks number r = r.header.command ≡ number

-- Tags and bodies fit into a header.
abbrev pub Fits : Request → Type 0
Fits r = (r.header.tag < 2 ^ 32) × (length r.body < 2 ^ 32)

-- A request as the reader passes it on: without a body, with its own header for one.
abbrev pub heard_body : RequestHeader → Bytes → Bytes
heard_body h [] = header_bytes h
heard_body h (b ∷ bs) = b ∷ bs

abbrev pub heard : Request → Request
heard r = record r { body = heard_body r.header r.body }

-- The requests that the reader passes on.
abbrev pub requests_of : List Client.Call → List Request
requests_of [] = []
requests_of (on_request r ∷ cs) = r ∷ requests_of cs
requests_of (c ∷ cs) = requests_of cs

requests_of-calls_for :
    (h : RequestHeader) (body : Bytes) (cs : List Client.Call)
    → requests_of (calls_for h body ++ cs)
      ≡ record { header = h; body = heard_body h body } ∷ requests_of cs
requests_of-calls_for h [] cs = refl
requests_of-calls_for h (b ∷ bs) cs = refl

pub requests_of-calls_for_all : (rs : List Request) → requests_of (calls_for_all rs) ≡ map heard rs
requests_of-calls_for_all [] = refl
requests_of-calls_for_all (r ∷ rs) =
    requests_of-calls_for r.header r.body (calls_for_all rs)
    ∙ ap (◌∷◌ (heard r)) (requests_of-calls_for_all rs)

heard_body-fits :
    (h : RequestHeader) (body : Bytes)
    → length body ≤ max_allowed_body_size
    → length (heard_body h body) < 2 ^ 32
heard_body-fits h [] n = omega arith
heard_body-fits h (b ∷ bs) n = omega arith

pub heard-Fits : (rs : List Request) → All IsFrame rs → All Fits (map heard rs)
heard-Fits [] f = tt
heard-Fits (r ∷ rs) f =
    ((f.0.header_fits.tag_fits, heard_body-fits r.header r.body f.0.allowed), heard-Fits rs f.1)

pub heard-Asks :
    (number : ℕ) (rs : List Request) → All (Asks number) rs → All (Asks number) (map heard rs)
heard-Asks number [] a = tt
heard-Asks number (r ∷ rs) a = (a.0, heard-Asks number rs a.1)

pub open_while_waiting : (c : Client) → IsWaiting c → is_open c ≡ true
unfolding is_open
open_while_waiting c w = ground arith

-- The reader after a stream of requests.
pub last_client-IsWaiting :
    (c : Client) (rs : List Request)
    → IsWaiting c
    → IsWaiting (last_client c rs) × ((last_client c rs).send_queue ≡ c.send_queue)
last_client-IsWaiting c [] w = (w, refl)
last_client-IsWaiting c (r ∷ rs) w =
    last_client-IsWaiting _ rs
      (record { socket_open = w.socket_open; expects_header = refl; room = refl })
