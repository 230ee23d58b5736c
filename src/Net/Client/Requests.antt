-- ===== src/Net/Client/Requests.antt =====
-- A stream of requests, one behind the other, as the server's handler sees it.
use tiksrv.Base.{
  ℕ, suc, ◌≤◌, ◌<◌, ◌≡◌, refl, sym, ap, ◌∙◌, length-resize, true, Option, none, some, List, [], ◌∷◌,
  ◌++◌, Bytes, length, All, resize, ok, Act, prepend, arith, prepend-prepend,
}
use tiksrv.Base.Stream.{feed, feed-append, feed_starved}
use tiksrv.Net.Message.{Endian, RequestHeader, Request, header_size}
use tiksrv.Net.Message.RoundTrip.{IsHeader, header_bytes, decode-header_bytes}
use tiksrv.Net.Client.{
  Client, Call, async_read, on_request, reading_header, reading_body, max_allowed_body_size,
  is_open, handle_read, read_completed,
}
use tiksrv.Net.Client.Framing.{received_whole, on_header, on_empty_header, on_body}

-- The read that a step leaves pending: the last one that it starts.
abbrev pub wanted : List Call → Option ℕ
wanted [] = none
wanted (async_read n ∷ []) = some n
wanted (c ∷ cs) = wanted cs

-- The header announces the length of the body, which is allowed.
pub record IsFrame (r : Request) : Type 0 where
  pub header_fits : IsHeader r.header
  pub announced : r.header.body_size ≡ length r.body
  pub allowed : length r.body ≤ max_allowed_body_size

abbrev pub stream : List Request → Bytes
stream [] = []
stream (r ∷ rs) = header_bytes r.header ++ (r.body ++ stream rs)

-- The reader waits for a header.
pub record IsWaiting (c : Client) : Type 0 where
  pub socket_open : c.sock_open ≡ true
  pub expects_header : c.state ≡ reading_header
  pub room : length c.buffer ≡ header_size

-- The calls that one request causes. A request with no body is passed on with its header for a body.
abbrev pub calls_for : RequestHeader → Bytes → List Call
calls_for h [] =
    on_request (record { header = h; body = header_bytes h }) ∷ async_read header_size ∷ []
calls_for h (b ∷ bs) =
    async_read h.body_size
    ∷ on_request (record { header = h; body = b ∷ bs })
    ∷ async_read header_size
    ∷ []

abbrev pub calls_for_all : List Request → List Call
calls_for_all [] = []
calls_for_all (r ∷ rs) = calls_for r.header r.body ++ calls_for_all rs

abbrev next_client : Client → RequestHeader → Client
next_client c h = record c { header = h; buffer = resize header_size 0 []; state = reading_header }

abbrev pub last_client : Client → List Request → Client
last_client c [] = c
last_client c (r ∷ rs) = last_client (next_client c r.header) rs

-- The portions in which a stream of requests is read, and one that never comes.
abbrev pub rounds_of : Bytes → ℕ → ℕ
rounds_of [] n = suc n
rounds_of (b ∷ bs) n = suc (suc n)

abbrev pub rounds : List Request → ℕ → ℕ
rounds [] spare = suc spare
rounds (r ∷ rs) spare = rounds_of r.body (rounds rs spare)

open_while_waiting : (c : Client) → IsWaiting c → is_open c ≡ true
unfolding is_open
open_while_waiting c w = ground arith

next_client-IsWaiting : (c : Client) (h : RequestHeader) → IsWaiting c → IsWaiting (next_client c h)
next_client-IsWaiting c h w = record {
  socket_open = w.socket_open;
  expects_header = refl;
  room = refl;
}

open_while_body :
    (c : Client) (h : RequestHeader) (buf : Bytes)
    → c.sock_open ≡ true
    → is_open (record c { header = h; buffer = buf; state = reading_body }) ≡ true
unfolding is_open
open_while_body c h buf o = ground arith

abbrev pub portion_size : ℕ → ℕ
portion_size n = n

module _ (e : Endian) where
  -- A read is pending by its size; it ends well.
  abbrev pub deliver_portion : ℕ → Bytes → Act Client Call
  deliver_portion n = read_completed e none

  portion_of_header :
      (c : Client) (h : RequestHeader)
      → IsWaiting c
      → read_completed e none (header_bytes h) c
        ≡ handle_read e none (header_bytes h) (record c { buffer = header_bytes h })
  portion_of_header c h w =
      received_whole e (header_bytes h) c (open_while_waiting c w) (sym w.room)

  portion_of_body :
      (c : Client) (h : RequestHeader) (body buf : Bytes)
      → c.sock_open ≡ true
      → h.body_size ≡ length body
      → 0 < length body
      → read_completed e none body
          (record c { header = h; buffer = resize h.body_size 0 buf; state = reading_body })
        ≡ ok (
          record c { header = h; buffer = resize header_size 0 []; state = reading_header },
          on_request (record { header = h; body = body }) ∷ async_read header_size ∷ [],
        )
  portion_of_body c h body buf o n pos =
      received_whole e body _ (open_while_body c h _ o)
        (rw (length-resize h.body_size 0 buf) (sym n))
      ∙ on_body e _ body o refl pos

  one_request :
      (c : Client) (h : RequestHeader) (body rest : Bytes) (fuel : ℕ)
      → IsWaiting c
      → IsFrame (record { header = h; body = body })
      → feed portion_size deliver_portion wanted
          (rounds_of body fuel)
          header_size
          (header_bytes h ++ (body ++ rest))
          c
        ≡ prepend
            (calls_for h body)
            (feed portion_size deliver_portion wanted fuel header_size rest (next_client c h))
  one_request c h [] rest fuel w v =
      feed-append portion_size deliver_portion wanted fuel header_size (header_bytes h) rest c refl
        (portion_of_header c h w
          ∙ on_empty_header e _ (header_bytes h) h w.socket_open w.expects_header refl
              (decode-header_bytes e h [] v.header_fits) v.announced)
        refl
  one_request c h (b ∷ bs) rest fuel w v =
      feed-append portion_size deliver_portion wanted (suc fuel) header_size (header_bytes h)
        ((b ∷ bs) ++ rest) c refl
        (portion_of_header c h w
          ∙ on_header e _ (header_bytes h) h w.socket_open w.expects_header refl
              (decode-header_bytes e h [] v.header_fits) (omega arith) (omega arith))
        refl
      ∙ ap (prepend (async_read h.body_size ∷ [])) (
          feed-append portion_size deliver_portion wanted fuel h.body_size (b ∷ bs) rest _
            v.announced
            (portion_of_body c h (b ∷ bs) (header_bytes h) w.socket_open v.announced (omega arith))
            refl)
      ∙ prepend-prepend (async_read h.body_size ∷ [])
          (on_request (record { header = h; body = b ∷ bs }) ∷ async_read header_size ∷ [])
          (feed portion_size deliver_portion wanted fuel header_size rest (next_client c h))

  -- Whatever requests a client sends, one behind the other, `on_request` is called for each of them
  -- in order, with its header and its body, and the reader is then ready for the next header; a
  -- request with an empty body is passed on with the 16 bytes of its own header as its body. This
  -- holds for requests whose header announces the length of the body, which is at most 0x4000.
  pub feed-stream :
      (c : Client) (rs : List Request) (spare : ℕ)
      → IsWaiting c
      → All IsFrame rs
      → feed portion_size deliver_portion wanted (rounds rs spare) header_size (stream rs) c
        ≡ ok (last_client c rs, calls_for_all rs)
  feed-stream c [] spare w v =
      feed_starved portion_size deliver_portion wanted spare header_size [] c (omega arith)
  feed-stream c (r ∷ rs) spare w v =
      one_request c r.header r.body (stream rs) (rounds rs spare) w v.0
      ∙ ap (prepend (calls_for r.header r.body))
          (feed-stream (next_client c r.header) rs spare (next_client-IsWaiting c r.header w) v.1)
