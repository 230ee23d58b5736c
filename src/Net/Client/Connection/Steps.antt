-- ===== src/Net/Client/Connection/Steps.antt =====
-- Each allowed event keeps a connection sound, and no assertion of tcp_client.cpp fails.
use tiksrv.Base.{
  ℕ, ◌≤◌, ◌≡◌, refl, ap, ◌∙◌, true, false, not, Option, none, some, List, ◌∷◌, Bytes, length, drop,
  Returns, arith, ltb, append-nil, length-resize, Bool-cases, inl, inr,
}
use tiksrv.Net.Message.{Endian, Response, header_size}
use tiksrv.Net.Message.RoundTrip.{decode_total}
use tiksrv.Net.Client.{
  Client, ReadState, idle, reading_header, reading_body, closed, ErrorCode, SendHandler, is_closed,
  max_allowed_body_size, is_open, start,
}
use tiksrv.Net.Client.Sending.{posted_open, posted_shut, sent_open, sent_failed, sent_shut}
use tiksrv.Net.Client.Framing.{
  received_whole, read_shut, read_failed, on_header, on_empty_header, on_large_header, on_body,
}
use tiksrv.Net.Client.Connection.{
  Event, started, read_done, send_done, posted, Connection, Allowed, may_start, may_read, may_break,
  may_send, may_post, IsSound, IsAccepted, accepted, advance,
}

pub accepted-IsSound : (c : Client) → IsAccepted c → IsSound (accepted c)
accepted-IsSound c a = ground arith

at_most_one : (k : Connection) → IsSound k → length k.reads ≤ 1
at_most_one k s = ground arith

is_open_lem : (k : Connection) → IsSound k → is_open k.client ≡ not (is_closed k.client.state)
unfolding is_open
is_open_lem k s = ground arith

module _ (e : Endian) where
  start-IsSound :
      (k : Connection) → IsSound k → k.client.state ≡ idle → Returns IsSound (advance e started k)
  unfolding advance start
  start-IsSound k s i = ground (arith, length-resize header_size 0 k.client.buffer)

  post-IsSound :
      (k : Connection) (r : Response) (cb : SendHandler)
      → IsSound k
      → Returns IsSound (advance e (posted r cb) k)
  unfolding advance
  post-IsSound k r cb s = elim (Bool-cases (is_open k.client)) [
    | inl o ↦
        rw (posted_open e k.client r cb s.nothing_queued o) (ground (arith, append-nil k.reads))
    | inr o ↦
        rw (posted_shut e k.client r cb s.nothing_queued o) (ground (arith, append-nil k.reads))
  ]

  sent-IsSound :
      (k : Connection) (cb : SendHandler) (err : Option ErrorCode)
      → IsSound k
      → is_open k.client ≡ true
      → Returns IsSound (advance e (send_done cb err) k)
  unfolding advance
  sent-IsSound k cb none s o =
      rw (sent_open e k.client cb s.nothing_queued o) (ground (arith, append-nil k.reads))
  sent-IsSound k cb (some x) s o =
      rw (sent_failed e k.client cb x o) (ground (arith, append-nil k.reads, at_most_one k s))

  send-IsSound :
      (k : Connection) (cb : SendHandler) (err : Option ErrorCode)
      → IsSound k
      → Returns IsSound (advance e (send_done cb err) k)
  unfolding advance
  send-IsSound k cb err s = elim (Bool-cases (is_open k.client)) [
    | inl o ↦ sent-IsSound k cb err s o
    | inr o ↦ rw (sent_shut e k.client cb err o) (ground (arith, append-nil k.reads))
  ]

  shut-IsSound :
      (k : Connection) (err : Option ErrorCode) (bytes : Bytes)
      → IsSound k
      → is_open k.client ≡ false
      → Returns IsSound (advance e (read_done err bytes) k)
  unfolding advance
  shut-IsSound k err bytes s o =
      rw (read_shut e err bytes k.client o)
        (ground (arith, is_open_lem k s, append-nil (drop 1 k.reads)))

  break-IsSound :
      (k : Connection) (bytes : Bytes) (x : ErrorCode)
      → IsSound k
      → is_open k.client ≡ true
      → Returns IsSound (advance e (read_done (some x) bytes) k)
  unfolding advance
  break-IsSound k bytes x s o =
      rw (read_failed e x bytes k.client o)
        (ground (arith, at_most_one k s, append-nil (drop 1 k.reads)))

  header-IsSound :
      (k : Connection) (bytes : Bytes)
      → IsSound k
      → k.client.state ≡ reading_header
      → length bytes ≡ header_size
      → Returns IsSound (advance e (read_done none bytes) k)
  unfolding advance
  header-IsSound k bytes s r n =
      let o : k.client.sock_open ≡ true = ground arith in
      let (h, d) = decode_total e bytes n in
      let c : Client = record k.client { buffer = bytes } in
      rw
        (received_whole e bytes k.client (is_open_lem k s ∙ ap (λ t. not (is_closed t)) r)
          (ground arith))
        (elim (Bool-cases (ltb max_allowed_body_size h.body_size)) [
          | inl large ↦ rw (on_large_header e c bytes h o r n d (ground arith)) (ground arith)
          | inr fits ↦ elim (Bool-cases (ltb 0 h.body_size)) [
            | inl more ↦
                rw (on_header e c bytes h o r n d (ground arith) (ground arith))
                  (ground (arith, length-resize h.body_size 0 bytes))
            | inr empty ↦ rw (on_empty_header e c bytes h o r n d (ground arith)) (ground arith)
          ]
        ])

  body-IsSound :
      (k : Connection) (bytes : Bytes)
      → IsSound k
      → k.client.state ≡ reading_body
      → length bytes ≡ k.client.header.body_size
      → Returns IsSound (advance e (read_done none bytes) k)
  unfolding advance
  body-IsSound k bytes s r n =
      let o : k.client.sock_open ≡ true = ground arith in
      let c : Client = record k.client { buffer = bytes } in
      rw
        (received_whole e bytes k.client (is_open_lem k s ∙ ap (λ t. not (is_closed t)) r)
          (ground arith))
        (rw (on_body e c bytes o r (ground arith)) (ground arith))

  read-IsSound :
      (k : Connection) (n : ℕ) (ns : List ℕ) (bytes : Bytes) (r : ReadState)
      → IsSound k
      → k.client.state ≡ r
      → k.reads ≡ n ∷ ns
      → length bytes ≡ n
      → Returns IsSound (advance e (read_done none bytes) k)
  read-IsSound k n ns bytes idle s i r m = absurd (ground arith)
  read-IsSound k n ns bytes reading_header s i r m = header-IsSound k bytes s i (ground arith)
  read-IsSound k n ns bytes reading_body s i r m = body-IsSound k bytes s i (ground arith)
  read-IsSound k n ns bytes closed s i r m =
      shut-IsSound k none bytes s (is_open_lem k s ∙ ap (λ t. not (is_closed t)) i)

  -- One event: no assertion fails, and the connection stays sound.
  pub advance-IsSound :
      (k : Connection) (ev : Event) → IsSound k → Allowed k ev → Returns IsSound (advance e ev k)
  advance-IsSound k _ s (may_start i) = start-IsSound k s i
  advance-IsSound k _ s (may_read n ns bytes r m) =
      read-IsSound k n ns bytes k.client.state s refl r m
  advance-IsSound k _ s (may_break n ns bytes x r m) = elim (Bool-cases (is_open k.client)) [
    | inl o ↦ break-IsSound k bytes x s o
    | inr o ↦ shut-IsSound k (some x) bytes s o
  ]
  advance-IsSound k _ s (may_send cb err) = send-IsSound k cb err s
  advance-IsSound k _ s (may_post r cb) = post-IsSound k r cb s
