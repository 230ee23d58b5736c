-- ===== src/Net/Client/Connection/Safety.antt =====
-- What holds of a connection after any history.
use tiksrv.Base.{
  ◌^◌, ℕ, ◌<◌, ◌≡◌, ◌∙◌, true, [], ◌∷◌, Bytes, length, ok, Returns-eq_ok, Returns-exists, arith,
}
use tiksrv.Net.Message.{
  update_header_buffer, set_body, set_code, set_tag, set_flags, new_response, Endian, decode,
}
use tiksrv.Net.Message.RoundTrip.{update_header_buffer-set_body}
use tiksrv.Net.Client.{build_response, async_send, Client, SendHandler, is_open, respond_posted}
use tiksrv.Net.Client.Sending.{posted_open}
use tiksrv.Net.Client.Connection.Steps.{advance-IsSound, accepted-IsSound}
use tiksrv.Net.Client.Connection.{
  Event, Connection, Allowed, IsSound, IsAccepted, accepted, advance, Reaches, here, next,
}

module _ (e : Endian) where
  Reaches-IsSound : {k m : Connection} → IsSound k → Reaches e k m → IsSound m
  Reaches-IsSound s here = s
  Reaches-IsSound s (next {l} ev r a h) =
      Returns-eq_ok IsSound (advance e ev l) (advance-IsSound e l ev (Reaches-IsSound s r) a) h

  pub Reaches-accepted-IsSound :
      {m : Connection} (c : Client) → IsAccepted c → Reaches e (accepted c) m → IsSound m
  Reaches-accepted-IsSound c a r = Reaches-IsSound (accepted-IsSound c a) r

  -- After any history of an accepted client no event fails an assertion: the step returns, and the
  -- new state is sound again. At most one read is under way, for 16 bytes while a header is awaited
  -- and for the announced 1 to 0x4000 bytes while a body is, with the buffer of just that size; the
  -- socket is open exactly while the reader is not closed, and the send queue is empty. Events are
  -- those that `Allowed` admits.
  pub advance-safe :
      {m : Connection} (c : Client) (ev : Event)
      → IsAccepted c
      → Reaches e (accepted c) m
      → Allowed m ev
      → (m' : Connection) × (advance e ev m ≡ ok m') × IsSound m'
  advance-safe {m} c ev a r w =
      Returns-exists IsSound (advance e ev m)
        (advance-IsSound e m ev (Reaches-accepted-IsSound c a r) w)

  -- While the socket is open, `respond` with a text, a code and a tag is sent as soon as its posted
  -- part runs, in any state that a history of an accepted client leads to and however many sends are
  -- under way: the header that goes out decodes to the code, the flags 0, the tag and the length
  -- of the text, and the text follows. The text is shorter than 2 ^ 32 bytes.
  pub respond_posted-wire :
      {m : Connection} (c : Client) (str : Bytes) (code tag : ℕ) (cb : SendHandler)
      → IsAccepted c
      → Reaches e (accepted c) m
      → is_open m.client ≡ true
      → code < 2 ^ 32
      → tag < 2 ^ 32
      → length str < 2 ^ 32
      → (head : Bytes) × (respond_posted e (build_response str code tag) cb m.client
          ≡ ok (m.client, async_send head str cb ∷ []))
        × (decode e head
            ≡ ok (record { command = code; flags = 0; tag = tag; body_size = length str }))
  unfolding build_response set_body set_tag set_flags set_code
  respond_posted-wire {m} c str code tag cb a r o hc ht hs =
      let q : m.client.send_queue ≡ [] = (Reaches-accepted-IsSound c a r).nothing_queued in
      (
        (update_header_buffer e (build_response str code tag)).header_buffer,
        posted_open e m.client (build_response str code tag) cb q o ∙ ground arith,
        update_header_buffer-set_body e (set_tag tag (set_flags 0 (set_code code new_response))) str
            hc (omega arith) ht hs,
      )
