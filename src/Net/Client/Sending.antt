-- ===== src/Net/Client/Sending.antt =====
-- Each step of the sending side, in the state that it finds the client in.
use tiksrv.Base.{◌≡◌, true, false, Option, none, some, [], ◌∷◌, ok, arith}
use tiksrv.Net.Message.{Endian, Response, update_header_buffer}
use tiksrv.Net.Client.{
  Client, async_send, handler, on_error, ErrorCode, not_connected, closed, SendHandler, is_open,
  send_completed, respond_posted,
}

module _ (e : Endian) (c : Client) where
  pub posted_open :
      (r : Response) (cb : SendHandler)
      → c.send_queue ≡ []
      → is_open c ≡ true
      → respond_posted e r cb c
        ≡ ok (
          record c { send_queue = [] },
          async_send (update_header_buffer e r).header_buffer r.body cb ∷ [],
        )
  unfolding respond_posted is_open
  posted_open r cb q o = rw (q, respond_posted, o)

  pub posted_shut :
      (r : Response) (cb : SendHandler)
      → c.send_queue ≡ []
      → is_open c ≡ false
      → respond_posted e r cb c
        ≡ ok (record c { send_queue = [] }, handler cb (some not_connected) ∷ [])
  unfolding respond_posted is_open
  posted_shut r cb q o = rw (q, respond_posted, o)

  pub sent_open :
      (cb : SendHandler)
      → c.send_queue ≡ []
      → is_open c ≡ true
      → send_completed e cb none c ≡ ok (c, handler cb none ∷ [])
  unfolding send_completed is_open
  sent_open cb q o = rw (o, q)

  pub sent_failed :
      (cb : SendHandler) (x : ErrorCode)
      → is_open c ≡ true
      → send_completed e cb (some x) c
        ≡ ok (record c { sock_open = false; state = closed }, handler cb (some x) ∷ on_error x ∷ [])
  unfolding send_completed is_open
  sent_failed cb x o = ground arith

  pub sent_shut :
      (cb : SendHandler) (err : Option ErrorCode)
      → is_open c ≡ false
      → send_completed e cb err c ≡ ok (c, handler cb (some not_connected) ∷ [])
  unfolding send_completed is_open
  sent_shut cb err o = rw (o, send_completed)
