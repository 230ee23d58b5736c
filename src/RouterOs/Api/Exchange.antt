-- ===== src/RouterOs/Api/Exchange.antt =====
-- A request and its response.
use tiksrv.Base.{
  ℕ, ◌≤◌, ◌≡◌, ◌≢◌, refl, sym, ap, ◌∙◌, Bool, true, false, none, some, List, [], ◌∷◌, Bytes, length,
  Act, ok, prepend-nil, append-nil, arith, leb, if◌then◌else◌,
}
use tiksrv.Base.Outcome.{Outcome, returned}
use tiksrv.RouterOs.Sentence.{Fmt, RequestSentence}
use tiksrv.RouterOs.Response.{LexicalCast, ResponseSentence, is_valid_response, response_sentence}
use tiksrv.RouterOs.Password.{Md5}
use tiksrv.RouterOs.Api.State.{
  Reply, response, Callback, other, Api, Call, reply, is_open, find_callback, erase_callback,
  emplace_callback,
}
use tiksrv.RouterOs.Api.Callbacks.{find_callback-erase_callback, find_callback-emplace_callback}
use tiksrv.RouterOs.Api.Sending.{completed, invoke, send_completed}
use tiksrv.RouterOs.Api.Reading.{keeps, settle, deliver, handle_tagged, handle_response}

-- The sentence is taken apart into the response, which has a tag.
pub record IsResponse (lex : LexicalCast) (s : List Bytes) (r : ResponseSentence) : Type 0 where
  pub starts : is_valid_response s ≡ true
  pub long : 2 ≤ length s
  pub parses : response_sentence lex s ≡ returned r
  pub has_tag : r.tagged ≡ true

pub if_true {ℓ} : {A : Type ℓ} (b : Bool) (x y : A) → b ≡ true → (if b then x else y) ≡ x
if_true b x y h = rw h

pub long_enough : (s : List Bytes) → 2 ≤ length s → leb (length s) 1 ≡ false
long_enough s h = ground arith

open_still :
    (a : Api) (cbs : List (ℕ × Callback))
    → is_open a ≡ true
    → is_open (record a { read_cbs = cbs }) ≡ true
unfolding is_open
open_still a cbs o = o

pub on_sent :
    (fmt : Fmt) (md5 : Md5) (req : RequestSentence) (cb : Callback) (a : Api)
    → is_open a ≡ true
    → a.send_queue ≡ []
    → send_completed fmt md5 req cb none a
      ≡ ok (record a { read_cbs = emplace_callback req.tag cb a.read_cbs }, [])
unfolding send_completed is_open
on_sent fmt md5 req cb a o q = ground arith

module _ (fmt : Fmt) (md5 : Md5) (lex : LexicalCast) (keep : ℕ → Reply → Outcome Bool) where
  on_tagged :
      (r : ResponseSentence) (cb : Callback) (a : Api)
      → r.tagged ≡ true
      → find_callback r.tag a.read_cbs ≡ some cb
      → handle_tagged fmt md5 lex keep r a
        ≡ settle fmt md5 lex keep
            (keeps fmt md5 lex keep cb (response r))
            r.tag
            (invoke fmt md5 cb (response r) a)
  unfolding handle_tagged
  on_tagged r cb a t f =
      ap (λ (act : Act Api Call). act a) (if_true r.tagged _ _ t)
      ∙ ap (λ c. deliver fmt md5 lex keep r c a) f

  pub on_response :
      (s : List Bytes) (r : ResponseSentence) (cb : Callback) (a : Api)
      → is_open a ≡ true
      → IsResponse lex s r
      → find_callback r.tag a.read_cbs ≡ some cb
      → handle_response fmt md5 lex keep s a
        ≡ settle fmt md5 lex keep
            (keeps fmt md5 lex keep cb (response r))
            r.tag
            (invoke fmt md5 cb (response r) a)
  unfolding handle_response
  on_response s r cb a o w f =
      rw (o, w.starts, long_enough s w.long, w.parses)
        (prepend-nil _ ∙ on_tagged r cb a w.has_tag f)

  settled :
      (kept : Bool) (tag : ℕ) (cs : List Call) (cb : Callback) (a : Api)
      → is_open a ≡ true
      → find_callback tag a.read_cbs ≡ some cb
      → (c : Api) × (settle fmt md5 lex keep (returned kept) tag (completed a cs) ≡ ok (c, cs))
        × (is_open c ≡ true)
        × (find_callback tag c.read_cbs ≡ (if kept then some cb else none))
        × ((t : ℕ) → t ≢ tag → find_callback t c.read_cbs ≡ find_callback t a.read_cbs)
  unfolding is_open
  settled true tag cs cb a o f = (a, rw (append-nil cs), o, f, λ t n. refl)
  settled false tag cs cb a o f =
      let (gone, others) = find_callback-erase_callback tag a.read_cbs in
      (record a { read_cbs = erase_callback tag a.read_cbs }, rw (append-nil cs), o, gone, others)

  -- A response for a function other than those of `login`.
  pub on_other :
      (s : List Bytes) (r : ResponseSentence) (k : ℕ) (kept : Bool) (b : Api)
      → is_open b ≡ true
      → IsResponse lex s r
      → find_callback r.tag b.read_cbs ≡ some (other k)
      → keep k (response r) ≡ returned kept
      → (c : Api) × (handle_response fmt md5 lex keep s b ≡ ok (c, reply k (response r) ∷ []))
        × (is_open c ≡ true)
        × (find_callback r.tag c.read_cbs ≡ (if kept then some (other k) else none))
        × ((t : ℕ) → t ≢ r.tag → find_callback t c.read_cbs ≡ find_callback t b.read_cbs)
  unfolding invoke
  on_other s r k kept b o w f e =
      let (c, step, opened, own, rest) =
        settled kept r.tag (reply k (response r) ∷ []) (other k) b o f in
      (c, on_response s r (other k) b o w f ∙ rw e step, opened, own, rest)

  -- Once a request has been sent, a response with its tag is given to the function that came with the
  -- request; the connection stays open, the function waits on only if it answers true, and the
  -- functions of all other tags wait as before. This holds for a function other than those of
  -- `login` that returns an answer, on an open connection with no other request queued and none waiting under that tag.
  pub send_completed-handle_response :
      (req : RequestSentence) (k : ℕ) (kept : Bool) (s : List Bytes) (r : ResponseSentence)
      (a : Api)
      → is_open a ≡ true
      → a.send_queue ≡ []
      → find_callback req.tag a.read_cbs ≡ none
      → IsResponse lex s r
      → r.tag ≡ req.tag
      → keep k (response r) ≡ returned kept
      → (b : Api) × (c : Api) × (send_completed fmt md5 req (other k) none a ≡ ok (b, []))
        × (handle_response fmt md5 lex keep s b ≡ ok (c, reply k (response r) ∷ []))
        × (is_open c ≡ true)
        × (find_callback r.tag c.read_cbs ≡ (if kept then some (other k) else none))
        × ((t : ℕ) → t ≢ r.tag → find_callback t c.read_cbs ≡ find_callback t a.read_cbs)
  send_completed-handle_response req k kept s r a o q f w t e =
      let (found, others) = find_callback-emplace_callback req.tag (other k) a.read_cbs f in
      let b : Api = record a { read_cbs = emplace_callback req.tag (other k) a.read_cbs } in
      let (c, step, opened, own, rest) =
        on_other s r k kept b (open_still a b.read_cbs o) w
          (ap (λ u. find_callback u b.read_cbs) t ∙ found) e in
      (
        b,
        c,
        on_sent fmt md5 req (other k) a o q,
        step,
        opened,
        own,
        λ u n. rest u n ∙ others u (λ h. n (h ∙ sym t)),
      )
