-- ===== src/RouterOs/Api/Replies.antt =====
-- What a connection does with a whole sentence, on every branch.
use tiksrv.Base.{
  ℕ, ◌≤◌, ◌≡◌, ◌≢◌, ◌∙◌, refl, ap, subst, Bool, true, false, ◌||◌, Bool-cases, inl, inr, Option,
  none, some, List, [], ◌∷◌, ◌++◌, Bytes, length, Result, ok, aborted, Act, Returns, prepend, arith,
  leb, if◌then◌else◌,
}
use tiksrv.Base.Outcome.{Goes, Outcome, returned, thrown, stopped}
use tiksrv.RouterOs.Sentence.{Fmt, RequestSentence}
use tiksrv.RouterOs.Response.{LexicalCast, ResponseSentence, is_valid_response, response_sentence}
use tiksrv.RouterOs.Password.{Md5}
use tiksrv.RouterOs.Api.State.{
  Reply, response, invalid_response, fatal_response, untagged_response, invalid_response_tag,
  Callback, login1_reply, login2_reply, other, ErrorCode, Api, Call, async_connect, async_read,
  async_read_length, async_send, on_error, reply, finished, post, is_open, fail, find_callback,
}
use tiksrv.RouterOs.Api.Exchange.{IsResponse, on_response}
use tiksrv.RouterOs.Api.Portions.{whole, further, pending_of}
use tiksrv.RouterOs.Api.Sending.{Attempt, completed, threw, halted, invoke}
use tiksrv.RouterOs.Api.Reading.{
  erase_unless, conclude, keeps, settle, deliver, handle_tagged, parsed, handle_response,
}
use tiksrv.RouterOs.Api.Settled.{reports, IsSettled, IsQuiet, socket_of, invoke-IsQuiet}

-- If `handle_response` takes the sentence apart, that fails no assertion.
abbrev pub IsTakenApart : LexicalCast → List Bytes → Type 0
IsTakenApart lex s = is_valid_response s ≡ true → 2 ≤ length s → Goes (response_sentence lex s)

-- The sentence is a response for a waiting function that fails an assertion on it.
pub record FailsReply (lex : LexicalCast) (keep : ℕ → Reply → Outcome Bool) (s : List Bytes)
    (cbs : List (ℕ × Callback)) : Type 0 where
  pub heard : ResponseSentence
  pub function : ℕ
  pub is_response : IsResponse lex s heard
  pub waits : find_callback heard.tag cbs ≡ some (other function)
  pub fails : keep function (response heard) ≡ stopped

reports-append : (cs ds : List Call) → reports (cs ++ ds) ≡ reports cs || reports ds
reports-append [] ds = refl
reports-append (on_error err ∷ cs) ds = refl
reports-append (async_read n ∷ cs) ds = reports-append cs ds
reports-append (async_read_length high mbytes room ∷ cs) ds = reports-append cs ds
reports-append (async_connect host port cb ∷ cs) ds = reports-append cs ds
reports-append (async_send bytes req cb ∷ cs) ds = reports-append cs ds
reports-append (reply k r ∷ cs) ds = reports-append cs ds
reports-append (finished h err ∷ cs) ds = reports-append cs ds
reports-append (post req cb ∷ cs) ds = reports-append cs ds

pub pending_of-append : (cs ds : List Call) → pending_of (cs ++ ds) ≡ pending_of cs ++ pending_of ds
pending_of-append [] ds = refl
pending_of-append (on_error err ∷ cs) ds = pending_of-append cs ds
pending_of-append (async_read n ∷ cs) ds = ap (◌∷◌ (whole n)) (pending_of-append cs ds)
pending_of-append (async_read_length high mbytes room ∷ cs) ds =
    ap (◌∷◌ (further high mbytes room)) (pending_of-append cs ds)
pending_of-append (async_connect host port cb ∷ cs) ds = pending_of-append cs ds
pending_of-append (async_send bytes req cb ∷ cs) ds = pending_of-append cs ds
pending_of-append (reply k r ∷ cs) ds = pending_of-append cs ds
pending_of-append (finished h err ∷ cs) ds = pending_of-append cs ds
pending_of-append (post req cb ∷ cs) ds = pending_of-append cs ds

fail-IsSettled :
    (err : ErrorCode) (a : Api) → is_open a ≡ true → Returns (IsSettled a.send_queue) (fail err a)
unfolding fail is_open
fail-IsSettled err a o = ground arith

prepend-IsSettled :
    (q : List (RequestSentence × Callback)) (cs : List Call) (r : Result (Api × List Call))
    → reports cs ≡ false
    → pending_of cs ≡ []
    → Returns (IsSettled q) r
    → Returns (IsSettled q) (prepend cs r)
prepend-IsSettled q cs (ok (b, ds)) n m h =
    rw (reports-append cs ds, n, pending_of-append cs ds, m) h
prepend-IsSettled q cs aborted n m h = h

if-IsSettled :
    (q : List (RequestSentence × Callback)) (b : Bool) (f g : Act Api Call) (a : Api)
    → (b ≡ true → Returns (IsSettled q) (f a))
    → Returns (IsSettled q) (g a)
    → Returns (IsSettled q) ((if b then f else g) a)
if-IsSettled q true f g a m n = m refl
if-IsSettled q false f g a m n = n

module _ (fmt : Fmt) (md5 : Md5) (lex : LexicalCast) (keep : ℕ → Reply → Outcome Bool) where
  erase_unless-IsSettled :
      (kept : Bool) (tag : ℕ) (a : Api)
      → is_open a ≡ true
      → Returns (IsSettled a.send_queue) (erase_unless fmt md5 lex keep kept tag a)
  unfolding is_open
  erase_unless-IsSettled true tag a o = (socket_of a o, o, refl, refl)
  erase_unless-IsSettled false tag a o = (socket_of a o, o, refl, refl)

  conclude-IsSettled :
      (kept : Outcome Bool) (tag : ℕ) (a : Api)
      → kept ≢ stopped
      → is_open a ≡ true
      → Returns (IsSettled a.send_queue) (conclude fmt md5 lex keep kept tag a)
  conclude-IsSettled (returned kept) tag a w o = erase_unless-IsSettled kept tag a o
  conclude-IsSettled (thrown x) tag a w o = fail-IsSettled fatal_response a o
  conclude-IsSettled stopped tag a w o = absurd (w refl)

  keeps-ends :
      (cb : Callback) (r : Reply)
      → ((k : ℕ) → cb ≡ other k → keep k r ≢ stopped)
      → keeps fmt md5 lex keep cb r ≢ stopped
  keeps-ends (login1_reply name password h) r n e = cc
  keeps-ends (login2_reply h) r n e = cc
  keeps-ends (other k) r n e = n k refl e

  settle-IsSettled :
      (q : List (RequestSentence × Callback)) (kept : Outcome Bool) (tag : ℕ) (att : Attempt)
      → kept ≢ stopped
      → IsQuiet q att
      → Returns (IsSettled q) (settle fmt md5 lex keep kept tag att)
  settle-IsSettled q kept tag (completed b cs) w ((s, o, e, m), n) = prepend-IsSettled q cs _ n m (
      subst (λ p. Returns (IsSettled p) (conclude fmt md5 lex keep kept tag b)) e
        (conclude-IsSettled kept tag b w (rw n at o)))
  settle-IsSettled q kept tag (threw b cs) w ((s, o, e, m), n) = prepend-IsSettled q cs _ n m (
      subst (λ p. Returns (IsSettled p) (fail fatal_response b)) e
        (fail-IsSettled fatal_response b (rw n at o)))
  settle-IsSettled q kept tag halted w h = h

  deliver-IsSettled :
      (r : ResponseSentence) (cb : Option Callback) (a : Api)
      → ((k : ℕ) → cb ≡ some (other k) → keep k (response r) ≢ stopped)
      → is_open a ≡ true
      → Returns (IsSettled a.send_queue) (deliver fmt md5 lex keep r cb a)
  deliver-IsSettled r none a n o = fail-IsSettled invalid_response_tag a o
  deliver-IsSettled r (some cb) a n o =
      settle-IsSettled _ _ r.tag (invoke fmt md5 cb (response r) a)
        (keeps-ends cb (response r) (λ k e. n k (ap some e)))
        (invoke-IsQuiet fmt md5 cb (response r) a o)

  handle_tagged-IsSettled :
      (r : ResponseSentence) (a : Api)
      → (r.tagged ≡ true
          → (k : ℕ) → find_callback r.tag a.read_cbs ≡ some (other k)
          → keep k (response r) ≢ stopped)
      → is_open a ≡ true
      → Returns (IsSettled a.send_queue) (handle_tagged fmt md5 lex keep r a)
  unfolding handle_tagged
  handle_tagged-IsSettled r a n o =
      if-IsSettled _ r.tagged _ _ a
        (λ t. deliver-IsSettled r (find_callback r.tag a.read_cbs) a (n t) o)
        (fail-IsSettled untagged_response a o)

  parsed-IsSettled :
      (m : Outcome ResponseSentence) (a : Api)
      → ((r : ResponseSentence)
          → m ≡ returned r
          → r.tagged ≡ true
          → (k : ℕ) → find_callback r.tag a.read_cbs ≡ some (other k)
          → keep k (response r) ≢ stopped)
      → Goes m
      → is_open a ≡ true
      → Returns (IsSettled a.send_queue) (parsed fmt md5 lex keep m a)
  parsed-IsSettled (returned r) a n g o = handle_tagged-IsSettled r a (n r refl) o
  parsed-IsSettled (thrown x) a n g o = fail-IsSettled fatal_response a o
  parsed-IsSettled stopped a n g o = g

  pub handle_response-IsSettled :
      (s : List Bytes) (a : Api)
      → is_open a ≡ true
      → IsTakenApart lex s
      → ¬ FailsReply lex keep s a.read_cbs
      → Returns (IsSettled a.send_queue) (handle_response fmt md5 lex keep s a)
  unfolding handle_response
  handle_response-IsSettled s a o g f = elim (Bool-cases (is_valid_response s)) [
    | inl valid ↦ elim (Bool-cases (leb (length s) 1)) [
      | inl short ↦ rw (o, valid, short) (socket_of a o, o, refl, refl)
      | inr long ↦
          rw (o, valid, long)
            (prepend-IsSettled _ [] _ refl refl (
              parsed-IsSettled (response_sentence lex s) a (unfailing valid (ground arith))
                (g valid (ground arith)) o))
    ]
    | inr other_start ↦
        rw (o, other_start)
          (prepend-IsSettled _ [] _ refl refl (fail-IsSettled invalid_response a o))
  ]
    where
      unfailing :
          is_valid_response s ≡ true
          → 2 ≤ length s
          → (r : ResponseSentence) → response_sentence lex s ≡ returned r
          → r.tagged ≡ true
          → (k : ℕ) → find_callback r.tag a.read_cbs ≡ some (other k)
          → keep k (response r) ≢ stopped
      unfailing v l r p t k w e = f (record {
        heard = r;
        function = k;
        is_response = record { starts = v; long = l; parses = p; has_tag = t };
        waits = w;
        fails = e;
      })

  pub FailsReply-aborts :
      (s : List Bytes) (a : Api)
      → is_open a ≡ true
      → FailsReply lex keep s a.read_cbs
      → handle_response fmt md5 lex keep s a ≡ aborted
  unfolding invoke
  FailsReply-aborts s a o f =
      on_response fmt md5 lex keep s f.heard (other f.function) a o f.is_response f.waits
      ∙ rw f.fails refl
