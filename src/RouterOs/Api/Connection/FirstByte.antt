-- ===== src/RouterOs/Api/Connection/FirstByte.antt =====
-- The end of the read of the first byte of a length, which is 0 behind a sentence: the step returns, or
-- it is one of `Fails`.
use tiksrv.Base.{
  ℕ, ◌≤◌, ◌≡◌, refl, Bool, true, none, List, [], ◌∷◌, Bytes, length, drop, Returns, Result, ok,
  aborted, arith, Bool-cases, inl, inr, ◌⊎◌, ◌==◌, ==_iff, leb,
}
use tiksrv.Base.Outcome.{Goes, Outcome, stopped, returned, thrown}
use tiksrv.RouterOs.Sentence.{Fmt}
use tiksrv.RouterOs.Length.{length_prefix}
use tiksrv.RouterOs.Response.{LexicalCast, ResponseSentence, response_sentence, is_valid_response}
use tiksrv.RouterOs.Password.{Md5}
use tiksrv.RouterOs.Api.State.{reading_length, Reply, Api, Call, is_open}
use tiksrv.RouterOs.Api.Reading.{read_completed, by_prefix, end_sentence}
use tiksrv.RouterOs.Api.Portions.{Pending, whole}
use tiksrv.RouterOs.Api.Steps.{IsReady, on_first_byte}
use tiksrv.RouterOs.Api.Replies.{IsTakenApart, FailsReply}
use tiksrv.RouterOs.Api.Connection.{
  Event, read_done, running, Connection, IsSound, advance, settle, Fails, second_tag, failing_reply,
}
use tiksrv.RouterOs.Api.Connection.Verdicts.{reply_cases}
use tiksrv.RouterOs.Api.Connection.Steps.{open_running}
use tiksrv.RouterOs.Api.Connection.Reads.{
  IsGood, end-IsGood, end_twice_tagged, end_failing, first_byte-IsGood,
}

-- A connection on which the first byte of a length is awaited, or a further one.
pub record AtLength (k : Connection) : Type 0 where
  pub opened : is_open k.api ≡ true
  pub ready : IsReady k.api
  pub runs : k.phase ≡ running
  pub queue : k.api.send_queue ≡ []

pub at_length :
    (k : Connection) → IsSound k → is_open k.api ≡ true → k.api.state ≡ reading_length → AtLength k
at_length k s o r =
    let f = open_running k s o in
    record {
      opened = o;
      ready = record { socket_open = ground arith; expects_length = r; room = ground arith };
      runs = f;
      queue = s.nothing_queued;
    }

returns_or_stops : (m : Outcome ResponseSentence) → Goes m ⊎ (m ≡ stopped)
returns_or_stops (returned r) = inl tt
returns_or_stops (thrown x) = inl tt
returns_or_stops stopped = inr refl

-- A sentence is taken apart, or it starts with `!`, has two words or more and fails an assertion.
taken_apart :
    (lex : LexicalCast) (s : List Bytes)
    → IsTakenApart lex s
      ⊎ ((is_valid_response s ≡ true) × (2 ≤ length s) × (response_sentence lex s ≡ stopped))
taken_apart lex s = elim (returns_or_stops (response_sentence lex s)) [
  | inl g ↦ inl (λ v l. g)
  | inr t ↦ elim (Bool-cases (is_valid_response s)) [
    | inl v ↦ elim (Bool-cases (leb (length s) 1)) [
      | inl short ↦ inl (λ w l. absurd (ground arith))
      | inr long ↦ inr (v, ground arith, t)
    ]
    | inr w ↦ inl (λ v l. cc)
  ]
]

module _ (fmt : Fmt) (md5 : Md5) (lex : LexicalCast) (keep : ℕ → Reply → Outcome Bool) where
  -- The step ends the program, for a reason of `Fails`, or leaves the connection sound.
  abbrev pub Ends : Connection → Event → Type 0
  Ends k ev =
      ((advance fmt md5 lex keep ev k ≡ aborted) × Fails lex keep k ev)
      ⊎ Returns IsSound (advance fmt md5 lex keep ev k)

  pub good-IsSound :
      (k : Connection) (p : Pending) (bytes : Bytes) (r : Result (Api × List Call))
      → k.phase ≡ running
      → drop 1 k.pending ≡ []
      → Returns (IsGood fmt md5 lex keep []) r
      → Returns IsSound (settle fmt md5 lex keep (read_done p none bytes) k r)
  good-IsSound k p bytes (ok (a, cs)) f d g = rw (f, d) g
  good-IsSound k p bytes aborted f d g = g

  on_zero :
      (a : Api)
      → IsReady a
      → read_completed fmt md5 lex keep none (0 ∷ []) a
        ≡ end_sentence fmt md5 lex keep (record a { buffer = 0 ∷ [] })
  unfolding by_prefix length_prefix
  on_zero a r = on_first_byte fmt md5 lex keep a 0 r

  end-IsSound :
      (k : Connection) (n : ℕ)
      → AtLength k
      → drop 1 k.pending ≡ []
      → IsTakenApart lex k.api.sentence
      → ¬ FailsReply lex keep k.api.sentence k.api.read_cbs
      → Returns IsSound (advance fmt md5 lex keep (read_done (whole n) none (0 ∷ [])) k)
  unfolding advance is_open
  end-IsSound k n h d g f = rw (on_zero k.api h.ready) (
      good-IsSound k (whole n) (0 ∷ []) _ h.runs d
        (end-IsGood fmt md5 lex keep (record k.api { buffer = 0 ∷ [] }) h.opened h.queue g f))

  pub end-aborts :
      (k : Connection) (n : ℕ)
      → AtLength k
      → is_valid_response k.api.sentence ≡ true
      → 2 ≤ length k.api.sentence
      → response_sentence lex k.api.sentence ≡ stopped
      → advance fmt md5 lex keep (read_done (whole n) none (0 ∷ [])) k ≡ aborted
  unfolding advance is_open
  end-aborts k n h v l t =
      rw
        (
          on_zero k.api h.ready,
          end_twice_tagged fmt md5 lex keep (record k.api { buffer = 0 ∷ [] }) h.opened v l t,
        )
        refl

  pub failing-aborts :
      (k : Connection) (n : ℕ)
      → AtLength k
      → FailsReply lex keep k.api.sentence k.api.read_cbs
      → advance fmt md5 lex keep (read_done (whole n) none (0 ∷ [])) k ≡ aborted
  unfolding advance is_open
  failing-aborts k n h f =
      rw
        (
          on_zero k.api h.ready,
          end_failing fmt md5 lex keep (record k.api { buffer = 0 ∷ [] }) h.opened f,
        )
        refl

  pub Ends-end :
      (k : Connection) (n : ℕ)
      → AtLength k
      → drop 1 k.pending ≡ []
      → Ends k (read_done (whole n) none (0 ∷ []))
  Ends-end k n h d = elim (taken_apart lex k.api.sentence) [
    | inl g ↦ elim (reply_cases lex keep k.api.sentence k.api.read_cbs) [
      | inl f ↦
          inl (failing-aborts k n h f, failing_reply n _ h.opened h.ready.expects_length refl f)
      | inr f ↦ inr (end-IsSound k n h d g f)
    ]
    | inr (v, l, t) ↦
        inl (end-aborts k n h v l t, second_tag n _ h.opened h.ready.expects_length refl v l t)
  ]

  pub Ends-first :
      (k : Connection) (b : ℕ)
      → AtLength k
      → drop 1 k.pending ≡ []
      → Ends k (read_done (whole 1) none (b ∷ []))
  unfolding advance
  Ends-first k b h d = elim (Bool-cases (b == 0)) [
    | inl none_left ↦ rw ((==_iff b 0).0 none_left) (Ends-end k 1 h d)
    | inr more ↦ inr (
        good-IsSound k (whole 1) (b ∷ []) _ h.runs d
          (first_byte-IsGood fmt md5 lex keep k.api b h.ready h.queue (ground arith)))
  ]
