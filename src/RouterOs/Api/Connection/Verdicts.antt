-- ===== src/RouterOs/Api/Connection/Verdicts.antt =====
-- Which sentences are responses for a waiting function that fails an assertion: `handle_response` of
-- routeros/src/api.cpp calls it.
use tiksrv.Base.{
  ℕ, ◌≤◌, Option, some, ◌≡◌, refl, Bool, true, none, List, Bytes, length, arith, Bool-cases, inl,
  inr, ◌⊎◌, leb,
}
use tiksrv.Base.Outcome.{Outcome, stopped, returned, thrown}
use tiksrv.RouterOs.Response.{LexicalCast, ResponseSentence, response_sentence, is_valid_response}
use tiksrv.RouterOs.Api.State.{
  Reply, response, Callback, login1_reply, login2_reply, other, find_callback,
}
use tiksrv.RouterOs.Api.Exchange.{IsResponse}
use tiksrv.RouterOs.Api.Replies.{FailsReply}

-- Whether a sentence is a response for a waiting function that fails an assertion on it.
module _ (lex : LexicalCast) (keep : ℕ → Reply → Outcome Bool) (s : List Bytes)
    (cbs : List (ℕ × Callback)) where
  on_verdict :
      (r : ResponseSentence) (k : ℕ) (o : Outcome Bool)
      → IsResponse lex s r
      → find_callback r.tag cbs ≡ some (other k)
      → keep k (response r) ≡ o
      → FailsReply lex keep s cbs ⊎ (¬ FailsReply lex keep s cbs)
  on_verdict r k stopped w f e =
      inl (record { heard = r; function = k; is_response = w; waits = f; fails = e })
  on_verdict r k (returned b) w f e =
      inr (λ x. cc (x.is_response.parses, w.parses, x.waits, f, x.fails, e))
  on_verdict r k (thrown y) w f e =
      inr (λ x. cc (x.is_response.parses, w.parses, x.waits, f, x.fails, e))

  on_callback :
      (r : ResponseSentence) (cb : Option Callback)
      → IsResponse lex s r
      → find_callback r.tag cbs ≡ cb
      → FailsReply lex keep s cbs ⊎ (¬ FailsReply lex keep s cbs)
  on_callback r (some (other k)) w f = on_verdict r k (keep k (response r)) w f refl
  on_callback r none w f = inr (λ x. cc (x.is_response.parses, w.parses, x.waits, f))
  on_callback r (some (login1_reply name password h)) w f =
      inr (λ x. cc (x.is_response.parses, w.parses, x.waits, f))
  on_callback r (some (login2_reply h)) w f =
      inr (λ x. cc (x.is_response.parses, w.parses, x.waits, f))

  on_parsed :
      (o : Outcome ResponseSentence)
      → response_sentence lex s ≡ o
      → is_valid_response s ≡ true
      → 2 ≤ length s
      → FailsReply lex keep s cbs ⊎ (¬ FailsReply lex keep s cbs)
  on_parsed (returned r) p v l = elim (Bool-cases r.tagged) [
    | inl t ↦
        on_callback r (find_callback r.tag cbs)
          (record { starts = v; long = l; parses = p; has_tag = t }) refl
    | inr t ↦ inr (λ x. cc (x.is_response.parses, p, x.is_response.has_tag, t))
  ]
  on_parsed (thrown y) p v l = inr (λ x. cc (x.is_response.parses, p))
  on_parsed stopped p v l = inr (λ x. cc (x.is_response.parses, p))

  pub reply_cases : FailsReply lex keep s cbs ⊎ (¬ FailsReply lex keep s cbs)
  reply_cases = elim (Bool-cases (is_valid_response s)) [
    | inr v ↦ inr (λ x. cc (x.is_response.starts, v))
    | inl v ↦ elim (Bool-cases (leb (length s) 1)) [
      | inl short ↦
          inr (λ x. let long : 2 ≤ length s = x.is_response.long in absurd (ground (arith, short)))
      | inr long ↦ on_parsed (response_sentence lex s) refl v (ground (arith, long))
    ]
  ]
