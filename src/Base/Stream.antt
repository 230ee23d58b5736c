-- ===== src/Base/Stream.antt =====
-- A stream socket that serves one object: it hands over the bytes that arrive in the portions that
-- the object asks for. This is the environment of the two read state machines.
use Prim.Native.Nat.{ℕ, zero, suc, ◌≤◌, ◌<◌}
use mathlib.Core.Path.{◌≡◌}
use mathlib.Core.Bool.{true, false}
use mathlib.Core.Option.{Option, none, some}
use mathlib.Core.List.{List, [], ◌++◌}
use native.Mathlib.Omega.{arith}
use tiksrv.Base.Tests.{ltb, ltb-true, ltb-false}
use tiksrv.Base.Lists.{Bytes, length, take, drop, length-append, take-append, drop-append}
use tiksrv.Base.Calls.{Result, ok, aborted, Act, prepend}

-- Hands what a step did to the rest of the run, if the step asked for more bytes.
abbrev go_on :
    {R S E : Type 0}
    → (List E → Option R)
    → (R → Act S E)
    → Result (S × List E)
    → Result (S × List E)
go_on wanted rest aborted = aborted
go_on wanted rest (ok (s, es)) = elim (wanted es) [
  | none ↦ ok (s, es)
  | some r ↦ prepend es (rest r s)
]

-- `wanted` finds the read that a step has left pending, `size` is the number of bytes that it asks
-- for, and `deliver` completes it.
module _ {R S E : Type 0} (size : R → ℕ) (deliver : R → Bytes → Act S E)
    (wanted : List E → Option R) where
  -- A read `r` is pending. Goes on while whole portions are there; `fuel` bounds their number.
  pub feed : ℕ → R → Bytes → Act S E
  feed zero r input s = ok (s, [])
  feed (suc fuel) r input s = elim (ltb (length input) (size r)) [
    | true ↦ ok (s, [])
    | false ↦
        go_on wanted (λ q. feed fuel q (drop (size r) input)) (deliver r (take (size r) input) s)
  ]

  pub feed_starved :
      (fuel : ℕ) (r : R) (input : Bytes) (s : S)
      → length input < size r
      → feed (suc fuel) r input s ≡ ok (s, [])
  unfolding feed
  feed_starved fuel r input s h = rw (ltb-true (length input) (size r) h, feed)

  enough : (portion input : Bytes) → length portion ≤ length (portion ++ input)
  enough portion input = omega (arith, length-append portion input)

  -- One portion.
  pub feed-append :
      (fuel : ℕ) (r : R) (portion input : Bytes) (s : S) {s' : S} {es : List E} {q : R}
      → size r ≡ length portion
      → deliver r portion s ≡ ok (s', es)
      → wanted es ≡ some q
      → feed (suc fuel) r (portion ++ input) s ≡ prepend es (feed fuel q input s')
  unfolding feed
  feed-append fuel r portion input s fits step more = rw (
    fits,
    ltb-false (length (portion ++ input)) (length portion) (enough portion input),
    feed,
    fits,
    take-append portion input,
    step,
    go_on,
    more,
    fits,
    drop-append portion input,
  )

  -- A step that fails an assertion ends the run.
  pub feed-append_aborted :
      (fuel : ℕ) (r : R) (portion input : Bytes) (s : S)
      → size r ≡ length portion
      → deliver r portion s ≡ aborted
      → feed (suc fuel) r (portion ++ input) s ≡ aborted
  unfolding feed
  feed-append_aborted fuel r portion input s fits step = rw (
    fits,
    ltb-false (length (portion ++ input)) (length portion) (enough portion input),
    feed,
    fits,
    take-append portion input,
    step,
  )
