-- ===== src/Backend/Record.antt =====
-- What `QueryLiteserver` records, and when a backend counts as failed.
use native.Mathlib.Nat.{zero-add}
use tonutils_liteserver_prox.Base.{
  ℕ, suc, ◌+◌, ◌-◌, ◌^◌, ◌<◌, ◌≡◌, refl, ap, ◌∙◌, Bool, true, false, ◌&&◌, ltb, List, [], ◌∷◌,
  arith, Bool-cases, inl, inr, if◌then◌else◌,
}
use tonutils_liteserver_prox.Base.Action.{Fallible, good, bad}
use tonutils_liteserver_prox.Ton.{Ton, Request, Message}
use tonutils_liteserver_prox.Backend.{
  Backend, response_pointer, is_wait, is_failed, record_outcome, add_uint64,
}

module _ (t : Ton) where
  -- A finished query: what was asked, what came back, and the time at which it is recorded.
  pub record Event : Type 0 where
    pub payload : Request
    pub answer : Fallible (Message t.Cell)
    pub time : ℕ

  -- the backend after the queries of a history, oldest first, all through the proxy's callers
  pub replay : List Event → Backend t → Backend t
  replay [] b = b
  replay (e ∷ es) b = replay es (record_outcome t e.payload e.answer response_pointer e.time b)

  abbrev pub is_error : Fallible (Message t.Cell) → Bool
  is_error (good m) = false
  is_error (bad e) = true

  -- How many queries of a history are recorded: all but the waits.
  unfoldable pub tracked : List Event → ℕ
  tracked [] = 0
  tracked (e ∷ es) = if is_wait e.payload then tracked es else suc (tracked es)

  -- The time of the last query that is recorded, `now` if there is none.
  unfoldable pub last_time : ℕ → List Event → ℕ
  last_time now [] = now
  last_time now (e ∷ es) = if is_wait e.payload then last_time now es else last_time e.time es

  abbrev pub AllErrors : List Event → Type 0
  AllErrors [] = Unit {0}
  AllErrors (e ∷ es) = (is_error e.answer ≡ true) × AllErrors es

  record_outcome-error :
      (e : Event) (b : Backend t)
      → is_error e.answer ≡ true
      → record_outcome t e.payload e.answer response_pointer e.time b ≡ (
          if is_wait e.payload
          then b
          else record b { fails_streak = add_uint64 b.fails_streak; last_request = e.time })
  record_outcome-error e b h = of_answer e.answer h
    where
      of_answer :
          (a : Fallible (Message t.Cell))
          → is_error a ≡ true
          → record_outcome t e.payload a response_pointer e.time b ≡ (
              if is_wait e.payload
              then b
              else record b { fails_streak = add_uint64 b.fails_streak; last_request = e.time })
      of_answer (good m) i = cc
      of_answer (bad x) i = unfold record_outcome in refl

  record_outcome-answer :
      (e : Event) (b : Backend t)
      → is_wait e.payload ≡ false
      → is_error e.answer ≡ false
      → record_outcome t e.payload e.answer response_pointer e.time b
        ≡ record b { fails_streak = 0; last_request = e.time; last_success = e.time }
  unfolding record_outcome
  record_outcome-answer e b query h = ground arith

  replay-errors :
      (es : List Event) (b : Backend t)
      → AllErrors es
      → b.fails_streak + tracked es < 2 ^ 64
      → replay es b ≡ record b {
        fails_streak = b.fails_streak + tracked es;
        last_request = last_time b.last_request es;
      }
  unfolding replay tracked last_time
  replay-errors [] b h small = ground arith
  replay-errors (e ∷ es) b h small = elim (Bool-cases (is_wait e.payload)) [
    | inl wait ↦ rw (record_outcome-error e b h.0, wait) (replay-errors es b h.1 (ground arith))
    | inr query ↦
        rw (record_outcome-error e b h.0, query)
          (replay-errors es _ h.1 (ground arith) ∙ ground arith)
  ]

  -- After an answered query that is no wait for a block, of whatever kind the answer is, followed
  -- by less than 2 ^ 64 failed ones, a backend counts as failed exactly if more than ten of those
  -- are no waits, and the last of these comes more than five seconds after the answer.
  pub failed_exactly :
      (b : Backend t) (s : Event) (es : List Event)
      → is_wait s.payload ≡ false
      → is_error s.answer ≡ false
      → AllErrors es
      → tracked es < 2 ^ 64
      → is_failed t (replay (s ∷ es) b)
        ≡ (ltb 10 (tracked es) && ltb 5 (last_time s.time es - s.time))
  unfolding replay is_failed
  failed_exactly b s es query answered h small =
      let b' : Backend t = record b {
        fails_streak = 0;
        last_request = s.time;
        last_success = s.time;
      } in
      ap (is_failed t) (
        ap (replay es) (record_outcome-answer s b query answered)
        ∙ replay-errors es b' h (ground arith))
      ∙ ap (λ k. ltb 10 k && ltb 5 (last_time s.time es - s.time)) (zero-add (tracked es))
