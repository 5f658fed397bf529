-- ===== src/Proxy/Race/Verdict.antt =====
-- What the race returns depends on its first two results only.
use proxy_acl.Base.{
  ◌≡◌, refl, Bool, true, false, Option, none, some, List, [], ◌∷◌, Result, ok, err,
}
use proxy_acl.Proxy.Race.{
  Event, timer_fired, reported, Outcome, racing, won, lost, race_start, start_fallback, race_step,
  race_run,
}

module _ {C E : Type 0} where
  -- The results among the events, in order.
  abbrev pub reports : List (Event C E) → List (Result E C)
  reports [] = []
  reports (timer_fired ∷ events) = reports events
  reports (reported r ∷ events) = r ∷ reports events

  -- The answer that two results call for: the first connection, or both errors; none so far.
  pub answer_to : List (Result E C) → Option (Result (List E) C)
  answer_to [] = none
  answer_to (ok c ∷ results) = some (ok c)
  answer_to (err e ∷ []) = none
  answer_to (err e ∷ ok c ∷ results) = some (ok c)
  answer_to (err e ∷ err f ∷ results) = some (err (e ∷ f ∷ []))

  abbrev pub verdict : Outcome C E → Option (Result (List E) C)
  verdict (racing r) = none
  verdict (won c left) = some (ok c)
  verdict (lost errs) = some (err errs)

  won_stays :
      (c : C) (left : Bool) (events : List (Event C E)) → race_run (won c left) events ≡ won c left
  unfolding race_run
  won_stays c left [] = refl
  won_stays c left (ev ∷ events) = refl

  lost_stays : (errs : List E) (events : List (Event C E)) → race_run (lost errs) events ≡ lost errs
  unfolding race_run
  lost_stays errs [] = refl
  lost_stays errs (ev ∷ events) = refl

  -- One family has failed with `e`, the other runs.
  after_error :
      (e : E) (events : List (Event C E))
      → verdict (
          race_run (racing (record { pending = 1; fallback_started = true; errs = e ∷ [] })) events)
        ≡ answer_to (err e ∷ reports events)
  unfolding race_run race_step start_fallback answer_to
  after_error e [] = refl
  after_error e (timer_fired ∷ events) = after_error e events
  after_error e (reported (ok c) ∷ events) = rw (won_stays c false events) refl
  after_error e (reported (err f) ∷ events) = rw (lost_stays (e ∷ f ∷ []) events) refl

  -- Both families run.
  after_timer :
      (events : List (Event C E))
      → verdict
          (race_run (racing (record { pending = 2; fallback_started = true; errs = [] })) events)
        ≡ answer_to (reports events)
  unfolding race_run race_step start_fallback answer_to
  after_timer [] = refl
  after_timer (timer_fired ∷ events) = after_timer events
  after_timer (reported (ok c) ∷ events) = rw (won_stays c true events) refl
  after_timer (reported (err e) ∷ events) = after_error e events

  -- Whenever the timer fires and whichever family reports first: the race returns the first
  -- connection among its first two results, or both errors in their order, as soon as these are in,
  -- and goes on until then; in particular one family's error alone never ends it.
  pub race_run-verdict :
      (events : List (Event C E))
      → verdict (race_run (racing race_start) events) ≡ answer_to (reports events)
  unfolding race_run race_step start_fallback answer_to
  race_run-verdict [] = refl
  race_run-verdict (timer_fired ∷ events) = after_timer events
  race_run-verdict (reported (ok c) ∷ events) = rw (won_stays c false events) refl
  race_run-verdict (reported (err e) ∷ events) = after_error e events
