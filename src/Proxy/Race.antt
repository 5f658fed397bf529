-- ===== src/Proxy/Race.antt =====
-- internal/proxy/dial.go: the race of dialParallel's two families. A goroutine that runs `race` sends
-- one result; the loop's `select` takes one event, the timer's or a result, at a time.
pub mod Verdict
use proxy_acl.Base.{
  ℕ, ◌+◌, ◌-◌, Bool, true, false, List, [], ◌∷◌, ◌++◌, ltb, ◌==◌, if◌then◌else◌, Result, ok, err,
}

-- The variables of the loop: `pending`, `fallbackStarted` and `errs`.
pub record Race (E : Type 0) : Type 0 where
  pub pending : ℕ
  pub fallback_started : Bool
  pub errs : List E

pub data Event (C E : Type 0) : Type 0 where
  timer_fired : Event C E
  reported : Result E C → Event C E

-- The loop goes on, or returns a connection, with whether a goroutine is left to drain the other
-- result, or returns the joined errors.
pub data Outcome (C E : Type 0) : Type 0 where
  racing : Race E → Outcome C E
  won : C → Bool → Outcome C E
  lost : List E → Outcome C E

module _ {E : Type 0} where
  -- After `go race(primary)`
  abbrev pub race_start : Race E
  race_start = record { pending = 1; fallback_started = false; errs = [] }

  -- startFallback
  unfoldable pub start_fallback : Race E → Race E
  start_fallback r =
      if r.fallback_started
      then r
      else record r { fallback_started = true; pending = r.pending + 1 }

module _ {C E : Type 0} where
  -- One round of the loop.
  unfoldable pub race_step : Race E → Event C E → Outcome C E
  unfolding start_fallback
  race_step r timer_fired = racing (start_fallback r)
  race_step r (reported (ok c)) = won c (ltb 0 (r.pending - 1))
  race_step r (reported (err e)) =
      let r' = start_fallback (record r { pending = r.pending - 1; errs = r.errs ++ e ∷ [] }) in
      if r'.pending == 0 then lost r'.errs else racing r'

  -- The loop on the events to come; it takes none after it has returned.
  unfoldable pub race_run : Outcome C E → List (Event C E) → Outcome C E
  unfolding race_step
  race_run o [] = o
  race_run (racing r) (ev ∷ events) = race_run (race_step r ev) events
  race_run (won c left) (ev ∷ events) = won c left
  race_run (lost errs) (ev ∷ events) = lost errs
