-- ===== src/Config/Store/Debounced.antt =====
-- A change of the file is loaded, once, when the directory has been quiet for the debounce time.
use proxy_acl.Base.{
  ℕ, ◌+◌, ◌≤◌, ◌<◌, ◌≡◌, refl, ap, Bool, true, false, some, List, [], ◌∷◌, ◌++◌, if◌then◌else◌,
  arith, Result, ok, All,
}
use proxy_acl.Base.Text.{Bytes}
use proxy_acl.Config.Store.{
  reload_debounce, reload, Trigger, file_change, sighup, WatchEvent, cancelled, events_closed,
  errors_closed, watcher_error, file_event, debounce_fired, hangup, Watch, concerns, due,
  reload_for, select, watch,
}

-- How many of the attempts were for a change of the file.
abbrev pub file_loads : {R : Type 0} → List (Trigger × R) → ℕ
file_loads [] = 0
file_loads ((file_change, result) ∷ attempts) = file_loads attempts + 1
file_loads ((sighup, result) ∷ attempts) = file_loads attempts

-- A running loop whose timer fires at t.
record Waiting {C E : Type 0} (t n : ℕ) (w : Watch C E) : Type 0 where
  running : w.running ≡ true
  deadline : w.deadline ≡ some t
  loads : file_loads w.attempts ≡ n

module _ {C E : Type 0} (hooked : Bool) (clean : Bytes → Bytes) (chmod : ℕ) (path : Bytes) where
  -- An event that neither ends the loop, nor is about the file, nor is the timer's before t.
  abbrev pub Quiet : ℕ → WatchEvent (Result E C) → Type 0
  Quiet t cancelled = ⊥
  Quiet t events_closed = ⊥
  Quiet t errors_closed = ⊥
  Quiet t watcher_error = Unit
  Quiet t (file_event now name op) = concerns clean chmod path name op ≡ false
  Quiet t (debounce_fired now result) = now < t
  Quiet t (hangup result) = Unit

  select-Waiting :
      (e : WatchEvent (Result E C)) (t n : ℕ) (w : Watch C E)
      → Quiet t e
      → Waiting t n w
      → Waiting t n (select hooked clean chmod path e w)
  unfolding select reload_for
  select-Waiting cancelled t n w q k = absurd q
  select-Waiting events_closed t n w q k = absurd q
  select-Waiting errors_closed t n w q k = absurd q
  select-Waiting watcher_error t n w q k = k
  select-Waiting (file_event now name op) t n w q k = rw q k
  select-Waiting (debounce_fired now result) t n w q k =
      let early : due now w.deadline ≡ false = rw (k.deadline) (ground (arith, q)) in rw early k
  select-Waiting (hangup result) t n w q k = record {
    running = k.running;
    deadline = k.deadline;
    loads = k.loads;
  }

  watch-running :
      (e : WatchEvent (Result E C)) (events : List (WatchEvent (Result E C))) (w : Watch C E)
      → w.running ≡ true
      → watch hooked clean chmod path (e ∷ events) w
        ≡ watch hooked clean chmod path events (select hooked clean chmod path e w)
  unfolding watch
  watch-running e events w h =
      ap
        (λ b.
          watch hooked clean chmod path events
            (if b then select hooked clean chmod path e w else w))
        h

  select-change :
      (t : ℕ) (name : Bytes) (op : ℕ) (w : Watch C E)
      → w.running ≡ true
      → concerns clean chmod path name op ≡ true
      → Waiting
          (t + reload_debounce)
          (file_loads w.attempts)
          (select hooked clean chmod path (file_event t name op) w)
  unfolding select
  select-change t name op w running about =
      rw about (record { running = running; deadline = refl; loads = refl })

  fire-Waiting :
      (t n now : ℕ) (cfg : C) (w : Watch C E)
      → t ≤ now
      → Waiting t n w
      → ((select hooked clean chmod path (debounce_fired now (ok cfg)) w).kept.cur ≡ some cfg)
        × (file_loads (select hooked clean chmod path (debounce_fired now (ok cfg)) w).attempts
            ≡ n + 1)
  unfolding select reload_for reload
  fire-Waiting t n now cfg w late k =
      let ready : due now w.deadline ≡ true = rw (k.deadline) (ground (arith, late)) in
      rw ready (refl, ap (λ x. x + 1) k.loads)

  watch-nil : (w : Watch C E) → watch hooked clean chmod path [] w ≡ w
  unfolding watch
  watch-nil w = refl

  watch-Waiting :
      (events : List (WatchEvent (Result E C))) (t n now : ℕ) (cfg : C) (w : Watch C E)
      → All (Quiet t) events
      → t ≤ now
      → Waiting t n w
      → ((watch hooked clean chmod path (events ++ debounce_fired now (ok cfg) ∷ []) w).kept.cur
          ≡ some cfg)
        × (file_loads
              (watch hooked clean chmod path
                (events ++ debounce_fired now (ok cfg) ∷ [])
                w).attempts
            ≡ n + 1)
  watch-Waiting [] t n now cfg w q late k =
      rw (watch-running (debounce_fired now (ok cfg)) [] w k.running) (
        rw (watch-nil (select hooked clean chmod path (debounce_fired now (ok cfg)) w))
          (fire-Waiting t n now cfg w late k))
  watch-Waiting (e ∷ events) t n now cfg w q late k =
      rw (watch-running e (events ++ debounce_fired now (ok cfg) ∷ []) w k.running) (
        watch-Waiting events t n now cfg (select hooked clean chmod path e w) q.1 late
          (select-Waiting e t n w q.0 k))

  -- When the file changes at time t, as events have it that are not a mere chmod, and until the timer
  -- fires at or after t plus the debounce time there is no other change of it and the loop is not
  -- stopped, the config that the file then has becomes active, and the file was loaded exactly once
  -- for changes, whatever else happened in between.
  pub watch-debounced :
      (events : List (WatchEvent (Result E C))) (t now : ℕ) (name : Bytes) (op : ℕ) (cfg : C)
      (w : Watch C E)
      → w.running ≡ true
      → concerns clean chmod path name op ≡ true
      → All (Quiet (t + reload_debounce)) events
      → t + reload_debounce ≤ now
      → ((watch hooked clean chmod path
            (file_event t name op ∷ (events ++ debounce_fired now (ok cfg) ∷ []))
            w).kept.cur
          ≡ some cfg)
        × (file_loads
              (watch hooked clean chmod path
                (file_event t name op ∷ (events ++ debounce_fired now (ok cfg) ∷ []))
                w).attempts
            ≡ file_loads w.attempts + 1)
  watch-debounced events t now name op cfg w running about quiet late =
      rw
        (watch-running (file_event t name op) (events ++ debounce_fired now (ok cfg) ∷ []) w
          running)
        (watch-Waiting events (t + reload_debounce) (file_loads w.attempts) now cfg _ quiet late
          (select-change t name op w running about))
