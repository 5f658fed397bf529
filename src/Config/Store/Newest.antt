-- ===== src/Config/Store/Newest.antt =====
-- The active config is the last one that loaded, and the loop does not load more often than it is
-- asked to.
use proxy_acl.Base.{
  ℕ, ◌+◌, ◌≤◌, ◌≡◌, refl, ap, Bool, true, false, Option, none, some, List, [], ◌∷◌, ◌++◌,
  if◌then◌else◌, arith, length, inl, inr, Bool-cases, Result, ok, err,
}
use proxy_acl.Base.Text.{Bytes}
use proxy_acl.Config.Store.{
  Store, reload, Trigger, file_change, sighup, WatchEvent, cancelled, events_closed, errors_closed,
  watcher_error, file_event, debounce_fired, hangup, Watch, concerns, due, reload_for, select,
  watch, start_watch,
}

-- The newest config among the attempts, or what was active before them.
abbrev pub newest : {C E : Type 0} → Option C → List (Trigger × Result E C) → Option C
newest before [] = before
newest before ((trigger, ok cfg) ∷ attempts) = some cfg
newest before ((trigger, err e) ∷ attempts) = newest before attempts

-- The configs among the attempts, the newest first.
abbrev pub loaded : {C E : Type 0} → List (Trigger × Result E C) → List C
loaded [] = []
loaded ((trigger, ok cfg) ∷ attempts) = cfg ∷ loaded attempts
loaded ((trigger, err e) ∷ attempts) = loaded attempts

abbrev armed : Option ℕ → ℕ
armed none = 0
armed (some t) = 1

-- One more call of the hook, if there is one.
called_once :
    {C : Type 0} (hooked : Bool) (cfg : C) (calls before after : List C)
    → calls ≡ (if hooked then after else before)
    → (if hooked then cfg ∷ calls else calls) ≡ (if hooked then cfg ∷ after else before)
called_once true cfg calls before after h = ap (λ x. cfg ∷ x) h
called_once false cfg calls before after h = h

due-armed : (now : ℕ) (d : Option ℕ) → due now d ≡ true → armed d ≡ 1
due-armed now none h = cc
due-armed now (some t) h = refl

armed_most : (d : Option ℕ) → armed d ≤ 1
armed_most none = omega arith
armed_most (some t) = omega arith

module _ {C E : Type 0} (hooked : Bool) (clean : Bytes → Bytes) (chmod : ℕ) (path : Bytes) where
  -- How often an event asks for a load: a change of the file, or SIGHUP.
  unfoldable pub asked : WatchEvent (Result E C) → ℕ
  asked (file_event now name op) = if concerns clean chmod path name op then 1 else 0
  asked (hangup result) = 1
  asked other = 0

  unfoldable pub asks : List (WatchEvent (Result E C)) → ℕ
  asks [] = 0
  asks (e ∷ events) = asked e + asks events

  -- What holds of a loop that started on a store and was asked for at most n loads.
  pub record Kept (s : Store C) (n : ℕ) (w : Watch C E) : Type 0 where
    pub active : w.kept.cur ≡ newest s.cur w.attempts
    pub hook : w.kept.applied ≡ (if hooked then loaded w.attempts ++ s.applied else s.applied)
    pub bounded : length w.attempts + armed w.deadline ≤ n

  reload_for-Kept :
      (trigger : Trigger) (result : Result E C) (s : Store C) (n : ℕ) (w : Watch C E)
      → Kept s n w
      → length w.attempts + armed w.deadline + 1 ≤ n
      → Kept s n (reload_for hooked trigger result w)
  unfolding reload_for reload
  reload_for-Kept trigger (ok cfg) s n w k room = record {
    active = refl;
    hook = called_once hooked cfg w.kept.applied s.applied (loaded w.attempts ++ s.applied) k.hook;
    bounded = omega (arith, room);
  }
  reload_for-Kept trigger (err e) s n w k room = record {
    active = k.active;
    hook = k.hook;
    bounded = omega (arith, room);
  }

  -- The store and the attempts say all, but for the timer.
  Kept-timer :
      (s : Store C) (n m : ℕ) (w v : Watch C E)
      → Kept s n w
      → v.kept ≡ w.kept
      → v.attempts ≡ w.attempts
      → length w.attempts + armed v.deadline ≤ m
      → Kept s m v
  Kept-timer s n m w v k store attempts room = record {
    active = rw (store, attempts) k.active;
    hook = rw (store, attempts) k.hook;
    bounded = rw attempts room;
  }

  Kept-more : (s : Store C) (n m : ℕ) (w : Watch C E) → Kept s n w → n ≤ m → Kept s m w
  Kept-more s n m w k h = Kept-timer s n m w w k refl refl (omega (arith, k.bounded, h))

  fired-Kept :
      (ready : Bool) (now : ℕ) (result : Result E C) (s : Store C) (n : ℕ) (w : Watch C E)
      → due now w.deadline ≡ ready
      → Kept s n w
      → Kept s
          (n + 0)
          (if ready then reload_for hooked file_change result (record w { deadline = none }) else w)
  fired-Kept false now result s n w h k = Kept-more s n _ w k (omega arith)
  fired-Kept true now result s n w h k =
      let set = due-armed now w.deadline h in
      reload_for-Kept file_change result s (n + 0) (record w { deadline = none })
        (Kept-timer s n (n + 0) w (record w { deadline = none }) k refl refl
          (omega (arith, k.bounded)))
        (omega (arith, k.bounded, set))

  select-Kept :
      (e : WatchEvent (Result E C)) (s : Store C) (n : ℕ) (w : Watch C E)
      → Kept s n w
      → Kept s (n + asked e) (select hooked clean chmod path e w)
  unfolding select asked
  select-Kept cancelled s n w k = Kept-timer s n _ w _ k refl refl (omega (arith, k.bounded))
  select-Kept events_closed s n w k = Kept-timer s n _ w _ k refl refl (omega (arith, k.bounded))
  select-Kept errors_closed s n w k = Kept-timer s n _ w _ k refl refl (omega (arith, k.bounded))
  select-Kept watcher_error s n w k = Kept-more s n _ w k (omega arith)
  select-Kept (file_event now name op) s n w k =
      elim (Bool-cases (concerns clean chmod path name op)) [
        | inl about ↦
            rw about
              (Kept-timer s n _ w _ k refl refl (omega (arith, k.bounded, armed_most w.deadline)))
        | inr other ↦ rw other (Kept-more s n _ w k (omega arith))
      ]
  select-Kept (debounce_fired now result) s n w k =
      fired-Kept (due now w.deadline) now result s n w refl k
  select-Kept (hangup result) s n w k =
      reload_for-Kept sighup result s (n + 1) w (Kept-more s n (n + 1) w k (omega arith))
        (omega (arith, k.bounded))

  watch-Kept_from :
      (events : List (WatchEvent (Result E C))) (s : Store C) (n : ℕ) (w : Watch C E)
      → Kept s n w
      → Kept s (n + asks events) (watch hooked clean chmod path events w)
  unfolding watch asks
  watch-Kept_from [] s n w k = Kept-more s n _ w k (omega arith)
  watch-Kept_from (e ∷ events) s n w k =
      Kept-more s (n + asked e + asks events) _ _
        (watch-Kept_from events s (n + asked e) _ (going w.running)) (omega arith)
    where
      going :
          (running : Bool)
          → Kept s (n + asked e) (if running then select hooked clean chmod path e w else w)
      going true = select-Kept e s n w k
      going false = Kept-more s n _ w k (omega arith)

  -- After any events, a watched store has the config of the newest attempt that loaded, or the one it
  -- had at the start if none did; the hook, if there is one, was called with exactly the configs that
  -- loaded, in their order; and there were at most as many attempts as changes of the file and hangups.
  pub watch-Kept :
      (events : List (WatchEvent (Result E C))) (s : Store C)
      → Kept s (asks events) (watch hooked clean chmod path events (start_watch s))
  watch-Kept events s =
      Kept-more s (0 + asks events) _ _
        (watch-Kept_from events s 0 (start_watch s)
          (record { active = refl; hook = unchanged hooked; bounded = omega arith }))
        (omega arith)
    where
      unchanged : (called : Bool) → s.applied ≡ (if called then s.applied else s.applied)
      unchanged true = refl
      unchanged false = refl
