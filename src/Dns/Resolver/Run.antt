-- ===== src/Dns/Resolver/Run.antt =====
-- Schedules: new calls, and steps of the threads that are there.
use proxy_acl.Base.{ℕ, zero, suc, ◌≡◌, refl, ap, Bool, none, List, [], ◌∷◌, ◌++◌, inl, inr, ◌⊎◌}
use proxy_acl.Dns.Resolver.Thread.{Query, Resolver, Thread, calling, Env}
use proxy_acl.Dns.Resolver.Step.{advance}

pub data Event (E : Type 0) : Type 0 where
  call : Query → Event E
  step : ℕ → Env E → Event E

module _ {E : Type 0} where
  -- New
  unfoldable pub new_resolver : Resolver E
  new_resolver = record {
    entries = [];
    flights = [];
    clients = [];
    running = 0;
    results = λ f. none;
    next_flight = 0;
    slots = λ cs. record { held = 0; users = 0 };
    next_slots = 0;
    asked = [];
  }

  module _ (not_found : E → Bool) where
    -- A step of the i-th thread; the threads it starts stand behind it.
    unfoldable pub step_at : Resolver E → List (Thread E) → ℕ → Env E → Resolver E × List (Thread E)
    unfolding advance
    step_at r [] i env = (r, [])
    step_at r (p ∷ threads) zero env =
        let m = advance not_found r p env in (m.resolver, m.thread ∷ m.spawned ++ threads)
    step_at r (p ∷ threads) (suc i) env =
        let (r', threads') = step_at r threads i env in (r', p ∷ threads')

    unfoldable pub happen : Resolver E × List (Thread E) → Event E → Resolver E × List (Thread E)
    unfolding step_at
    happen (r, threads) (call q) = (r, calling q ∷ threads)
    happen (r, threads) (step i env) = step_at r threads i env

    unfoldable pub run_events :
        Resolver E × List (Thread E) → List (Event E) → Resolver E × List (Thread E)
    unfolding happen
    run_events s [] = s
    run_events s (ev ∷ events) = run_events (happen s ev) events

    -- A step changes one thread, or none.
    pub step_at_lem :
        (r : Resolver E) (threads : List (Thread E)) (i : ℕ) (env : Env E)
        → (step_at r threads i env ≡ (r, threads))
          ⊎ ((before : List (Thread E)) × (p : Thread E) × (after : List (Thread E)) × (threads
                ≡ before ++ p ∷ [] ++ after)
              × (let m = advance not_found r p env in
                  step_at r threads i env ≡ (m.resolver, before ++ m.thread ∷ m.spawned ++ after)))
    unfolding step_at
    step_at_lem r [] i env = inl refl
    step_at_lem r (p ∷ threads) zero env = inr ([], p, threads, refl, refl)
    step_at_lem r (p ∷ threads) (suc i) env = elim (step_at_lem r threads i env) [
      | inl same ↦ inl (ap (λ s. (s.0, p ∷ s.1)) same)
      | inr (before, q, after, here, there) ↦
          inr (p ∷ before, q, after, ap (λ l. p ∷ l) here, ap (λ s. (s.0, p ∷ s.1)) there)
    ]
