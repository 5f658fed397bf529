-- ===== src/Dns/Resolver/Flights/Shared.antt =====
-- Concurrent lookups of a name are one, and no caller waits for a lookup that has stopped.
use proxy_acl.Base.{
  ℕ, ◌≤◌, ◌≡◌, ◌⊎◌, refl, inl, inr, Bool, Option, none, some, List, [], ◌∷◌, arith, All,
  Option-cases,
}
use proxy_acl.Base.Text.{Bytes}
use proxy_acl.Base.Maps.{text_key, get}
use proxy_acl.Dns.Cache.{Found}
use proxy_acl.Dns.Resolver.Thread.{Query, Resolver, Thread, calling}
use proxy_acl.Dns.Resolver.Run.{Event, new_resolver, run_events}
use proxy_acl.Dns.Resolver.Keeps.{total, run_new_keeps}
use proxy_acl.Dns.Resolver.Flights.{runs, serves, waits, Begun, in_map, FlightsInv, swap-FlightsInv}
use proxy_acl.Dns.Resolver.Flights.Steps.{advance-FlightsInv}

in_map-le : (o : Option ℕ) → in_map o ≤ 1
in_map-le none = omega arith
in_map-le (some f) = omega arith

module _ {E : Type 0} where
  new-FlightsInv : FlightsInv {E = E} new_resolver []
  unfolding new_resolver get
  new-FlightsInv = record {
    single = λ key. refl;
    served = λ f below open_. absurd (omega (arith, below));
    unserved = λ f far. refl;
    begun = tt;
    listed = λ key f m. cc;
  }

  add-FlightsInv :
      (r : Resolver E) (threads : List (Thread E)) (q : Query)
      → FlightsInv r threads
      → FlightsInv r (calling q ∷ threads)
  add-FlightsInv r threads q v = record {
    single = λ key. omega (arith, v.single key);
    served = λ f below open_. omega (arith, v.served f below open_);
    unserved = λ f far. omega (arith, v.unserved f far);
    begun = (tt, v.begun);
    listed = v.listed;
  }

  run-FlightsInv :
      (not_found : E → Bool) (events : List (Event E))
      → (let s = run_events not_found (new_resolver, []) events in FlightsInv s.0 s.1)
  run-FlightsInv not_found events =
      run_new_keeps not_found FlightsInv swap-FlightsInv
        (λ r p rest env v. advance-FlightsInv not_found r p rest env v) add-FlightsInv events
        new-FlightsInv

  -- The flight is over, and its result is there, or exactly one thread will close it.
  abbrev pub Served : Resolver E → List (Thread E) → Option ℕ → Type 0
  Served r threads none = Unit
  Served r threads (some f) =
      ((found : Found E) × (r.results f ≡ some found)) ⊎ (total (serves f) threads ≡ 1)

  waits-Served :
      (r : Resolver E) (threads : List (Thread E)) (o : Option ℕ)
      → FlightsInv r threads
      → Begun r.next_flight o
      → Served r threads o
  waits-Served r threads none v begun = tt
  waits-Served r threads (some f) v begun = elim (Option-cases (r.results f)) [
    | inl open_ ↦ inr (v.served f begun open_)
    | inr over ↦ inl over
  ]

  all-Served :
      (r : Resolver E) (threads some_of : List (Thread E))
      → FlightsInv r threads
      → All (λ p. Begun r.next_flight (waits p)) some_of
      → All (λ p. Served r threads (waits p)) some_of
  all-Served r threads [] v all = tt
  all-Served r threads (p ∷ rest) v (first, all) =
      (waits-Served r threads (waits p) v first, all-Served r threads rest v all)

  -- In every schedule of any number of calls: at most one lookup is in progress for a key, and each
  -- thread that waits for a flight, or is about to, finds its result there or has exactly one thread
  -- that will close it.
  pub run_events-Served :
      (not_found : E → Bool) (events : List (Event E)) (key : Bytes)
      → (let s = run_events not_found (new_resolver, []) events in
          (total (runs key) s.1 ≤ 1) × All (λ p. Served s.0 s.1 (waits p)) s.1)
  run_events-Served not_found events key =
      let s = run_events not_found (new_resolver, []) events in
      let v = run-FlightsInv not_found events in
      (
        omega (arith, v.single key, in_map-le (get key s.0.flights)),
        all-Served s.0 s.1 s.1 v v.begun,
      )
