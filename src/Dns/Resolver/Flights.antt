-- ===== src/Dns/Resolver/Flights.antt =====
-- Lookups in flight: one for a key, and for every waiter one that goes on or has ended.
pub mod Steps
pub mod Shared
use proxy_acl.Base.{
  ℕ, ◌+◌, ◌≤◌, ◌<◌, ◌≡◌, refl, Bool, Option, none, some, List, [], ◌∷◌, ◌++◌, arith, if◌then◌else◌,
  ◌==◌, All,
}
use proxy_acl.Base.Text.{Bytes, text_eq}
use proxy_acl.Base.Maps.{text_key, get}
use proxy_acl.Dns.Resolver.Thread.{
  Query, query_key, Resolver, After, wait_on, reply_with, end, Thread, calling, entering, queued,
  slotted, freeing, leaving, waiting, returned, starting, looking, looked, storing, landing,
  closing, finished,
}
use proxy_acl.Dns.Resolver.Keeps.{total, total_swap, All_swap}

abbrev pub asks_for : Bytes → Query → ℕ
asks_for key q = if text_eq (query_key q) key then 1 else 0

abbrev pub Begun : ℕ → Option ℕ → Type 0
Begun next none = Unit
Begun next (some f) = f < next

abbrev pub in_map : Option ℕ → ℕ
in_map none = 0
in_map (some f) = 1

module _ {E : Type 0} where
  -- A thread that runs a lookup for the key, up to where it takes its flight out of the map.
  abbrev pub runs : Bytes → Thread E → ℕ
  runs key (starting q f hold) = asks_for key q
  runs key (looking q f hold) = asks_for key q
  runs key (looked q f hold found) = asks_for key q
  runs key (storing q f hold found) = asks_for key q
  runs key (landing q f hold found) = asks_for key q
  runs key p = 0

  -- A thread that will close the flight.
  abbrev pub serves : ℕ → Thread E → ℕ
  serves i (starting q f hold) = if f == i then 1 else 0
  serves i (looking q f hold) = if f == i then 1 else 0
  serves i (looked q f hold found) = if f == i then 1 else 0
  serves i (storing q f hold found) = if f == i then 1 else 0
  serves i (landing q f hold found) = if f == i then 1 else 0
  serves i (closing f hold found) = if f == i then 1 else 0
  serves i p = 0

  -- The flight that a thread waits on, or will.
  abbrev pub awaits : After E → Option ℕ
  awaits (wait_on q f) = some f
  awaits (reply_with q reply) = none
  awaits end = none

  abbrev pub waits : Thread E → Option ℕ
  waits (waiting q f) = some f
  waits (freeing hold after) = awaits after
  waits (leaving client cs after) = awaits after
  waits p = none

  pub record FlightsInv (r : Resolver E) (threads : List (Thread E)) : Type 0 where
    pub single : (key : Bytes) → total (runs key) threads ≡ in_map (get key r.flights)
    pub served : (f : ℕ) → f < r.next_flight → r.results f ≡ none → total (serves f) threads ≡ 1
    pub unserved : (f : ℕ) → r.next_flight ≤ f → total (serves f) threads ≡ 0
    pub begun : All (λ p. Begun r.next_flight (waits p)) threads
    pub listed : (key : Bytes) (f : ℕ) → get key r.flights ≡ some f → f < r.next_flight

  pub swap-FlightsInv :
      (r : Resolver E) (xs ys zs : List (Thread E))
      → FlightsInv r (xs ++ ys ++ zs)
      → FlightsInv r (ys ++ xs ++ zs)
  swap-FlightsInv r xs ys zs v = record {
    single = λ key. omega (arith, v.single key, total_swap (runs key) xs ys zs);
    served = λ f below open_. omega (arith, v.served f below open_, total_swap (serves f) xs ys zs);
    unserved = λ f far. omega (arith, v.unserved f far, total_swap (serves f) xs ys zs);
    begun = All_swap (λ p. Begun r.next_flight (waits p)) xs ys zs v.begun;
    listed = v.listed;
  }
