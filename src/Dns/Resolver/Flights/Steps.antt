-- ===== src/Dns/Resolver/Flights/Steps.antt =====
-- Every step of every thread keeps the invariant of the flights.
use proxy_acl.Base.{
  ℕ, ◌+◌, ◌≡◌, refl, sym, ap, ◌∙◌, ◌⊎◌, inl, inr, Bool, true, false, Option, none, some, List, [],
  ◌∷◌, ◌++◌, arith, ltb, Bool-cases, Option-cases, All,
}
use proxy_acl.Base.Text.{Bytes, text_eq}
use proxy_acl.Base.Maps.{text_key, GoMap, get, put, delete}
use proxy_acl.Base.Maps.Laws.{get-put, get-delete}
use proxy_acl.Netip.{Addr}
use proxy_acl.Dns.Cache.{Found, Entries, find_fresh}
use proxy_acl.Dns.Resolver.Thread.{
  max_concurrent, max_per_client, Query, query_key, ClientSlots, Resolver, Hold, After, wait_on,
  reply_with, end, Thread, calling, entering, queued, slotted, freeing, leaving, waiting, returned,
  starting, looking, looked, storing, landing, closing, finished, Env,
}
use proxy_acl.Dns.Resolver.Step.{
  Lookup, in_flight, cached, missing, Moved, find_locked, set_at, resume, first_find, enter,
  take_slot, second_find, free, wait, start_lookup, advance,
}
use proxy_acl.Dns.Resolver.Keeps.{total}
use proxy_acl.Dns.Resolver.Flights.{
  asks_for, runs, serves, awaits, waits, Begun, in_map, FlightsInv,
}

Begun-suc : (n : ℕ) (o : Option ℕ) → Begun n o → Begun (n + 1) o
Begun-suc n none b = tt
Begun-suc n (some f) b = omega (arith, b)

module _ {E : Type 0} where
  abbrev MovedInv : Moved E → List (Thread E) → Type 0
  MovedInv m rest = FlightsInv m.resolver (m.thread ∷ m.spawned ++ rest)

  -- A step that leaves the flights as they are, of a thread that keeps its part in them.
  quiet-FlightsInv :
      (r : Resolver E) (entries : Entries E) (clients : GoMap Addr ℕ) (running : ℕ)
      (slots : ℕ → ClientSlots) (next : ℕ) (asked : List (Query × Found E)) (p p' : Thread E)
      (rest : List (Thread E))
      → ((key : Bytes) → runs key p' ≡ runs key p)
      → ((f : ℕ) → serves f p' ≡ serves f p)
      → Begun r.next_flight (waits p')
      → FlightsInv r (p ∷ rest)
      → FlightsInv
          (record r {
            entries = entries;
            clients = clients;
            running = running;
            slots = slots;
            next_slots = next;
            asked = asked;
          })
          (p' ∷ rest)
  quiet-FlightsInv r entries clients running slots next asked p p' rest run serve begun v = record {
    single = λ key. omega (arith, v.single key, run key);
    served = λ f below open_. omega (arith, v.served f below open_, serve f);
    unserved = λ f far. omega (arith, v.unserved f far, serve f);
    begun = (begun, v.begun.1);
    listed = v.listed;
  }

  pub same-FlightsInv :
      (r : Resolver E) (p p' : Thread E) (rest : List (Thread E))
      → ((key : Bytes) → runs key p' ≡ runs key p)
      → ((f : ℕ) → serves f p' ≡ serves f p)
      → Begun r.next_flight (waits p')
      → FlightsInv r (p ∷ rest)
      → FlightsInv r (p' ∷ rest)
  same-FlightsInv r = quiet-FlightsInv r r.entries r.clients r.running r.slots r.next_slots r.asked

  -- What findLocked says of the map of flights.
  abbrev pub Located : Resolver E → Bytes → Lookup E → Type 0
  Located r key (in_flight f) = get key r.flights ≡ some f
  Located r key (cached found) = Unit
  Located r key missing = get key r.flights ≡ none

  pub find_locked-Located :
      (r : Resolver E) (key : Bytes) (now : ℕ) → Located r key (find_locked r key now)
  unfolding find_locked
  find_locked-Located r key now = by_entry (find_fresh key now r.entries)
    where
      by_flight :
          (o : Option ℕ)
          → get key r.flights ≡ o
          → Located r key (elim o as (λ x. Lookup E) [ some f ↦ in_flight f | none ↦ missing ])
      by_flight (some f) e = e
      by_flight none e = e

      by_entry :
          (o : Option (Found E))
          → Located r key (elim o as (λ x. Lookup E) [
            | some found ↦ cached found
            | none ↦ elim (get key r.flights) as (λ x. Lookup E) [
              | some f ↦ in_flight f
              | none ↦ missing
            ]
          ])
      by_entry (some found) = tt
      by_entry none = by_flight (get key r.flights) refl

  first_find-FlightsInv :
      (r : Resolver E) (q : Query) (tag : Option Addr) (l : Lookup E) (rest : List (Thread E))
      → Located r (query_key q) l
      → FlightsInv r (calling q ∷ rest)
      → MovedInv (first_find r q tag l) rest
  unfolding first_find
  first_find-FlightsInv r q none (in_flight f) rest here v =
      same-FlightsInv r _ _ rest (λ key. refl) (λ i. refl) (v.listed (query_key q) f here) v
  first_find-FlightsInv r q (some c) (in_flight f) rest here v =
      same-FlightsInv r _ _ rest (λ key. refl) (λ i. refl) (v.listed (query_key q) f here) v
  first_find-FlightsInv r q none (cached found) rest here v =
      same-FlightsInv r _ _ rest (λ key. refl) (λ i. refl) tt v
  first_find-FlightsInv r q (some c) (cached found) rest here v =
      same-FlightsInv r _ _ rest (λ key. refl) (λ i. refl) tt v
  first_find-FlightsInv r q none missing rest here v =
      same-FlightsInv r _ _ rest (λ key. refl) (λ i. refl) tt v
  first_find-FlightsInv r q (some c) missing rest here v =
      same-FlightsInv r _ _ rest (λ key. refl) (λ i. refl) tt v

  All_Begun-suc :
      (n : ℕ) (threads : List (Thread E))
      → All (λ p. Begun n (waits p)) threads
      → All (λ p. Begun (n + 1) (waits p)) threads
  All_Begun-suc n [] all = tt
  All_Begun-suc n (p ∷ threads) (first, all) =
      (Begun-suc n (waits p) first, All_Begun-suc n threads all)

  second_find-FlightsInv :
      (r : Resolver E) (q : Query) (hold : Hold) (l : Lookup E) (rest : List (Thread E))
      → Located r (query_key q) l
      → FlightsInv r (slotted q hold ∷ rest)
      → MovedInv (second_find r q hold l) rest
  unfolding second_find set_at
  second_find-FlightsInv r q hold (in_flight f) rest here v =
      same-FlightsInv r _ _ rest (λ key. refl) (λ i. refl) (v.listed (query_key q) f here) v
  second_find-FlightsInv r q hold (cached found) rest here v =
      same-FlightsInv r _ _ rest (λ key. refl) (λ i. refl) tt v
  second_find-FlightsInv r q hold missing rest here v = record {
    single = λ key. omega (arith, listed_once key (Bool-cases (text_eq (query_key q) key)));
    served = λ f below open_. ground (arith, v.served f, v.unserved f, below, open_);
    unserved = λ f far. ground (arith, v.unserved f);
    begun = (omega arith, (tt, All_Begun-suc r.next_flight rest v.begun.1));
    listed = λ key f found.
        ground (arith, get-put (query_key q) key r.next_flight r.flights, v.listed key f, found);
  }
    where
      listed_once :
          (key : Bytes)
          → (text_eq (query_key q) key ≡ true) ⊎ (text_eq (query_key q) key ≡ false)
          → asks_for key q + total (runs key) rest
            ≡ in_map (get key (put (query_key q) r.next_flight r.flights))
      listed_once key (inl same) =
          let e : query_key q ≡ key = (text_key.same_iff (query_key q) key).0 same in
          let gone : get key r.flights ≡ none = ap (λ k. get k r.flights) (sym e) ∙ here in
          ground
            (arith, get-put (query_key q) key r.next_flight r.flights, v.single key, same, gone)
      listed_once key (inr other) =
          ground (arith, get-put (query_key q) key r.next_flight r.flights, v.single key, other)

  waits-resume : (after : After E) → waits (resume after) ≡ awaits after
  waits-resume (wait_on q f) = refl
  waits-resume (reply_with q reply) = refl
  waits-resume end = refl

  runs-resume : (key : Bytes) (after : After E) → runs key (resume after) ≡ 0
  runs-resume key (wait_on q f) = refl
  runs-resume key (reply_with q reply) = refl
  runs-resume key end = refl

  serves-resume : (f : ℕ) (after : After E) → serves f (resume after) ≡ 0
  serves-resume f (wait_on q i) = refl
  serves-resume f (reply_with q reply) = refl
  serves-resume f end = refl

  free-FlightsInv :
      (r : Resolver E) (hold : Hold) (after : After E) (rest : List (Thread E))
      → FlightsInv r (freeing hold after ∷ rest)
      → MovedInv (free r hold after) rest
  unfolding free
  free-FlightsInv r none after rest v =
      same-FlightsInv r _ (resume after) rest (λ key. runs-resume key after)
        (λ f. serves-resume f after) (rw (waits-resume after) v.begun.0) v
  free-FlightsInv r (some (client, cs)) after rest v =
      quiet-FlightsInv r _ _ _ _ _ _ (freeing (some (client, cs)) after) (leaving client cs after)
        rest (λ key. refl) (λ f. refl) v.begun.0 v

  take_slot-FlightsInv :
      (r : Resolver E) (q : Query) (client : Addr) (cs : ℕ) (o : Option E) (rest : List (Thread E))
      → FlightsInv r (queued q client cs ∷ rest)
      → MovedInv (take_slot r q client cs o) rest
  unfolding take_slot
  take_slot-FlightsInv r q client cs (some e) rest v =
      same-FlightsInv r _ _ rest (λ key. refl) (λ f. refl) tt v
  take_slot-FlightsInv r q client cs none rest v =
      elim (Bool-cases (ltb (r.slots cs).held max_per_client)) [
        | inr full ↦ rw full v
        | inl room ↦ rw room (
            quiet-FlightsInv r _ _ _ _ _ _ (queued q client cs) (slotted q (some (client, cs))) rest
              (λ key. refl) (λ f. refl) tt v)
      ]

  enter-FlightsInv :
      (r : Resolver E) (q : Query) (client : Addr) (o : Option ℕ) (rest : List (Thread E))
      → FlightsInv r (entering q client ∷ rest)
      → MovedInv (enter r q client o) rest
  unfolding enter
  enter-FlightsInv r q client (some cs) rest v =
      quiet-FlightsInv r _ _ _ _ _ _ (entering q client) _ rest (λ key. refl) (λ f. refl) tt v
  enter-FlightsInv r q client none rest v =
      quiet-FlightsInv r _ _ _ _ _ _ (entering q client) _ rest (λ key. refl) (λ f. refl) tt v

  wait-FlightsInv :
      (r : Resolver E) (q : Query) (f : ℕ) (e : Option E) (o : Option (Found E))
      (rest : List (Thread E))
      → FlightsInv r (waiting q f ∷ rest)
      → MovedInv (wait r q f e o) rest
  unfolding wait
  wait-FlightsInv r q f (some e) none rest v =
      same-FlightsInv r _ _ rest (λ key. refl) (λ i. refl) tt v
  wait-FlightsInv r q f (some e) (some found) rest v =
      same-FlightsInv r _ _ rest (λ key. refl) (λ i. refl) tt v
  wait-FlightsInv r q f none (some found) rest v =
      same-FlightsInv r _ _ rest (λ key. refl) (λ i. refl) tt v
  wait-FlightsInv r q f none none rest v = v

  start_lookup-FlightsInv :
      (r : Resolver E) (q : Query) (f : ℕ) (hold : Hold) (o : Option E) (rest : List (Thread E))
      → FlightsInv r (starting q f hold ∷ rest)
      → MovedInv (start_lookup r q f hold o) rest
  unfolding start_lookup
  start_lookup-FlightsInv r q f hold (some e) rest v =
      same-FlightsInv r _ _ rest (λ key. refl) (λ i. refl) tt v
  start_lookup-FlightsInv r q f hold none rest v =
      elim (Bool-cases (ltb r.running max_concurrent)) [
        | inr full ↦ rw full v
        | inl room ↦ rw room (
            quiet-FlightsInv r _ _ _ _ _ _ (starting q f hold) (looking q f hold) rest (λ key. refl)
              (λ i. refl) tt v)
      ]

  -- The flight leaves the map with its thread's turn to close it.
  land-FlightsInv :
      (r : Resolver E) (q : Query) (f : ℕ) (hold : Hold) (found : Found E) (rest : List (Thread E))
      → FlightsInv r (landing q f hold found ∷ rest)
      → FlightsInv
          (record r { flights = delete (query_key q) r.flights })
          (closing f hold found ∷ rest)
  land-FlightsInv r q f hold found rest v = record {
    single = λ key. omega (arith, gone_once key (Bool-cases (text_eq (query_key q) key)));
    served = v.served;
    unserved = v.unserved;
    begun = v.begun;
    listed = λ key i m. v.listed key i (ground (arith, get-delete (query_key q) key r.flights, m));
  }
    where
      gone_once :
          (key : Bytes)
          → (text_eq (query_key q) key ≡ true) ⊎ (text_eq (query_key q) key ≡ false)
          → total (runs key) rest ≡ in_map (get key (delete (query_key q) r.flights))
      gone_once key (inl same) = elim (Option-cases (get key r.flights)) [
        | inl gone ↦ absurd (ground (arith, v.single key, same, gone))
        | inr (i, there) ↦
            ground (arith, get-delete (query_key q) key r.flights, v.single key, same, there)
      ]
      gone_once key (inr other) =
          ground (arith, get-delete (query_key q) key r.flights, v.single key, other)

  close-FlightsInv :
      (r : Resolver E) (f : ℕ) (hold : Hold) (found : Found E) (rest : List (Thread E))
      → FlightsInv r (closing f hold found ∷ rest)
      → FlightsInv
          (record r { results = set_at r.results f (some found) })
          (freeing hold end ∷ rest)
  unfolding set_at
  close-FlightsInv r f hold found rest v = record {
    single = v.single;
    served = λ i below open_. ground (arith, v.served i, below, open_);
    unserved = λ i far. ground (arith, v.unserved i, far);
    begun = v.begun;
    listed = v.listed;
  }

  module _ (not_found : E → Bool) where
    pub advance-FlightsInv :
        (r : Resolver E) (p : Thread E) (rest : List (Thread E)) (env : Env E)
        → FlightsInv r (p ∷ rest)
        → MovedInv (advance not_found r p env) rest
    unfolding advance
    advance-FlightsInv r (calling q) rest env v =
        first_find-FlightsInv r q q.client (find_locked r (query_key q) env.now) rest
          (find_locked-Located r (query_key q) env.now) v
    advance-FlightsInv r (entering q client) rest env v = enter-FlightsInv r q client _ rest v
    advance-FlightsInv r (queued q client cs) rest env v =
        take_slot-FlightsInv r q client cs env.ctx_error rest v
    advance-FlightsInv r (slotted q hold) rest env v =
        second_find-FlightsInv r q hold (find_locked r (query_key q) env.now) rest
          (find_locked-Located r (query_key q) env.now) v
    advance-FlightsInv r (freeing hold after) rest env v = free-FlightsInv r hold after rest v
    advance-FlightsInv r (leaving client cs after) rest env v =
        quiet-FlightsInv r _ _ _ _ _ _ (leaving client cs after) (resume after) rest
          (λ key. runs-resume key after) (λ f. serves-resume f after)
          (rw (waits-resume after) v.begun.0) v
    advance-FlightsInv r (waiting q f) rest env v =
        wait-FlightsInv r q f env.ctx_error (r.results f) rest v
    advance-FlightsInv r (returned q reply) rest env v = v
    advance-FlightsInv r (starting q f hold) rest env v =
        start_lookup-FlightsInv r q f hold env.ctx_error rest v
    advance-FlightsInv r (looking q f hold) rest env v =
        quiet-FlightsInv r _ _ _ _ _ _ (looking q f hold) _ rest (λ key. refl) (λ i. refl) tt v
    advance-FlightsInv r (looked q f hold found) rest env v =
        quiet-FlightsInv r _ _ _ _ _ _ (looked q f hold found) _ rest (λ key. refl) (λ i. refl) tt v
    advance-FlightsInv r (storing q f hold found) rest env v =
        quiet-FlightsInv r _ _ _ _ _ _ (storing q f hold found) _ rest (λ key. refl) (λ i. refl) tt
          v
    advance-FlightsInv r (landing q f hold found) rest env v =
        land-FlightsInv r q f hold found rest v
    advance-FlightsInv r (closing f hold found) rest env v = close-FlightsInv r f hold found rest v
    advance-FlightsInv r finished rest env v = v
