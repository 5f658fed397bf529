-- ===== src/Dns/Resolver/Slots/Tagged.antt =====
-- A lookup holds a slot of the client that its call's context names.
use proxy_acl.Base.{
  ℕ, ◌≤◌, ◌≡◌, refl, inl, inr, Bool, Option, none, some, List, [], arith, if◌then◌else◌, ltb, All,
  All-append, Bool-cases,
}
use proxy_acl.Base.Maps.{get}
use proxy_acl.Netip.{Addr, addr_key, addr_eq}
use proxy_acl.Dns.Resolver.Thread.{
  max_concurrent, max_per_client, Query, query_key, Resolver, Hold, After, wait_on, reply_with, end,
  Thread, calling, entering, queued, slotted, freeing, leaving, waiting, returned, starting,
  looking, looked, storing, landing, closing, finished, Env,
}
use proxy_acl.Dns.Resolver.Step.{
  Lookup, in_flight, cached, missing, Moved, find_locked, first_find, enter, take_slot, second_find,
  free, leave, wait, start_lookup, resume, advance,
}
use proxy_acl.Dns.Resolver.Run.{Event, new_resolver, run_events}
use proxy_acl.Dns.Resolver.Keeps.{run_new_keeps, All_swap}
use proxy_acl.Dns.Resolver.Slots.{held_for, hold_of}

-- The release function is of a slot of the client that the context names, or of none if it names none.
abbrev Backs : Query → Hold → Type 0
Backs q none = q.client ≡ none
Backs q (some (client, cs)) = q.client ≡ some client

-- Whether a call's context names the client.
abbrev named_by : Addr → Option Addr → ℕ
named_by client none = 0
named_by client (some c) = if addr_eq client c then 1 else 0

Backs-held_for :
    (client : Addr) (q : Query) (hold : Hold)
    → Backs q hold
    → named_by client q.client ≤ held_for client hold
Backs-held_for client q none h = rw h (omega arith)
Backs-held_for client q (some (c, cs)) h = rw h (omega arith)

module _ {E : Type 0} where
  -- The lookups that calls for the client have started and that are not over.
  abbrev pub looks_for : Addr → Thread E → ℕ
  looks_for client (starting q f hold) = named_by client q.client
  looks_for client (looking q f hold) = named_by client q.client
  looks_for client (looked q f hold found) = named_by client q.client
  looks_for client (storing q f hold found) = named_by client q.client
  looks_for client (landing q f hold found) = named_by client q.client
  looks_for client p = 0

  abbrev pub Tagged : Thread E → Type 0
  Tagged (entering q client) = q.client ≡ some client
  Tagged (queued q client cs) = q.client ≡ some client
  Tagged (slotted q hold) = Backs q hold
  Tagged (starting q f hold) = Backs q hold
  Tagged (looking q f hold) = Backs q hold
  Tagged (looked q f hold found) = Backs q hold
  Tagged (storing q f hold found) = Backs q hold
  Tagged (landing q f hold found) = Backs q hold
  Tagged p = Unit

  pub looks_for-held :
      (client : Addr) (p : Thread E) → Tagged p → looks_for client p ≤ held_for client (hold_of p)
  looks_for-held client (starting q f hold) h = Backs-held_for client q hold h
  looks_for-held client (looking q f hold) h = Backs-held_for client q hold h
  looks_for-held client (looked q f hold found) h = Backs-held_for client q hold h
  looks_for-held client (storing q f hold found) h = Backs-held_for client q hold h
  looks_for-held client (landing q f hold found) h = Backs-held_for client q hold h
  looks_for-held client p h = omega arith

  abbrev MovedTagged : Moved E → Type 0
  MovedTagged m = Tagged m.thread × All Tagged m.spawned

  first_find-Tagged :
      (r : Resolver E) (q : Query) (tag : Option Addr) (l : Lookup E)
      → q.client ≡ tag
      → MovedTagged (first_find r q tag l)
  unfolding first_find
  first_find-Tagged r q none (in_flight f) h = (tt, tt)
  first_find-Tagged r q (some c) (in_flight f) h = (tt, tt)
  first_find-Tagged r q none (cached found) h = (tt, tt)
  first_find-Tagged r q (some c) (cached found) h = (tt, tt)
  first_find-Tagged r q none missing h = (h, tt)
  first_find-Tagged r q (some c) missing h = (h, tt)

  enter-Tagged :
      (r : Resolver E) (q : Query) (client : Addr) (o : Option ℕ)
      → q.client ≡ some client
      → MovedTagged (enter r q client o)
  unfolding enter
  enter-Tagged r q client none h = (h, tt)
  enter-Tagged r q client (some cs) h = (h, tt)

  take_slot-Tagged :
      (r : Resolver E) (q : Query) (client : Addr) (cs : ℕ) (o : Option E)
      → q.client ≡ some client
      → MovedTagged (take_slot r q client cs o)
  unfolding take_slot
  take_slot-Tagged r q client cs (some e) h = (tt, tt)
  take_slot-Tagged r q client cs none h = elim (Bool-cases (ltb (r.slots cs).held max_per_client)) [
    | inl room ↦ rw room (h, tt)
    | inr full ↦ rw full (h, tt)
  ]

  second_find-Tagged :
      (r : Resolver E) (q : Query) (hold : Hold) (l : Lookup E)
      → Backs q hold
      → MovedTagged (second_find r q hold l)
  unfolding second_find
  second_find-Tagged r q hold (in_flight f) h = (tt, tt)
  second_find-Tagged r q hold (cached found) h = (tt, tt)
  second_find-Tagged r q hold missing h = (tt, (h, tt))

  resume-Tagged : (after : After E) → Tagged (resume after)
  resume-Tagged (wait_on q f) = tt
  resume-Tagged (reply_with q reply) = tt
  resume-Tagged end = tt

  free-Tagged : (r : Resolver E) (hold : Hold) (after : After E) → MovedTagged (free r hold after)
  unfolding free
  free-Tagged r none after = (resume-Tagged after, tt)
  free-Tagged r (some (client, cs)) after = (tt, tt)

  leave-Tagged :
      (r : Resolver E) (client : Addr) (cs : ℕ) (after : After E)
      → MovedTagged (leave r client cs after)
  unfolding leave
  leave-Tagged r client cs after = (resume-Tagged after, tt)

  wait-Tagged :
      (r : Resolver E) (q : Query) (f : ℕ) (o : Option E) (result : _)
      → MovedTagged (wait r q f o result)
  unfolding wait
  wait-Tagged r q f (some e) none = (tt, tt)
  wait-Tagged r q f (some e) (some found) = (tt, tt)
  wait-Tagged r q f none (some found) = (tt, tt)
  wait-Tagged r q f none none = (tt, tt)

  start_lookup-Tagged :
      (r : Resolver E) (q : Query) (f : ℕ) (hold : Hold) (o : Option E)
      → Backs q hold
      → MovedTagged (start_lookup r q f hold o)
  unfolding start_lookup
  start_lookup-Tagged r q f hold (some e) h = (h, tt)
  start_lookup-Tagged r q f hold none h = elim (Bool-cases (ltb r.running max_concurrent)) [
    | inl room ↦ rw room (h, tt)
    | inr full ↦ rw full (h, tt)
  ]

  module _ (not_found : E → Bool) where
    advance-Tagged :
        (r : Resolver E) (p : Thread E) (env : Env E)
        → Tagged p
        → MovedTagged (advance not_found r p env)
    unfolding advance
    advance-Tagged r (calling q) env h =
        first_find-Tagged r q q.client (find_locked r (query_key q) env.now) refl
    advance-Tagged r (entering q client) env h = enter-Tagged r q client (get client r.clients) h
    advance-Tagged r (queued q client cs) env h = take_slot-Tagged r q client cs env.ctx_error h
    advance-Tagged r (slotted q hold) env h =
        second_find-Tagged r q hold (find_locked r (query_key q) env.now) h
    advance-Tagged r (freeing hold after) env h = free-Tagged r hold after
    advance-Tagged r (leaving client cs after) env h = leave-Tagged r client cs after
    advance-Tagged r (waiting q f) env h = wait-Tagged r q f env.ctx_error (r.results f)
    advance-Tagged r (returned q reply) env h = (tt, tt)
    advance-Tagged r (starting q f hold) env h = start_lookup-Tagged r q f hold env.ctx_error h
    advance-Tagged r (looking q f hold) env h = (h, tt)
    advance-Tagged r (looked q f hold found) env h = (h, tt)
    advance-Tagged r (storing q f hold found) env h = (h, tt)
    advance-Tagged r (landing q f hold found) env h = (tt, tt)
    advance-Tagged r (closing f hold found) env h = (tt, tt)
    advance-Tagged r finished env h = (tt, tt)

    pub run-Tagged :
        (events : List (Event E)) → All Tagged (run_events not_found (new_resolver, []) events).1
    run-Tagged events =
        run_new_keeps not_found (λ r threads. All Tagged threads)
          (λ r xs ys zs all. All_swap Tagged xs ys zs all)
          (λ r p rest env all.
            let m = advance not_found r p env in
            let (thread, spawned) = advance-Tagged r p env all.0 in
            (thread, All-append Tagged m.spawned rest spawned all.1))
          (λ r threads q all. (tt, all)) events tt
