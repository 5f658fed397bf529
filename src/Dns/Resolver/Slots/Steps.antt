-- ===== src/Dns/Resolver/Slots/Steps.antt =====
-- Every step of every thread keeps the invariant of the slots.
use proxy_acl.Base.{
  ℕ, ◌+◌, ◌-◌, ◌≡◌, refl, inl, inr, Bool, Option, none, some, List, ◌∷◌, ◌++◌, arith, ltb,
  Bool-cases,
}
use proxy_acl.Base.Maps.{get}
use proxy_acl.Netip.{Addr, addr_key}
use proxy_acl.Dns.Cache.{Found}
use proxy_acl.Dns.Resolver.Thread.{
  max_concurrent, max_per_client, Query, Resolver, Hold, After, Thread, calling, entering, queued,
  slotted, freeing, leaving, waiting, returned, starting, looking, looked, storing, landing,
  closing, finished, Env,
}
use proxy_acl.Dns.Resolver.Step.{
  Lookup, in_flight, cached, missing, Moved, resume, first_find, enter, take_slot, second_find,
  free, leave, wait, start_lookup, advance,
}
use proxy_acl.Dns.Resolver.Slots.{hold_of, use_of, is_looking, SlotsInv}
use proxy_acl.Dns.Resolver.Slots.Moves.{quiet-SlotsInv, add-SlotsInv, run-SlotsInv, hold-SlotsInv}
use proxy_acl.Dns.Resolver.Slots.Users.{
  enter-old, enter-new, leave-SlotsInv, hold_of-resume, use_of-resume, is_looking-resume,
}

module _ {E : Type 0} where
  abbrev MovedInv : Moved E → List (Thread E) → Type 0
  MovedInv m rest = SlotsInv m.resolver (m.thread ∷ m.spawned ++ rest)

  -- A step that changes the resolver elsewhere only.
  same-SlotsInv :
      (r : Resolver E) (p p' : Thread E) (rest : List (Thread E))
      → hold_of p' ≡ hold_of p
      → use_of p' ≡ use_of p
      → is_looking p' ≡ is_looking p
      → SlotsInv r (p ∷ rest)
      → SlotsInv r (p' ∷ rest)
  same-SlotsInv r p p' rest =
      quiet-SlotsInv r r.entries r.flights r.results r.next_flight r.asked p p' rest

  first_find-SlotsInv :
      (r : Resolver E) (q : Query) (tag : Option Addr) (l : Lookup E) (rest : List (Thread E))
      → SlotsInv r (calling q ∷ rest)
      → MovedInv (first_find r q tag l) rest
  unfolding first_find
  first_find-SlotsInv r q none (in_flight f) rest = same-SlotsInv r _ _ rest refl refl refl
  first_find-SlotsInv r q (some c) (in_flight f) rest = same-SlotsInv r _ _ rest refl refl refl
  first_find-SlotsInv r q none (cached found) rest = same-SlotsInv r _ _ rest refl refl refl
  first_find-SlotsInv r q (some c) (cached found) rest = same-SlotsInv r _ _ rest refl refl refl
  first_find-SlotsInv r q none missing rest = same-SlotsInv r _ _ rest refl refl refl
  first_find-SlotsInv r q (some c) missing rest = same-SlotsInv r _ _ rest refl refl refl

  enter-SlotsInv :
      (r : Resolver E) (q : Query) (client : Addr) (o : Option ℕ) (rest : List (Thread E))
      → get client r.clients ≡ o
      → SlotsInv r (entering q client ∷ rest)
      → MovedInv (enter r q client o) rest
  enter-SlotsInv r q client (some cs) rest found v =
      unfold enter in enter-old r q client cs rest found v
  enter-SlotsInv r q client none rest found v = unfold enter in enter-new r q client rest found v

  take_slot-SlotsInv :
      (r : Resolver E) (q : Query) (client : Addr) (cs : ℕ) (o : Option E) (rest : List (Thread E))
      → SlotsInv r (queued q client cs ∷ rest)
      → MovedInv (take_slot r q client cs o) rest
  unfolding take_slot
  take_slot-SlotsInv r q client cs (some e) rest v = same-SlotsInv r _ _ rest refl refl refl v
  take_slot-SlotsInv r q client cs none rest v =
      elim (Bool-cases (ltb (r.slots cs).held max_per_client)) [
        | inr full ↦ rw full v
        | inl room ↦ rw room (
            hold-SlotsInv r cs ((r.slots cs).held + 1) (queued q client cs)
              (slotted q (some (client, cs))) rest (λ i. refl) v.placed.0 (λ i. ground arith)
              (ground (arith, room)) refl v)
      ]

  second_find-SlotsInv :
      (r : Resolver E) (q : Query) (hold : Hold) (l : Lookup E) (rest : List (Thread E))
      → SlotsInv r (slotted q hold ∷ rest)
      → MovedInv (second_find r q hold l) rest
  unfolding second_find
  second_find-SlotsInv r q hold (in_flight f) rest v = same-SlotsInv r _ _ rest refl refl refl v
  second_find-SlotsInv r q hold (cached found) rest v = same-SlotsInv r _ _ rest refl refl refl v
  second_find-SlotsInv r q hold missing rest v =
      add-SlotsInv _ (waiting q r.next_flight) (starting q r.next_flight hold ∷ rest) refl refl refl
        (quiet-SlotsInv r r.entries _ _ _ r.asked (slotted q hold) (starting q r.next_flight hold)
          rest refl refl refl v)

  free-SlotsInv :
      (r : Resolver E) (hold : Hold) (after : After E) (rest : List (Thread E))
      → SlotsInv r (freeing hold after ∷ rest)
      → MovedInv (free r hold after) rest
  unfolding free
  free-SlotsInv r none after rest v =
      same-SlotsInv r _ (resume after) rest (hold_of-resume after) (use_of-resume after)
        (is_looking-resume after) v
  free-SlotsInv r (some (client, cs)) after rest v =
      hold-SlotsInv r cs ((r.slots cs).held - 1) (freeing (some (client, cs)) after)
        (leaving client cs after) rest (λ i. refl) v.placed.0
        (λ i. ground (arith, v.held_counted i)) (omega (arith, v.held_bounded cs)) refl v

  wait-SlotsInv :
      (r : Resolver E) (q : Query) (f : ℕ) (e : Option E) (o : Option (Found E))
      (rest : List (Thread E))
      → SlotsInv r (waiting q f ∷ rest)
      → MovedInv (wait r q f e o) rest
  unfolding wait
  wait-SlotsInv r q f (some e) none rest = same-SlotsInv r _ _ rest refl refl refl
  wait-SlotsInv r q f (some e) (some found) rest = same-SlotsInv r _ _ rest refl refl refl
  wait-SlotsInv r q f none (some found) rest = same-SlotsInv r _ _ rest refl refl refl
  wait-SlotsInv r q f none none rest = same-SlotsInv r _ _ rest refl refl refl

  start_lookup-SlotsInv :
      (r : Resolver E) (q : Query) (f : ℕ) (hold : Hold) (o : Option E) (rest : List (Thread E))
      → SlotsInv r (starting q f hold ∷ rest)
      → MovedInv (start_lookup r q f hold o) rest
  unfolding start_lookup
  start_lookup-SlotsInv r q f hold (some e) rest v = same-SlotsInv r _ _ rest refl refl refl v
  start_lookup-SlotsInv r q f hold none rest v = elim (Bool-cases (ltb r.running max_concurrent)) [
    | inr full ↦ rw full v
    | inl room ↦ rw room (
        run-SlotsInv r (r.running + 1) (starting q f hold) (looking q f hold) rest refl refl
          (omega arith) (ground (arith, room)) v)
  ]

  module _ (not_found : E → Bool) where
    pub advance-SlotsInv :
        (r : Resolver E) (p : Thread E) (rest : List (Thread E)) (env : Env E)
        → SlotsInv r (p ∷ rest)
        → MovedInv (advance not_found r p env) rest
    unfolding advance
    advance-SlotsInv r (calling q) rest env v = first_find-SlotsInv r q q.client _ rest v
    advance-SlotsInv r (entering q client) rest env v = enter-SlotsInv r q client _ rest refl v
    advance-SlotsInv r (queued q client cs) rest env v =
        take_slot-SlotsInv r q client cs env.ctx_error rest v
    advance-SlotsInv r (slotted q hold) rest env v = second_find-SlotsInv r q hold _ rest v
    advance-SlotsInv r (freeing hold after) rest env v = free-SlotsInv r hold after rest v
    advance-SlotsInv r (leaving client cs after) rest env v =
        unfold leave in leave-SlotsInv r client cs after rest v
    advance-SlotsInv r (waiting q f) rest env v =
        wait-SlotsInv r q f env.ctx_error (r.results f) rest v
    advance-SlotsInv r (returned q reply) rest env v = v
    advance-SlotsInv r (starting q f hold) rest env v =
        start_lookup-SlotsInv r q f hold env.ctx_error rest v
    advance-SlotsInv r (looking q f hold) rest env v =
        quiet-SlotsInv r _ _ _ _ _ (looking q f hold) _ rest refl refl refl v
    advance-SlotsInv r (looked q f hold found) rest env v =
        run-SlotsInv r (r.running - 1) (looked q f hold found) (storing q f hold found) rest refl
          refl (omega (arith, v.running_counted)) (omega (arith, v.running_bounded)) v
    advance-SlotsInv r (storing q f hold found) rest env v =
        quiet-SlotsInv r _ _ _ _ _ (storing q f hold found) _ rest refl refl refl v
    advance-SlotsInv r (landing q f hold found) rest env v =
        quiet-SlotsInv r _ _ _ _ _ (landing q f hold found) _ rest refl refl refl v
    advance-SlotsInv r (closing f hold found) rest env v =
        quiet-SlotsInv r _ _ _ _ _ (closing f hold found) _ rest refl refl refl v
    advance-SlotsInv r finished rest env v = v
