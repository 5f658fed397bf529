-- ===== src/Dns/Resolver/Step.antt =====
-- One step of a thread.
use proxy_acl.Base.{ℕ, ◌+◌, ◌-◌, Bool, Option, none, some, List, [], ◌∷◌, ltb, ◌==◌, if◌then◌else◌}
use proxy_acl.Base.Text.{Bytes}
use proxy_acl.Base.Maps.{text_key, get, delete, put}
use proxy_acl.Netip.{Addr, addr_key}
use proxy_acl.Dns.Cache.{Found, find_fresh, store}
use proxy_acl.Dns.Resolver.Thread.{
  max_concurrent, max_per_client, Query, query_key, Resolver, Hold, answered, gave_up, After,
  wait_on, reply_with, end, Thread, calling, entering, queued, slotted, freeing, leaving, waiting,
  returned, starting, looking, looked, storing, landing, closing, finished, Env,
}

-- What findLocked returns.
pub data Lookup (E : Type 0) : Type 0 where
  in_flight : ℕ → Lookup E
  cached : Found E → Lookup E
  missing : Lookup E

pub record Moved (E : Type 0) : Type 0 where
  pub resolver : Resolver E
  pub thread : Thread E
  pub spawned : List (Thread E)

-- A write through a pointer.
unfoldable pub set_at {ℓ} : {A : Type ℓ} → (ℕ → A) → ℕ → A → ℕ → A
set_at heap i a j = if i == j then a else heap j

module _ {E : Type 0} where
  unfoldable pub find_locked : Resolver E → Bytes → ℕ → Lookup E
  unfolding find_fresh get
  find_locked r key now = elim (find_fresh key now r.entries) [
    | some found ↦ cached found
    | none ↦ elim (get key r.flights) [ some f ↦ in_flight f | none ↦ missing ]
  ]

  abbrev pub resume : After E → Thread E
  resume (wait_on q f) = waiting q f
  resume (reply_with q reply) = returned q reply
  resume end = finished

  abbrev pub stay : Resolver E → Thread E → Moved E
  stay r p = record { resolver = r; thread = p; spawned = [] }

  -- LookupNetIP after its first findLocked
  unfoldable pub first_find : Resolver E → Query → Option Addr → Lookup E → Moved E
  first_find r q tag (in_flight f) = stay r (waiting q f)
  first_find r q tag (cached found) = stay r (returned q (answered found))
  first_find r q none missing = stay r (slotted q none)
  first_find r q (some client) missing = stay r (entering q client)

  -- acquireClient, first critical section: `cs` is r.clients[client].
  unfoldable pub enter : Resolver E → Query → Addr → Option ℕ → Moved E
  unfolding set_at put
  enter r q client (some cs) =
      stay
        (record r {
          slots = set_at r.slots cs (record (r.slots cs) { users = (r.slots cs).users + 1 });
        })
        (queued q client cs)
  enter r q client none =
      stay
        (record r {
          slots = set_at r.slots r.next_slots (record { held = 0; users = 1 });
          next_slots = r.next_slots + 1;
          clients = put client r.next_slots r.clients;
        })
        (queued q client r.next_slots)

  -- acquireClient, the select
  unfoldable pub take_slot : Resolver E → Query → Addr → ℕ → Option E → Moved E
  unfolding set_at
  take_slot r q client cs (some e) = stay r (leaving client cs (reply_with q (gave_up e)))
  take_slot r q client cs none =
      if ltb (r.slots cs).held max_per_client
      then stay
          (record r {
            slots = set_at r.slots cs (record (r.slots cs) { held = (r.slots cs).held + 1 });
          })
          (slotted q (some (client, cs)))
      else stay r (queued q client cs)

  -- LookupNetIP after its second findLocked
  unfoldable pub second_find : Resolver E → Query → Hold → Lookup E → Moved E
  unfolding set_at put
  second_find r q hold (in_flight f) = stay r (freeing hold (wait_on q f))
  second_find r q hold (cached found) = stay r (freeing hold (reply_with q (answered found)))
  second_find r q hold missing = record {
    resolver = record r {
      results = set_at r.results r.next_flight none;
      next_flight = r.next_flight + 1;
      flights = put (query_key q) r.next_flight r.flights;
    };
    thread = waiting q r.next_flight;
    spawned = starting q r.next_flight hold ∷ [];
  }

  -- release(), which gives back a slot that the thread holds
  unfoldable pub free : Resolver E → Hold → After E → Moved E
  unfolding set_at
  free r none after = stay r (resume after)
  free r (some (client, cs)) after =
      stay
        (record r {
          slots = set_at r.slots cs (record (r.slots cs) { held = (r.slots cs).held - 1 });
        })
        (leaving client cs after)

  -- leave()
  unfoldable pub leave : Resolver E → Addr → ℕ → After E → Moved E
  unfolding set_at delete
  leave r client cs after =
      let users = (r.slots cs).users - 1 in
      stay
        (record r {
          slots = set_at r.slots cs (record (r.slots cs) { users = users });
          clients = if users == 0 then delete client r.clients else r.clients;
        })
        (resume after)

  -- wait
  unfoldable pub wait : Resolver E → Query → ℕ → Option E → Option (Found E) → Moved E
  wait r q f (some e) result = stay r (returned q (gave_up e))
  wait r q f none (some found) = stay r (returned q (answered found))
  wait r q f none none = stay r (waiting q f)

  -- run, the select
  unfoldable pub start_lookup : Resolver E → Query → ℕ → Hold → Option E → Moved E
  start_lookup r q f hold (some e) =
      stay r (landing q f hold (record { addrs = []; error = some e }))
  start_lookup r q f hold none =
      if ltb r.running max_concurrent
      then stay (record r { running = r.running + 1 }) (looking q f hold)
      else stay r (starting q f hold)

  module _ (not_found : E → Bool) where
    unfoldable pub advance : Resolver E → Thread E → Env E → Moved E
    unfolding find_locked first_find enter take_slot second_find free leave wait start_lookup store
        get delete set_at
    advance r (calling q) env = first_find r q q.client (find_locked r (query_key q) env.now)
    advance r (entering q client) env = enter r q client (get client r.clients)
    advance r (queued q client cs) env = take_slot r q client cs env.ctx_error
    advance r (slotted q hold) env = second_find r q hold (find_locked r (query_key q) env.now)
    advance r (freeing hold after) env = free r hold after
    advance r (leaving client cs after) env = leave r client cs after
    advance r (waiting q f) env = wait r q f env.ctx_error (r.results f)
    advance r (returned q reply) env = stay r (returned q reply)
    advance r (starting q f hold) env = start_lookup r q f hold env.ctx_error
    advance r (looking q f hold) env =
        stay (record r { asked = (q, env.answer) ∷ r.asked }) (looked q f hold env.answer)
    advance r (looked q f hold found) env =
        stay (record r { running = r.running - 1 }) (storing q f hold found)
    advance r (storing q f hold found) env =
        stay
          (record r {
            entries = store not_found (query_key q) found env.now env.later env.order r.entries;
          })
          (landing q f hold found)
    advance r (landing q f hold found) env =
        stay (record r { flights = delete (query_key q) r.flights }) (closing f hold found)
    advance r (closing f hold found) env =
        stay (record r { results = set_at r.results f (some found) }) (freeing hold end)
    advance r finished env = stay r finished
