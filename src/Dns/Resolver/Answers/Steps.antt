-- ===== src/Dns/Resolver/Answers/Steps.antt =====
-- Every step of every thread keeps the answers honest.
use proxy_acl.Base.{
  ℕ, ◌+◌, ◌≡◌, refl, sym, inl, inr, Bool, Option, none, some, List, [], ◌∷◌, ◌++◌, arith, ◌==◌, ltb,
  Bool-cases,
}
use proxy_acl.Base.Text.{Bytes, text_eq}
use proxy_acl.Base.Maps.{text_key, GoMap, get, delete}
use proxy_acl.Base.Maps.Laws.{get-put, get-delete}
use proxy_acl.Netip.{Addr}
use proxy_acl.Dns.Cache.{Found, CacheEntry, find_fresh, entry_of, store}
use proxy_acl.Dns.Cache.Bounded.{store-Unique}
use proxy_acl.Dns.Cache.Fresh.{find_fresh-store_old}
use proxy_acl.Dns.Resolver.Thread.{
  max_concurrent, max_per_client, Query, query_key, ClientSlots, Resolver, Hold, After, wait_on,
  reply_with, end, Thread, calling, entering, queued, slotted, freeing, leaving, waiting, returned,
  starting, looking, looked, storing, landing, closing, finished, Env,
}
use proxy_acl.Dns.Resolver.Step.{
  Lookup, in_flight, cached, missing, Moved, find_locked, set_at, resume, first_find, enter,
  take_slot, second_find, free, wait, start_lookup, advance,
}
use proxy_acl.Dns.Resolver.Answers.Grow.{
  with_owner, Own-new, Told-more, All_Honest-new, All_Honest-more,
}
use proxy_acl.Dns.Resolver.Answers.{Told, Own, HonestAfter, Honest, AnswersInv}

module _ {E : Type 0} where
  abbrev MovedInv : Moved E → List (Thread E) → Type 0
  MovedInv m rest = AnswersInv m.resolver (m.thread ∷ m.spawned ++ rest)

  -- A step that leaves the cache, the flights and the answers as they are.
  quiet-AnswersInv :
      (r : Resolver E) (clients : GoMap Addr ℕ) (running : ℕ) (slots : ℕ → ClientSlots) (next : ℕ)
      (p p' : Thread E) (rest : List (Thread E)) (v : AnswersInv r (p ∷ rest))
      → Honest v.owner r.next_flight r.asked p'
      → AnswersInv
          (record r { clients = clients; running = running; slots = slots; next_slots = next })
          (p' ∷ rest)
  quiet-AnswersInv r clients running slots next p p' rest v honest = record {
    owner = v.owner;
    unique = v.unique;
    cached_told = v.cached_told;
    landed_told = v.landed_told;
    listed_own = v.listed_own;
    honest = (honest, v.honest.1);
  }

  same-AnswersInv :
      (r : Resolver E) (p p' : Thread E) (rest : List (Thread E)) (v : AnswersInv r (p ∷ rest))
      → Honest v.owner r.next_flight r.asked p'
      → AnswersInv r (p' ∷ rest)
  same-AnswersInv r = quiet-AnswersInv r r.clients r.running r.slots r.next_slots

  -- What findLocked returns is for that key.
  abbrev Right : (r : Resolver E) → (ℕ → Bytes) → Bytes → Lookup E → Type 0
  Right r owner key (in_flight f) = Own owner r.next_flight f key
  Right r owner key (cached found) = Told r.asked key found
  Right r owner key missing = Unit

  find_locked-Right :
      (r : Resolver E) (threads : List (Thread E)) (key : Bytes) (now : ℕ)
      (v : AnswersInv r threads)
      → Right r v.owner key (find_locked r key now)
  unfolding find_locked
  find_locked-Right r threads key now v = by_entry (find_fresh key now r.entries) refl
    where
      by_flight :
          (o : Option ℕ)
          → get key r.flights ≡ o
          → Right r v.owner key
              (elim o as (λ x. Lookup E) [ some f ↦ in_flight f | none ↦ missing ])
      by_flight (some f) e = v.listed_own key f e
      by_flight none e = tt

      by_entry :
          (o : Option (Found E))
          → find_fresh key now r.entries ≡ o
          → Right r v.owner key (elim o as (λ x. Lookup E) [
            | some found ↦ cached found
            | none ↦ elim (get key r.flights) as (λ x. Lookup E) [
              | some f ↦ in_flight f
              | none ↦ missing
            ]
          ])
      by_entry (some found) e = v.cached_told key now found e
      by_entry none e = by_flight (get key r.flights) refl

  first_find-AnswersInv :
      (r : Resolver E) (q : Query) (tag : Option Addr) (l : Lookup E) (rest : List (Thread E))
      (v : AnswersInv r (calling q ∷ rest))
      → Right r v.owner (query_key q) l
      → MovedInv (first_find r q tag l) rest
  unfolding first_find
  first_find-AnswersInv r q none (in_flight f) rest v right = same-AnswersInv r _ _ rest v right
  first_find-AnswersInv r q (some c) (in_flight f) rest v right = same-AnswersInv r _ _ rest v right
  first_find-AnswersInv r q none (cached found) rest v right = same-AnswersInv r _ _ rest v right
  first_find-AnswersInv r q (some c) (cached found) rest v right =
      same-AnswersInv r _ _ rest v right
  first_find-AnswersInv r q none missing rest v right = same-AnswersInv r _ _ rest v tt
  first_find-AnswersInv r q (some c) missing rest v right = same-AnswersInv r _ _ rest v tt

  enter-AnswersInv :
      (r : Resolver E) (q : Query) (client : Addr) (o : Option ℕ) (rest : List (Thread E))
      → AnswersInv r (entering q client ∷ rest)
      → MovedInv (enter r q client o) rest
  unfolding enter
  enter-AnswersInv r q client (some cs) rest v = quiet-AnswersInv r _ _ _ _ _ _ rest v tt
  enter-AnswersInv r q client none rest v = quiet-AnswersInv r _ _ _ _ _ _ rest v tt

  take_slot-AnswersInv :
      (r : Resolver E) (q : Query) (client : Addr) (cs : ℕ) (o : Option E) (rest : List (Thread E))
      → AnswersInv r (queued q client cs ∷ rest)
      → MovedInv (take_slot r q client cs o) rest
  unfolding take_slot
  take_slot-AnswersInv r q client cs (some e) rest v = same-AnswersInv r _ _ rest v tt
  take_slot-AnswersInv r q client cs none rest v =
      elim (Bool-cases (ltb (r.slots cs).held max_per_client)) [
        | inr full ↦ rw full v
        | inl room ↦ rw room (
            quiet-AnswersInv r _ _ _ _ (queued q client cs) (slotted q (some (client, cs))) rest v
              tt)
      ]

  begin-AnswersInv :
      (r : Resolver E) (q : Query) (hold : Hold) (rest : List (Thread E))
      → AnswersInv r (slotted q hold ∷ rest)
      → MovedInv (second_find r q hold missing) rest
  unfolding second_find set_at
  begin-AnswersInv r q hold rest v =
      let next = r.next_flight in
      let key = query_key q in
      let own : Own (with_owner v.owner next key) (next + 1) next key = ground arith in
      record {
        owner = with_owner v.owner next key;
        unique = v.unique;
        cached_told = v.cached_told;
        landed_told = λ f found e. elim (Bool-cases (next == f)) [
          | inl new ↦ absurd (ground (arith, new, e))
          | inr old ↦ rw old (v.landed_told f found (ground (arith, old, e)))
        ];
        listed_own = λ k f m. elim (Bool-cases (text_eq key k)) [
          | inl same ↦
              let e : key ≡ k = (text_key.same_iff key k).0 same in
              let here : next ≡ f = ground (arith, get-put key k next r.flights, m, same) in
              rw (sym here, sym e) own
          | inr other ↦
              Own-new v.owner next f key k
                (v.listed_own k f (ground (arith, get-put key k next r.flights, m, other)))
        ];
        honest = (own, (own, All_Honest-new v.owner next key r.asked rest v.honest.1));
      }

  second_find-AnswersInv :
      (r : Resolver E) (q : Query) (hold : Hold) (l : Lookup E) (rest : List (Thread E))
      (v : AnswersInv r (slotted q hold ∷ rest))
      → Right r v.owner (query_key q) l
      → MovedInv (second_find r q hold l) rest
  second_find-AnswersInv r q hold (in_flight f) rest v right =
      unfold second_find in same-AnswersInv r _ _ rest v right
  second_find-AnswersInv r q hold (cached found) rest v right =
      unfold second_find in same-AnswersInv r _ _ rest v right
  second_find-AnswersInv r q hold missing rest v right = begin-AnswersInv r q hold rest v

  Honest-resume :
      (owner : ℕ → Bytes) (next : ℕ) (asked : List (Query × Found E)) (after : After E)
      → HonestAfter owner next asked after
      → Honest owner next asked (resume after)
  Honest-resume owner next asked (wait_on q f) h = h
  Honest-resume owner next asked (reply_with q reply) h = h
  Honest-resume owner next asked end h = h

  free-AnswersInv :
      (r : Resolver E) (hold : Hold) (after : After E) (rest : List (Thread E))
      → AnswersInv r (freeing hold after ∷ rest)
      → MovedInv (free r hold after) rest
  unfolding free
  free-AnswersInv r none after rest v =
      same-AnswersInv r _ (resume after) rest v
        (Honest-resume v.owner r.next_flight r.asked after v.honest.0)
  free-AnswersInv r (some (client, cs)) after rest v =
      quiet-AnswersInv r _ _ _ _ (freeing (some (client, cs)) after) (leaving client cs after) rest
        v v.honest.0

  wait-AnswersInv :
      (r : Resolver E) (q : Query) (f : ℕ) (e : Option E) (o : Option (Found E))
      (rest : List (Thread E))
      → r.results f ≡ o
      → AnswersInv r (waiting q f ∷ rest)
      → MovedInv (wait r q f e o) rest
  unfolding wait
  wait-AnswersInv r q f (some e) none rest here v = same-AnswersInv r _ _ rest v tt
  wait-AnswersInv r q f (some e) (some found) rest here v = same-AnswersInv r _ _ rest v tt
  wait-AnswersInv r q f none (some found) rest here v =
      let told : Told r.asked (query_key q) found =
        rw (sym v.honest.0.1) (v.landed_told f found here) in
      same-AnswersInv r _ _ rest v told
  wait-AnswersInv r q f none none rest here v = v

  start_lookup-AnswersInv :
      (r : Resolver E) (q : Query) (f : ℕ) (hold : Hold) (o : Option E) (rest : List (Thread E))
      → AnswersInv r (starting q f hold ∷ rest)
      → MovedInv (start_lookup r q f hold o) rest
  unfolding start_lookup
  start_lookup-AnswersInv r q f hold (some e) rest v =
      same-AnswersInv r _ _ rest v (v.honest.0, inl refl)
  start_lookup-AnswersInv r q f hold none rest v =
      elim (Bool-cases (ltb r.running max_concurrent)) [
        | inr full ↦ rw full v
        | inl room ↦
            rw room
              (quiet-AnswersInv r _ _ _ _ (starting q f hold) (looking q f hold) rest v v.honest.0)
      ]

  answer-AnswersInv :
      (r : Resolver E) (q : Query) (f : ℕ) (hold : Hold) (answer : Found E) (rest : List (Thread E))
      → AnswersInv r (looking q f hold ∷ rest)
      → AnswersInv (record r { asked = (q, answer) ∷ r.asked }) (looked q f hold answer ∷ rest)
  answer-AnswersInv r q f hold answer rest v =
      let x : Query × Found E = (q, answer) in
      record {
        owner = v.owner;
        unique = v.unique;
        cached_told =
            λ key now found e. Told-more x r.asked key found (v.cached_told key now found e);
        landed_told = λ i found e. Told-more x r.asked (v.owner i) found (v.landed_told i found e);
        listed_own = v.listed_own;
        honest = (
          (v.honest.0, inr (q, answer, inl refl, refl, refl)),
          All_Honest-more v.owner r.next_flight x r.asked rest v.honest.1,
        );
      }

  -- What store makes of an answer tells it, or has no addresses.
  entry_of-Told :
      (not_found : E → Bool) (asked : List (Query × Found E)) (key : Bytes) (error : Option E)
      (addrs : List Addr) (made : ℕ) (e : CacheEntry E)
      → Told asked key (record { addrs = addrs; error = error })
      → entry_of not_found error addrs made ≡ some e
      → Told asked key e.found
  unfolding entry_of
  entry_of-Told not_found asked key (some x) addrs made e told made_of =
      inl (ground (arith, made_of))
  entry_of-Told not_found asked key none [] made e told made_of = cc
  entry_of-Told not_found asked key none (a ∷ addrs) made e told made_of =
      let same : e.found ≡ record { addrs = a ∷ addrs; error = none } = ground (arith, made_of) in
      rw same told

  store-AnswersInv :
      (not_found : E → Bool) (r : Resolver E) (q : Query) (f : ℕ) (hold : Hold) (found : Found E)
      (made now : ℕ) (order : List Bytes) (rest : List (Thread E))
      → AnswersInv r (storing q f hold found ∷ rest)
      → AnswersInv
          (record r { entries = store not_found (query_key q) found made now order r.entries })
          (landing q f hold found ∷ rest)
  store-AnswersInv not_found r q f hold found made now order rest v = record {
    owner = v.owner;
    unique = store-Unique not_found (query_key q) found made now order r.entries v.unique;
    cached_told = told;
    landed_told = v.landed_told;
    listed_own = v.listed_own;
    honest = v.honest;
  }
    where
      told :
          (key : Bytes) (t : ℕ) (answer : Found E)
          → find_fresh key t (store not_found (query_key q) found made now order r.entries)
            ≡ some answer
          → Told r.asked key answer
      told key t answer e =
          elim (find_fresh-store_old not_found (query_key q) key found answer made now t order
            r.entries v.unique e) [
              | inr before ↦ v.cached_told key t answer before
              | inl (same, (entry, made_of, live, is_answer)) ↦
                  let h : Told r.asked (query_key q) entry.found =
                    entry_of-Told not_found r.asked (query_key q) found.error found.addrs made entry
                      v.honest.0.1 made_of in
                  rw (same, sym is_answer) h
            ]

  land-AnswersInv :
      (r : Resolver E) (q : Query) (f : ℕ) (hold : Hold) (found : Found E) (rest : List (Thread E))
      → AnswersInv r (landing q f hold found ∷ rest)
      → AnswersInv
          (record r { flights = delete (query_key q) r.flights })
          (closing f hold found ∷ rest)
  land-AnswersInv r q f hold found rest v = record {
    owner = v.owner;
    unique = v.unique;
    cached_told = v.cached_told;
    landed_told = v.landed_told;
    listed_own =
        λ key i m. v.listed_own key i (ground (arith, get-delete (query_key q) key r.flights, m));
    honest = ((v.honest.0.0.0, rw v.honest.0.0.1 v.honest.0.1), v.honest.1);
  }

  close-AnswersInv :
      (r : Resolver E) (f : ℕ) (hold : Hold) (found : Found E) (rest : List (Thread E))
      → AnswersInv r (closing f hold found ∷ rest)
      → AnswersInv
          (record r { results = set_at r.results f (some found) })
          (freeing hold end ∷ rest)
  unfolding set_at
  close-AnswersInv r f hold found rest v = record {
    owner = v.owner;
    unique = v.unique;
    cached_told = v.cached_told;
    landed_told = λ i answer e. elim (Bool-cases (f == i)) [
      | inr other ↦ v.landed_told i answer (ground (arith, other, e))
      | inl same ↦
          let here : f ≡ i = ground (arith, same) in
          let is_answer : found ≡ answer = ground (arith, same, e) in
          rw (sym here, sym is_answer) v.honest.0.1
    ];
    listed_own = v.listed_own;
    honest = (tt, v.honest.1);
  }

  module _ (not_found : E → Bool) where
    pub advance-AnswersInv :
        (r : Resolver E) (p : Thread E) (rest : List (Thread E)) (env : Env E)
        → AnswersInv r (p ∷ rest)
        → MovedInv (advance not_found r p env) rest
    unfolding advance
    advance-AnswersInv r (calling q) rest env v =
        first_find-AnswersInv r q q.client (find_locked r (query_key q) env.now) rest v
          (find_locked-Right r _ (query_key q) env.now v)
    advance-AnswersInv r (entering q client) rest env v = enter-AnswersInv r q client _ rest v
    advance-AnswersInv r (queued q client cs) rest env v =
        take_slot-AnswersInv r q client cs env.ctx_error rest v
    advance-AnswersInv r (slotted q hold) rest env v =
        second_find-AnswersInv r q hold (find_locked r (query_key q) env.now) rest v
          (find_locked-Right r _ (query_key q) env.now v)
    advance-AnswersInv r (freeing hold after) rest env v = free-AnswersInv r hold after rest v
    advance-AnswersInv r (leaving client cs after) rest env v =
        quiet-AnswersInv r _ _ _ _ (leaving client cs after) (resume after) rest v
          (Honest-resume v.owner r.next_flight r.asked after v.honest.0)
    advance-AnswersInv r (waiting q f) rest env v =
        wait-AnswersInv r q f env.ctx_error (r.results f) rest refl v
    advance-AnswersInv r (returned q reply) rest env v = v
    advance-AnswersInv r (starting q f hold) rest env v =
        start_lookup-AnswersInv r q f hold env.ctx_error rest v
    advance-AnswersInv r (looking q f hold) rest env v =
        answer-AnswersInv r q f hold env.answer rest v
    advance-AnswersInv r (looked q f hold found) rest env v =
        quiet-AnswersInv r _ _ _ _ (looked q f hold found) (storing q f hold found) rest v
          v.honest.0
    advance-AnswersInv r (storing q f hold found) rest env v =
        store-AnswersInv not_found r q f hold found env.now env.later env.order rest v
    advance-AnswersInv r (landing q f hold found) rest env v =
        land-AnswersInv r q f hold found rest v
    advance-AnswersInv r (closing f hold found) rest env v = close-AnswersInv r f hold found rest v
    advance-AnswersInv r finished rest env v = v
