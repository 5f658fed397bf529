-- ===== src/Dns/Resolver/Slots/Bounds.antt =====
-- The limits on lookups hold in every schedule, and no client is remembered for longer than it asks.
use proxy_acl.Base.{
  ℕ, ◌≤◌, ◌<◌, ◌≡◌, refl, sym, ap, ◌∙◌, ◌⊎◌, inl, inr, Bool, none, some, List, [], ◌∷◌, arith,
  Bool-cases, Option-cases, All,
}
use proxy_acl.Base.Maps.{GoMap, get}
use proxy_acl.Netip.{Addr, addr_key, addr_eq, addr_eq_iff}
use proxy_acl.Dns.Resolver.Thread.{
  max_concurrent, max_per_client, Hold, Thread, calling, queued, leaving,
}
use proxy_acl.Dns.Resolver.Run.{Event, new_resolver, run_events}
use proxy_acl.Dns.Resolver.Keeps.{total, run_new_keeps}
use proxy_acl.Dns.Resolver.Slots.{
  held_by, held_for, hold_of, use_of, is_looking, Mapped, SlotsInv, swap-SlotsInv,
}
use proxy_acl.Dns.Resolver.Slots.Tagged.{Tagged, looks_for, looks_for-held, run-Tagged}
use proxy_acl.Dns.Resolver.Slots.Moves.{add-SlotsInv}
use proxy_acl.Dns.Resolver.Slots.Steps.{advance-SlotsInv}

held_for-le :
    (client : Addr) (cs : ℕ) (clients : GoMap Addr ℕ) (h : Hold)
    → get client clients ≡ some cs
    → Mapped clients h
    → held_for client h ≤ held_by cs h
held_for-le client cs clients none found m = omega arith
held_for-le client cs clients (some (c, i)) found m = elim (Bool-cases (addr_eq client c)) [
  | inr other ↦ rw other (omega arith)
  | inl same ↦
      let e : client ≡ c = (addr_eq_iff client c).0 same in
      let here : get c clients ≡ some cs = ap (λ x. get x clients) (sym e) ∙ found in
      ground (arith, same, here, m)
]

held_for-eq-zero :
    (client : Addr) (clients : GoMap Addr ℕ) (h : Hold)
    → get client clients ≡ none
    → Mapped clients h
    → held_for client h ≡ 0
held_for-eq-zero client clients none gone m = refl
held_for-eq-zero client clients (some (c, i)) gone m = elim (Bool-cases (addr_eq client c)) [
  | inr other ↦ rw other refl
  | inl same ↦
      let e : client ≡ c = (addr_eq_iff client c).0 same in
      absurd (cc (gone, m, ap (λ x. get x clients) e))
]

module _ {E : Type 0} where
  Mapped-hold_of :
      (clients : GoMap Addr ℕ) (p : Thread E)
      → Mapped clients (use_of p)
      → Mapped clients (hold_of p)
  Mapped-hold_of clients (queued q client cs) m = tt
  Mapped-hold_of clients (leaving client cs after) m = tt
  Mapped-hold_of clients p m = m

  -- The threads whose release function gives back a slot of the client: its lookups, and those
  -- about to become one or to give up.
  abbrev pub slots_of : Addr → List (Thread E) → ℕ
  slots_of client threads = total (λ p. held_for client (hold_of p)) threads

  looks_for-le :
      (client : Addr) (threads : List (Thread E))
      → All Tagged threads
      → total (looks_for client) threads ≤ slots_of client threads
  looks_for-le client [] all = omega arith
  looks_for-le client (p ∷ threads) (first, all) =
      omega (arith, looks_for-held client p first, looks_for-le client threads all)

  slots_of-le :
      (client : Addr) (cs : ℕ) (clients : GoMap Addr ℕ) (threads : List (Thread E))
      → get client clients ≡ some cs
      → All (λ p. Mapped clients (use_of p)) threads
      → slots_of client threads ≤ total (λ p. held_by cs (hold_of p)) threads
  slots_of-le client cs clients [] found all = omega arith
  slots_of-le client cs clients (p ∷ threads) found (first, all) = omega (
    arith,
    held_for-le client cs clients (hold_of p) found (Mapped-hold_of clients p first),
    slots_of-le client cs clients threads found all,
  )

  slots_of-eq-zero :
      (client : Addr) (clients : GoMap Addr ℕ) (threads : List (Thread E))
      → get client clients ≡ none
      → All (λ p. Mapped clients (use_of p)) threads
      → slots_of client threads ≡ 0
  slots_of-eq-zero client clients [] gone all = refl
  slots_of-eq-zero client clients (p ∷ threads) gone (first, all) = omega (
    arith,
    held_for-eq-zero client clients (hold_of p) gone (Mapped-hold_of clients p first),
    slots_of-eq-zero client clients threads gone all,
  )

  new-SlotsInv : SlotsInv {E = E} new_resolver []
  unfolding new_resolver get
  new-SlotsInv = record {
    held_counted = λ cs. refl;
    users_counted = λ cs. refl;
    held_bounded = λ cs. omega arith;
    running_counted = refl;
    running_bounded = omega arith;
    placed = tt;
    kept_used = λ client cs m. cc;
    one_client = λ c d cs m n. cc;
    below = λ client cs m. cc;
    unused = λ cs far. refl;
  }

  pub run-SlotsInv :
      (not_found : E → Bool) (events : List (Event E))
      → (let s = run_events not_found (new_resolver, []) events in SlotsInv s.0 s.1)
  run-SlotsInv not_found events =
      run_new_keeps not_found SlotsInv swap-SlotsInv
        (λ r p rest env v. advance-SlotsInv not_found r p rest env v)
        (λ r threads q v. add-SlotsInv r (calling q) threads refl refl refl v) events new-SlotsInv

  -- In every schedule of any number of calls, for every client: every lookup that was started by a call
  -- whose context names the client holds one of the client's slots, from its start until its result is
  -- stored and its flight removed; at most 32 threads hold one of its slots; at most 256 lookups are
  -- made at once in all; and if the resolver remembers the client's slots, some thread uses them.
  pub run_events-bounded :
      (not_found : E → Bool) (events : List (Event E)) (client : Addr)
      → (let s = run_events not_found (new_resolver, []) events in
          (total (looks_for client) s.1 ≤ slots_of client s.1)
          × (slots_of client s.1 ≤ max_per_client)
          × (total is_looking s.1 ≤ max_concurrent)
          × ((get client s.0.clients ≡ none)
              ⊎ ((cs : ℕ) × (get client s.0.clients ≡ some cs)
                  × (0 < total (λ p. held_by cs (use_of p)) s.1))))
  run_events-bounded not_found events client =
      let s = run_events not_found (new_resolver, []) events in
      let v = run-SlotsInv not_found events in
      (
        looks_for-le client s.1 (run-Tagged not_found events),
        elim (Option-cases (get client s.0.clients)) [
          | inl gone ↦ omega (arith, slots_of-eq-zero client s.0.clients s.1 gone v.placed)
          | inr (cs, found) ↦ omega (
            arith,
            slots_of-le client cs s.0.clients s.1 found v.placed,
            v.held_counted cs,
            v.held_bounded cs,
          )
        ],
        omega (arith, v.running_counted, v.running_bounded),
        elim (Option-cases (get client s.0.clients)) [
          | inl gone ↦ inl gone
          | inr (cs, found) ↦
              inr (cs, found, omega (arith, v.kept_used client cs found, v.users_counted cs))
        ],
      )
