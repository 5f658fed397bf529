-- ===== src/Dns/Resolver/Slots/Users.antt =====
-- A client's slots come into the map with their first user and leave it with their last.
use proxy_acl.Base.{
  ℕ, ◌-◌, ◌≤◌, ◌<◌, ◌≡◌, refl, sym, ap, ◌∙◌, inl, inr, false, none, some, List, [], ◌∷◌, arith,
  if◌then◌else◌, ◌==◌, All, Bool-cases,
}
use proxy_acl.Base.Maps.{GoMap, get, put, delete}
use proxy_acl.Base.Maps.Laws.{get-put, get-put_self, get-delete}
use proxy_acl.Netip.{Addr, addr_key, addr_eq, addr_eq_iff}
use proxy_acl.Dns.Resolver.Thread.{
  Query, Resolver, Hold, After, wait_on, reply_with, end, Thread, entering, queued, leaving,
}
use proxy_acl.Dns.Resolver.Step.{set_at, enter, leave, resume}
use proxy_acl.Dns.Resolver.Keeps.{total}
use proxy_acl.Dns.Resolver.Slots.{held_by, hold_of, use_of, is_looking, Mapped, SlotsInv}

-- A client that is not in the map has no thread in a slot of its own.
Mapped-put :
    (client : Addr) (cs : ℕ) (clients : GoMap Addr ℕ) (h : Hold)
    → get client clients ≡ none
    → Mapped clients h
    → Mapped (put client cs clients) h
Mapped-put client cs clients none fresh m = tt
Mapped-put client cs clients (some (c, i)) fresh m = elim (Bool-cases (addr_eq client c)) [
  | inl same ↦
      let e : client ≡ c = (addr_eq_iff client c).0 same in
      absurd (cc (fresh, m, ap (λ x. get x clients) e))
  | inr other ↦ get-put client c cs clients ∙ rw other m
]

-- In the map a client's slots are its own.
OneClient-put :
    (client : Addr) (next : ℕ) (clients : GoMap Addr ℕ)
    → ((c : Addr) (i : ℕ) → get c clients ≡ some i → i < next)
    → ((c d : Addr) (i : ℕ) → get c clients ≡ some i → get d clients ≡ some i → c ≡ d)
    → (c d : Addr) (i : ℕ) → get c (put client next clients) ≡ some i
    → get d (put client next clients) ≡ some i
    → c ≡ d
OneClient-put client next clients below one c d i m n =
    let m' : (if addr_eq client c then some next else get c clients) ≡ some i =
      sym (get-put client c next clients) ∙ m in
    let n' : (if addr_eq client d then some next else get d clients) ≡ some i =
      sym (get-put client d next clients) ∙ n in
    elim (Bool-cases (addr_eq client c)) [
      | inl c_new ↦ elim (Bool-cases (addr_eq client d)) [
        | inl d_new ↦ sym ((addr_eq_iff client c).0 c_new) ∙ (addr_eq_iff client d).0 d_new
        | inr d_old ↦ absurd (ground (arith, c_new, d_old, m', n', below d i))
      ]
      | inr c_old ↦ elim (Bool-cases (addr_eq client d)) [
        | inl d_new ↦ absurd (ground (arith, c_old, d_new, m', n', below c i))
        | inr d_old ↦ one c d i (ground (arith, c_old, m')) (ground (arith, d_old, n'))
      ]
    ]

Mapped-delete_one :
    (client : Addr) (clients : GoMap Addr ℕ) (cs : ℕ) (h : Hold)
    → get client clients ≡ some cs
    → held_by cs h ≡ 0
    → Mapped clients h
    → Mapped (delete client clients) h
Mapped-delete_one client clients cs none found unheld m = tt
Mapped-delete_one client clients cs (some (c, i)) found unheld m =
    elim (Bool-cases (addr_eq client c)) [
      | inl same ↦
          let e : client ≡ c = (addr_eq_iff client c).0 same in
          let here : get c clients ≡ some cs = ap (λ x. get x clients) (sym e) ∙ found in
          absurd (ground (arith, here, m, unheld))
      | inr other ↦ get-delete client c clients ∙ rw other m
    ]

module _ {E : Type 0} where
  hold-le-use : (i : ℕ) (p : Thread E) → held_by i (hold_of p) ≤ held_by i (use_of p)
  hold-le-use i (queued q client cs) = omega arith
  hold-le-use i (leaving client cs after) = omega arith
  hold-le-use i p = omega arith

  total_hold-le-use :
      (i : ℕ) (threads : List (Thread E))
      → total (λ p. held_by i (hold_of p)) threads ≤ total (λ p. held_by i (use_of p)) threads
  total_hold-le-use i [] = omega arith
  total_hold-le-use i (p ∷ threads) = omega (arith, hold-le-use i p, total_hold-le-use i threads)

  pub enter-old :
      (r : Resolver E) (q : Query) (client : Addr) (cs : ℕ) (rest : List (Thread E))
      → get client r.clients ≡ some cs
      → SlotsInv r (entering q client ∷ rest)
      → SlotsInv (enter r q client (some cs)).resolver (queued q client cs ∷ rest)
  unfolding enter set_at
  enter-old r q client cs rest found v = record {
    held_counted = λ i. ground (arith, v.held_counted i);
    users_counted = λ i. ground (arith, v.users_counted i);
    held_bounded = λ i. ground (arith, v.held_bounded i);
    running_counted = v.running_counted;
    running_bounded = v.running_bounded;
    placed = (found, v.placed.1);
    kept_used = λ c i m. ground (arith, v.kept_used c i m);
    one_client = v.one_client;
    below = v.below;
    unused = λ i far. ground (arith, v.unused i far, v.below client cs found);
  }

  placed-put :
      (client : Addr) (cs : ℕ) (clients : GoMap Addr ℕ) (threads : List (Thread E))
      → get client clients ≡ none
      → All (λ p. Mapped clients (use_of p)) threads
      → All (λ p. Mapped (put client cs clients) (use_of p)) threads
  placed-put client cs clients [] fresh all = tt
  placed-put client cs clients (p ∷ threads) fresh (first, all) = (
    Mapped-put client cs clients (use_of p) fresh first,
    placed-put client cs clients threads fresh all,
  )

  pub enter-new :
      (r : Resolver E) (q : Query) (client : Addr) (rest : List (Thread E))
      → get client r.clients ≡ none
      → SlotsInv r (entering q client ∷ rest)
      → SlotsInv (enter r q client none).resolver (queued q client r.next_slots ∷ rest)
  unfolding enter set_at
  enter-new r q client rest fresh v = record {
    held_counted = λ i.
        ground (arith, v.held_counted i, v.users_counted i, v.unused i, total_hold-le-use i rest);
    users_counted = λ i. ground (arith, v.users_counted i, v.unused i);
    held_bounded = λ i. ground (arith, v.held_bounded i);
    running_counted = v.running_counted;
    running_bounded = v.running_bounded;
    placed = (
      get-put_self client r.next_slots r.clients,
      placed-put client r.next_slots r.clients rest fresh v.placed.1,
    );
    kept_used = λ c i m.
        ground (arith, get-put client c r.next_slots r.clients, v.kept_used c i, v.below c i, m);
    one_client = OneClient-put client r.next_slots r.clients v.below v.one_client;
    below = λ c i m. ground (arith, get-put client c r.next_slots r.clients, v.below c i, m);
    unused = λ i far. ground (arith, v.unused i);
  }

  -- Other threads of a client keep its slots in the map.
  Mapped-delete :
      (client : Addr) (clients : GoMap Addr ℕ) (cs : ℕ) (threads : List (Thread E))
      → get client clients ≡ some cs
      → total (λ p. held_by cs (use_of p)) threads ≡ 0
      → All (λ p. Mapped clients (use_of p)) threads
      → All (λ p. Mapped (delete client clients) (use_of p)) threads
  Mapped-delete client clients cs [] found none_left all = tt
  Mapped-delete client clients cs (p ∷ threads) found none_left (first, all) = (
    Mapped-delete_one client clients cs (use_of p) found (omega (arith, none_left)) first,
    Mapped-delete client clients cs threads found (omega (arith, none_left)) all,
  )

  pub hold_of-resume : (after : After E) → hold_of (resume after) ≡ none
  hold_of-resume (wait_on q f) = refl
  hold_of-resume (reply_with q reply) = refl
  hold_of-resume end = refl

  pub use_of-resume : (after : After E) → use_of (resume after) ≡ none
  use_of-resume (wait_on q f) = refl
  use_of-resume (reply_with q reply) = refl
  use_of-resume end = refl

  pub is_looking-resume : (after : After E) → is_looking (resume after) ≡ 0
  is_looking-resume (wait_on q f) = refl
  is_looking-resume (reply_with q reply) = refl
  is_looking-resume end = refl

  -- What leave() makes of the resolver, with the map that it leaves.
  abbrev left : Resolver E → ℕ → GoMap Addr ℕ → Resolver E
  left r cs clients = record r {
    slots = set_at r.slots cs (record (r.slots cs) { users = (r.slots cs).users - 1 });
    clients = clients;
  }

  leave_last :
      (r : Resolver E) (client : Addr) (cs : ℕ) (after : After E) (rest : List (Thread E))
      → (r.slots cs).users - 1 ≡ 0
      → SlotsInv r (leaving client cs after ∷ rest)
      → SlotsInv (left r cs (delete client r.clients)) (resume after ∷ rest)
  unfolding set_at
  leave_last r client cs after rest last v =
      let none_left : total (λ p. held_by cs (use_of p)) rest ≡ 0 =
        ground (arith, v.users_counted cs, last) in
      record {
        held_counted = λ i. rw (hold_of-resume after) (ground (arith, v.held_counted i));
        users_counted = λ i. rw (use_of-resume after) (ground (arith, v.users_counted i));
        held_bounded = λ i. ground (arith, v.held_bounded i);
        running_counted = rw (is_looking-resume after) v.running_counted;
        running_bounded = v.running_bounded;
        placed = (
          rw (use_of-resume after) tt,
          Mapped-delete client r.clients cs rest v.placed.0 none_left v.placed.1,
        );
        kept_used = λ c i m. used c i (old c i m) (other c i m);
        one_client = λ c d i m n. v.one_client c d i (old c i m) (old d i n);
        below = λ c i m. v.below c i (old c i m);
        unused = λ i far. ground (arith, v.unused i far);
      }
    where
      old : (c : Addr) (i : ℕ) → get c (delete client r.clients) ≡ some i → get c r.clients ≡ some i
      old c i m = ground (arith, get-delete client c r.clients, m)

      other :
          (c : Addr) (i : ℕ) → get c (delete client r.clients) ≡ some i → addr_eq client c ≡ false
      other c i m = ground (arith, get-delete client c r.clients, m)

      used :
          (c : Addr) (i : ℕ)
          → get c r.clients ≡ some i
          → addr_eq client c ≡ false
          → 0 < (set_at r.slots cs (record (r.slots cs) { users = (r.slots cs).users - 1 }) i).users
      used c i m apart = elim (Bool-cases (cs == i)) [
        | inr elsewhere ↦ rw elsewhere (v.kept_used c i m)
        | inl same ↦
            let e : cs ≡ i = ground (arith, same) in
            let m' : get c r.clients ≡ some cs = rw e m in
            let one : client ≡ c = v.one_client client c cs v.placed.0 m' in
            absurd (cc (apart, (addr_eq_iff client c).1 one))
      ]

  leave_others :
      (r : Resolver E) (client : Addr) (cs : ℕ) (after : After E) (rest : List (Thread E))
      → 0 < (r.slots cs).users - 1
      → SlotsInv r (leaving client cs after ∷ rest)
      → SlotsInv (left r cs r.clients) (resume after ∷ rest)
  unfolding set_at
  leave_others r client cs after rest more v = record {
    held_counted = λ i. rw (hold_of-resume after) (ground (arith, v.held_counted i));
    users_counted = λ i. rw (use_of-resume after) (ground (arith, v.users_counted i));
    held_bounded = λ i. ground (arith, v.held_bounded i);
    running_counted = rw (is_looking-resume after) v.running_counted;
    running_bounded = v.running_bounded;
    placed = (rw (use_of-resume after) tt, v.placed.1);
    kept_used = λ c i m. ground (arith, v.kept_used c i m);
    one_client = v.one_client;
    below = v.below;
    unused = λ i far. ground (arith, v.unused i far);
  }

  pub leave-SlotsInv :
      (r : Resolver E) (client : Addr) (cs : ℕ) (after : After E) (rest : List (Thread E))
      → SlotsInv r (leaving client cs after ∷ rest)
      → SlotsInv (leave r client cs after).resolver (resume after ∷ rest)
  unfolding leave
  leave-SlotsInv r client cs after rest v = elim (Bool-cases ((r.slots cs).users - 1 == 0)) [
    | inl last ↦
        let e : (r.slots cs).users - 1 ≡ 0 = ground (arith, last) in
        rw last (leave_last r client cs after rest e v)
    | inr more ↦ rw more (leave_others r client cs after rest (ground (arith, more)) v)
  ]
