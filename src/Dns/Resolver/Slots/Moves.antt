-- ===== src/Dns/Resolver/Slots/Moves.antt =====
-- The moves that change no slots, and each that does.
use proxy_acl.Base.{
  ℕ, ◌+◌, ◌≤◌, ◌≡◌, refl, sym, ap, ◌∙◌, inl, inr, Option, none, List, ◌∷◌, arith, if◌then◌else◌,
  ◌==◌, Bool-cases,
}
use proxy_acl.Base.Text.{Bytes}
use proxy_acl.Base.Maps.{GoMap}
use proxy_acl.Netip.{addr_key}
use proxy_acl.Dns.Cache.{Found, Entries}
use proxy_acl.Dns.Resolver.Thread.{max_concurrent, max_per_client, Query, Resolver, Thread}
use proxy_acl.Dns.Resolver.Step.{set_at}
use proxy_acl.Dns.Resolver.Keeps.{total}
use proxy_acl.Dns.Resolver.Slots.{held_by, hold_of, use_of, is_looking, Mapped, SlotsInv}

module _ {E : Type 0} where
  -- The resolver with other entries, flights, results and answers.
  abbrev pub elsewhere :
      Resolver E
      → Entries E
      → GoMap Bytes ℕ
      → (ℕ → Option (Found E))
      → ℕ
      → List (Query × Found E)
      → Resolver E
  elsewhere r entries flights results next asked = record r {
    entries = entries;
    flights = flights;
    results = results;
    next_flight = next;
    asked = asked;
  }

  -- A step that leaves the slots, the map of clients and `running` as they are, and hands the slots
  -- that the thread is counted in on as they are.
  pub quiet-SlotsInv :
      (r : Resolver E) (entries : Entries E) (flights : GoMap Bytes ℕ)
      (results : ℕ → Option (Found E)) (next : ℕ) (asked : List (Query × Found E)) (p p' : Thread E)
      (rest : List (Thread E))
      → hold_of p' ≡ hold_of p
      → use_of p' ≡ use_of p
      → is_looking p' ≡ is_looking p
      → SlotsInv r (p ∷ rest)
      → SlotsInv (elsewhere r entries flights results next asked) (p' ∷ rest)
  quiet-SlotsInv r entries flights results next asked p p' rest hold used look v = record {
    held_counted = λ cs. rw hold (v.held_counted cs);
    users_counted = λ cs. rw used (v.users_counted cs);
    held_bounded = v.held_bounded;
    running_counted = rw look v.running_counted;
    running_bounded = v.running_bounded;
    placed = rw used v.placed;
    kept_used = v.kept_used;
    one_client = v.one_client;
    below = v.below;
    unused = v.unused;
  }

  -- The same, for threads that are counted nowhere.
  pub add-SlotsInv :
      (r : Resolver E) (p : Thread E) (rest : List (Thread E))
      → hold_of p ≡ none
      → use_of p ≡ none
      → is_looking p ≡ 0
      → SlotsInv r rest
      → SlotsInv r (p ∷ rest)
  add-SlotsInv r p rest hold used look v = record {
    held_counted = λ cs. rw hold (v.held_counted cs ∙ omega arith);
    users_counted = λ cs. rw used (v.users_counted cs ∙ omega arith);
    held_bounded = v.held_bounded;
    running_counted = rw look (v.running_counted ∙ omega arith);
    running_bounded = v.running_bounded;
    placed = (rw used tt, v.placed);
    kept_used = v.kept_used;
    one_client = v.one_client;
    below = v.below;
    unused = v.unused;
  }

  -- `running`, counted up or down.
  pub run-SlotsInv :
      (r : Resolver E) (running : ℕ) (p p' : Thread E) (rest : List (Thread E))
      → hold_of p' ≡ hold_of p
      → use_of p' ≡ use_of p
      → running + is_looking p ≡ r.running + is_looking p'
      → running ≤ max_concurrent
      → SlotsInv r (p ∷ rest)
      → SlotsInv (record r { running = running }) (p' ∷ rest)
  run-SlotsInv r running p p' rest hold used look bound v = record {
    held_counted = λ cs. rw hold (v.held_counted cs);
    users_counted = λ cs. rw used (v.users_counted cs);
    held_bounded = v.held_bounded;
    running_counted = omega (arith, v.running_counted, look);
    running_bounded = bound;
    placed = rw used v.placed;
    kept_used = v.kept_used;
    one_client = v.one_client;
    below = v.below;
    unused = v.unused;
  }

  -- A write to the slots `cs` of a client whose users stay.
  pub hold-SlotsInv :
      (r : Resolver E) (cs held : ℕ) (p p' : Thread E) (rest : List (Thread E))
      → ((i : ℕ) → held_by i (use_of p') ≡ held_by i (use_of p))
      → Mapped r.clients (use_of p')
      → ((i : ℕ)
          → (if cs == i then held else (r.slots i).held) + held_by i (hold_of p)
            ≡ (r.slots i).held + held_by i (hold_of p'))
      → held ≤ max_per_client
      → is_looking p' ≡ is_looking p
      → SlotsInv r (p ∷ rest)
      → SlotsInv
          (record r { slots = set_at r.slots cs (record (r.slots cs) { held = held }) })
          (p' ∷ rest)
  unfolding set_at
  hold-SlotsInv r cs held p p' rest used mapped counts bound look v = record {
    held_counted = λ i. ground (arith, v.held_counted i, counts i);
    users_counted = λ i.
        users i
        ∙ v.users_counted i
        ∙ ap (λ n. n + total (λ q. held_by i (use_of q)) rest) (sym (used i));
    held_bounded = λ i. ground (arith, v.held_bounded i);
    running_counted = rw look v.running_counted;
    running_bounded = v.running_bounded;
    placed = (mapped, v.placed.1);
    kept_used = λ c i m. rw (users i) (v.kept_used c i m);
    one_client = v.one_client;
    below = v.below;
    unused = λ i far. users i ∙ v.unused i far;
  }
    where
      users :
          (i : ℕ)
          → (set_at r.slots cs (record (r.slots cs) { held = held }) i).users ≡ (r.slots i).users
      users i = elim (Bool-cases (cs == i)) [
        | inl same ↦ let e : cs ≡ i = ground (arith, same) in rw (same, e) refl
        | inr other ↦ rw other refl
      ]
