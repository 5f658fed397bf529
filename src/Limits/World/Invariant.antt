-- ===== src/Limits/World/Invariant.antt =====
-- The invariant of the tracker and its handles, and `get`, which every operation begins with.
use proxy_acl.Base.{
  ℕ, ◌+◌, ◌≤◌, ◌<◌, ◌≡◌, ◌⊎◌, inl, inr, refl, sym, ◌∙◌, Bool, true, false, not, ◌&&◌, Option, none,
  some, List, [], ◌∷◌, arith, if◌then◌else◌, ◌==◌, ltb, length, Bool-cases,
}
use proxy_acl.Netip.{Addr, Prefix, addr_eq, prefix_eq}
use proxy_acl.Limits.Bucket.{Float64}
use proxy_acl.Limits.Suppression.{Entry, new_entry}
use proxy_acl.Limits.Tracker.{
  max_clients, Tracker, find, overflow_prefix, update, alloc, overflow_entry, client_entry,
  find_or_add, set_entry, get_entry,
}
use proxy_acl.Limits.World.{Handle}

-- The connections of entry `i`, and all of them.
abbrev pub count_open : ℕ → List Handle → ℕ
count_open i [] = 0
count_open i (h ∷ hs) = (if not h.closed && h.entry == i then 1 else 0) + count_open i hs

abbrev pub open_total : List Handle → ℕ
open_total [] = 0
open_total (h ∷ hs) = (if h.closed then 0 else 1) + open_total hs

-- The map has the entry.
abbrev pub Holds {ℓ} : {K : Type ℓ} → ℕ → List (K × ℕ) → Type 0
Holds i [] = ⊥
Holds i ((k, j) ∷ m) = (i ≡ j) ⊎ Holds i m

find-Holds {ℓ} :
    {K : Type ℓ} (eq : K → K → Bool) (k : K) (m : List (K × ℕ)) {i : ℕ}
    → find eq k m ≡ some i
    → Holds i m
unfolding find
find-Holds eq k [] h = cc
find-Holds eq k ((j, n) ∷ m) h = elim (Bool-cases (eq j k)) [
  | inl same ↦ inl (ground (arith, same))
  | inr other ↦ inr (find-Holds eq k m (ground (arith, other)))
]

module _ {F : Type 0} where
  abbrev pub InMaps : Tracker F → ℕ → Type 0
  InMaps t i = Holds i t.clients ⊎ Holds i t.overflow

  -- The counters are those of the open connections, every entry with a connection is in a map, and
  -- numbers from `next` on are free.
  pub record Inv (t : Tracker F) (hs : List Handle) : Type 0 where
    pub counted : (i : ℕ) → (t.entries i).conns ≡ count_open i hs
    pub summed : t.total ≡ open_total hs
    pub mapped : (i : ℕ) → 0 < count_open i hs → InMaps t i
    pub maps_below : (i : ℕ) → InMaps t i → i < t.next
    pub unused : (i : ℕ) → t.next ≤ i → count_open i hs ≡ 0

module _ (fl : Float64) where
  open fl use {F}

  -- An entry in a map of the tracker.
  abbrev pub Located : Tracker F × ℕ → List Handle → Type 0
  Located r hs = Inv r.0 hs × InMaps r.0 r.1

  pub conns-update :
      (entries : ℕ → Entry F) (id : ℕ) (f : Entry F → Entry F) (i : ℕ)
      → (f (entries id)).conns ≡ (entries id).conns
      → (update fl entries id f i).conns ≡ (entries i).conns
  unfolding update
  conns-update entries id f i keep = elim (Bool-cases (i == id)) [
    | inl here ↦ let e : i ≡ id = ground arith in rw (here, e) keep
    | inr other ↦ rw other refl
  ]

  -- A change of an entry that keeps its number of connections.
  pub set_entry-Inv :
      (t : Tracker F) (id : ℕ) (f : Entry F → Entry F) (hs : List Handle)
      → (f (t.entries id)).conns ≡ (t.entries id).conns
      → Inv t hs
      → Inv (set_entry fl t id f) hs
  unfolding set_entry
  set_entry-Inv t id f hs keep v = record {
    counted = λ i. conns-update t.entries id f i keep ∙ v.counted i;
    summed = v.summed;
    mapped = v.mapped;
    maps_below = v.maps_below;
    unused = v.unused;
  }

  conns-alloc :
      (t : Tracker F) (hs : List Handle) (i : ℕ)
      → Inv t hs
      → (update fl t.entries t.next (λ c. new_entry fl) i).conns ≡ count_open i hs
  unfolding update
  conns-alloc t hs i v = elim (Bool-cases (i == t.next)) [
    | inl here ↦ let e : t.next ≤ i = ground arith in rw here (sym (v.unused i e))
    | inr other ↦ rw other (v.counted i)
  ]

  add_client-Located :
      (t : Tracker F) (ip : Addr) (hs : List Handle)
      → Inv t hs
      → Located (record (alloc fl t) { clients = (ip, t.next) ∷ t.clients }, t.next) hs
  unfolding alloc
  add_client-Located t ip hs v = (
    record {
      counted = λ i. conns-alloc t hs i v;
      summed = v.summed;
      mapped = λ i open_. elim (v.mapped i open_) [ inl c ↦ inl (inr c) | inr o ↦ inr o ];
      maps_below = λ i held. elim held [
        | inl (inl new) ↦ omega arith
        | inl (inr old) ↦ omega (arith, v.maps_below i (inl old))
        | inr old ↦ omega (arith, v.maps_below i (inr old))
      ];
      unused = λ i far. v.unused i (omega arith);
    },
    inl (inl refl),
  )

  add_overflow-Located :
      (t : Tracker F) (p : Prefix) (hs : List Handle)
      → Inv t hs
      → Located (record (alloc fl t) { overflow = (p, t.next) ∷ t.overflow }, t.next) hs
  unfolding alloc
  add_overflow-Located t p hs v = (
    record {
      counted = λ i. conns-alloc t hs i v;
      summed = v.summed;
      mapped = λ i open_. elim (v.mapped i open_) [ inl c ↦ inl c | inr o ↦ inr (inr o) ];
      maps_below = λ i held. elim held [
        | inr (inl new) ↦ omega arith
        | inl old ↦ omega (arith, v.maps_below i (inl old))
        | inr (inr old) ↦ omega (arith, v.maps_below i (inr old))
      ];
      unused = λ i far. v.unused i (omega arith);
    },
    inr (inl refl),
  )

  overflow_entry-Located :
      (t : Tracker F) (p : Prefix) (hs : List Handle) (o : Option ℕ)
      → find prefix_eq p t.overflow ≡ o
      → Inv t hs
      → Located (overflow_entry fl t p o) hs
  unfolding overflow_entry
  overflow_entry-Located t p hs (some id) e v = (v, inr (find-Holds prefix_eq p t.overflow e))
  overflow_entry-Located t p hs none e v = add_overflow-Located t p hs v

  client_entry-Located :
      (t : Tracker F) (ip : Addr) (hs : List Handle) (o : Option ℕ)
      → find addr_eq ip t.clients ≡ o
      → Inv t hs
      → Located (client_entry fl t ip o) hs
  unfolding client_entry
  client_entry-Located t ip hs (some id) e v = (v, inl (find-Holds addr_eq ip t.clients e))
  client_entry-Located t ip hs none e v = by_room (ltb (length t.clients) max_clients)
    where
      by_room :
          (b : Bool)
          → Located
              (if b
                then (record (alloc fl t) { clients = (ip, t.next) ∷ t.clients }, t.next)
                else overflow_entry fl t
                    (overflow_prefix ip)
                    (find prefix_eq (overflow_prefix ip) t.overflow))
              hs
      by_room true = add_client-Located t ip hs v
      by_room false = overflow_entry-Located t (overflow_prefix ip) hs _ refl v

  find_or_add-Located :
      (t : Tracker F) (ip : Addr) (hs : List Handle) → Inv t hs → Located (find_or_add fl t ip) hs
  unfolding find_or_add
  find_or_add-Located t ip hs v = client_entry-Located t ip hs (find addr_eq ip t.clients) refl v

  -- `get` finds or makes an entry in a map and changes no counter.
  pub get_entry-Located :
      (t : Tracker F) (ip : Addr) (now : ℕ) (hs : List Handle)
      → Inv t hs
      → Located (get_entry fl t ip now) hs
  unfolding get_entry set_entry
  get_entry-Located t ip now hs v =
      let (inv, held) = find_or_add-Located t ip hs v in
      (
        unfold set_entry in
            set_entry-Inv (find_or_add fl t ip).0 (find_or_add fl t ip).1
              (λ c. record c { seen = now }) hs refl inv,
        held,
      )
