-- ===== src/Dns/Cache/Bounded.antt =====
-- The cache stays within its bound, with one entry for a key.
use proxy_acl.Base.{
  ℕ, ◌≤◌, ◌<◌, ◌≡◌, ◌≢◌, ◌⊎◌, inl, inr, refl, sym, ◌∙◌, Bool, true, false, Option, none, some, List,
  [], ◌∷◌, arith, ltb, leb, length, if◌then◌else◌, Bool-cases, Member,
}
use proxy_acl.Base.Text.{Bytes, text_eq}
use proxy_acl.Base.Maps.{text_key, get, delete, put}
use proxy_acl.Base.Maps.Laws.{get-delete, length-delete, same_refl}
use proxy_acl.Dns.Cache.{
  Found, CacheEntry, Entries, max_entries, entry_of, drop_expired, evict, insert_entry, store_entry,
  store,
}

module _ {E : Type 0} where
  abbrev pub Unique : Entries E → Type 0
  Unique [] = Unit
  Unique ((k, e) ∷ m) = (get k m ≡ none) × Unique m

  -- The keys of a map, in the order in which some `range` gives them.
  abbrev pub Covers : List Bytes → Entries E → Type 0
  Covers order m = (k : Bytes) → get k m ≢ none → Member k order

  abbrev pub CacheValid : Entries E → Type 0
  CacheValid m = (length m ≤ max_entries) × Unique m

  delete-Unique : (k : Bytes) (m : Entries E) → Unique m → Unique (delete k m)
  unfolding delete
  delete-Unique k [] u = tt
  delete-Unique k ((j, e) ∷ m) (first, u) = elim (Bool-cases (text_eq j k)) [
    | inl here ↦ rw here (delete-Unique k m u)
    | inr other ↦ rw other (get-delete k j m ∙ ground (arith, first), delete-Unique k m u)
  ]

  pub drop_expired-none :
      (now : ℕ) (k : Bytes) (m : Entries E) → get k m ≡ none → get k (drop_expired now m) ≡ none
  unfolding drop_expired get
  drop_expired-none now k [] h = refl
  drop_expired-none now k ((j, e) ∷ m) h = elim (Bool-cases (text_eq j k)) [
    | inl here ↦ absurd (ground (arith, here))
    | inr other ↦ ground (arith, other, drop_expired-none now k m)
  ]

  drop_expired-Unique : (now : ℕ) (m : Entries E) → Unique m → Unique (drop_expired now m)
  unfolding drop_expired
  drop_expired-Unique now [] u = tt
  drop_expired-Unique now ((k, e) ∷ m) (first, u) = elim (Bool-cases (ltb now e.expires)) [
    | inl live ↦ rw live (drop_expired-none now k m first, drop_expired-Unique now m u)
    | inr over ↦ rw over (drop_expired-Unique now m u)
  ]

  evict-Unique : (order : List Bytes) (m : Entries E) → Unique m → Unique (evict order m)
  unfolding evict
  evict-Unique [] m u = u
  evict-Unique (k ∷ order) m u = elim (Bool-cases (ltb (length m) max_entries)) [
    | inl room ↦ rw room u
    | inr full ↦ rw full (evict-Unique order (delete k m) (delete-Unique k m u))
  ]

  Covers-delete :
      (k : Bytes) (order : List Bytes) (m : Entries E)
      → Covers (k ∷ order) m
      → Covers order (delete k m)
  Covers-delete k order m all j held = elim (Bool-cases (text_eq k j)) [
    | inl same ↦ absurd (held (get-delete k j m ∙ rw same refl))
    | inr other ↦
        let e : get j (delete k m) ≡ get j m = get-delete k j m ∙ rw other refl in
        elim (all j (λ gone. held (e ∙ gone))) [
          | inl same ↦ absurd (cc (other, (text_key.same_iff k j).1 (sym same)))
          | inr later ↦ later
        ]
  ]

  -- The eviction makes room if `range` gives every key.
  length-evict :
      (order : List Bytes) (m : Entries E) → Covers order m → length (evict order m) < max_entries
  unfolding evict get
  length-evict [] [] all = omega arith
  length-evict [] ((k, e) ∷ m) all = absurd (all k (λ gone. ground (arith, same_refl k, gone)))
  length-evict (k ∷ order) m all = elim (Bool-cases (ltb (length m) max_entries)) [
    | inl room ↦ rw room (ground (arith, room))
    | inr full ↦ rw full (length-evict order (delete k m) (Covers-delete k order m all))
  ]

  get-delete_self : (k : Bytes) (m : Entries E) → get k (delete k m) ≡ none
  get-delete_self k m = get-delete k k m ∙ rw (same_refl k) refl

  insert_entry-Unique :
      (key : Bytes) (e : CacheEntry E) (now : ℕ) (order : List Bytes) (m : Entries E)
      → Unique m
      → Unique (insert_entry key e now order m)
  unfolding insert_entry put
  insert_entry-Unique key e now order m u = room (leb max_entries (length m))
    where
      room :
          (full : Bool)
          → (let kept = if full then evict order (drop_expired now m) else m in
              (get key (delete key kept) ≡ none) × Unique (delete key kept))
      room true =
          let kept = evict order (drop_expired now m) in
          let u' = evict-Unique order (drop_expired now m) (drop_expired-Unique now m u) in
          (get-delete_self key kept, delete-Unique key kept u')
      room false = (get-delete_self key m, delete-Unique key m u)

  insert_entry-CacheValid :
      (key : Bytes) (e : CacheEntry E) (now : ℕ) (order : List Bytes) (m : Entries E)
      → Covers order (drop_expired now m)
      → CacheValid m
      → CacheValid (insert_entry key e now order m)
  unfolding insert_entry put
  insert_entry-CacheValid key e now order m all (bound, u) =
      (by_room (Bool-cases (leb max_entries (length m))), insert_entry-Unique key e now order m u)
    where
      by_room :
          (leb max_entries (length m) ≡ true) ⊎ (leb max_entries (length m) ≡ false)
          → length (insert_entry key e now order m) ≤ max_entries
      by_room (inl full) =
          let left = evict order (drop_expired now m) in
          rw full
            (omega (arith, length-evict order (drop_expired now m) all, length-delete key left))
      by_room (inr room) =
          let few : length m < max_entries = ground (arith, room) in
          rw room (omega (arith, few, length-delete key m))

  pub store-Unique :
      (not_found : E → Bool) (key : Bytes) (found : Found E) (made now : ℕ) (order : List Bytes)
      (m : Entries E)
      → Unique m
      → Unique (store not_found key found made now order m)
  unfolding store
  store-Unique not_found key found made now order m u =
      by_entry (entry_of not_found found.error found.addrs made)
    where
      by_entry : (o : Option (CacheEntry E)) → Unique (store_entry key now order m o)
      by_entry none = unfold store_entry in u
      by_entry (some e) = unfold store_entry in insert_entry-Unique key e now order m u

  -- If the cache has at most 10,000 entries, each under its own key, and `range` gives every key that
  -- is left after the expired entries are dropped, then storing any result of any lookup keeps it so.
  pub store-CacheValid :
      (not_found : E → Bool) (key : Bytes) (found : Found E) (made now : ℕ) (order : List Bytes)
      (m : Entries E)
      → Covers order (drop_expired now m)
      → CacheValid m
      → CacheValid (store not_found key found made now order m)
  unfolding store
  store-CacheValid not_found key found made now order m all v =
      by_entry (entry_of not_found found.error found.addrs made)
    where
      by_entry : (o : Option (CacheEntry E)) → CacheValid (store_entry key now order m o)
      by_entry none = unfold store_entry in v
      by_entry (some e) = unfold store_entry in insert_entry-CacheValid key e now order m all v
