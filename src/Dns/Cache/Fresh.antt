-- ===== src/Dns/Cache/Fresh.antt =====
-- What the cache answers: the last result stored under the key, while it is fresh, and nothing else.
use proxy_acl.Base.{
  ℕ, ◌+◌, ◌<◌, ◌≡◌, ◌⊎◌, inl, inr, refl, sym, ap, ◌∙◌, Bool, true, false, Option, none, some, List,
  [], ◌∷◌, arith, ltb, leb, length, if◌then◌else◌, Bool-cases,
}
use proxy_acl.Base.Text.{Bytes, text_eq}
use proxy_acl.Base.Maps.{text_key, get, delete, put}
use proxy_acl.Base.Maps.Laws.{get-delete, get-put, get-put_self}
use proxy_acl.Netip.{Addr}
use proxy_acl.Dns.Cache.{
  Found, CacheEntry, Entries, max_entries, ttl, negative_ttl, failure_ttl, entry_of, drop_expired,
  evict, insert_entry, store_entry, store, fresh, find_fresh,
}
use proxy_acl.Dns.Cache.Bounded.{Unique, drop_expired-none}

module _ {E : Type 0} where
  get-drop_expired :
      (now : ℕ) (k : Bytes) (m : Entries E) (e : CacheEntry E)
      → Unique m
      → get k (drop_expired now m) ≡ some e
      → get k m ≡ some e
  unfolding drop_expired get
  get-drop_expired now k [] e u h = cc
  get-drop_expired now k ((j, d) ∷ m) e (first, u) h = elim (Bool-cases (text_eq j k)) [
    | inl here ↦
        let same : j ≡ k = (text_key.same_iff j k).0 here in
        let gone : get k (drop_expired now m) ≡ none =
          drop_expired-none now k m (ap (λ x. get x m) (sym same) ∙ first) in
        ground (arith, here, gone, h)
    | inr other ↦ ground (arith, other, h, get-drop_expired now k m e u)
  ]

  get-evict :
      (order : List Bytes) (k : Bytes) (m : Entries E) (e : CacheEntry E)
      → get k (evict order m) ≡ some e
      → get k m ≡ some e
  unfolding evict
  get-evict [] k m e h = h
  get-evict (j ∷ order) k m e h = elim (Bool-cases (ltb (length m) max_entries)) [
    | inl room ↦ ground (arith, room, h)
    | inr full ↦
        let rest : get k (evict order (delete j m)) ≡ some e = ground (arith, full, h) in
        let kept = get-evict order k (delete j m) e rest in ground (arith, kept, get-delete j k m)
  ]

  find_fresh-insert :
      (key : Bytes) (e : CacheEntry E) (now t : ℕ) (order : List Bytes) (m : Entries E)
      → find_fresh key t (insert_entry key e now order m)
        ≡ (if ltb t e.expires then some e.found else none)
  unfolding find_fresh insert_entry
  find_fresh-insert key e now t order m =
      let kept = if leb max_entries (length m) then evict order (drop_expired now m) else m in
      rw (get-put_self key e kept) (unfold fresh in refl)

  -- A result with addresses is answered again for 30 seconds from the time of its entry and no longer; an
  -- error is answered again, without addresses, for 5 seconds if the name does not exist and for 3
  -- seconds otherwise; whatever the cache held and evicts.
  pub find_fresh-store :
      (not_found : E → Bool) (key : Bytes) (made now t : ℕ) (order : List Bytes) (m : Entries E)
      (a : Addr) (addrs dropped : List Addr) (e : E)
      → (find_fresh key t
            (store not_found key (record { addrs = a ∷ addrs; error = none }) made now order m)
          ≡ (if ltb t (made + ttl)
              then some (record { addrs = a ∷ addrs; error = none })
              else none))
        × (find_fresh key t
              (store not_found key (record { addrs = dropped; error = some e }) made now order m)
            ≡ (if ltb t (made + (if not_found e then negative_ttl else failure_ttl))
                then some (record { addrs = []; error = some e })
                else none))
  unfolding store store_entry entry_of
  find_fresh-store not_found key made now t order m a addrs dropped e =
      (find_fresh-insert key _ now t order m, find_fresh-insert key _ now t order m)

  -- The entry that store made now of that result, for that key.
  abbrev pub Stored : (E → Bool) → Bytes → Found E → ℕ → ℕ → Bytes → Found E → Type 0
  Stored not_found key found made t j answer =
      (j ≡ key)
      × ((e : CacheEntry E) × (entry_of not_found found.error found.addrs made ≡ some e)
          × (t < e.expires)
          × (e.found ≡ answer))

  fresh-some :
      (t : ℕ) (o : Option (CacheEntry E)) (answer : Found E)
      → fresh t o ≡ some answer
      → (e : CacheEntry E) × (o ≡ some e) × (t < e.expires) × (e.found ≡ answer)
  unfolding fresh
  fresh-some t none answer h = cc
  fresh-some t (some e) answer h = (e, refl, ground (arith, h), ground (arith, h))

  fresh_again :
      (t : ℕ) (o : Option (CacheEntry E)) (e : CacheEntry E) (answer : Found E)
      → o ≡ some e
      → t < e.expires
      → e.found ≡ answer
      → fresh t o ≡ some answer
  unfolding fresh
  fresh_again t o e answer same live found = rw same (ground (arith, live, found))

  get-room :
      (full : Bool) (now : ℕ) (order : List Bytes) (j : Bytes) (m : Entries E) (e : CacheEntry E)
      → Unique m
      → get j (if full then evict order (drop_expired now m) else m) ≡ some e
      → get j m ≡ some e
  get-room false now order j m e u h = h
  get-room true now order j m e u h =
      get-drop_expired now j m e u (get-evict order j (drop_expired now m) e h)

  found-insert :
      (key j : Bytes) (e : CacheEntry E) (now t : ℕ) (order : List Bytes) (m : Entries E)
      (answer : Found E)
      → Unique m
      → fresh t (get j (insert_entry key e now order m)) ≡ some answer
      → ((j ≡ key) × (t < e.expires) × (e.found ≡ answer)) ⊎ (fresh t (get j m) ≡ some answer)
  unfolding insert_entry
  found-insert key j e now t order m answer u h =
      let full = leb max_entries (length m) in
      let kept = if full then evict order (drop_expired now m) else m in
      let (d, got, live, found) = fresh-some t (get j (put key e kept)) answer h in
      let got' : (if text_eq key j then some e else get j kept) ≡ some d =
        sym (get-put key j e kept) ∙ got in
      elim (Bool-cases (text_eq key j)) [
        | inl here ↦
            let same : e ≡ d = ground (arith, here, got') in
            inl (
              sym ((text_key.same_iff key j).0 here),
              rw same live,
              ap (λ (x : CacheEntry E). x.found) same ∙ found,
            )
        | inr other ↦
            let old : get j kept ≡ some d = ground (arith, other, got') in
            inr (fresh_again t (get j m) d answer (get-room full now order j m d u old) live found)
      ]

  -- If every key has one entry, whatever is found after storing a result was stored by it, under its
  -- key, and is fresh; or it was found before.
  pub find_fresh-store_old :
      (not_found : E → Bool) (key j : Bytes) (found answer : Found E) (made now t : ℕ)
      (order : List Bytes) (m : Entries E)
      → Unique m
      → find_fresh j t (store not_found key found made now order m) ≡ some answer
      → Stored not_found key found made t j answer ⊎ (find_fresh j t m ≡ some answer)
  unfolding store store_entry find_fresh
  find_fresh-store_old not_found key j found answer made now t order m u h =
      by_entry (entry_of not_found found.error found.addrs made) refl h
    where
      by_entry :
          (o : Option (CacheEntry E))
          → entry_of not_found found.error found.addrs made ≡ o
          → fresh t (get j (store_entry key now order m o)) ≡ some answer
          → Stored not_found key found made t j answer ⊎ (fresh t (get j m) ≡ some answer)
      by_entry none nothing h' = inr h'
      by_entry (some e) entry h' = elim (found-insert key j e now t order m answer u h') [
        | inl (same, live, answered) ↦ inl (same, (e, entry, live, answered))
        | inr before ↦ inr before
      ]
