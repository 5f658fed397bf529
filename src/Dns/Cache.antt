-- ===== src/Dns/Cache.antt =====
-- internal/dnscache/dnscache.go: the entries of the cache. Times are nanoseconds.
pub mod Bounded
pub mod Fresh
use proxy_acl.Base.{
  ℕ, ◌+◌, Bool, true, false, Option, none, some, List, [], ◌∷◌, ltb, leb, length, if◌then◌else◌,
}
use proxy_acl.Base.Text.{Bytes}
use proxy_acl.Base.Maps.{text_key, GoMap, get, delete, put}
use proxy_acl.Netip.{Addr}

-- The constants of the package.
abbrev pub ttl : ℕ
ttl = 30_000_000_000

abbrev pub negative_ttl : ℕ
negative_ttl = 5_000_000_000

abbrev pub failure_ttl : ℕ
failure_ttl = 3_000_000_000

abbrev pub max_entries : ℕ
max_entries = 10_000

-- The results (addrs, err) of a lookup; `E` is Go's error.
pub record Found (E : Type 0) : Type 0 where
  pub addrs : List Addr
  pub error : Option E

-- `entry`
pub record CacheEntry (E : Type 0) : Type 0 where
  pub found : Found E
  pub expires : ℕ

abbrev pub Entries : Type 0 → Type 0
Entries E = GoMap Bytes (CacheEntry E)

module _ {E : Type 0} where
  -- The first loop of store: drops the entries that have expired.
  unfoldable pub drop_expired : ℕ → Entries E → Entries E
  drop_expired now [] = []
  drop_expired now ((k, e) ∷ m) =
      let rest = drop_expired now m in if ltb now e.expires then (k, e) ∷ rest else rest

  -- The second loop, in the order in which `range` gives the keys.
  unfoldable pub evict : List Bytes → Entries E → Entries E
  unfolding delete
  evict [] m = m
  evict (k ∷ order) m =
      let rest = evict order (delete k m) in if ltb (length m) max_entries then m else rest

  -- The end of store, under the lock, at the time `now`.
  unfoldable pub insert_entry : Bytes → CacheEntry E → ℕ → List Bytes → Entries E → Entries E
  unfolding drop_expired evict put
  insert_entry key e now order m =
      put key e (if leb max_entries (length m) then evict order (drop_expired now m) else m)

  -- The end of store, on the entry that its switch makes; `return` for none.
  unfoldable pub store_entry :
      Bytes → ℕ → List Bytes → Entries E → Option (CacheEntry E) → Entries E
  unfolding insert_entry
  store_entry key now order m none = m
  store_entry key now order m (some e) = insert_entry key e now order m

  -- A fresh entry, as findLocked has it.
  unfoldable pub fresh : ℕ → Option (CacheEntry E) → Option (Found E)
  fresh now none = none
  fresh now (some e) = if ltb now e.expires then some e.found else none

  unfoldable pub find_fresh : Bytes → ℕ → Entries E → Option (Found E)
  unfolding get fresh
  find_fresh key now m = fresh now (get key m)

-- `not_found` is errors.As(err, &dnsErr) && dnsErr.IsNotFound.
module _ {E : Type 0} (not_found : E → Bool) where
  -- The error case of store's switch.
  abbrev pub failed_entry : E → ℕ → CacheEntry E
  failed_entry e now = record {
    found = record { addrs = []; error = some e };
    expires = now + (if not_found e then negative_ttl else failure_ttl);
  }

  -- The switch of store: the entry made of a result, if any.
  unfoldable pub entry_of : Option E → List Addr → ℕ → Option (CacheEntry E)
  entry_of (some e) addrs now = some (failed_entry e now)
  entry_of none [] now = none
  entry_of none (a ∷ addrs) now =
      some (record { found = record { addrs = a ∷ addrs; error = none }; expires = now + ttl })

  -- store; `made` is the time of the entry, `now` the time under the lock.
  unfoldable pub store : Bytes → Found E → ℕ → ℕ → List Bytes → Entries E → Entries E
  unfolding entry_of store_entry
  store key found made now order m =
      store_entry key now order m (entry_of found.error found.addrs made)
