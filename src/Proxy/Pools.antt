-- ===== src/Proxy/Pools.antt =====
-- internal/proxy/upstream.go: the pools of plain-HTTP connections. `print` is netip.Addr.String, a
-- transport is known by the destination that its dialer is bound to, and Go's order of iteration
-- over the map is that of the list.
pub mod Bounded
use proxy_acl.Base.{
  ℕ, ◌-◌, Bool, true, false, not, ◌||◌, Option, none, some, List, [], ◌∷◌, ◌++◌, map, ltb, leb,
  length, is_empty, if◌then◌else◌,
}
use proxy_acl.Base.Text.{Bytes, codes, itoa, text_eq}
use proxy_acl.Netip.{Addr}
use proxy_acl.Proxy.Dial.{Vetted}

abbrev pub max_upstream_pools : ℕ
max_upstream_pools = 1024

-- Thirty seconds, in nanoseconds.
abbrev pub upstream_idle_timeout : ℕ
upstream_idle_timeout = 30_000_000_000

-- `upstreamPool`, whose transport dials `dials` only.
pub record Pool : Type 0 where
  pub dials : Vetted
  pub used : ℕ

abbrev pub Pools : Type 0
Pools = List (Bytes × Pool)

unfoldable pub pool_at : Bytes → Pools → Option Pool
unfolding text_eq
pool_at key [] = none
pool_at key ((k, p) ∷ pools) = if text_eq k key then some p else pool_at key pools

-- p.used = now
unfoldable pub touch : Bytes → ℕ → Pools → Pools
unfolding text_eq
touch key now [] = []
touch key now ((k, p) ∷ pools) =
    if text_eq k key then (k, record p { used = now }) ∷ pools else (k, p) ∷ touch key now pools

-- delete(u.pools, key)
unfoldable pub drop_pool : Bytes → Pools → Pools
unfolding text_eq
drop_pool key [] = []
drop_pool key ((k, p) ∷ pools) = if text_eq k key then pools else (k, p) ∷ drop_pool key pools

-- The loop of dropOldestLocked, from the oldest pool so far.
unfoldable pub oldest_of : Option (Bytes × Pool) → Pools → Option (Bytes × Pool)
oldest_of oldest [] = oldest
oldest_of none ((k, p) ∷ pools) = oldest_of (some (k, p)) pools
oldest_of (some (j, q)) ((k, p) ∷ pools) =
    oldest_of (if ltb p.used q.used then some (k, p) else some (j, q)) pools

-- The end of dropOldestLocked. The code's marker for no pool, "", is no key: every key has a "|".
unfoldable pub drop_found : Pools → Option (Bytes × Pool) → Pools
unfolding drop_pool
drop_found pools none = pools
drop_found pools (some (k, p)) = drop_pool k pools

-- dropOldestLocked
unfoldable pub drop_oldest : Pools → Pools
unfolding oldest_of drop_found
drop_oldest pools = drop_found pools (oldest_of none pools)

-- sweep
unfoldable pub sweep_pools : ℕ → Pools → Pools
sweep_pools now [] = []
sweep_pools now ((k, p) ∷ pools) =
    let rest = sweep_pools now pools in
    if ltb upstream_idle_timeout (now - p.used) then rest else (k, p) ∷ rest

-- strings.Join(texts, ",")
unfoldable pub join_commas : List Bytes → Bytes
join_commas [] = []
join_commas (t ∷ []) = t
join_commas (t ∷ u ∷ texts) = t ++ b',' ∷ join_commas (u ∷ texts)

-- s <= t on strings, byte by byte
unfoldable pub text_le : Bytes → Bytes → Bool
text_le [] t = true
text_le (c ∷ s) [] = false
text_le (c ∷ s) (d ∷ t) = if ltb c d then true else if ltb d c then false else text_le s t

-- slices.Sort on strings: equal strings cannot be told apart, so every sort has this result.
unfoldable pub insert_text : Bytes → List Bytes → List Bytes
unfolding text_le
insert_text s [] = s ∷ []
insert_text s (t ∷ texts) = if text_le s t then s ∷ t ∷ texts else t ∷ insert_text s texts

unfoldable pub sort_texts : List Bytes → List Bytes
unfolding insert_text
sort_texts [] = []
sort_texts (t ∷ texts) = insert_text t (sort_texts texts)

module _ (print : Addr → Bytes) where
  -- poolKey
  unfoldable pub pool_key : Bytes → Vetted → Bytes
  unfolding itoa sort_texts join_commas
  pool_key scheme v =
      scheme
      ++ codes "|"
      ++ v.host
      ++ codes "|"
      ++ itoa v.port
      ++ codes "|"
      ++ join_commas (sort_texts (map print v.addrs))

  -- upstreamPools.transport: the destination that the transport dials, and the pools.
  unfoldable pub transport_at : Pools → Bytes → Vetted → ℕ → Option Pool → Vetted × Pools
  unfolding touch drop_oldest
  transport_at pools key v now (some p) = (p.dials, touch key now pools)
  transport_at pools key v now none =
      let room = if leb max_upstream_pools (length pools) then drop_oldest pools else pools in
      (v, (key, record { dials = v; used = now }) ∷ room)

  unfoldable pub transport : Pools → Bytes → Vetted → ℕ → Vetted × Pools
  unfolding pool_key pool_at transport_at
  transport pools scheme v now =
      transport_at pools (pool_key scheme v) v now (pool_at (pool_key scheme v) pools)

  -- upstreamPools.roundTrip, to the transport: none is errNotVetted.
  unfoldable pub round_trip : Pools → Bytes → Option Vetted → ℕ → Option Vetted × Pools
  unfolding transport
  round_trip pools scheme none now = (none, pools)
  round_trip pools scheme (some v) now =
      let (dials, pools') = transport pools scheme v now in
      if is_empty v.addrs then (none, pools) else (some dials, pools')
