-- ===== src/Proxy/Pools/Bounded.antt =====
-- The pools stay few, and a pool serves only requests with the key of its own destination.
use proxy_acl.Base.{
  ℕ, ◌+◌, ◌-◌, ◌≤◌, ◌<◌, ◌≡◌, inl, inr, refl, sym, ap, ◌∙◌, Bool, true, false, Option, none, some,
  [], ◌∷◌, arith, ltb, leb, length, All, Member, Bool-cases, if◌then◌else◌, is_empty,
}
use proxy_acl.Base.Text.{Bytes, text_eq, text_eq_iff}
use proxy_acl.Netip.{Addr}
use proxy_acl.Proxy.Dial.{Vetted}
use proxy_acl.Proxy.Pools.{
  Pool, Pools, max_upstream_pools, upstream_idle_timeout, pool_at, touch, drop_pool, oldest_of,
  drop_found, drop_oldest, sweep_pools, pool_key, transport_at, transport, round_trip,
}

length-drop_pool :
    (k : Bytes) (p : Pool) (pools : Pools)
    → Member (k, p) pools
    → length (drop_pool k pools) + 1 ≡ length pools
unfolding drop_pool
length-drop_pool k p [] m = absurd m
length-drop_pool k p ((j, q) ∷ pools) m = elim (Bool-cases (text_eq j k)) [
  | inl same ↦ rw same (omega arith)
  | inr other ↦ rw other (elim m [
    | inl here ↦
        let same : text_eq j k ≡ true = (text_eq_iff j k).1 (sym (ap (λ r. r.0) here)) in cc
    | inr there ↦ omega (arith, length-drop_pool k p pools there)
  ])
]

-- The oldest pool is the first candidate or one of the list.
oldest_of-Member :
    (o : Bytes × Pool) (pools : Pools)
    → (r : Bytes × Pool) × (oldest_of (some o) pools ≡ some r) × Member r (o ∷ pools)
unfolding oldest_of
oldest_of-Member o [] = (o, refl, inl refl)
oldest_of-Member (j, q) ((k, p) ∷ pools) = elim (Bool-cases (ltb p.used q.used)) [
  | inl older ↦ rw older (let (r, e, m) = oldest_of-Member (k, p) pools in (r, e, inr m))
  | inr newer ↦ rw newer (
      let (r, e, m) = oldest_of-Member (j, q) pools in
      (r, e, elim m [ inl here ↦ inl here | inr there ↦ inr (inr there) ]))
]

length-drop_oldest : (pools : Pools) → 0 < length pools → length (drop_oldest pools) < length pools
unfolding drop_oldest oldest_of drop_found
length-drop_oldest [] filled = absurd (omega (arith, filled))
length-drop_oldest ((k, p) ∷ pools) filled =
    let (r, e, m) = oldest_of-Member (k, p) pools in
    rw e (omega (arith, length-drop_pool r.0 r.1 ((k, p) ∷ pools) m))

length-sweep_pools : (now : ℕ) (pools : Pools) → length (sweep_pools now pools) ≤ length pools
unfolding sweep_pools
length-sweep_pools now [] = omega arith
length-sweep_pools now ((k, p) ∷ pools) = ground (arith, length-sweep_pools now pools)

length-room :
    (pools : Pools)
    → length pools ≤ max_upstream_pools
    → length (if leb max_upstream_pools (length pools) then drop_oldest pools else pools)
      < max_upstream_pools
length-room pools bound = elim (Bool-cases (leb max_upstream_pools (length pools))) [
  | inl full ↦
      let filled : 0 < length pools = ground (arith, full) in
      rw full (omega (arith, length-drop_oldest pools filled, bound))
  | inr free ↦ rw free (ground (arith, free))
]

module _ (print : Addr → Bytes) where
  -- A pool is kept under a key of the destination it dials.
  abbrev pub Keyed : Bytes × Pool → Type 0
  Keyed (k, p) = (scheme : Bytes) × (k ≡ pool_key print scheme p.dials)

  abbrev pub PoolsValid : Pools → Type 0
  PoolsValid pools = (length pools ≤ max_upstream_pools) × All Keyed pools

  touch-Keyed :
      (key : Bytes) (now : ℕ) (pools : Pools) → All Keyed pools → All Keyed (touch key now pools)
  unfolding touch
  touch-Keyed key now [] all = tt
  touch-Keyed key now ((k, p) ∷ pools) (first, all) = elim (Bool-cases (text_eq k key)) [
    | inl same ↦ rw same (first, all)
    | inr other ↦ rw other (first, touch-Keyed key now pools all)
  ]

  length-touch :
      (key : Bytes) (now : ℕ) (pools : Pools) → length (touch key now pools) ≡ length pools
  unfolding touch
  length-touch key now [] = refl
  length-touch key now ((k, p) ∷ pools) = ground (arith, length-touch key now pools)

  drop_pool-Keyed :
      (key : Bytes) (pools : Pools) → All Keyed pools → All Keyed (drop_pool key pools)
  unfolding drop_pool
  drop_pool-Keyed key [] all = tt
  drop_pool-Keyed key ((k, p) ∷ pools) (first, all) = elim (Bool-cases (text_eq k key)) [
    | inl same ↦ rw same all
    | inr other ↦ rw other (first, drop_pool-Keyed key pools all)
  ]

  drop_found-Keyed :
      (pools : Pools) (o : Option (Bytes × Pool)) → All Keyed pools → All Keyed (drop_found pools o)
  unfolding drop_found
  drop_found-Keyed pools none all = all
  drop_found-Keyed pools (some (k, p)) all = drop_pool-Keyed k pools all

  drop_oldest-Keyed : (pools : Pools) → All Keyed pools → All Keyed (drop_oldest pools)
  unfolding drop_oldest
  drop_oldest-Keyed pools all = drop_found-Keyed pools (oldest_of none pools) all

  sweep_pools-PoolsValid :
      (now : ℕ) (pools : Pools) → PoolsValid pools → PoolsValid (sweep_pools now pools)
  unfolding sweep_pools
  sweep_pools-PoolsValid now [] v = v
  sweep_pools-PoolsValid now ((k, p) ∷ pools) (bound, all) =
      let (bound', all') = sweep_pools-PoolsValid now pools (omega (arith, bound), all.1) in
      elim (Bool-cases (ltb upstream_idle_timeout (now - p.used))) [
        | inl idle ↦ rw idle (bound', all')
        | inr in_use ↦ rw in_use (omega (arith, length-sweep_pools now pools, bound), (all.0, all'))
      ]

  pool_at-Keyed :
      (key : Bytes) (pools : Pools) (p : Pool)
      → All Keyed pools
      → pool_at key pools ≡ some p
      → Keyed (key, p)
  unfolding pool_at
  pool_at-Keyed key [] p all found = cc
  pool_at-Keyed key ((k, q) ∷ pools) p (first, all) found = elim (Bool-cases (text_eq k key)) [
    | inl same ↦
        let e : k ≡ key = (text_eq_iff k key).0 same in
        let here : q ≡ p = grind arith in
        let (scheme, keyed) = first in
        (scheme, sym e ∙ keyed ∙ ap (λ r. pool_key print scheme r.dials) here)
    | inr other ↦ pool_at-Keyed key pools p all (grind arith)
  ]

  -- The answer to a request for `v`: a transport whose destination has the same key, and valid pools.
  abbrev pub Served : Bytes → Vetted × Pools → Type 0
  Served key (dials, pools) =
      ((scheme : Bytes) × (pool_key print scheme dials ≡ key)) × PoolsValid pools

  room-Keyed :
      (pools : Pools) (b : Bool)
      → All Keyed pools
      → All Keyed (if b then drop_oldest pools else pools)
  room-Keyed pools true all = drop_oldest-Keyed pools all
  room-Keyed pools false all = all

  transport_at-Served :
      (pools : Pools) (scheme : Bytes) (v : Vetted) (now : ℕ) (o : Option Pool)
      → PoolsValid pools
      → pool_at (pool_key print scheme v) pools ≡ o
      → Served
          (pool_key print scheme v)
          (transport_at print pools (pool_key print scheme v) v now o)
  unfolding transport_at
  transport_at-Served pools scheme v now (some p) (bound, all) found =
      let key = pool_key print scheme v in
      let (s, e) = pool_at-Keyed key pools p all found in
      (
        (s, sym e),
        (omega (arith, length-touch key now pools, bound), touch-Keyed key now pools all),
      )
  transport_at-Served pools scheme v now none (bound, all) found =
      let few = length-room pools bound in
      let keyed = room-Keyed pools (leb max_upstream_pools (length pools)) all in
      ((scheme, refl), (omega (arith, few), ((scheme, refl), keyed)))

  transport-Served :
      (pools : Pools) (scheme : Bytes) (v : Vetted) (now : ℕ)
      → PoolsValid pools
      → Served (pool_key print scheme v) (transport print pools scheme v now)
  unfolding transport
  transport-Served pools scheme v now valid =
      transport_at-Served pools scheme v now (pool_at (pool_key print scheme v) pools) valid refl

  -- What roundTrip did: it sent the request, or refused one without an approved address.
  abbrev pub Sent : Bytes → Option Vetted → Option Vetted × Pools → Type 0
  Sent scheme none (o, pools) = o ≡ none
  Sent scheme (some v) (none, pools) = is_empty v.addrs ≡ true
  Sent scheme (some v) (some dials, pools) =
      (is_empty v.addrs ≡ false)
      × ((s : Bytes) × (pool_key print s dials ≡ pool_key print scheme v))

  -- If there are at most 1024 pools, each under a key of its own destination, then a round trip and a
  -- sweep keep them so; and a request is sent only if it has an approved address, by a transport bound
  -- to a destination with the request's own key.
  pub round_trip-Sent :
      (pools : Pools) (scheme : Bytes) (v : Option Vetted) (now : ℕ)
      → PoolsValid pools
      → Sent scheme v (round_trip print pools scheme v now)
        × PoolsValid (round_trip print pools scheme v now).1
        × PoolsValid (sweep_pools now pools)
  unfolding round_trip
  round_trip-Sent pools scheme none now valid =
      (refl, valid, sweep_pools-PoolsValid now pools valid)
  round_trip-Sent pools scheme (some v) now valid = elim (Bool-cases (is_empty v.addrs)) [
    | inl bare ↦ rw bare (bare, valid, sweep_pools-PoolsValid now pools valid)
    | inr filled ↦ rw filled (
        let (key, kept) = transport-Served pools scheme v now valid in
        ((filled, key), kept, sweep_pools-PoolsValid now pools valid))
  ]
