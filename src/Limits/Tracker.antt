-- ===== src/Limits/Tracker.antt =====
-- internal/limits/limits.go: the tracker. Every method holds the tracker's lock from its beginning to
-- its end, so it is one step; `now` is what `t.now()` returns in it.
use proxy_acl.Base.{
  ℕ, ◌+◌, ◌-◌, Bool, ◌&&◌, Option, none, some, List, [], ◌∷◌, ltb, leb, ◌==◌, if◌then◌else◌, length,
  Result, ok, err,
}
use proxy_acl.Base.Text.{Bytes, codes}
use proxy_acl.Netip.{Addr, Prefix, is_6, addr_eq, prefix_eq, addr_prefix}
use proxy_acl.Limits.Bucket.{Float64, take_token}
use proxy_acl.Limits.Suppression.{SuppressedKey, Entry, new_entry, log_line}

abbrev pub max_clients : ℕ
max_clients = 100_000

-- Five minutes, in nanoseconds.
abbrev pub forget_after : ℕ
forget_after = 300_000_000_000

-- `limits.Client`, with times in nanoseconds.
pub record ClientLimits (F : Type 0) : Type 0 where
  pub max_connections : ℕ
  pub requests_per_second : F
  pub request_burst : ℕ
  pub tunnel_idle_timeout : ℕ

pub data LimitError : Type 0 where
  total_connections client_connections : LimitError

-- Entries are shared: the maps and the release functions refer to them. So they lie on a heap,
-- `entries`, under numbers below `next`.
pub record Tracker (F : Type 0) : Type 0 where
  pub entries : ℕ → Entry F
  pub next : ℕ
  pub clients : List (Addr × ℕ)
  pub overflow : List (Prefix × ℕ)
  pub unknown : Entry F
  pub total : ℕ

-- A map's entry under a key.
unfoldable pub find {ℓ} : {K : Type ℓ} → (K → K → Bool) → K → List (K × ℕ) → Option ℕ
find eq k [] = none
find eq k ((j, id) ∷ m) = if eq j k then some id else find eq k m

-- overflowPrefix
unfoldable pub overflow_prefix : Addr → Prefix
unfolding is_6 addr_prefix
overflow_prefix ip = addr_prefix ip (if is_6 ip then 64 else 24)

module _ (fl : Float64) where
  open fl use {F}

  -- c.f = …, through the pointer to entry `id`
  unfoldable pub update : (ℕ → Entry F) → ℕ → (Entry F → Entry F) → ℕ → Entry F
  update entries id f j = if j == id then f (entries j) else entries j

  -- NewTracker
  unfoldable pub new_tracker : Tracker F
  new_tracker = record {
    entries = λ i. new_entry fl;
    next = 0;
    clients = [];
    overflow = [];
    unknown = new_entry fl;
    total = 0;
  }

  -- c = &client{}
  unfoldable pub alloc : Tracker F → Tracker F
  unfolding update
  alloc t = record t { entries = update t.entries t.next (λ c. new_entry fl); next = t.next + 1 }

  -- The inner `if` of Tracker.get, on `t.overflow[p]`.
  unfoldable pub overflow_entry : Tracker F → Prefix → Option ℕ → Tracker F × ℕ
  unfolding alloc
  overflow_entry t p (some id) = (t, id)
  overflow_entry t p none = (record (alloc t) { overflow = (p, t.next) ∷ t.overflow }, t.next)

  -- The outer `if` of Tracker.get, on `t.clients[ip]`.
  unfoldable pub client_entry : Tracker F → Addr → Option ℕ → Tracker F × ℕ
  unfolding alloc find prefix_eq overflow_prefix overflow_entry
  client_entry t ip (some id) = (t, id)
  client_entry t ip none =
      if ltb (length t.clients) max_clients
      then (record (alloc t) { clients = (ip, t.next) ∷ t.clients }, t.next)
      else overflow_entry t (overflow_prefix ip) (find prefix_eq (overflow_prefix ip) t.overflow)

  -- Tracker.get without its last line: the tracker and the entry's number.
  unfoldable pub find_or_add : Tracker F → Addr → Tracker F × ℕ
  unfolding find addr_eq client_entry
  find_or_add t ip = client_entry t ip (find addr_eq ip t.clients)

  unfoldable pub set_entry : Tracker F → ℕ → (Entry F → Entry F) → Tracker F
  unfolding update
  set_entry t id f = record t { entries = update t.entries id f }

  -- Tracker.get
  unfoldable pub get_entry : Tracker F → Addr → ℕ → Tracker F × ℕ
  unfolding find_or_add set_entry
  get_entry t ip now =
      let (t', id) = find_or_add t ip in (set_entry t' id (λ c. record c { seen = now }), id)

  -- The end of Acquire, on the entry.
  unfoldable pub admit_entry : Tracker F → ℕ → ClientLimits F → Tracker F × Result LimitError ℕ
  unfolding set_entry
  admit_entry t id lim =
      if ltb 0 lim.max_connections && leb lim.max_connections (t.entries id).conns
      then (t, err client_connections)
      else (
        record (set_entry t id (λ c. record c { conns = c.conns + 1 })) { total = t.total + 1 },
        ok id,
      )

  -- Tracker.Acquire; the release function is the number of its entry, not yet called.
  unfoldable pub acquire :
      Tracker F → Addr → ClientLimits F → ℕ → ℕ → Tracker F × Result LimitError ℕ
  unfolding get_entry admit_entry
  acquire t ip lim max_total now =
      if ltb 0 max_total && leb max_total t.total
      then (t, err total_connections)
      else (let (t', id) = get_entry t ip now in admit_entry t' id lim)

  -- The body of a release function.
  unfoldable pub release_entry : Tracker F → ℕ → ℕ → Tracker F
  unfolding set_entry
  release_entry t id now =
      record (set_entry t id (λ c. record c { conns = c.conns - 1; seen = now })) {
        total = t.total - 1;
      }

  -- Tracker.Allow
  unfoldable pub allow : Tracker F → Addr → ClientLimits F → ℕ → Tracker F × Bool
  unfolding get_entry set_entry take_token
  allow t ip lim now =
      let (t', id) = get_entry t ip now in
      let (b, taken) =
        take_token fl (t'.entries id).requests now lim.requests_per_second lim.request_burst in
      (set_entry t' id (λ c. record c { requests = b }), taken)

  -- Tracker.Log
  unfoldable pub log_request : Tracker F → Addr → SuppressedKey → ℕ → Tracker F × Bool
  unfolding get_entry set_entry log_line
  log_request t ip k now =
      let (t', id) = get_entry t ip now in
      let (c, written) = log_line fl (t'.entries id) now k in (set_entry t' id (λ old. c), written)

  -- Tracker.LogUnknown; `text` is `ip.String()`.
  unfoldable pub log_unknown : Tracker F → Bytes → ℕ → Tracker F × Bool
  unfolding log_line
  log_unknown t text now =
      let (c, written) =
        log_line fl t.unknown now (record { action = codes "deny"; host = text }) in
      (record t { unknown = c }, written)
