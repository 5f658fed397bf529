-- ===== src/Limits/Sweep.antt =====
-- internal/limits/limits.go: Sweep, Connections and Tracked. Go's order of iteration over a map is
-- that of the list here; no result depends on it but the order of the summaries.
use proxy_acl.Base.{
  ℕ, ◌-◌, Bool, true, false, not, ◌&&◌, ◌||◌, Option, none, some, List, [], ◌∷◌, ◌++◌, ltb, ◌==◌,
  if◌then◌else◌, length, is_empty,
}
use proxy_acl.Netip.{Addr, no_addr, Prefix, addr_eq, prefix_eq}
use proxy_acl.Limits.Bucket.{Float64}
use proxy_acl.Limits.Suppression.{Counts, Entry}
use proxy_acl.Limits.Tracker.{Tracker, find, overflow_prefix, update, forget_after}

-- `Suppressed`
pub record Summary : Type 0 where
  pub client : Addr
  pub prefix : Prefix
  pub unknown : Bool
  pub counts : Counts
  pub other : ℕ

abbrev pub no_prefix : Prefix
no_prefix = record { addr = no_addr; bits = 0 }

-- The summaries' keys: Suppressed{Client: ip}, Suppressed{Prefix: p} and Suppressed{Unknown: true}.
abbrev pub of_client : Addr → Summary
of_client ip = record { client = ip; prefix = no_prefix; unknown = false; counts = []; other = 0 }

abbrev pub of_prefix : Prefix → Summary
of_prefix p = record { client = no_addr; prefix = p; unknown = false; counts = []; other = 0 }

abbrev pub of_unknown : Summary
of_unknown = record { client = no_addr; prefix = no_prefix; unknown = true; counts = []; other = 0 }

module _ {F : Type 0} where
  unfoldable pub has_pending : Entry F → Bool
  has_pending c = not (is_empty c.suppressed) || ltb 0 c.other

  -- The closure `take`: the summaries so far with this entry's, and the entry without its counts.
  unfoldable pub take_summary : Entry F → Summary → List Summary
  unfolding has_pending
  take_summary c s =
      if has_pending c then record s { counts = c.suppressed; other = c.other } ∷ [] else []

  unfoldable pub clear_pending : Entry F → Entry F
  unfolding has_pending
  clear_pending c = if has_pending c then record c { suppressed = []; other = 0 } else c

  -- No connection, and not seen for a while.
  unfoldable pub forgotten : ℕ → Entry F → Bool
  forgotten now c = c.conns == 0 && ltb forget_after (now - c.seen)

module _ (fl : Float64) where
  open fl use {F}

  -- What a loop over a map leaves: the heap, the map and the summaries.
  pub record Swept {ℓ} (K : Type ℓ) : Type ℓ where
    pub heap : ℕ → Entry F
    pub kept : List (K × ℕ)
    pub out : List Summary

  module _ {ℓ} {K : Type ℓ} where
    unfoldable pub sweep_map : ℕ → (K → Summary) → (ℕ → Entry F) → List (K × ℕ) → Swept K
    unfolding take_summary clear_pending forgotten update
    sweep_map now label heap [] = record { heap = heap; kept = []; out = [] }
    sweep_map now label heap ((k, id) ∷ m) =
        let c = heap id in
        let rest = sweep_map now label (update fl heap id clear_pending) m in
        record {
          heap = rest.heap;
          kept = if forgotten now c then rest.kept else (k, id) ∷ rest.kept;
          out = take_summary c (label k) ++ rest.out;
        }

  unfoldable pub sweep : Tracker F → ℕ → Tracker F × List Summary
  unfolding sweep_map take_summary clear_pending
  sweep t now =
      let a = sweep_map now of_client t.entries t.clients in
      let b = sweep_map now of_prefix a.heap t.overflow in
      (
        record t {
          entries = b.heap;
          clients = a.kept;
          overflow = b.kept;
          unknown = clear_pending t.unknown;
        },
        a.out ++ b.out ++ take_summary t.unknown of_unknown,
      )

  -- The entry that Connections reads.
  unfoldable pub current_entry : Tracker F → Addr → Option ℕ
  unfolding find addr_eq prefix_eq overflow_prefix
  current_entry t ip = elim (find addr_eq ip t.clients) [
    | some id ↦ some id
    | none ↦ find prefix_eq (overflow_prefix ip) t.overflow
  ]

  unfoldable pub connections : Tracker F → Addr → ℕ × ℕ
  unfolding current_entry
  connections t ip = elim (current_entry t ip) [
    | none ↦ (0, t.total)
    | some id ↦ ((t.entries id).conns, t.total)
  ]

  unfoldable pub tracked : Tracker F → ℕ
  tracked t = length t.clients
