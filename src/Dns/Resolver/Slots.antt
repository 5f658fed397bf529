-- ===== src/Dns/Resolver/Slots.antt =====
-- The slots of clients and of the whole resolver: what they count, and their invariant.
pub mod Moves
pub mod Users
pub mod Steps
pub mod Tagged
pub mod Bounds
use proxy_acl.Base.{
  ℕ, ◌+◌, ◌≤◌, ◌<◌, ◌≡◌, Bool, Option, none, some, List, [], ◌∷◌, ◌++◌, arith, if◌then◌else◌, ◌==◌,
  All,
}
use proxy_acl.Base.Maps.{GoMap, get}
use proxy_acl.Netip.{Addr, addr_key, addr_eq}
use proxy_acl.Dns.Resolver.Thread.{
  max_concurrent, max_per_client, Query, ClientSlots, Resolver, Hold, After, Thread, calling,
  entering, queued, slotted, freeing, leaving, waiting, returned, starting, looking, looked,
  storing, landing, closing, finished,
}
use proxy_acl.Dns.Resolver.Keeps.{total, total_swap, All_swap}

-- Whether a release function holds the slots `cs`.
abbrev pub held_by : ℕ → Hold → ℕ
held_by cs none = 0
held_by cs (some (client, i)) = if i == cs then 1 else 0

-- The map has the slots of a client that some thread uses.
abbrev pub Mapped : GoMap Addr ℕ → Hold → Type 0
Mapped clients none = Unit
Mapped clients (some (client, cs)) = get client clients ≡ some cs

-- Whether a release function gives back a slot of the client.
abbrev pub held_for : Addr → Hold → ℕ
held_for client none = 0
held_for client (some (c, cs)) = if addr_eq client c then 1 else 0

module _ {E : Type 0} where
  -- The release function of a thread that has one to call.
  abbrev pub hold_of : Thread E → Hold
  hold_of (calling q) = none
  hold_of (entering q client) = none
  hold_of (queued q client cs) = none
  hold_of (slotted q hold) = hold
  hold_of (freeing hold after) = hold
  hold_of (leaving client cs after) = none
  hold_of (waiting q f) = none
  hold_of (returned q reply) = none
  hold_of (starting q f hold) = hold
  hold_of (looking q f hold) = hold
  hold_of (looked q f hold found) = hold
  hold_of (storing q f hold found) = hold
  hold_of (landing q f hold found) = hold
  hold_of (closing f hold found) = hold
  hold_of finished = none

  -- The slots of a client that a thread is counted in: a held one, or one it waits for or leaves.
  abbrev pub use_of : Thread E → Hold
  use_of (queued q client cs) = some (client, cs)
  use_of (leaving client cs after) = some (client, cs)
  use_of p = hold_of p

  abbrev pub is_looking : Thread E → ℕ
  is_looking (looking q f hold) = 1
  is_looking (looked q f hold found) = 1
  is_looking p = 0

  pub record SlotsInv (r : Resolver E) (threads : List (Thread E)) : Type 0 where
    pub held_counted : (cs : ℕ) → (r.slots cs).held ≡ total (λ p. held_by cs (hold_of p)) threads
    pub users_counted : (cs : ℕ) → (r.slots cs).users ≡ total (λ p. held_by cs (use_of p)) threads
    pub held_bounded : (cs : ℕ) → (r.slots cs).held ≤ max_per_client
    pub running_counted : r.running ≡ total is_looking threads
    pub running_bounded : r.running ≤ max_concurrent
    pub placed : All (λ p. Mapped r.clients (use_of p)) threads
    pub kept_used :
        (client : Addr) (cs : ℕ) → get client r.clients ≡ some cs → 0 < (r.slots cs).users
    pub one_client :
        (c d : Addr) (cs : ℕ) → get c r.clients ≡ some cs → get d r.clients ≡ some cs → c ≡ d
    pub below : (client : Addr) (cs : ℕ) → get client r.clients ≡ some cs → cs < r.next_slots
    pub unused : (cs : ℕ) → r.next_slots ≤ cs → (r.slots cs).users ≡ 0

  pub swap-SlotsInv :
      (r : Resolver E) (xs ys zs : List (Thread E))
      → SlotsInv r (xs ++ ys ++ zs)
      → SlotsInv r (ys ++ xs ++ zs)
  swap-SlotsInv r xs ys zs v = record {
    held_counted =
        λ cs. omega (arith, v.held_counted cs, total_swap (λ p. held_by cs (hold_of p)) xs ys zs);
    users_counted =
        λ cs. omega (arith, v.users_counted cs, total_swap (λ p. held_by cs (use_of p)) xs ys zs);
    held_bounded = v.held_bounded;
    running_counted = omega (arith, v.running_counted, total_swap is_looking xs ys zs);
    running_bounded = v.running_bounded;
    placed = All_swap (λ p. Mapped r.clients (use_of p)) xs ys zs v.placed;
    kept_used = v.kept_used;
    one_client = v.one_client;
    below = v.below;
    unused = v.unused;
  }
