-- ===== src/Dns/Resolver/Thread.antt =====
-- The data of the resolver and of its callers.
use proxy_acl.Base.{ℕ, Option, List, ◌++◌}
use proxy_acl.Base.Text.{Bytes, codes}
use proxy_acl.Base.Maps.{GoMap}
use proxy_acl.Netip.{Addr}
use proxy_acl.Dns.Cache.{Found, Entries}

abbrev pub max_concurrent : ℕ
max_concurrent = 256

abbrev pub max_per_client : ℕ
max_per_client = 32

-- The arguments of LookupNetIP; `client` is the context's value under clientKey, if it has one.
pub record Query : Type 0 where
  pub client : Option Addr
  pub network : Bytes
  pub host : Bytes

abbrev pub query_key : Query → Bytes
query_key q = q.network ++ codes "|" ++ q.host

-- `clientSlots`: what its channel `sem` holds, and `users`.
pub record ClientSlots : Type 0 where
  pub held : ℕ
  pub users : ℕ

-- `Resolver`. Flights and slots are shared by pointers, so they lie on heaps; a flight is its result
-- once `done` is closed. `running` is what the channel `global` holds, and `asked` the calls of
-- next.LookupNetIP that have returned.
pub record Resolver (E : Type 0) : Type 0 where
  pub entries : Entries E
  pub flights : GoMap Bytes ℕ
  pub clients : GoMap Addr ℕ
  pub running : ℕ
  pub results : ℕ → Option (Found E)
  pub next_flight : ℕ
  pub slots : ℕ → ClientSlots
  pub next_slots : ℕ
  pub asked : List (Query × Found E)

-- The release function of acquireClient: of a client's slot, or `func() {}`.
abbrev pub Hold : Type 0
Hold = Option (Addr × ℕ)

-- What LookupNetIP returns: the results of a lookup, or the error of its own context.
pub data Reply (E : Type 0) : Type 0 where
  answered : Found E → Reply E
  gave_up : E → Reply E

-- What a thread does after a call of release().
pub data After (E : Type 0) : Type 0 where
  wait_on : Query → ℕ → After E
  reply_with : Query → Reply E → After E
  end : After E

-- Where a thread stands. The first eight are LookupNetIP with acquireClient and wait; from `starting`
-- on it is run.
pub data Thread (E : Type 0) : Type 0 where
  calling : Query → Thread E
  entering : Query → Addr → Thread E
  queued : Query → Addr → ℕ → Thread E
  slotted : Query → Hold → Thread E
  freeing : Hold → After E → Thread E
  leaving : Addr → ℕ → After E → Thread E
  waiting : Query → ℕ → Thread E
  returned : Query → Reply E → Thread E
  starting looking : Query → ℕ → Hold → Thread E
  looked storing landing : Query → ℕ → Hold → Found E → Thread E
  closing : ℕ → Hold → Found E → Thread E
  finished : Thread E

-- What the world gives to a step: the times that now() returns, the order of `range`, the context's
-- error if the select takes that case, and the resolver's answer.
pub record Env (E : Type 0) : Type 0 where
  pub now : ℕ
  pub later : ℕ
  pub order : List Bytes
  pub ctx_error : Option E
  pub answer : Found E
