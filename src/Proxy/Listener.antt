-- ===== src/Proxy/Listener.antt =====
-- internal/proxy/listener.go: admission of connections, on a world of the tracker; and
-- internal/proxy/log.go: logRejected, as far as it changes the tracker.
pub mod Admitted
use proxy_acl.Base.{
  ℕ, Bool, true, false, Option, none, some, List, [], ◌∷◌, if◌then◌else◌, is_empty, Result, ok, err,
}
use proxy_acl.Base.Text.{Bytes, codes}
use proxy_acl.Netip.{Addr, unmap}
use proxy_acl.Acl.Subnets.{Subnet, subnet_of}
use proxy_acl.Config.{Config, client_limits_of}
use proxy_acl.Limits.Bucket.{Float64}
use proxy_acl.Limits.Suppression.{SuppressedKey}
use proxy_acl.Limits.Tracker.{ClientLimits, LimitError, Tracker, acquire, log_request, log_unknown}
use proxy_acl.Limits.World.{World, with_handle}

-- A connection as Accept gets it: its address, the address's text, and the times of Acquire and of the
-- log line.
pub record Incoming : Type 0 where
  pub addr : Addr
  pub addr_text : Bytes
  pub now : ℕ
  pub later : ℕ

-- The key of the lines of a rejected connection.
abbrev pub connection_key : SuppressedKey
connection_key = record { action = codes "deny"; host = codes "(connection)" }

-- remoteAddr, of a TCP address
abbrev pub remote_addr : Incoming → Addr
remote_addr c = unmap c.addr

module _ (fl : Float64) (enabled : Bool) where
  open fl use {F}

  -- logRejected, up to the writing: a rejection is counted for all unknown clients together, or for the
  -- client.
  unfoldable pub log_rejected : Tracker F → Incoming → Bytes → Tracker F
  unfolding log_unknown log_request
  log_rejected t c subnet =
      let unknown = (log_unknown fl t c.addr_text c.later).0 in
      let known = (log_request fl t (remote_addr c) connection_key c.later).0 in
      if enabled then (if is_empty subnet then unknown else known) else t

  -- The end of admit, on the result of Acquire. Whether the connection was admitted.
  unfoldable pub admit_result :
      World F → Incoming → Subnet → Tracker F × Result LimitError ℕ → World F × Bool
  unfolding log_rejected
  admit_result w c s (t, ok id) = (with_handle fl (t, ok id) w.handles, true)
  admit_result w c s (t, err e) = (record w { tracker = log_rejected t c s.name }, false)

  -- admit, on the client's subnet
  unfoldable pub admit_in :
      {L : Type 0} → Config L F → World F → Incoming → Option Subnet → World F × Bool
  unfolding log_rejected admit_result acquire client_limits_of
  admit_in cfg w c none = (record w { tracker = log_rejected w.tracker c [] }, false)
  admit_in cfg w c (some s) = admit_result w c s (
      acquire fl w.tracker (remote_addr c) (client_limits_of cfg (some s)) cfg.total_connections
        c.now)

  -- Proxy.admit
  unfoldable pub admit : {L : Type 0} → Config L F → World F → Incoming → World F × Bool
  unfolding admit_in subnet_of
  admit cfg w c = admit_in cfg w c (subnet_of cfg.policy (remote_addr c))

  -- listener.Accept: the world, and the connection that it returns with those that are still to come.
  -- The list ends where the inner Accept has an error. `configs` is the active config at each of them.
  unfoldable pub accept :
      {L : Type 0}
      → List (Config L F × Incoming)
      → World F
      → World F × Option (Incoming × List (Config L F × Incoming))
  unfolding admit
  accept [] w = (w, none)
  accept ((cfg, c) ∷ rest) w =
      let (w', admitted) = admit cfg w c in
      let onward = accept rest w' in if admitted then (w', some (c, rest)) else onward
