-- ===== src/Proxy/Request.antt =====
-- internal/proxy/proxy.go: check, and internal/proxy/log.go: clip, logDecision, sample.
pub mod Approved
use proxy_acl.Base.{
  ℕ, Bool, true, false, Option, none, some, List, [], ◌∷◌, ◌++◌, leb, length, take, if◌then◌else◌,
}
use proxy_acl.Base.Text.{Bytes, codes, itoa}
use proxy_acl.Netip.{Addr}
use proxy_acl.Acl.Host.{HostError}
use proxy_acl.Acl.Subnets.{Subnet, subnet_of}
use proxy_acl.Acl.Check.{
  Resolver, Reason, invalid_host, client_not_in_any_subnet, rate_limited, Decision, denied,
  check_subnet,
}
use proxy_acl.Limits.Bucket.{Float64}
use proxy_acl.Limits.Suppression.{SuppressedKey}
use proxy_acl.Limits.Tracker.{ClientLimits, Tracker, allow, log_request}
use proxy_acl.Proxy.Dial.{Vetted}

abbrev pub max_log_host : ℕ
max_log_host = 253

unfoldable pub clip : Bytes → ℕ → Bytes
unfolding take itoa
clip s n =
    if leb (length s) n then s else take n s ++ codes "...(" ++ itoa (length s) ++ codes " bytes)"

-- What the client gets: the refusals, or the destination to go on with.
pub data Answer : Type 0 where
  too_many_requests blocked : Answer
  approved : Vetted → Answer

-- The key under which a decision's line is counted.
unfoldable pub log_host : {E : Type 0} → Bytes → Reason E → Bytes
unfolding clip
log_host host (invalid_host e) = codes "(invalid host)"
log_host host reason = clip host max_log_host

-- The decisions that check makes itself.
unfoldable pub limited : {E : Type 0} → Option Subnet → Decision E
limited o = record {
  allowed = false;
  subnet = elim o [ none ↦ [] | some s ↦ s.name ];
  rule = [];
  reason = rate_limited;
  addrs = [];
  port = 0;
}

unfoldable pub outside : {E : Type 0} → Decision E
outside = record {
  allowed = false;
  subnet = [];
  rule = [];
  reason = client_not_in_any_subnet;
  addrs = [];
  port = 0;
}

-- `enabled` tells whether lines of allowed, or of denied, requests are at an enabled level.
module _ (fl : Float64) (enabled : Bool → Bool) {E : Type 0} where
  open fl use {F}

  -- logDecision, up to the writing: its effect on the client's log budget.
  unfoldable pub log_decision : Tracker F → Addr → Bytes → Decision E → ℕ → Tracker F
  unfolding log_host log_request
  log_decision t client host d now =
      let action = if d.allowed then codes "allow" else codes "deny" in
      let key : SuppressedKey = record { action = action; host = log_host host d.reason } in
      if enabled d.allowed then (log_request fl t client key now).0 else t

  -- The end of check, on the subnet's decision.
  unfoldable pub answer_of : Bytes → ClientLimits F → Decision E → Answer
  answer_of host lim d =
      if d.allowed
      then approved
          (record { host = host; port = d.port; addrs = d.addrs; idle = lim.tunnel_idle_timeout })
      else blocked

  module _ {S : Type 0} (res : Addr → Resolver E S) where
    -- check after the rate limit, on the client's subnet
    unfoldable pub check_in :
        Tracker F
        → Addr
        → ClientLimits F
        → Bytes
        → Bytes
        → ℕ
        → S
        → Option Subnet
        → Answer × Tracker F × S
    unfolding log_decision answer_of outside check_subnet
    check_in t client lim host port later st none =
        (blocked, log_decision t client host outside later, st)
    check_in t client lim host port later st (some s) =
        let (d, st') = check_subnet (res client) s host port st in
        (answer_of host lim d, log_decision t client host d later, st')

    -- Proxy.check, with the times of the calls of Allow and of Log. `limits_of` is Config.ClientLimits.
    unfoldable pub check :
        List Subnet
        → (Option Subnet → ClientLimits F)
        → Tracker F
        → Addr
        → Bytes
        → Bytes
        → ℕ
        → ℕ
        → S
        → Answer × Tracker F × S
    unfolding subnet_of allow check_in log_decision limited
    check policy limits_of t client host port now later st =
        let subnet = subnet_of policy client in
        let lim = limits_of subnet in
        let (t', taken) = allow fl t client lim now in
        let rest = check_in t' client lim host port later st subnet in
        if taken
        then rest
        else (too_many_requests, log_decision t' client host (limited subnet) later, st)
