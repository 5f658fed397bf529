-- ===== src/Proxy/Request/Approved.antt =====
-- A destination is approved only by the rules of the client's own subnet.
use proxy_acl.Base.{
  ℕ, ◌≡◌, inl, inr, refl, Bool, true, false, Option, none, some, List, arith, if◌then◌else◌,
  Bool-cases,
}
use proxy_acl.Base.Text.{Bytes}
use proxy_acl.Netip.{Addr}
use proxy_acl.Acl.Subnets.{Subnet, subnet_of}
use proxy_acl.Acl.Check.{Resolver, Decision, check_subnet}
use proxy_acl.Limits.Bucket.{Float64}
use proxy_acl.Limits.Tracker.{ClientLimits, Tracker, allow}
use proxy_acl.Proxy.Dial.{Vetted}
use proxy_acl.Proxy.Request.{Answer, too_many_requests, approved, answer_of, check_in, check}

module _ (fl : Float64) (enabled : Bool → Bool) {E S : Type 0} (res : Addr → Resolver E S) where
  open fl use {F}

  -- The subnet allows the request, and `v` is its decision with the request's host.
  abbrev pub ApprovedBy : Addr → Bytes → Bytes → S → ℕ → Vetted → Subnet → Type 0
  ApprovedBy client host port st idle v s =
      let d = (check_subnet (res client) s host port st).0 in
      (d.allowed ≡ true) × (v ≡ record { host = host; port = d.port; addrs = d.addrs; idle = idle })

  answer_of-approved :
      (host : Bytes) (lim : ClientLimits F) (d : Decision E) (v : Vetted)
      → answer_of fl enabled host lim d ≡ approved v
      → (d.allowed ≡ true)
        × (v ≡ record {
          host = host;
          port = d.port;
          addrs = d.addrs;
          idle = lim.tunnel_idle_timeout;
        })
  unfolding answer_of
  answer_of-approved host lim d v e = elim (Bool-cases d.allowed) [
    | inl yes_ ↦ (yes_, grind arith)
    | inr not_allowed ↦ absurd (grind arith)
  ]

  check_in-approved :
      (t : Tracker F) (client : Addr) (lim : ClientLimits F) (host port : Bytes) (later : ℕ)
      (st : S) (o : Option Subnet) (v : Vetted)
      → (check_in fl enabled res t client lim host port later st o).0 ≡ approved v
      → (s : Subnet) × (o ≡ some s) × ApprovedBy client host port st lim.tunnel_idle_timeout v s
  unfolding check_in
  check_in-approved t client lim host port later st none v e = cc
  check_in-approved t client lim host port later st (some s) v e =
      (s, refl, answer_of-approved host lim (check_subnet (res client) s host port st).0 v e)

  by_token :
      (t : Tracker F) (client : Addr) (lim : ClientLimits F) (host port : Bytes) (later : ℕ)
      (st : S) (o : Option Subnet) (v : Vetted) (taken : Bool) (refused : Tracker F)
      → (let rest = check_in fl enabled res t client lim host port later st o in
          let r : Answer × Tracker F × S =
            if taken then rest else (too_many_requests, refused, st) in
          r.0 ≡ approved v)
      → (taken ≡ true)
        × ((s : Subnet) × (o ≡ some s) × ApprovedBy client host port st lim.tunnel_idle_timeout v s)
  by_token t client lim host port later st o v true refused e =
      (refl, check_in-approved t client lim host port later st o v e)
  by_token t client lim host port later st o v false refused e = absurd (grind arith)

  -- If the proxy's check approves a destination, then the client had a token left, the client has a
  -- subnet whose rules allow the request, and the destination is the requested host with the port and
  -- the checked addresses of that subnet's decision.
  pub check-ApprovedBy :
      (policy : List Subnet) (limits_of : Option Subnet → ClientLimits F) (t : Tracker F)
      (client : Addr) (host port : Bytes) (now later : ℕ) (st : S) (v : Vetted)
      → (check fl enabled res policy limits_of t client host port now later st).0 ≡ approved v
      → let lim = limits_of (subnet_of policy client) in
        ((allow fl t client lim now).1 ≡ true)
        × ((s : Subnet) × (subnet_of policy client ≡ some s)
            × ApprovedBy client host port st lim.tunnel_idle_timeout v s)
  unfolding check
  check-ApprovedBy policy limits_of t client host port now later st v e =
      let lim = limits_of (subnet_of policy client) in
      let r = allow fl t client lim now in
      by_token r.0 client lim host port later st (subnet_of policy client) v r.1 _ e
