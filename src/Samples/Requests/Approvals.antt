-- ===== src/Samples/Requests/Approvals.antt =====
-- The proxy's check on the sample policy.
use proxy_acl.Base.{ℕ, ◌*◌, ◌^◌, ◌≡◌, refl, Bool, true, Option, some, List, [], ◌∷◌}
use proxy_acl.Base.Text.{Bytes, codes}
use proxy_acl.Netip.{Addr, v4}
use proxy_acl.Acl.Subnets.{Subnet, subnet_of}
use proxy_acl.Acl.Check.{Resolver}
use proxy_acl.Limits.Tracker.{ClientLimits, new_tracker, allow}
use proxy_acl.Proxy.Dial.{Vetted}
use proxy_acl.Proxy.Request.{clip, approved, check}
use proxy_acl.Proxy.Request.Approved.{ApprovedBy, check-ApprovedBy}
use proxy_acl.Samples.Requests.{policy, answers, pc}
use proxy_acl.Samples.Limits.{whole, two_each}

abbrev by_client : Addr → Resolver ℕ (List Bytes)
by_client client = answers

abbrev all_levels : Bool → Bool
all_levels allowed = true

abbrev same_limits : Option Subnet → ClientLimits ℕ
same_limits o = two_each

abbrev web : Vetted
web = record { host = codes "www.example.com"; port = 443; addrs = v4 (8 * 2 ^ 24) ∷ []; idle = 0 }

clipped : clip (codes "abcdef") 3 ≡ codes "abc...(6 bytes)"
unfolding clip
clipped = refl

web_approved :
    (check whole all_levels by_client policy same_limits
      (new_tracker whole)
      pc
      (codes "www.example.com")
      (codes "443")
      1
      2
      []).0
    ≡ approved web
unfolding check new_tracker policy
web_approved = refl

check-ApprovedBy_example :
    ((allow whole (new_tracker whole) pc two_each 1).1 ≡ true)
    × ((s : Subnet) × (subnet_of policy pc ≡ some s)
        × ApprovedBy whole all_levels by_client pc
            (codes "www.example.com")
            (codes "443")
            []
            0
            web
            s)
check-ApprovedBy_example =
    check-ApprovedBy whole all_levels by_client policy same_limits (new_tracker whole) pc
      (codes "www.example.com") (codes "443") 1 2 [] web web_approved
