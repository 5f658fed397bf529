-- ===== src/Samples/Admission.antt =====
-- Two connections come in: the first is from nowhere, and the second has a place.
use proxy_acl.Base.{ℕ, ◌≡◌, refl, true, some, List, [], ◌∷◌}
use proxy_acl.Base.Text.{codes}
use proxy_acl.Netip.{v4}
use proxy_acl.Acl.Subnets.{Subnet}
use proxy_acl.Config.{Config}
use proxy_acl.Limits.World.{start}
use proxy_acl.Limits.World.Steps.{WorldInv}
use proxy_acl.Limits.World.Reach.{start-Inv}
use proxy_acl.Proxy.Listener.{Incoming, accept}
use proxy_acl.Proxy.Listener.Admitted.{Accepted, accept-Accepted}
use proxy_acl.Samples.Limits.{whole, two_each}
use proxy_acl.Acl.Rules.{RuleSet}

abbrev blank_rules : RuleSet
blank_rules = record { exact = []; suffix = []; names = []; any_rule = []; addrs = [] }

abbrev home : Subnet
home = record {
  name = codes "home";
  prefixes = record { addr = v4 0; bits = 24 } ∷ [];
  ports = [];
  allow = blank_rules;
  deny = blank_rules;
}

abbrev home_only : Config ℕ ℕ
home_only = record {
  log_level = 0;
  policy = home ∷ [];
  total_connections = 3;
  client_limits = two_each;
  subnet_limits = [];
}

abbrev outsider : Incoming
outsider = record { addr = v4 99_999; addr_text = codes "0.1.134.159"; now = 1; later = 2 }

abbrev insider : Incoming
insider = record { addr = v4 7; addr_text = codes "0.0.0.7"; now = 3; later = 4 }

abbrev arrivals : List (Config ℕ ℕ × Incoming)
arrivals = (home_only, outsider) ∷ (home_only, insider) ∷ (home_only, insider) ∷ []

second_returned :
    (accept whole true arrivals (start whole)).1 ≡ some (insider, (home_only, insider) ∷ [])
unfolding accept start
second_returned = refl

accept-Accepted_example :
    WorldInv whole (accept whole true arrivals (start whole)).0
    × Accepted whole true arrivals (start whole) (accept whole true arrivals (start whole))
accept-Accepted_example = accept-Accepted whole true arrivals (start whole) (start-Inv whole)
