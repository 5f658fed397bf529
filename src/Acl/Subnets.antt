-- ===== src/Acl/Subnets.antt =====
-- internal/acl/policy.go: subnets, how a policy is compiled, and the subnet of a client.
pub mod Compiled
pub mod Distinct
pub mod Longest
use proxy_acl.Base.{
  ℕ, zero, suc, ◌+◌, ◌≡◌, refl, Bool, true, false, not, ◌&&◌, ◌||◌, Option, none, some, List, [],
  ◌∷◌, ◌++◌, ltb, ◌==◌, if◌then◌else◌, is_empty, any, Result, ok, err, map_err, ◌>>=◌, ◌>>◌,
}
use proxy_acl.Base.Text.{Bytes, codes, text_eq, itoa}
use proxy_acl.Netip.{Addr, v4, v6, Prefix, prefix_eq, contains_addr, unmap}
use proxy_acl.Acl.Port.{PortError, PortRange, parse_port_range}
use proxy_acl.Acl.Rules.{
  PrefixError, RuleError, RuleSet, AddrRule, Regexp, parse_prefix, compile_rules,
}

pub record SubnetSpec : Type 0 where
  pub name : Bytes
  pub cidrs : List Bytes
  pub port_texts : List Bytes
  pub allow_texts : List Bytes
  pub deny_texts : List Bytes

pub record Subnet : Type 0 where
  pub name : Bytes
  pub prefixes : List Prefix
  pub ports : List PortRange
  pub allow : RuleSet
  pub deny : RuleSet

pub data SubnetError : Type 0 where
  no_cidrs : SubnetError
  bad_cidr : Bytes → PrefixError → SubnetError
  bad_port : Bytes → PortError → SubnetError
  bad_allow bad_deny : Bytes × RuleError → SubnetError

pub data PolicyError : Type 0 where
  no_subnets : PolicyError
  duplicate_name : Bytes → PolicyError
  bad_subnet : Bytes → SubnetError → PolicyError
  cidr_in_use : Bytes → Prefix → Bytes → PolicyError

-- defaultPorts
abbrev pub default_ports : List PortRange
default_ports = record { lo = 80; hi = 80 } ∷ record { lo = 443; hi = 443 } ∷ []

unfoldable pub parse_cidrs : List Bytes → Result SubnetError (List Prefix)
unfolding parse_prefix
parse_cidrs [] = ok []
parse_cidrs (c ∷ cs) = do
  p ← map_err (bad_cidr c) (parse_prefix c)
  ps ← parse_cidrs cs
  ok (p ∷ ps)

unfoldable pub parse_ports : List Bytes → Result SubnetError (List PortRange)
unfolding parse_port_range
parse_ports [] = ok []
parse_ports (p ∷ ps) = do
  r ← map_err (bad_port p) (parse_port_range p)
  rs ← parse_ports ps
  ok (r ∷ rs)

-- `*` in a deny list also stands for every address: 0.0.0.0/0 and ::/0.
unfoldable pub deny_everything : RuleSet → RuleSet
deny_everything rs = if is_empty rs.any_rule then rs else record rs {
  addrs =
      rs.addrs
      ++ record { pattern_text = rs.any_rule; prefix = record { addr = v4 0; bits = 0 } }
        ∷ record { pattern_text = rs.any_rule; prefix = record { addr = v6 0 []; bits = 0 } }
        ∷ [];
}

-- The owner of a prefix, in the map that New keeps.
unfoldable pub owner_of : Prefix → List (Prefix × Bytes) → Option Bytes
unfolding prefix_eq
owner_of p [] = none
owner_of p ((q, n) ∷ m) = if prefix_eq q p then some n else owner_of p m

unfoldable pub claim :
    Bytes → List Prefix → List (Prefix × Bytes) → Result PolicyError (List (Prefix × Bytes))
unfolding owner_of
claim name [] owner = ok owner
claim name (p ∷ ps) owner = elim (owner_of p owner) [
  | some other ↦ err (cidr_in_use name p other)
  | none ↦ claim name ps ((p, name) ∷ owner)
]

-- The name of a spec without one: subnet[i].
unfoldable pub name_or_index : ℕ → Bytes → Bytes
unfolding itoa
name_or_index i name = if is_empty name then codes "subnet[" ++ itoa i ++ codes "]" else name

module _ (regexp : Regexp) where
  unfoldable pub compile_subnet : SubnetSpec → Result SubnetError Subnet
  unfolding parse_cidrs parse_ports compile_rules deny_everything
  compile_subnet spec = if is_empty spec.cidrs then err no_cidrs else do
    prefixes ← parse_cidrs spec.cidrs
    ports ← if is_empty spec.port_texts then ok default_ports else parse_ports spec.port_texts
    allow ← map_err bad_allow (compile_rules regexp spec.allow_texts)
    deny ← map_err bad_deny (compile_rules regexp spec.deny_texts)
    ok (record {
      name = spec.name;
      prefixes = prefixes;
      ports = ports;
      allow = allow;
      deny = deny_everything deny;
    })

  -- The loop of New: `names` and `owner` are its maps, and the result its `p.subnets`.
  unfoldable pub compile_from :
      ℕ → List Bytes → List (Prefix × Bytes) → List SubnetSpec → Result PolicyError (List Subnet)
  unfolding compile_subnet claim name_or_index any text_eq
  compile_from i names owner [] = ok []
  compile_from i names owner (spec ∷ specs) =
      let name = name_or_index i spec.name in
      let rest = do
        s ← map_err (bad_subnet name) (compile_subnet (record spec { name = name }))
        owner' ← claim s.name s.prefixes owner
        ss ← compile_from (i + 1) (name ∷ names) owner' specs
        ok (s ∷ ss)
      in if any (text_eq name) names then err (duplicate_name name) else rest

  -- acl.New: a policy is its subnets.
  unfoldable pub new_policy : List SubnetSpec → Result PolicyError (List Subnet)
  unfolding compile_from
  new_policy specs = if is_empty specs then err no_subnets else compile_from 0 [] [] specs

-- The loops of SubnetOf: `none` is `best` nil and `bestBits` -1.
abbrev Best : Type 0
Best = Option (Subnet × ℕ)

abbrev beats : ℕ → Best → Bool
beats b none = true
beats b (some (s, best_bits)) = ltb best_bits b

unfoldable pub scan_prefixes : Addr → Subnet → List Prefix → Best → Best
unfolding contains_addr
scan_prefixes client s [] best = best
scan_prefixes client s (p ∷ ps) best =
    scan_prefixes client s ps
      (if beats p.bits best && contains_addr p client then some (s, p.bits) else best)

unfoldable pub scan_subnets : Addr → List Subnet → Best → Best
unfolding scan_prefixes
scan_subnets client [] best = best
scan_subnets client (s ∷ ss) best = scan_subnets client ss (scan_prefixes client s s.prefixes best)

abbrev the_subnet : Best → Option Subnet
the_subnet none = none
the_subnet (some (s, b)) = some s

unfoldable pub subnet_of : List Subnet → Addr → Option Subnet
unfolding scan_subnets unmap
subnet_of policy client = the_subnet (scan_subnets (unmap client) policy none)
