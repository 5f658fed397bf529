-- ===== src/Acl/Check.antt =====
-- internal/acl/policy.go: the decision on a request.
pub mod Safety
pub mod Lookups
pub mod DenyAll
pub mod Policy
use proxy_acl.Base.{
  ℕ, ◌+◌, ◌≡◌, Bool, true, false, not, ◌&&◌, ◌||◌, Option, none, some, List, [], ◌∷◌, if◌then◌else◌,
  is_empty, Result, ok, err, ◌>>=◌, any,
}
use proxy_acl.Base.Text.{Bytes}
use proxy_acl.Netip.{Addr, unmap, is_valid, has_zone}
use proxy_acl.Acl.Host.{HostError, Destination, host_name, ip_literal, parse_host}
use proxy_acl.Acl.Port.{PortRange, in_range, parse_port}
use proxy_acl.Acl.Rules.{match_rules, match_addr}
use proxy_acl.Acl.Public.{is_public}
use proxy_acl.Acl.Subnets.{Subnet, subnet_of}

-- What the resolver returns, in the state `S` that its lookups change. `E` is its errors.
abbrev pub Resolver : Type 0 → Type 0 → Type 0
Resolver E S = Bytes → S → Result E (List Addr) × S

pub data ResolveError (E : Type 0) : Type 0 where
  lookup_failed : E → ResolveError E
  no_addresses : ResolveError E
  unusable_address : Addr → ResolveError E

-- `Decision.Reason`; the last three are given by internal/proxy.
pub data Reason (E : Type 0) : Type 0 where
  client_not_in_any_subnet : Reason E
  invalid_host : HostError → Reason E
  invalid_port : Reason E
  deny_rule_matched no_allow_rule_matched port_not_allowed : Reason E
  dns_lookup_failed : ResolveError E → Reason E
  address_matched_deny_rule not_public_address : Addr → Reason E
  allow_rule_matched : Reason E
  rate_limited not_a_proxy_request unsupported_scheme : Reason E

pub record Decision (E : Type 0) : Type 0 where
  pub allowed : Bool
  pub subnet : Bytes
  pub rule : Bytes
  pub reason : Reason E
  pub addrs : List Addr
  pub port : ℕ

unfoldable pub allows_port : List PortRange → ℕ → Bool
unfolding in_range
allows_port [] port = false
allows_port (r ∷ rs) port = if in_range r port then true else allows_port rs port

module _ {E : Type 0} where
  -- The loop of resolve over the addresses found.
  unfoldable pub usable : List Addr → Result (ResolveError E) (List Addr)
  unfolding unmap is_valid has_zone
  usable [] = ok []
  usable (a ∷ found) =
      let rest = (do addrs ← usable found; ok (unmap a ∷ addrs)) in
      if not (is_valid (unmap a)) || has_zone (unmap a)
      then err (unusable_address (unmap a))
      else rest

  abbrev resolved : Result E (List Addr) → Result (ResolveError E) (List Addr)
  unfolding usable
  resolved (err e) = err (lookup_failed e)
  resolved (ok []) = err no_addresses
  resolved (ok (a ∷ found)) = usable (a ∷ found)

  -- Why an address is refused, with the rule that says so.
  unfoldable pub refusal : Subnet → Addr → Option (Reason E × Bytes)
  unfolding match_addr is_public
  refusal s a = elim (match_addr s.deny a) [
    | some r ↦ some (address_matched_deny_rule a, r)
    | none ↦
        if is_public a
        then none
        else elim (match_addr s.allow a) [ none ↦ some (not_public_address a, []) | some r ↦ none ]
  ]

  unfoldable pub first_refusal : Subnet → List Addr → Option (Reason E × Bytes)
  unfolding refusal
  first_refusal s [] = none
  first_refusal s (a ∷ addrs) = elim (refusal s a) [
    | some r ↦ some r
    | none ↦ first_refusal s addrs
  ]

  abbrev pub denied : Subnet → Reason E → Bytes → Decision E
  denied s reason rule = record {
    allowed = false;
    subnet = s.name;
    rule = rule;
    reason = reason;
    addrs = [];
    port = 0;
  }

  -- The end of Check, on the addresses of the destination.
  unfoldable pub judge : Subnet → Bytes → ℕ → List Addr → Decision E
  unfolding first_refusal
  judge s allow_rule port addrs = elim (first_refusal s addrs) [
    | some (reason, rule) ↦ denied s reason rule
    | none ↦ record {
      allowed = true;
      subnet = s.name;
      rule = allow_rule;
      reason = allow_rule_matched;
      addrs = addrs;
      port = port;
    }
  ]

  -- The rules that need no address: deny, allow, port. The allow rule's pattern, or the refusal.
  unfoldable pub screen : Subnet → Destination → ℕ → Result (Reason E × Bytes) Bytes
  unfolding match_rules allows_port
  screen s dst port = elim (match_rules s.deny dst) [
    | some r ↦ err (deny_rule_matched, r)
    | none ↦ elim (match_rules s.allow dst) [
      | none ↦ err (no_allow_rule_matched, [])
      | some r ↦ if allows_port s.ports port then ok r else err (port_not_allowed, [])
    ]
  ]

module _ {E S : Type 0} (res : Resolver E S) where
  unfoldable pub resolve : Bytes → S → Result (ResolveError E) (List Addr) × S
  unfolding resolved
  resolve name st = let (found, st') = res name st in (resolved found, st')

  -- The addresses of the destination: a literal's own, or a name's.
  unfoldable pub addresses : Destination → S → Result (ResolveError E) (List Addr) × S
  unfolding resolve
  addresses (ip_literal a) st = (ok (a ∷ []), st)
  addresses (host_name n) st = resolve n st

  unfoldable pub finish : Subnet → Bytes → ℕ → Result (ResolveError E) (List Addr) → Decision E
  unfolding judge
  finish s rule port (err e) = denied s (dns_lookup_failed e) []
  finish s rule port (ok addrs) = judge s rule port addrs

  unfoldable pub approve : Subnet → Destination → ℕ → S → Decision E × S
  unfolding screen addresses finish
  approve s dst port st = elim (screen {E = E} s dst port) [
    | err (reason, rule) ↦ (denied s reason rule, st)
    | ok rule ↦ let (found, st') = addresses dst st in (finish s rule port found, st')
  ]

  -- Subnet.Check
  unfoldable pub check_subnet : Subnet → Bytes → Bytes → S → Decision E × S
  unfolding parse_host parse_port approve
  check_subnet s host port st = elim (parse_host host) [
    | err e ↦ (denied s (invalid_host e) [], st)
    | ok dst ↦ elim (parse_port port) [
      | err e ↦ (denied s invalid_port [], st)
      | ok n ↦ approve s dst n st
    ]
  ]

  -- Policy.Check
  unfoldable pub check_policy : List Subnet → Addr → Bytes → Bytes → S → Decision E × S
  unfolding subnet_of check_subnet
  check_policy policy client host port st = elim (subnet_of policy client) [
    | none ↦ (
      record {
        allowed = false;
        subnet = [];
        rule = [];
        reason = client_not_in_any_subnet;
        addrs = [];
        port = 0;
      },
      st,
    )
    | some s ↦ check_subnet s host port st
  ]
