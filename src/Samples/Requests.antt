-- ===== src/Samples/Requests.antt =====
-- A policy of two subnets, and requests to it.
mod Approvals
mod Handling
use proxy_acl.Base.{
  ℕ, ◌+◌, ◌*◌, ◌^◌, ◌≡◌, ◌⊎◌, inl, refl, true, false, none, some, List, [], ◌∷◌, Result, ok, err,
  Member,
}
use proxy_acl.Base.Text.{Bytes, codes, trim_space}
use proxy_acl.Netip.{Addr, v4, unmap, contains_addr}
use proxy_acl.Acl.Rules.{RuleSet, Regexp}
use proxy_acl.Acl.Subnets.{
  SubnetSpec, Subnet, PolicyError, SubnetError, new_policy, compile_subnet, subnet_of,
}
use proxy_acl.Acl.Subnets.Distinct.{AllApart, NamesApart, prefixes_of, new_policy-distinct}
use proxy_acl.Acl.Subnets.Longest.{Matched, subnet_of-Matched}
use proxy_acl.Acl.Check.{Resolver, allow_rule_matched, check_subnet, check_policy}
use proxy_acl.Acl.Check.Safety.{Approval, check_subnet_sound, check_subnet_complete}
use proxy_acl.Acl.Check.Lookups.{OneLookup, check_subnet-lookups}
use proxy_acl.Acl.Check.DenyAll.{IsStar, deny_star}
use proxy_acl.Acl.Check.Policy.{PolicyApproval, check_policy_sound}

-- No regular expression compiles.
abbrev no_regexp : Regexp
no_regexp e = none

abbrev lan : SubnetSpec
lan = record {
  name = codes "lan";
  cidrs = codes "10.0.0.0/24" ∷ [];
  port_texts = [];
  allow_texts = codes ".example.com" ∷ codes "10.9.0.0/16" ∷ [];
  deny_texts = codes "ads.example.com" ∷ [];
}

abbrev printer : SubnetSpec
printer = record {
  name = [];
  cidrs = codes "10.0.0.7" ∷ [];
  port_texts = codes "631" ∷ [];
  allow_texts = codes "*" ∷ [];
  deny_texts = codes " * " ∷ [];
}

abbrev specs : List SubnetSpec
specs = lan ∷ printer ∷ []

abbrev or_nothing : Result PolicyError (List Subnet) → List Subnet
or_nothing (ok p) = p
or_nothing (err e) = []

abbrev policy : List Subnet
unfolding new_policy
policy = or_nothing (new_policy no_regexp specs)

-- Every name has one public address; the state is the names asked for.
abbrev answers : Resolver ℕ (List Bytes)
answers name log = (ok (v4 (8 * 2 ^ 24) ∷ []), name ∷ log)

abbrev pc : Addr
pc = v4 (10 * 2 ^ 24 + 5)

abbrev printer_addr : Addr
printer_addr = v4 (10 * 2 ^ 24 + 7)

abbrev host : Bytes
host = codes "WWW.example.com"

policy_compiles : new_policy no_regexp specs ≡ ok policy
unfolding new_policy
policy_compiles = refl

request_allowed : (check_policy answers policy pc host (codes "443") []).0.allowed ≡ true
unfolding new_policy check_policy
request_allowed = refl

denied_host :
    (check_policy answers policy pc (codes "ads.example.com") (codes "443") []).0.allowed ≡ false
unfolding new_policy check_policy
denied_host = refl

unlisted_port : (check_policy answers policy pc host (codes "8080") []).1 ≡ []
unfolding new_policy check_policy
unlisted_port = refl

looked_up_once :
    (check_policy answers policy pc host (codes "443") []).1 ≡ codes "www.example.com" ∷ []
unfolding new_policy check_policy
looked_up_once = refl

check_policy_sound_example : PolicyApproval no_regexp answers specs policy pc host (codes "443") []
check_policy_sound_example =
    check_policy_sound no_regexp answers specs policy pc host (codes "443") [] policy_compiles
      request_allowed

abbrev first_or : Subnet → List Subnet → Subnet
first_or d [] = d
first_or d (s ∷ ss) = s

abbrev ok_or : Subnet → Result SubnetError Subnet → Subnet
ok_or d (ok s) = s
ok_or d (err e) = d

abbrev no_subnet : Subnet
no_subnet =
    let none_at_all : RuleSet = record {
      exact = [];
      suffix = [];
      names = [];
      any_rule = [];
      addrs = [];
    } in
    record { name = []; prefixes = []; ports = []; allow = none_at_all; deny = none_at_all }

abbrev lan_subnet : Subnet
unfolding compile_subnet
lan_subnet = ok_or no_subnet (compile_subnet no_regexp lan)

abbrev printer_subnet : Subnet
unfolding compile_subnet
printer_subnet = ok_or no_subnet (compile_subnet no_regexp printer)

lan_allows : (check_subnet answers lan_subnet host (codes "443") []).0.allowed ≡ true
unfolding check_subnet compile_subnet
lan_allows = refl

lan_approval : Approval answers lan_subnet host (codes "443") []
lan_approval = check_subnet_sound answers lan_subnet host (codes "443") [] lan_allows

check_subnet_sound_example : Approval answers lan_subnet host (codes "443") []
check_subnet_sound_example = check_subnet_sound answers lan_subnet host (codes "443") [] lan_allows

check_subnet_complete_example : (check_subnet answers lan_subnet host (codes "443") []).0 ≡ record {
  allowed = true;
  subnet = lan_subnet.name;
  rule = lan_approval.rule;
  reason = allow_rule_matched;
  addrs = lan_approval.found;
  port = lan_approval.number;
}
check_subnet_complete_example =
    check_subnet_complete answers lan_subnet host (codes "443") [] lan_approval

check_subnet-lookups_example :
    ((check_subnet answers lan_subnet host (codes "8080") []).1 ≡ [])
    ⊎ OneLookup answers lan_subnet host
        (codes "8080")
        []
        (check_subnet answers lan_subnet host (codes "8080") []).1
check_subnet-lookups_example = check_subnet-lookups answers lan_subnet host (codes "8080") []

printer_compiles : compile_subnet no_regexp printer ≡ ok printer_subnet
unfolding compile_subnet
printer_compiles = refl

IsStar-text : IsStar (codes " * ")
unfolding trim_space
IsStar-text = refl

deny_star_example :
    (check_subnet answers printer_subnet (codes "10.9.0.1") (codes "631") []).0.allowed ≡ false
deny_star_example =
    deny_star no_regexp printer printer_subnet (codes " * ") printer_compiles (inl refl)
      (IsStar-text) answers (codes "10.9.0.1") (codes "631") []

abbrev second_or : Subnet → List Subnet → Subnet
second_or d (s ∷ t ∷ ss) = t
second_or d _ = d

abbrev printer_policy : Subnet
unfolding new_policy
printer_policy = second_or no_subnet policy

printer_client : subnet_of policy printer_addr ≡ some printer_policy
unfolding subnet_of new_policy
printer_client = refl

subnet_of-Matched_example : Matched policy printer_addr (subnet_of policy printer_addr)
subnet_of-Matched_example = subnet_of-Matched policy printer_addr

stranger : subnet_of policy (v4 1) ≡ none
unfolding subnet_of new_policy
stranger = refl

new_policy-distinct_example : AllApart (prefixes_of policy) × NamesApart policy
new_policy-distinct_example = new_policy-distinct no_regexp specs policy policy_compiles
