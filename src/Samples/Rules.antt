-- ===== src/Samples/Rules.antt =====
-- Rule sets, suffixes, hosts and ports.
use proxy_acl.Base.{
  ◌≡◌, ◌↔◌, ◌≤◌, refl, true, false, not, none, some, List, [], ◌∷◌, Result, ok, err, All,
}
use proxy_acl.Base.Text.{Bytes, codes, itoa, trim_suffix, to_lower}
use proxy_acl.Netip.{v4}
use proxy_acl.Netip.Parse.{parse_addr}
use proxy_acl.Acl.Host.{host_name, validate_hostname, parse_host}
use proxy_acl.Acl.Host.Shape.{NameByte, IsHostname, validate_hostname_iff, parse_host-name}
use proxy_acl.Acl.Port.{parse_port}
use proxy_acl.Acl.Port.RoundTrip.{parse_port_iff}
use proxy_acl.Acl.Wildcard.{wildcard_of, wildcard_matches}
use proxy_acl.Acl.Wildcard.Patterns.{Named, wildcard_of_iff}
use proxy_acl.Acl.Rules.{
  RuleSet, RuleError, Regexp, NameMap, no_rules, match_suffix, match_rules, compile_rules,
}
use proxy_acl.Acl.Rules.Hits.{Hit}
use proxy_acl.Acl.Rules.Meaning.{ListFor, compile_rules_iff}
use proxy_acl.Acl.Rules.Suffix.{Decided, match_suffix-Decided}
use proxy_acl.Acl.Public.{is_public}
use proxy_acl.Acl.Public.Ranges.{reserved_4, is_public-v4}

abbrev no_regexp : Regexp
no_regexp e = none

abbrev texts : List Bytes
texts = codes "a.com" ∷ codes ".b.org" ∷ codes "api-*.c.net" ∷ codes "10.0.0.0/8" ∷ []

abbrev or_empty : Result (Bytes × RuleError) RuleSet → RuleSet
or_empty (ok rs) = rs
or_empty (err e) = no_rules

abbrev rules : RuleSet
unfolding compile_rules
rules = or_empty (compile_rules no_regexp texts)

rules_compile : compile_rules no_regexp texts ≡ ok rules
unfolding compile_rules
rules_compile = refl

compile_rules_iff_example :
    Hit (match_rules rules (host_name (codes "x.b.org")))
    ↔ ListFor no_regexp texts (host_name (codes "x.b.org"))
compile_rules_iff_example =
    compile_rules_iff no_regexp texts rules (host_name (codes "x.b.org")) rules_compile

abbrev domains : NameMap
domains = (codes "com", codes ".com") ∷ (codes "b.com", codes ".b.com") ∷ []

longest_domain : match_suffix domains (codes "a.b.com") ≡ some (codes ".b.com")
unfolding match_suffix
longest_domain = refl

match_suffix-Decided_example :
    Decided domains (codes "a.b.com") (match_suffix domains (codes "a.b.com"))
match_suffix-Decided_example = match_suffix-Decided domains (codes "a.b.com")

no_domain : match_suffix domains (codes "xb.org") ≡ none
unfolding match_suffix
no_domain = refl

validate_hostname_iff_example :
    (validate_hostname (codes "a-1.com") false ≡ ok tt) ↔ IsHostname (codes "a-1.com")
validate_hostname_iff_example = validate_hostname_iff (codes "a-1.com")

kelvin_free : parse_host (codes "Mail.Example.com.") ≡ ok (host_name (codes "mail.example.com"))
unfolding parse_host
kelvin_free = refl

parse_host-name_example :
    (parse_addr (codes "Mail.Example.com.") ≡ none)
    × (codes "mail.example.com" ≡ to_lower (trim_suffix (codes "Mail.Example.com.") b'.'))
    × All NameByte (codes "mail.example.com")
    × IsHostname (codes "mail.example.com")
parse_host-name_example =
    parse_host-name (codes "Mail.Example.com.") (codes "mail.example.com") kelvin_free

parse_port_iff_example :
    (parse_port (codes "8080") ≡ ok 8080)
    ↔ ((itoa 8080 ≡ codes "8080") × (1 ≤ 8080) × (8080 ≤ 65535))
parse_port_iff_example = parse_port_iff (codes "8080") 8080

wildcard_of_iff_example :
    (wildcard_matches (wildcard_of (codes "*.a.com")) (codes "x.y.a.com") ≡ true)
    ↔ Named (codes "*.a.com") (codes "x.y.a.com")
wildcard_of_iff_example = wildcard_of_iff (codes "*.a.com") (codes "x.y.a.com")

is_public-v4_example : is_public (v4 0x7f00_0001) ≡ not (reserved_4 0x7f00_0001)
is_public-v4_example = is_public-v4 0x7f00_0001
