-- ===== src/Acl/Subnets/Compiled.antt =====
-- What a compiled subnet's rule sets match, in terms of the patterns in its spec.
use proxy_acl.Base.{
  ◌≡◌, ◌≢◌, ◌↔◌, inl, inr, refl, ap, ◌∙◌, false, none, some, List, [], ◌∷◌, ◌++◌, arith,
  if◌then◌else◌, is_empty, Bool-cases, ok, map_err, map_err-ok, >>=-eq-ok,
}
use proxy_acl.Base.Text.{Bytes}
use proxy_acl.Netip.{Addr, has_zone, unmap, contains_addr}
use proxy_acl.Netip.Laws.{Sized, every_v4, every_v6, contains-every}
use proxy_acl.Acl.Host.{Destination, host_name, ip_literal}
use proxy_acl.Acl.Rules.{
  AddrRule, RuleSet, match_name, match_addrs, match_addr, match_rules, Regexp, compile_rules,
}
use proxy_acl.Acl.Rules.Hits.{Hit, anything, NameHit→Hit}
use proxy_acl.Acl.Rules.Meaning.{ListFor, compile_rules_iff}
use proxy_acl.Acl.Subnets.{
  SubnetSpec, Subnet, default_ports, bad_allow, bad_deny, parse_cidrs, parse_ports, deny_everything,
  compile_subnet,
}

match_addrs-append_left :
    (xs ys : List AddrRule) (a : Addr) → Hit (match_addrs xs a) → Hit (match_addrs (xs ++ ys) a)
unfolding match_addrs
match_addrs-append_left [] ys a h = cc (h.1)
match_addrs-append_left (x ∷ xs) ys a h = elim (Bool-cases (contains_addr x.prefix a)) [
  | inl inside ↦ (x.pattern_text, rw inside)
  | inr outside ↦ rw outside (match_addrs-append_left xs ys a (rw outside at h))
]

match_addrs-append_right :
    (xs ys : List AddrRule) (a : Addr) → Hit (match_addrs ys a) → Hit (match_addrs (xs ++ ys) a)
unfolding match_addrs
match_addrs-append_right [] ys a h = h
match_addrs-append_right (x ∷ xs) ys a h = elim (Bool-cases (contains_addr x.prefix a)) [
  | inl inside ↦ (x.pattern_text, rw inside)
  | inr outside ↦ rw outside (match_addrs-append_right xs ys a h)
]

-- What a deny list matched, it still matches.
deny_everything_keeps :
    (rs : RuleSet) (d : Destination)
    → Hit (match_rules rs d)
    → Hit (match_rules (deny_everything rs) d)
unfolding deny_everything match_rules match_name match_addr
deny_everything_keeps rs d h = elim (Bool-cases (is_empty rs.any_rule)) [
  | inl blank ↦ rw blank h
  | inr star ↦ rw star (by_kind d h)
]
  where
    by_kind :
        (e : Destination)
        → Hit (match_rules rs e)
        → Hit (
            match_rules
              (record rs {
                addrs =
                    rs.addrs
                    ++ record { pattern_text = rs.any_rule; prefix = every_v4 }
                      ∷ record { pattern_text = rs.any_rule; prefix = every_v6 }
                      ∷ [];
              })
              e)
    by_kind (host_name n) hit = hit
    by_kind (ip_literal a) hit = match_addrs-append_left rs.addrs _ a hit

module _ (rs : RuleSet) (star : rs.any_rule ≢ []) where
  nonblank : is_empty rs.any_rule ≡ false
  nonblank = by_text rs.any_rule star
    where
      by_text : (t : Bytes) → t ≢ [] → is_empty t ≡ false
      by_text [] h = absurd (h refl)
      by_text (c ∷ t) h = refl

  -- With a "*" rule, a deny list matches every hostname and every parsed address without a zone.
  any_rule-deny_everything : (deny_everything rs).any_rule ≢ []
  unfolding deny_everything
  any_rule-deny_everything = rw nonblank star

  pub deny_everything-name : (n : Bytes) → Hit (match_rules (deny_everything rs) (host_name n))
  unfolding match_rules
  deny_everything-name n = NameHit→Hit (deny_everything rs) n (anything any_rule-deny_everything)

  pub deny_everything-addr :
      (a : Addr) → Sized a → has_zone a ≡ false → Hit (match_addr (deny_everything rs) (unmap a))
  unfolding deny_everything match_addr match_addrs
  deny_everything-addr a sized zoneless =
      rw nonblank (match_addrs-append_right rs.addrs _ (unmap a) widest)
    where
      widest : Hit (
          match_addrs
            (record { pattern_text = rs.any_rule; prefix = every_v4 }
              ∷ record { pattern_text = rs.any_rule; prefix = every_v6 }
              ∷ [])
            (unmap a))
      widest = elim (Bool-cases (contains_addr every_v4 (unmap a))) [
        | inl four ↦ (rs.any_rule, rw four)
        | inr other ↦ elim (contains-every a sized zoneless) [
          | inl four ↦ cc
          | inr six ↦ (rs.any_rule, rw (other, six))
        ]
      ]

module _ (regexp : Regexp) where
  -- The rule sets that a subnet's spec compiles to.
  pub record Lists (spec : SubnetSpec) (s : Subnet) : Type 0 where
    pub denied : RuleSet
    pub allow_compiled : compile_rules regexp spec.allow_texts ≡ ok s.allow
    pub deny_compiled : compile_rules regexp spec.deny_texts ≡ ok denied
    pub deny_extended : s.deny ≡ deny_everything denied

  pub compile_subnet-Lists :
      (spec : SubnetSpec) {s : Subnet} → compile_subnet regexp spec ≡ ok s → Lists spec s
  unfolding compile_subnet
  compile_subnet-Lists spec {s} h = elim (Bool-cases (is_empty spec.cidrs)) [
    | inl nothing ↦ ground (arith, nothing)
    | inr some_cidrs ↦
        let allow = compile_rules regexp spec.allow_texts in
        let deny = compile_rules regexp spec.deny_texts in
        let (ps, cidrs, h1) = >>=-eq-ok (parse_cidrs spec.cidrs) _ (rw some_cidrs at h) in
        let (ports, listed, h2) =
          >>=-eq-ok
            (if is_empty spec.port_texts then ok default_ports else parse_ports spec.port_texts) _
            h1 in
        let (rs, allow_ok, h3) = >>=-eq-ok (map_err bad_allow allow) _ h2 in
        let (ds, deny_ok, h4) = >>=-eq-ok (map_err bad_deny deny) _ h3 in
        let same_allow : rs ≡ s.allow = cc in
        record {
          denied = ds;
          allow_compiled = map_err-ok bad_allow allow allow_ok ∙ ap ok same_allow;
          deny_compiled = map_err-ok bad_deny deny deny_ok;
          deny_extended = cc;
        }
  ]

  -- A destination that the deny list does not match is one that no deny pattern stands for.
  pub denies-none :
      (spec : SubnetSpec) (s : Subnet) (d : Destination)
      → compile_subnet regexp spec ≡ ok s
      → match_rules s.deny d ≡ none
      → ¬ ListFor regexp spec.deny_texts d
  denies-none spec s d compiled miss listed =
      let l = compile_subnet-Lists spec compiled in
      let hit = (compile_rules_iff regexp spec.deny_texts l.denied d l.deny_compiled).1 listed in
      let (p, found) = deny_everything_keeps l.denied d hit in
      let found' : match_rules s.deny d ≡ some p = rw l.deny_extended found in cc

  -- A destination matches the allow list exactly if an allow pattern stands for it.
  pub allow_iff :
      (spec : SubnetSpec) (s : Subnet) (d : Destination)
      → compile_subnet regexp spec ≡ ok s
      → Hit (match_rules s.allow d) ↔ ListFor regexp spec.allow_texts d
  allow_iff spec s d compiled =
      compile_rules_iff regexp spec.allow_texts s.allow d
        (compile_subnet-Lists spec compiled).allow_compiled
