-- ===== src/Acl/Check/DenyAll.antt =====
-- A "*" in a deny list denies every request.
use proxy_acl.Base.{
  ◌≡◌, ◌≢◌, ◌⊎◌, inl, inr, refl, ap, false, none, some, List, [], ◌∷◌, arith, if◌then◌else◌,
  is_empty, Member, Option-cases, Bool-cases, ok, map_err, map_err-ok, >>=-eq-ok,
}
use proxy_acl.Base.Text.{Bytes, codes, trim_space}
use proxy_acl.Netip.{Addr, has_zone, unmap}
use proxy_acl.Netip.Parse.{parse_addr}
use proxy_acl.Netip.Laws.{Sized, parse_addr-Sized}
use proxy_acl.Acl.Host.{Destination, host_name, ip_literal, parse_name, parse_host}
use proxy_acl.Acl.Rules.{
  RuleSet, Rule, by_regex, by_prefix, by_name, exact_name, domain_suffix, any_name, wildcard,
  match_rules, Regexp, put_name, put_rule, read_rule, add, add_all, compile_rules,
}
use proxy_acl.Acl.Subnets.{SubnetSpec, Subnet, deny_everything, compile_subnet}
use proxy_acl.Acl.Subnets.Compiled.{
  deny_everything-name, deny_everything-addr, compile_subnet-Lists,
}
use proxy_acl.Acl.Check.{Resolver, check_subnet}
use proxy_acl.Acl.Check.Safety.{check_subnet_sound}

-- A rule set's "*" stays.
put_rule-any_rule :
    (rs : RuleSet) (p : Bytes) (r : Rule) → rs.any_rule ≢ [] → (put_rule rs p r).any_rule ≢ []
unfolding put_rule put_name
put_rule-any_rule rs p (by_regex f) h = h
put_rule-any_rule rs p (by_prefix f) h = h
put_rule-any_rule rs p (by_name (exact_name n)) h = h
put_rule-any_rule rs p (by_name (domain_suffix n)) h = h
put_rule-any_rule rs p (by_name (wildcard w)) h = h
put_rule-any_rule rs p (by_name any_name) h = by_text rs.any_rule h
  where
    by_text : (t : Bytes) → t ≢ [] → (if is_empty t then p else t) ≢ []
    by_text [] e = absurd (e refl)
    by_text (c ∷ t) e = e

put_any_name :
    (rs : RuleSet) (p : Bytes) → p ≢ [] → (put_rule rs p (by_name any_name)).any_rule ≢ []
unfolding put_rule put_name
put_any_name rs p h = by_text rs.any_rule
  where
    by_text : (t : Bytes) → (if is_empty t then p else t) ≢ []
    by_text [] = h
    by_text (c ∷ t) = λ e. cc

-- The text is "*" with white space round it at most.
abbrev pub IsStar : Bytes → Type 0
IsStar text = trim_space text ≡ codes "*"

module _ (regexp : Regexp) where
  read_rule-star : read_rule regexp (codes "*") ≡ ok (by_name any_name)
  unfolding read_rule
  read_rule-star = refl

  add-any_rule :
      (rs rs' : RuleSet) (text : Bytes)
      → add regexp rs text ≡ ok rs'
      → (rs.any_rule ≢ []) ⊎ IsStar text
      → rs'.any_rule ≢ []
  unfolding add
  add-any_rule rs rs' text h s = elim (Bool-cases (is_empty (trim_space text))) [
    | inl blank ↦ ground (arith, blank)
    | inr nonblank ↦
        let (r, read, put) = >>=-eq-ok (read_rule regexp (trim_space text)) _ (rw nonblank at h) in
        let here : put_rule rs (trim_space text) r ≡ rs' = cc in
        rw (← here) (elim s [
          | inl old ↦ put_rule-any_rule rs (trim_space text) r old
          | inr star ↦
              let read' : read_rule regexp (codes "*") ≡ ok r = rw star at read in
              let kind : r ≡ by_name any_name = cc (read_rule-star) in
              rw kind (put_any_name rs (trim_space text) (λ e. cc))
        ])
  ]

  add_all-any_rule :
      (texts : List Bytes) (rs rs' : RuleSet)
      → add_all regexp rs texts ≡ ok rs'
      → (rs.any_rule ≢ []) ⊎ ((t : Bytes) × Member t texts × IsStar t)
      → rs'.any_rule ≢ []
  unfolding add_all
  add_all-any_rule [] rs rs' h (inl old) = let same : rs ≡ rs' = cc in rw (← same) old
  add_all-any_rule [] rs rs' h (inr (t, m, star)) = absurd m
  add_all-any_rule (u ∷ texts) rs rs' h s =
      let (rs1, first, later) = >>=-eq-ok (map_err (λ e. (u, e)) (add regexp rs u)) _ h in
      let added = map_err-ok (λ e. (u, e)) (add regexp rs u) first in
      add_all-any_rule texts rs1 rs' later (elim s [
        | inl old ↦ inl (add-any_rule rs rs1 u added (inl old))
        | inr (t, inl same, star) ↦
            let star' : IsStar u = rw same at star in inl (add-any_rule rs rs1 u added (inr star'))
        | inr (t, inr m, star) ↦ inr (t, m, star)
      ])

-- An address literal is a parsed address without a zone, unmapped.
parse_host-literal :
    (h : Bytes) (b : Addr)
    → parse_host h ≡ ok (ip_literal b)
    → (a : Addr) × Sized a × (has_zone a ≡ false) × (b ≡ unmap a)
unfolding parse_host parse_name
parse_host-literal h b e = elim (Option-cases (parse_addr h)) [
  | inl missing ↦ ground (arith, missing)
  | inr (a, found) ↦ (a, parse_addr-Sized h a found, ground (arith, found), ground (arith, found))
]

-- If "*" stands among the deny patterns of a subnet that compiles, no request of it is allowed,
-- whatever the host, the port, the allow list and the resolver.
pub deny_star :
    (regexp : Regexp) (spec : SubnetSpec) (s : Subnet) (text : Bytes)
    → compile_subnet regexp spec ≡ ok s
    → Member text spec.deny_texts
    → IsStar text
    → {E S : Type 0} (res : Resolver E S) (host port : Bytes) (st : S)
    → (check_subnet res s host port st).0.allowed ≡ false
deny_star regexp spec s text compiled m star res host port st =
    elim (Bool-cases (check_subnet res s host port st).0.allowed) [
      | inr denied ↦ denied
      | inl allowed ↦
          let a = check_subnet_sound res s host port st allowed in
          let l = compile_subnet-Lists regexp spec compiled in
          let any : l.denied.any_rule ≢ [] =
            unfold compile_rules in
            add_all-any_rule regexp spec.deny_texts _ l.denied l.deny_compiled
              (inr (text, m, star)) in
          absurd (refused l.denied any l.deny_extended a.target a.host_read a.not_denied)
    ]
  where
    refused :
        (ds : RuleSet)
        → ds.any_rule ≢ []
        → s.deny ≡ deny_everything ds
        → (d : Destination) → parse_host host ≡ ok d
        → match_rules s.deny d ≡ none
        → ⊥
    refused ds any e (host_name n) read miss =
        let (p, hit) = deny_everything-name ds any n in
        cc (hit, ap (λ (r : RuleSet). match_rules r (host_name n)) e)
    refused ds any e (ip_literal b) read miss =
        let (a, sized, zoneless, same) = parse_host-literal host b read in
        let (p, hit) = deny_everything-addr ds any a sized zoneless in
        let hit' : match_rules s.deny (ip_literal b) ≡ some p =
          rw (e, same) (unfold match_rules in hit) in
        cc
