-- ===== src/Acl/Rules/Meaning.antt =====
-- What a compiled rule set matches: a destination matches exactly if one of the patterns that the
-- set was compiled from stands for it.
use proxy_acl.Base.{
  ℕ, ◌≡◌, ◌≢◌, ◌↔◌, ◌⊎◌, inl, inr, refl, ap, true, List, [], ◌∷◌, arith, if◌then◌else◌, is_empty,
  Member, Bool-cases, ok, map_err, map_err-ok, >>=-eq-ok,
}
use proxy_acl.Base.Text.{Bytes, trim_space}
use proxy_acl.Netip.{Addr, contains_addr}
use proxy_acl.Acl.Host.{Destination, host_name, ip_literal}
use proxy_acl.Acl.Wildcard.Language.{Names, wildcard_matches_iff}
use proxy_acl.Acl.Rules.{
  lookup, RuleSet, no_rules, match_names, match_name, match_addrs, match_addr, match_rules,
  NamePattern, exact_name, domain_suffix, any_name, wildcard, Rule, by_regex, by_prefix, by_name,
  put_name, put_rule, Regexp, read_rule, add, add_all, compile_rules,
}
use proxy_acl.Acl.Rules.Suffix.{IsDomainOf}
use proxy_acl.Acl.Rules.Hits.{
  Hit, Hit-insert_new, Hit-match_names-append, Hit-match_addrs-append, NameHit, exactly, by_domain,
  by_matcher, anything, Hit→NameHit, NameHit→Hit,
}

-- The hostnames that a pattern stands for.
abbrev pub NameOf : NamePattern → Bytes → Type 0
NameOf (exact_name m) n = m ≡ n
NameOf (domain_suffix d) n = IsDomainOf d n
NameOf any_name n = Unit
NameOf (wildcard w) n = Names w n

-- The destinations that a rule stands for: prefixes never stand for names, all else never for
-- addresses.
abbrev pub StandsFor : Rule → Destination → Type 0
StandsFor (by_regex f) (host_name n) = f n ≡ true
StandsFor (by_regex f) (ip_literal a) = ⊥
StandsFor (by_prefix p) (host_name n) = ⊥
StandsFor (by_prefix p) (ip_literal a) = contains_addr p a ≡ true
StandsFor (by_name k) (host_name n) = NameOf k n
StandsFor (by_name k) (ip_literal a) = ⊥

module _ (rs : RuleSet) (p n : Bytes) (nonempty : p ≢ []) where
  abbrev NewHit : Rule → Type 0
  NewHit r = NameHit rs n ⊎ StandsFor r (host_name n)

  put_name→NewHit : (k : NamePattern) → NameHit (put_name rs p k) n → NewHit (by_name k)
  unfolding put_name
  put_name→NewHit (exact_name m) (exactly e) = elim ((Hit-insert_new m n p rs.exact).0 e) [
    | inl old ↦ inl (exactly old)
    | inr new ↦ inr new
  ]
  put_name→NewHit (exact_name m) (by_domain d domain hit) = inl (by_domain d domain hit)
  put_name→NewHit (domain_suffix b) (by_domain d domain hit) =
      elim ((Hit-insert_new b d p rs.suffix).0 hit) [
        | inl old ↦ inl (by_domain d domain old)
        | inr same ↦ inr (rw same domain)
      ]
  put_name→NewHit (domain_suffix b) (exactly e) = inl (exactly e)
  put_name→NewHit (wildcard w) (by_matcher h) = elim ((Hit-match_names-append rs.names _ n).0 h) [
    | inl old ↦ inl (by_matcher old)
    | inr new ↦ inr ((wildcard_matches_iff w n).0 new)
  ]
  put_name→NewHit (wildcard w) (exactly e) = inl (exactly e)
  put_name→NewHit (wildcard w) (by_domain d domain hit) = inl (by_domain d domain hit)
  put_name→NewHit any_name h = inr tt
  put_name→NewHit k (by_matcher h) = inl (by_matcher h)
  put_name→NewHit k (anything a) = inl (anything a)

  any_rule-ne : (t : Bytes) → (if is_empty t then p else t) ≢ []
  any_rule-ne [] = nonempty
  any_rule-ne (c ∷ t) = λ e. cc

  -- What matched before still matches.
  put_name_keeps : (k : NamePattern) → NameHit rs n → NameHit (put_name rs p k) n
  unfolding put_name
  put_name_keeps (exact_name m) (exactly e) = exactly ((Hit-insert_new m n p rs.exact).1 (inl e))
  put_name_keeps (exact_name m) (by_domain d domain hit) = by_domain d domain hit
  put_name_keeps (domain_suffix b) (by_domain d domain hit) =
      by_domain d domain ((Hit-insert_new b d p rs.suffix).1 (inl hit))
  put_name_keeps (domain_suffix b) (exactly e) = exactly e
  put_name_keeps (wildcard w) (by_matcher h) =
      by_matcher ((Hit-match_names-append rs.names _ n).1 (inl h))
  put_name_keeps (wildcard w) (exactly e) = exactly e
  put_name_keeps (wildcard w) (by_domain d domain hit) = by_domain d domain hit
  put_name_keeps any_name h = anything (any_rule-ne rs.any_rule)
  put_name_keeps k (by_matcher h) = by_matcher h
  put_name_keeps k (anything a) = anything a

  -- What the new pattern stands for matches.
  put_name_adds : (k : NamePattern) → NameOf k n → NameHit (put_name rs p k) n
  unfolding put_name
  put_name_adds (exact_name m) same = exactly ((Hit-insert_new m n p rs.exact).1 (inr same))
  put_name_adds (domain_suffix b) domain =
      by_domain b domain ((Hit-insert_new b b p rs.suffix).1 (inr refl))
  put_name_adds any_name h = anything (any_rule-ne rs.any_rule)
  put_name_adds (wildcard w) names =
      by_matcher
        ((Hit-match_names-append rs.names _ n).1 (inr ((wildcard_matches_iff w n).1 names)))

  put_rule→NewHit : (r : Rule) → NameHit (put_rule rs p r) n → NewHit r
  unfolding put_rule
  put_rule→NewHit (by_regex f) (by_matcher h) = elim ((Hit-match_names-append rs.names _ n).0 h) [
    | inl old ↦ inl (by_matcher old)
    | inr new ↦ inr new
  ]
  put_rule→NewHit (by_regex f) (exactly e) = inl (exactly e)
  put_rule→NewHit (by_regex f) (by_domain d domain hit) = inl (by_domain d domain hit)
  put_rule→NewHit (by_regex f) (anything a) = inl (anything a)
  put_rule→NewHit (by_prefix pfx) (exactly e) = inl (exactly e)
  put_rule→NewHit (by_prefix pfx) (by_domain d domain hit) = inl (by_domain d domain hit)
  put_rule→NewHit (by_prefix pfx) (by_matcher h) = inl (by_matcher h)
  put_rule→NewHit (by_prefix pfx) (anything a) = inl (anything a)
  put_rule→NewHit (by_name k) h = put_name→NewHit k h

  NewHit→put_rule : (r : Rule) → NewHit r → NameHit (put_rule rs p r) n
  unfolding put_rule
  NewHit→put_rule (by_regex f) (inl (by_matcher h)) =
      by_matcher ((Hit-match_names-append rs.names _ n).1 (inl h))
  NewHit→put_rule (by_regex f) (inl (exactly e)) = exactly e
  NewHit→put_rule (by_regex f) (inl (by_domain d domain hit)) = by_domain d domain hit
  NewHit→put_rule (by_regex f) (inl (anything a)) = anything a
  NewHit→put_rule (by_regex f) (inr new) =
      by_matcher ((Hit-match_names-append rs.names _ n).1 (inr new))
  NewHit→put_rule (by_prefix pfx) (inl (exactly e)) = exactly e
  NewHit→put_rule (by_prefix pfx) (inl (by_domain d domain hit)) = by_domain d domain hit
  NewHit→put_rule (by_prefix pfx) (inl (by_matcher h)) = by_matcher h
  NewHit→put_rule (by_prefix pfx) (inl (anything a)) = anything a
  NewHit→put_rule (by_prefix pfx) (inr impossible) = absurd impossible
  NewHit→put_rule (by_name k) (inl old) = put_name_keeps k old
  NewHit→put_rule (by_name k) (inr new) = put_name_adds k new

-- An address hits the address rules alone.
put_rule-addrs :
    (rs : RuleSet) (p : Bytes) (a : Addr) (r : Rule)
    → Hit (match_addr (put_rule rs p r) a) ↔ (Hit (match_addr rs a) ⊎ StandsFor r (ip_literal a))
unfolding put_rule put_name match_addr
put_rule-addrs rs p a (by_prefix pfx) = Hit-match_addrs-append rs.addrs _ a
put_rule-addrs rs p a (by_regex f) = (inl, λ s. elim s [ inl h ↦ h | inr e ↦ absurd e ])
put_rule-addrs rs p a (by_name (exact_name m)) = (inl, λ s. elim s [ inl h ↦ h | inr e ↦ absurd e ])
put_rule-addrs rs p a (by_name (domain_suffix b)) =
    (inl, λ s. elim s [ inl h ↦ h | inr e ↦ absurd e ])
put_rule-addrs rs p a (by_name any_name) = (inl, λ s. elim s [ inl h ↦ h | inr e ↦ absurd e ])
put_rule-addrs rs p a (by_name (wildcard w)) = (inl, λ s. elim s [ inl h ↦ h | inr e ↦ absurd e ])

-- One more rule: the destinations matched are the old ones and those that the rule stands for.
put_rule_iff :
    (rs : RuleSet) (p : Bytes) (r : Rule) (d : Destination)
    → p ≢ []
    → Hit (match_rules (put_rule rs p r) d) ↔ (Hit (match_rules rs d) ⊎ StandsFor r d)
unfolding match_rules
put_rule_iff rs p r (ip_literal a) nonempty = put_rule-addrs rs p a r
put_rule_iff rs p r (host_name n) nonempty = (
  λ h. elim (put_rule→NewHit rs p n nonempty r (Hit→NameHit (put_rule rs p r) n h)) [
    | inl old ↦ inl (NameHit→Hit rs n old)
    | inr new ↦ inr new
  ],
  λ s. NameHit→Hit (put_rule rs p r) n (NewHit→put_rule rs p n nonempty r (earlier s)),
)
  where
    earlier :
        Hit (match_name rs n) ⊎ StandsFor r (host_name n) → NameHit rs n ⊎ StandsFor r (host_name n)
    earlier (inl h) = inl (Hit→NameHit rs n h)
    earlier (inr new) = inr new

module _ (regexp : Regexp) where
  -- The rule that a pattern's text is read as stands for the destination.
  abbrev pub PatternFor : Bytes → Destination → Type 0
  PatternFor text d = (r : Rule) × (read_rule regexp (trim_space text) ≡ ok r) × StandsFor r d

  add_iff :
      (rs rs' : RuleSet) (text : Bytes) (d : Destination)
      → add regexp rs text ≡ ok rs'
      → Hit (match_rules rs' d) ↔ (Hit (match_rules rs d) ⊎ PatternFor text d)
  unfolding add
  add_iff rs rs' text d h = elim (Bool-cases (is_empty (trim_space text))) [
    | inl blank ↦ ground (arith, blank)
    | inr nonblank ↦
        let (r, read, put) = >>=-eq-ok (read_rule regexp (trim_space text)) _ (rw nonblank at h) in
        let here : put_rule rs (trim_space text) r ≡ rs' = cc in
        let step =
          put_rule_iff rs (trim_space text) r d (λ e. cc (ap (is_empty {A = ℕ}) e, nonblank)) in
        rw (← here) (
          λ hit. elim (step.0 hit) [ inl old ↦ inl old | inr new ↦ inr (r, read, new) ],
          λ s. step.1 (elim s [
            | inl old ↦ inl old
            | inr (r', read', new) ↦ let same : r' ≡ r = cc in inr (rw same at new)
          ]),
        )
  ]

  -- A pattern of the list stands for the destination.
  abbrev pub ListFor : List Bytes → Destination → Type 0
  ListFor texts d = (text : Bytes) × Member text texts × PatternFor text d

  add_all_iff :
      (texts : List Bytes) (rs rs' : RuleSet) (d : Destination)
      → add_all regexp rs texts ≡ ok rs'
      → Hit (match_rules rs' d) ↔ (Hit (match_rules rs d) ⊎ ListFor texts d)
  unfolding add_all
  add_all_iff [] rs rs' d h =
      let same : rs ≡ rs' = cc in
      rw (← same) (inl, λ s. elim s [ inl old ↦ old | inr (t, m, new) ↦ absurd m ])
  add_all_iff (t ∷ texts) rs rs' d h =
      let (rs1, first, later) = >>=-eq-ok (map_err (λ e. (t, e)) (add regexp rs t)) _ h in
      let step = add_iff rs rs1 t d (map_err-ok _ (add regexp rs t) first) in
      let rest = add_all_iff texts rs1 rs' d later in
      (
        λ hit. elim (rest.0 hit) [
          | inl early ↦ elim (step.0 early) [ inl old ↦ inl old | inr new ↦ inr (t, inl refl, new) ]
          | inr (u, m, new) ↦ inr (u, inr m, new)
        ],
        λ s. rest.1 (elim s [
          | inl old ↦ inl (step.1 (inl old))
          | inr (u, inl same, new) ↦
              let new' : PatternFor t d = rw same at new in inl (step.1 (inr new'))
          | inr (u, inr m, new) ↦ inr (u, m, new)
        ]),
      )

  -- If the patterns compile, a destination matches the rule set exactly if one of them stands for
  -- it: no pattern is lost, whatever the order and the duplicates, and nothing else matches.
  pub compile_rules_iff :
      (texts : List Bytes) (rs : RuleSet) (d : Destination)
      → compile_rules regexp texts ≡ ok rs
      → Hit (match_rules rs d) ↔ ListFor texts d
  unfolding compile_rules
  compile_rules_iff texts rs d h =
      let all = add_all_iff texts no_rules rs d h in
      (
        λ hit. elim (all.0 hit) [ inl early ↦ absurd (nothing d early) | inr new ↦ new ],
        λ s. all.1 (inr s),
      )
    where
      nothing : (e : Destination) → Hit (match_rules no_rules e) → ⊥
      nothing (host_name n) hit = unfold match_rules match_name lookup match_names in cc (hit.1)
      nothing (ip_literal a) hit = unfold match_rules match_addr match_addrs in cc (hit.1)
