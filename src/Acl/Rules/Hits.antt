-- ===== src/Acl/Rules/Hits.antt =====
-- When a lookup, and a rule set, has a match at all.
use proxy_acl.Base.{
  ◌≡◌, ◌≢◌, ◌↔◌, ◌⊎◌, inl, inr, refl, true, Option, none, some, List, [], ◌∷◌, ◌++◌, arith,
  if◌then◌else◌, is_empty, or_else, Option-cases, Bool-cases,
}
use proxy_acl.Base.Text.{Bytes, text_eq, text_eq_iff}
use proxy_acl.Netip.{Addr, contains_addr}
use proxy_acl.Acl.Rules.{
  NameRule, AddrRule, NameMap, lookup, insert_new, RuleSet, match_suffix, match_names, match_name,
  match_addrs,
}
use proxy_acl.Acl.Rules.Suffix.{IsDomainOf, match_suffix-Longest, match_suffix-none}

-- There is a result.
abbrev pub Hit : Option Bytes → Type 0
Hit o = (p : Bytes) × (o ≡ some p)

Hit-or_else : (o p : Option Bytes) → Hit (or_else o p) ↔ (Hit o ⊎ Hit p)
Hit-or_else none p = (λ h. inr h, λ s. elim s [ inl h ↦ cc (h.1) | inr h ↦ h ])
Hit-or_else (some a) p = (λ h. inl (a, refl), λ s. (a, refl))

lookup-insert_new :
    (k j v : Bytes) (m : NameMap)
    → lookup j (insert_new k v m)
      ≡ (if text_eq k j then some (elim (lookup k m) [ none ↦ v | some w ↦ w ]) else lookup j m)
unfolding lookup insert_new
lookup-insert_new k j v m = elim (Option-cases (lookup k m)) [
  | inl miss ↦ ground (arith, miss)
  | inr (w, hit) ↦ elim (Bool-cases (text_eq k j)) [
    | inl same ↦
        let e : k ≡ j = (text_eq_iff k j).0 same in rw same (rw (← e) (ground (arith, hit)))
    | inr other ↦ ground (arith, hit, other)
  ]
]

pub Hit-insert_new :
    (k j v : Bytes) (m : NameMap) → Hit (lookup j (insert_new k v m)) ↔ (Hit (lookup j m) ⊎ (k ≡ j))
Hit-insert_new k j v m = elim (Bool-cases (text_eq k j)) [
  | inl same ↦ (
    λ h. inr ((text_eq_iff k j).0 same),
    λ s. (elim (lookup k m) [ none ↦ v | some w ↦ w ], rw (lookup-insert_new, same)),
  )
  | inr other ↦ (
    λ h. inl (h.0, ground (arith, h.1, lookup-insert_new k j v m, other)),
    λ s. elim s [
      | inl h ↦ (h.0, ground (arith, h.1, lookup-insert_new k j v m, other))
      | inr e ↦ absurd (ground (arith, (text_eq_iff k j).1 e, other))
    ],
  )
]

-- A suffix rule is hit exactly if a domain of the name has one.
Hit-suffix :
    (m : NameMap) (n : Bytes)
    → Hit (match_suffix m n) ↔ ((d : Bytes) × IsDomainOf d n × Hit (lookup d m))
Hit-suffix m n = (
  λ h. let r = match_suffix-Longest m n h.1 in (r.domain, r.among, (h.0, r.found)),
  λ (d, domain, hit). elim (Option-cases (match_suffix m n)) [
    | inl miss ↦ cc (hit.1, match_suffix-none m n miss d domain)
    | inr found ↦ found
  ],
)

pub Hit-match_names-append :
    (rs : List NameRule) (r : NameRule) (n : Bytes)
    → Hit (match_names (rs ++ r ∷ []) n) ↔ (Hit (match_names rs n) ⊎ (r.matches n ≡ true))
unfolding match_names
Hit-match_names-append [] r n = elim (Bool-cases (r.matches n)) [
  | inl yes_ ↦ (λ h. inr yes_, λ s. (r.pattern_text, rw yes_))
  | inr no_ ↦ (λ h. ground (arith, h.1, no_), λ s. elim s [ inl h ↦ cc (h.1) | inr e ↦ cc ])
]
Hit-match_names-append (q ∷ rs) r n = elim (Bool-cases (q.matches n)) [
  | inl yes_ ↦ (λ h. inl (q.pattern_text, rw yes_), λ s. (q.pattern_text, rw yes_))
  | inr no_ ↦ rw no_ (Hit-match_names-append rs r n)
]

pub Hit-match_addrs-append :
    (rs : List AddrRule) (r : AddrRule) (a : Addr)
    → Hit (match_addrs (rs ++ r ∷ []) a)
      ↔ (Hit (match_addrs rs a) ⊎ (contains_addr r.prefix a ≡ true))
unfolding match_addrs
Hit-match_addrs-append [] r a = elim (Bool-cases (contains_addr r.prefix a)) [
  | inl yes_ ↦ (λ h. inr yes_, λ s. (r.pattern_text, rw yes_))
  | inr no_ ↦ (λ h. ground (arith, h.1, no_), λ s. elim s [ inl h ↦ cc (h.1) | inr e ↦ cc ])
]
Hit-match_addrs-append (q ∷ rs) r a = elim (Bool-cases (contains_addr q.prefix a)) [
  | inl yes_ ↦ (λ h. inl (q.pattern_text, rw yes_), λ s. (q.pattern_text, rw yes_))
  | inr no_ ↦ rw no_ (Hit-match_addrs-append rs r a)
]

-- The four ways in which a name can match a rule set.
pub data NameHit (rs : RuleSet) (n : Bytes) : Type 0 where
  exactly : Hit (lookup n rs.exact) → NameHit rs n
  by_domain : (d : Bytes) → IsDomainOf d n → Hit (lookup d rs.suffix) → NameHit rs n
  by_matcher : Hit (match_names rs.names n) → NameHit rs n
  anything : rs.any_rule ≢ [] → NameHit rs n

or_else-Hit_left : (o p : Option Bytes) → Hit o → Hit (or_else o p)
or_else-Hit_left o p h = (Hit-or_else o p).1 (inl h)

or_else-Hit_right : (o p : Option Bytes) → Hit p → Hit (or_else o p)
or_else-Hit_right o p h = (Hit-or_else o p).1 (inr h)

abbrev suffix_part : RuleSet → Bytes → Option Bytes
suffix_part rs n = if is_empty rs.suffix then none else match_suffix rs.suffix n

-- The guard `len(rs.suffix) > 0` changes nothing.
Hit-suffix_part :
    (rs : RuleSet) (n : Bytes)
    → Hit (suffix_part rs n) ↔ ((d : Bytes) × IsDomainOf d n × Hit (lookup d rs.suffix))
Hit-suffix_part rs n = by_map rs.suffix
  where
    by_map :
        (m : NameMap)
        → Hit (if is_empty m then none else match_suffix m n)
          ↔ ((d : Bytes) × IsDomainOf d n × Hit (lookup d m))
    by_map [] = (λ h. cc (h.1), λ (d, domain, hit). unfold lookup in cc (hit.1))
    by_map (e ∷ m) = Hit-suffix (e ∷ m) n

abbrev any_part : RuleSet → Option Bytes
any_part rs = if is_empty rs.any_rule then none else some rs.any_rule

Hit-any_part : (rs : RuleSet) → Hit (any_part rs) ↔ (rs.any_rule ≢ [])
Hit-any_part rs = by_text rs.any_rule
  where
    by_text : (t : Bytes) → Hit (if is_empty t then none else some t) ↔ (t ≢ [])
    by_text [] = (λ h. cc (h.1), λ h. absurd (h refl))
    by_text (c ∷ t) = (λ h. cc, λ h. (c ∷ t, refl))

pub Hit→NameHit : (rs : RuleSet) (n : Bytes) → Hit (match_name rs n) → NameHit rs n
unfolding match_name
Hit→NameHit rs n h = elim ((Hit-or_else (lookup n rs.exact) _).0 h) [
  | inl e ↦ exactly e
  | inr h2 ↦ elim ((Hit-or_else (suffix_part rs n) _).0 h2) [
    | inl s ↦ let (d, domain, hit) = (Hit-suffix_part rs n).0 s in by_domain d domain hit
    | inr h3 ↦ elim ((Hit-or_else (match_names rs.names n) (any_part rs)).0 h3) [
      | inl m ↦ by_matcher m
      | inr a ↦ anything ((Hit-any_part rs).0 a)
    ]
  ]
]

pub NameHit→Hit : (rs : RuleSet) (n : Bytes) → NameHit rs n → Hit (match_name rs n)
unfolding match_name
NameHit→Hit rs n (exactly e) = or_else-Hit_left (lookup n rs.exact) _ e
NameHit→Hit rs n (by_domain d domain hit) =
    or_else-Hit_right (lookup n rs.exact) _
      (or_else-Hit_left (suffix_part rs n) _ ((Hit-suffix_part rs n).1 (d, domain, hit)))
NameHit→Hit rs n (by_matcher m) = or_else-Hit_right (lookup n rs.exact) _ (
    or_else-Hit_right (suffix_part rs n) _
      (or_else-Hit_left (match_names rs.names n) (any_part rs) m))
NameHit→Hit rs n (anything a) = or_else-Hit_right (lookup n rs.exact) _ (
    or_else-Hit_right (suffix_part rs n) _
      (or_else-Hit_right (match_names rs.names n) (any_part rs) ((Hit-any_part rs).1 a)))
