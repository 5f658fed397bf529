-- ===== src/Acl/Rules/Suffix.antt =====
-- The loop of `match_suffix` finds the longest domain of a name that has a rule.
use proxy_acl.Base.{
  Option, ℕ, ◌<◌, ◌≡◌, ◌⊎◌, inl, inr, refl, ap, none, some, [], ◌∷◌, ◌++◌, arith, ◌==◌, length,
  length-append, Option-cases, Bool-cases,
}
use proxy_acl.Base.Text.{Bytes}
use proxy_acl.Acl.Rules.{NameMap, lookup, next_domain, match_suffix}

-- What follows a dot of the name.
pub record IsParent (d n : Bytes) : Type 0 where
  pub front : Bytes
  pub joined : n ≡ front ++ b'.' ∷ d

-- The name itself, or a parent domain of it.
abbrev pub IsDomainOf : Bytes → Bytes → Type 0
IsDomainOf d n = (d ≡ n) ⊎ IsParent d n

IsParent-cons : {d n : Bytes} (c : ℕ) → IsParent d n → IsParent d (c ∷ n)
IsParent-cons c p = record { front = c ∷ p.front; joined = ap (◌∷◌ c) p.joined }

-- A parent of `c ∷ n` is a domain of `n`, and if it is not a parent of `n`, then `c` is the dot.
IsParent-inv :
    {d : Bytes} (c : ℕ) (n : Bytes) → IsParent d (c ∷ n) → ((c ≡ b'.') × (d ≡ n)) ⊎ IsParent d n
IsParent-inv {d} c n p = by_front p.front p.joined
  where
    by_front : (front : Bytes) → c ∷ n ≡ front ++ b'.' ∷ d → ((c ≡ b'.') × (d ≡ n)) ⊎ IsParent d n
    by_front [] e = inl (cc, cc)
    by_front (x ∷ front) e = inr (record { front = front; joined = cc })

not-IsParent-nil : {d : Bytes} → IsParent d [] → ⊥
not-IsParent-nil {d} p = by_front p.front p.joined
  where
    by_front : (front : Bytes) → [] ≡ front ++ b'.' ∷ d → ⊥
    by_front [] e = cc
    by_front (x ∷ front) e = cc

IsParent-shorter : {d : Bytes} (n : Bytes) → IsParent d n → length d < length n
IsParent-shorter {d} n p = omega (arith, ap length p.joined, length-append {0} p.front (b'.' ∷ d))

-- The rule found: its domain `d`, and that no longer one of the kind `Among` has a rule.
pub record Longest (Among : Bytes → Type 0) (m : NameMap) (p : Bytes) : Type 0 where
  pub domain : Bytes
  pub among : Among domain
  pub found : lookup domain m ≡ some p
  pub longest : (d : Bytes) → Among d → length domain < length d → lookup d m ≡ none

-- One byte more in front: the parents are the old ones, and what stands behind a dot.
Longest-cons :
    {m : NameMap} {p : Bytes} (c : ℕ) (n : Bytes)
    → Longest (λ d. IsParent d n) m p
    → ((d : Bytes) → (c ≡ b'.') × (d ≡ n) → lookup d m ≡ none)
    → Longest (λ d. IsParent d (c ∷ n)) m p
Longest-cons c n r here = record {
  domain = r.domain;
  among = IsParent-cons c r.among;
  found = r.found;
  longest = λ d parent longer. elim (IsParent-inv c n parent) [
    | inl at_once ↦ here d at_once
    | inr later ↦ r.longest d later longer
  ];
}

next_domain-Longest :
    (m : NameMap) (n : Bytes) {p : Bytes}
    → next_domain m n ≡ some p
    → Longest (λ d. IsParent d n) m p
unfolding next_domain
next_domain-Longest m [] h = cc
next_domain-Longest m (c ∷ n) h = elim (Bool-cases (c == b'.')) [
  | inl dot ↦ elim (Option-cases (lookup n m)) [
    | inr (q, hit) ↦ record {
      domain = n;
      among = record { front = []; joined = ground arith };
      found = ground (arith, hit);
      longest = λ d parent longer. absurd (omega (arith, IsParent-shorter (c ∷ n) parent));
    }
    | inl miss ↦
        Longest-cons c n (next_domain-Longest m n (ground (arith, miss))) (λ d e. rw (e.1) miss)
  ]
  | inr other ↦
      Longest-cons c n (next_domain-Longest m n (ground (arith, other)))
        (λ d e. ground (arith, other))
]

next_domain-none :
    (m : NameMap) (n : Bytes)
    → next_domain m n ≡ none
    → (d : Bytes) → IsParent d n
    → lookup d m ≡ none
unfolding next_domain
next_domain-none m [] h d parent = absurd (not-IsParent-nil parent)
next_domain-none m (c ∷ n) h d parent = elim (IsParent-inv c n parent) [
  | inl (dot, e) ↦ rw e (ground (arith, dot))
  | inr later ↦ next_domain-none m n (ground arith) d later
]

-- A hit is the pattern of a domain of the name that has a rule, and no longer domain of the name
-- has one.
pub match_suffix-Longest :
    (m : NameMap) (n : Bytes) {p : Bytes}
    → match_suffix m n ≡ some p
    → Longest (λ d. IsDomainOf d n) m p
unfolding match_suffix
match_suffix-Longest m n h = elim (Option-cases (lookup n m)) [
  | inr (q, hit) ↦ record {
    domain = n;
    among = inl refl;
    found = ground (arith, hit);
    longest = λ d domain longer. elim domain [
      | inl same ↦ absurd (omega (arith, ap length same))
      | inr parent ↦ absurd (omega (arith, IsParent-shorter n parent))
    ];
  }
  | inl miss ↦
      let r = next_domain-Longest m n (ground (arith, miss)) in
      record {
        domain = r.domain;
        among = inr r.among;
        found = r.found;
        longest = λ d domain longer. elim domain [
          | inl same ↦ rw same miss
          | inr parent ↦ r.longest d parent longer
        ];
      }
]

-- A miss means that no domain of the name has a rule.
pub match_suffix-none :
    (m : NameMap) (n : Bytes)
    → match_suffix m n ≡ none
    → (d : Bytes) → IsDomainOf d n
    → lookup d m ≡ none
unfolding match_suffix
match_suffix-none m n h d (inl same) = rw same (ground arith)
match_suffix-none m n h d (inr parent) = next_domain-none m n (ground arith) d parent

-- What a result of the suffix rules says of a name.
abbrev pub Decided : NameMap → Bytes → Option Bytes → Type 0
Decided m n (some p) = Longest (λ d. IsDomainOf d n) m p
Decided m n none = (d : Bytes) → IsDomainOf d n → lookup d m ≡ none

-- If the suffix rules match a name, the result is the pattern of the name itself or of a parent domain
-- of it, and no longer one of these has a rule; if they do not, none of these has a rule.
pub match_suffix-Decided : (m : NameMap) (n : Bytes) → Decided m n (match_suffix m n)
match_suffix-Decided m n = by_result (match_suffix m n) refl
  where
    by_result : (o : Option Bytes) → match_suffix m n ≡ o → Decided m n o
    by_result (some p) h = match_suffix-Longest m n h
    by_result none h = match_suffix-none m n h
