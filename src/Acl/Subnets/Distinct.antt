-- ===== src/Acl/Subnets/Distinct.antt =====
-- No two prefixes of a compiled policy are the same, and no two subnets have one name.
use proxy_acl.Base.{
  ℕ, ◌+◌, ◌≡◌, ◌≢◌, inl, inr, sym, ◌∙◌, false, none, List, [], ◌∷◌, ◌++◌, arith, any, All,
  All-append, All-map, Option-cases, Bool-cases, Result, ok, map_err, map_err-ok, >>=-eq-ok,
}
use proxy_acl.Base.Text.{Bytes, text_eq, text_eq_iff}
use proxy_acl.Netip.{Prefix, prefix_eq}
use proxy_acl.Acl.Rules.{Regexp}
use proxy_acl.Acl.Subnets.{
  SubnetSpec, Subnet, PolicyError, bad_subnet, owner_of, claim, name_or_index, compile_subnet,
  compile_from, new_policy,
}

abbrev pub Differs : Prefix → Prefix → Type 0
Differs p q = prefix_eq p q ≡ false

-- Each element differs from all behind it.
abbrev pub AllApart : List Prefix → Type 0
AllApart [] = Unit
AllApart (p ∷ ps) = All (Differs p) ps × AllApart ps

abbrev pub prefixes_of : List Subnet → List Prefix
prefixes_of [] = []
prefixes_of (s ∷ ss) = s.prefixes ++ prefixes_of ss

abbrev pub NamesApart : List Subnet → Type 0
NamesApart [] = Unit
NamesApart (s ∷ ss) = All (λ t. s.name ≢ t.name) ss × NamesApart ss

abbrev Free : List (Prefix × Bytes) → Prefix → Type 0
Free owner p = owner_of p owner ≡ none

abbrev Clear : List Prefix → Prefix → Type 0
Clear ps q = All (λ p. Differs p q) ps

owner_of-cons :
    (p q : Prefix) (name : Bytes) (owner : List (Prefix × Bytes))
    → owner_of q ((p, name) ∷ owner) ≡ none
    → Differs p q × Free owner q
unfolding owner_of
owner_of-cons p q name owner h = ground arith

-- The prefixes claimed were free and differ, and what is still free differs from them.
record Claimed (ps : List Prefix) (owner after : List (Prefix × Bytes)) : Type 0 where
  apart : AllApart ps
  free_before : All (Free owner) ps
  free_after : (q : Prefix) → Free after q → Clear ps q × Free owner q

claim-Claimed :
    (name : Bytes) (ps : List Prefix) (owner : List (Prefix × Bytes))
    {after : List (Prefix × Bytes)}
    → claim name ps owner ≡ ok after
    → Claimed ps owner after
unfolding claim
claim-Claimed name [] owner h = record {
  apart = tt;
  free_before = tt;
  free_after = λ q f. (tt, cc);
}
claim-Claimed name (p ∷ ps) owner h = elim (Option-cases (owner_of p owner)) [
  | inr (other, taken) ↦ ground (arith, taken)
  | inl free ↦
      let c = claim-Claimed name ps ((p, name) ∷ owner) (ground (arith, free)) in
      record {
        apart = (
          All-map (Free ((p, name) ∷ owner)) (Differs p) ps
              (λ q f. (owner_of-cons p q name owner f).0) c.free_before,
          c.apart,
        );
        free_before = (
          free,
          All-map (Free ((p, name) ∷ owner)) (Free owner) ps
              (λ q f. (owner_of-cons p q name owner f).1) c.free_before,
        );
        free_after = λ q f.
            let (clear, still) = c.free_after q f in
            let (differs, free_q) = owner_of-cons p q name owner still in
            ((differs, clear), free_q);
      }
]

-- Two lists apart, and each of the first clear of the second.
Apart-append :
    (ps qs : List Prefix) → AllApart ps → AllApart qs → All (Clear ps) qs → AllApart (ps ++ qs)
Apart-append [] qs hp hq c = hq
Apart-append (p ∷ ps) qs hp hq c = (
  All-append (Differs p) ps qs hp.0 (All-map (Clear (p ∷ ps)) (Differs p) qs (λ q h. h.0) c),
  Apart-append ps qs hp.1 hq (All-map (Clear (p ∷ ps)) (Clear ps) qs (λ q h. h.1) c),
)

-- A name that is not among the names seen.
Unseen : List Bytes → Bytes → Type 0
Unseen names n = any (text_eq n) names ≡ false

module _ (regexp : Regexp) where
  name-compile_subnet :
      (spec : SubnetSpec) {s : Subnet} → compile_subnet regexp spec ≡ ok s → s.name ≡ spec.name
  unfolding compile_subnet
  name-compile_subnet spec h = ground arith

  record Sound (names : List Bytes) (owner : List (Prefix × Bytes)) (ss : List Subnet)
      : Type 0 where
    apart : AllApart (prefixes_of ss)
    free : All (Free owner) (prefixes_of ss)
    names_apart : NamesApart ss
    unseen : All (λ t. Unseen names t.name) ss

  -- One round of the loop, if it succeeds.
  pub record Round (i : ℕ) (names : List Bytes) (owner : List (Prefix × Bytes)) (spec : SubnetSpec)
      (specs : List SubnetSpec) (out : List Subnet) : Type 0 where
    pub subnet : Subnet
    pub owner' : List (Prefix × Bytes)
    pub rest : List Subnet
    pub unseen : any (text_eq (name_or_index i spec.name)) names ≡ false
    pub compiled :
        compile_subnet regexp (record spec { name = name_or_index i spec.name }) ≡ ok subnet
    pub claimed : claim subnet.name subnet.prefixes owner ≡ ok owner'
    pub onward :
        compile_from regexp (i + 1) (name_or_index i spec.name ∷ names) owner' specs ≡ ok rest
    pub result : out ≡ subnet ∷ rest

  pub compile_from-Round :
      (i : ℕ) (names : List Bytes) (owner : List (Prefix × Bytes)) (spec : SubnetSpec)
      (specs : List SubnetSpec) {out : List Subnet}
      → compile_from regexp i names owner (spec ∷ specs) ≡ ok out
      → Round i names owner spec specs out
  unfolding compile_from
  compile_from-Round i names owner spec specs h =
      let name = name_or_index i spec.name in
      elim (Bool-cases (any (text_eq name) names)) [
        | inl seen ↦ ground (arith, seen)
        | inr unseen ↦
            let compile = compile_subnet regexp (record spec { name = name }) in
            let (s, compiled, h1) =
              >>=-eq-ok (map_err (bad_subnet name) compile) _ (rw unseen at h) in
            let (owner', claimed, h2) = >>=-eq-ok (claim s.name s.prefixes owner) _ h1 in
            let (ss, onward, h3) =
              >>=-eq-ok (compile_from regexp (i + 1) (name ∷ names) owner' specs) _ h2 in
            record {
              subnet = s;
              owner' = owner';
              rest = ss;
              unseen = unseen;
              compiled = map_err-ok (bad_subnet name) compile compiled;
              claimed = claimed;
              onward = onward;
              result = cc;
            }
      ]

  Unseen-cons : (n m : Bytes) (names : List Bytes) → Unseen (m ∷ names) n → (n ≢ m) × Unseen names n
  unfolding Unseen any
  Unseen-cons n m names h = (λ e. ground (arith, (text_eq_iff n m).1 e), ground arith)

  Sound-cons :
      {i : ℕ} {names : List Bytes} {owner : List (Prefix × Bytes)} {spec : SubnetSpec}
      {specs : List SubnetSpec} {out : List Subnet}
      → (r : Round i names owner spec specs out)
      → Sound (name_or_index i spec.name ∷ names) r.owner' r.rest
      → Sound names owner (r.subnet ∷ r.rest)
  unfolding Unseen
  Sound-cons {i} {names} {owner} {spec} r tail =
      let name = name_or_index i spec.name in
      let s = r.subnet in
      let named : s.name ≡ name = name-compile_subnet _ r.compiled in
      let c = claim-Claimed s.name s.prefixes owner r.claimed in
      record {
        apart = Apart-append s.prefixes (prefixes_of r.rest) c.apart tail.apart (
            All-map (Free r.owner') (Clear s.prefixes) (prefixes_of r.rest)
              (λ q f. (c.free_after q f).0) tail.free);
        free = All-append (Free owner) s.prefixes (prefixes_of r.rest) c.free_before (
            All-map (Free r.owner') (Free owner) (prefixes_of r.rest) (λ q f. (c.free_after q f).1)
              tail.free);
        names_apart = (
          All-map (λ t. Unseen (name ∷ names) t.name) (λ t. s.name ≢ t.name) r.rest
              (λ t u e. (Unseen-cons t.name name names u).0 (sym e ∙ named)) tail.unseen,
          tail.names_apart,
        );
        unseen = (
          rw named r.unseen,
          All-map (λ t. Unseen (name ∷ names) t.name) (λ t. Unseen names t.name) r.rest
              (λ t u. (Unseen-cons t.name name names u).1) tail.unseen,
        );
      }

  compile_from-Sound :
      (specs : List SubnetSpec) (i : ℕ) (names : List Bytes) (owner : List (Prefix × Bytes))
      {out : List Subnet}
      → compile_from regexp i names owner specs ≡ ok out
      → Sound names owner out
  compile_from-Sound [] i names owner {out} h =
      let e : ◌≡◌ {A = Result PolicyError (List Subnet)} (ok []) (ok out) =
        unfold compile_from in h in
      let nothing : [] ≡ out = cc in
      rw (← nothing) (record { apart = tt; free = tt; names_apart = tt; unseen = tt })
  compile_from-Sound (spec ∷ specs) i names owner h =
      let r = compile_from-Round i names owner spec specs h in
      rw r.result (
        Sound-cons r
          (compile_from-Sound specs (i + 1) (name_or_index i spec.name ∷ names) r.owner' r.onward))

  -- In a policy that compiles, all prefixes of all subnets differ, and so do the subnets' names.
  pub new_policy-distinct :
      (specs : List SubnetSpec) (policy : List Subnet)
      → new_policy regexp specs ≡ ok policy
      → AllApart (prefixes_of policy) × NamesApart policy
  unfolding new_policy
  new_policy-distinct [] policy h = cc
  new_policy-distinct (spec ∷ specs) policy h =
      let s = compile_from-Sound (spec ∷ specs) 0 [] [] h in (s.apart, s.names_apart)
