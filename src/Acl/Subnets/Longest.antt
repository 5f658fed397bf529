-- ===== src/Acl/Subnets/Longest.antt =====
-- `subnet_of` is the longest matching prefix.
use proxy_acl.Base.{
  ℕ, suc, ◌≤◌, ◌≡◌, ◌⊎◌, inl, inr, refl, true, false, ◌&&◌, Option, none, some, List, [], ◌∷◌,
  arith, if◌then◌else◌, Member, Bool-cases,
}
use native.Mathlib.Nat.{le_trans}
use proxy_acl.Netip.{Addr, Prefix, contains_addr, unmap}
use proxy_acl.Acl.Subnets.{Subnet, Best, beats, scan_prefixes, scan_subnets, subnet_of}

-- How good a candidate is: nothing is 0.
rank : Best → ℕ
rank none = 0
rank (some (s, b)) = suc b

module _ (client : Addr) where
  abbrev take_if : Subnet → Prefix → Best → Best
  take_if s p best = if beats p.bits best && contains_addr p client then some (s, p.bits) else best

  rank-take_if : (s : Subnet) (p : Prefix) (best : Best) → rank best ≤ rank (take_if s p best)
  unfolding rank
  rank-take_if s p none = ground arith
  rank-take_if s p (some (t, b)) = ground arith

  rank-take_if_hit :
      (s : Subnet) (p : Prefix) (best : Best)
      → contains_addr p client ≡ true
      → suc p.bits ≤ rank (take_if s p best)
  unfolding rank
  rank-take_if_hit s p none h = ground arith
  rank-take_if_hit s p (some (t, b)) h = ground arith

  module _ (s : Subnet) where
    rank-scan_prefixes :
        (ps : List Prefix) (best : Best) → rank best ≤ rank (scan_prefixes client s ps best)
    unfolding scan_prefixes
    rank-scan_prefixes [] best = omega arith
    rank-scan_prefixes (p ∷ ps) best =
        le_trans (rank-take_if s p best) (rank-scan_prefixes ps (take_if s p best))

    scan_prefixes-upper :
        (ps : List Prefix) (best : Best) (p : Prefix)
        → Member p ps
        → contains_addr p client ≡ true
        → suc p.bits ≤ rank (scan_prefixes client s ps best)
    unfolding scan_prefixes
    scan_prefixes-upper [] best p m h = absurd m
    scan_prefixes-upper (q ∷ ps) best p (inl same) h = rw same (
        le_trans (rank-take_if_hit s q best (rw same at h))
          (rank-scan_prefixes ps (take_if s q best)))
    scan_prefixes-upper (q ∷ ps) best p (inr m) h = scan_prefixes-upper ps (take_if s q best) p m h

    -- A candidate is the one there was, or stems from a prefix that contains the client.
    abbrev Stems : List Prefix → Best → Subnet → ℕ → Type 0
    Stems ps best t b =
        (best ≡ some (t, b))
        ⊎ ((p : Prefix) × (t ≡ s) × Member p ps × (p.bits ≡ b) × (contains_addr p client ≡ true))

    scan_prefixes-Stems :
        (ps : List Prefix) (best : Best) {t : Subnet} {b : ℕ}
        → scan_prefixes client s ps best ≡ some (t, b)
        → Stems ps best t b
    unfolding scan_prefixes
    scan_prefixes-Stems [] best h = inl h
    scan_prefixes-Stems (p ∷ ps) best h =
        elim (Bool-cases (beats p.bits best && contains_addr p client)) [
          | inl chosen ↦ elim (scan_prefixes-Stems ps (some (s, p.bits)) (rw chosen at h)) [
            | inl e ↦ inr (p, cc, inl refl, cc, ground arith)
            | inr (q, same, m, bits, inside) ↦ inr (q, same, inr m, bits, inside)
          ]
          | inr kept ↦ elim (scan_prefixes-Stems ps best (rw kept at h)) [
            | inl e ↦ inl e
            | inr (q, same, m, bits, inside) ↦ inr (q, same, inr m, bits, inside)
          ]
        ]

  rank-scan_subnets :
      (ss : List Subnet) (best : Best) → rank best ≤ rank (scan_subnets client ss best)
  unfolding scan_subnets
  rank-scan_subnets [] best = omega arith
  rank-scan_subnets (s ∷ ss) best =
      le_trans (rank-scan_prefixes s s.prefixes best)
        (rank-scan_subnets ss (scan_prefixes client s s.prefixes best))

  scan_subnets-upper :
      (ss : List Subnet) (best : Best) (s : Subnet) (p : Prefix)
      → Member s ss
      → Member p s.prefixes
      → contains_addr p client ≡ true
      → suc p.bits ≤ rank (scan_subnets client ss best)
  unfolding scan_subnets
  scan_subnets-upper [] best s p ms m h = absurd ms
  scan_subnets-upper (q ∷ ss) best s p (inl same) m h =
      let here : Member p q.prefixes = rw same at m in
      le_trans (scan_prefixes-upper q q.prefixes best p here h)
        (rank-scan_subnets ss (scan_prefixes client q q.prefixes best))
  scan_subnets-upper (q ∷ ss) best s p (inr ms) m h =
      scan_subnets-upper ss (scan_prefixes client q q.prefixes best) s p ms m h

  scan_subnets-Stems :
      (ss : List Subnet) (best : Best) {t : Subnet} {b : ℕ}
      → scan_subnets client ss best ≡ some (t, b)
      → (best ≡ some (t, b))
        ⊎ ((p : Prefix) × Member t ss
            × Member p t.prefixes
            × (p.bits ≡ b)
            × (contains_addr p client ≡ true))
  unfolding scan_subnets
  scan_subnets-Stems [] best h = inl h
  scan_subnets-Stems (s ∷ ss) best h =
      elim (scan_subnets-Stems ss (scan_prefixes client s s.prefixes best) h) [
        | inr (p, ms, m, bits, inside) ↦ inr (p, inr ms, m, bits, inside)
        | inl early ↦ elim (scan_prefixes-Stems s s.prefixes best early) [
          | inl e ↦ inl e
          | inr (p, same, m, bits, inside) ↦ inr (p, inl same, rw same m, bits, inside)
        ]
      ]

-- A subnet of the policy has a prefix that contains the client's unmapped address, and no
-- prefix of the policy that contains it is longer.
pub record LongestMatch (policy : List Subnet) (client : Addr) (s : Subnet) : Type 0 where
  pub chosen : Prefix
  pub of_policy : Member s policy
  pub of_subnet : Member chosen s.prefixes
  pub inside : contains_addr chosen (unmap client) ≡ true
  pub longest :
      (t : Subnet) (p : Prefix)
      → Member t policy
      → Member p t.prefixes
      → contains_addr p (unmap client) ≡ true
      → p.bits ≤ chosen.bits

-- The subnet of a client is a longest match of its policy.
pub subnet_of-LongestMatch :
    (policy : List Subnet) (client : Addr) {s : Subnet}
    → subnet_of policy client ≡ some s
    → LongestMatch policy client s
unfolding subnet_of rank
subnet_of-LongestMatch policy client {s} h = by_best (scan_subnets (unmap client) policy none) refl
  where
    by_best :
        (best : Best)
        → scan_subnets (unmap client) policy none ≡ best
        → LongestMatch policy client s
    by_best none e = cc (rw (e, subnet_of) at h)
    by_best (some (t, b)) e =
        let found : ◌≡◌ {A = Option Subnet} (some t) (some s) = rw (e, subnet_of) at h in
        let same : t ≡ s = cc in
        elim (scan_subnets-Stems (unmap client) policy none e) [
          | inl impossible ↦ cc
          | inr (p, ms, m, bits, inside) ↦ record {
            chosen = p;
            of_policy = rw (← same) ms;
            of_subnet = rw (← same) m;
            inside = inside;
            longest = λ t' p' ms' m' inside'.
                let upper = scan_subnets-upper (unmap client) policy none t' p' ms' m' inside' in
                let bound : suc p'.bits ≤ suc b = rw e at upper in omega arith;
          }
        ]

-- A client without a subnet is in no prefix of the policy.
pub subnet_of-none :
    (policy : List Subnet) (client : Addr) (s : Subnet) (p : Prefix)
    → subnet_of policy client ≡ none
    → Member s policy
    → Member p s.prefixes
    → contains_addr p (unmap client) ≡ false
unfolding subnet_of rank
subnet_of-none policy client s p h ms m = by_best (scan_subnets (unmap client) policy none) refl
  where
    by_best :
        (best : Best)
        → scan_subnets (unmap client) policy none ≡ best
        → contains_addr p (unmap client) ≡ false
    by_best (some (t, b)) e = cc (rw (e, subnet_of) at h)
    by_best none e = elim (Bool-cases (contains_addr p (unmap client))) [
      | inr outside ↦ outside
      | inl inside ↦
          let upper = scan_subnets-upper (unmap client) policy none s p ms m inside in
          let bound : suc p.bits ≤ 0 = rw e at upper in absurd (omega arith)
    ]

-- What a result of SubnetOf says of the policy.
abbrev pub Matched : List Subnet → Addr → Option Subnet → Type 0
Matched policy client (some s) = LongestMatch policy client s
Matched policy client none =
    (s : Subnet) (p : Prefix)
    → Member s policy
    → Member p s.prefixes
    → contains_addr p (unmap client) ≡ false

-- If a client has a subnet, that subnet is in the policy and has a prefix that contains the client's
-- unmapped address, and no prefix of the policy that contains it is longer; if it has none, no prefix
-- of the policy contains its unmapped address.
pub subnet_of-Matched :
    (policy : List Subnet) (client : Addr) → Matched policy client (subnet_of policy client)
subnet_of-Matched policy client = by_result (subnet_of policy client) refl
  where
    by_result : (o : Option Subnet) → subnet_of policy client ≡ o → Matched policy client o
    by_result (some s) h = subnet_of-LongestMatch policy client h
    by_result none h = λ s p ms m. subnet_of-none policy client s p h ms m
