-- ===== src/Acl/Check/Policy.antt =====
-- The policy as a whole: what a request that `check_policy` allows has passed, in terms of the specs
-- that the policy was compiled from.
use proxy_acl.Base.{
  ℕ, ◌+◌, ◌≡◌, inl, inr, refl, true, List, [], ◌∷◌, arith, Member, Option-cases, ok,
}
use proxy_acl.Base.Text.{Bytes}
use proxy_acl.Netip.{Addr, Prefix}
use proxy_acl.Acl.Rules.{Regexp}
use proxy_acl.Acl.Rules.Meaning.{ListFor}
use proxy_acl.Acl.Subnets.{
  SubnetSpec, Subnet, name_or_index, compile_subnet, compile_from, new_policy, subnet_of,
}
use proxy_acl.Acl.Subnets.Compiled.{allow_iff, denies-none}
use proxy_acl.Acl.Subnets.Distinct.{compile_from-Round}
use proxy_acl.Acl.Subnets.Longest.{LongestMatch, subnet_of-LongestMatch}
use proxy_acl.Acl.Check.{Resolver, check_policy}
use proxy_acl.Acl.Check.Safety.{Approval, check_subnet_sound}

module _ (regexp : Regexp) where
  -- The spec that a subnet was compiled from; only its name may have been filled in.
  pub record Origin (specs : List SubnetSpec) (s : Subnet) : Type 0 where
    pub spec : SubnetSpec
    pub of_specs : Member spec specs
    pub name : Bytes
    pub compiled : compile_subnet regexp (record spec { name = name }) ≡ ok s

  compile_from-Origin :
      (specs : List SubnetSpec) (i : ℕ) (names : List Bytes) (owner : List (Prefix × Bytes))
      (policy : List Subnet) (s : Subnet)
      → compile_from regexp i names owner specs ≡ ok policy
      → Member s policy
      → Origin specs s
  compile_from-Origin [] i names owner [] s h m = absurd m
  compile_from-Origin [] i names owner (t ∷ policy) s h m = unfold compile_from in cc
  compile_from-Origin (spec ∷ specs) i names owner policy s h m =
      let r = compile_from-Round regexp i names owner spec specs h in
      let m' : Member s (r.subnet ∷ r.rest) = rw r.result at m in
      elim m' [
        | inl same ↦ record {
          spec = spec;
          of_specs = inl refl;
          name = name_or_index i spec.name;
          compiled = rw same r.compiled;
        }
        | inr later ↦
            let o =
              compile_from-Origin specs (i + 1) (name_or_index i spec.name ∷ names) r.owner' r.rest
                s r.onward later in
            record {
              spec = o.spec;
              of_specs = inr o.of_specs;
              name = o.name;
              compiled = o.compiled;
            }
      ]

  new_policy-Origin :
      (specs : List SubnetSpec) (policy : List Subnet) (s : Subnet)
      → new_policy regexp specs ≡ ok policy
      → Member s policy
      → Origin specs s
  unfolding new_policy
  new_policy-Origin [] policy s h m = cc
  new_policy-Origin (spec ∷ specs) policy s h m =
      compile_from-Origin (spec ∷ specs) 0 [] [] policy s h m

  -- Why the policy allows a request.
  pub record PolicyApproval {E S : Type 0} (res : Resolver E S) (specs : List SubnetSpec)
      (policy : List Subnet) (client : Addr) (host port : Bytes) (st : S) : Type 0 where
    pub subnet : Subnet
    pub longest : LongestMatch policy client subnet
    pub origin : Origin specs subnet
    pub approval : Approval res subnet host port st
    pub pattern_allows : ListFor regexp origin.spec.allow_texts approval.target
    pub no_pattern_denies : ¬ ListFor regexp origin.spec.deny_texts approval.target

  -- A request that a compiled policy allows comes from a client whose longest matching prefix
  -- belongs to the subnet that decides; an allow pattern in that subnet's spec stands for the
  -- requested destination, and no deny pattern does; and the subnet's other tests have passed.
  pub check_policy_sound :
      {E S : Type 0} (res : Resolver E S) (specs : List SubnetSpec) (policy : List Subnet)
      (client : Addr) (host port : Bytes) (st : S)
      → new_policy regexp specs ≡ ok policy
      → (check_policy res policy client host port st).0.allowed ≡ true
      → PolicyApproval res specs policy client host port st
  unfolding check_policy
  check_policy_sound res specs policy client host port st h allowed =
      elim (Option-cases (subnet_of policy client)) [
        | inl nobody ↦ ground (arith, nobody)
        | inr (s, found) ↦
            let longest = subnet_of-LongestMatch policy client found in
            let origin = new_policy-Origin specs policy s h longest.of_policy in
            let a = check_subnet_sound res s host port st (ground (arith, found)) in
            let spec = record origin.spec { name = origin.name } in
            record {
              subnet = s;
              longest = longest;
              origin = origin;
              approval = a;
              pattern_allows =
                  (allow_iff regexp spec s a.target origin.compiled).0 (a.rule, a.allowed_by);
              no_pattern_denies = denies-none regexp spec s a.target origin.compiled a.not_denied;
            }
      ]
