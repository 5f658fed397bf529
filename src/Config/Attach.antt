-- ===== src/Config/Attach.antt =====
-- The subnets of a policy beside the entries of the file, and the loop of Parse that attaches limits.
use proxy_acl.Base.{
  ℕ, ◌+◌, ◌≡◌, ◌≢◌, refl, sym, ◌∙◌, inl, inr, Bool, false, some, List, [], ◌∷◌, All, Result, ok,
  map_err, map_err-ok, >>=-eq-ok, Bool-cases,
}
use proxy_acl.Base.Text.{Bytes, text_eq, text_eq_iff}
use proxy_acl.Netip.{Prefix}
use proxy_acl.Base.Maps.{GoMap, text_key, get, put}
use proxy_acl.Base.Maps.Laws.{get-put, get-put_self}
use proxy_acl.Acl.Rules.{Regexp}
use proxy_acl.Acl.Subnets.{
  SubnetSpec, Subnet, PolicyError, name_or_index, compile_subnet, compile_from, new_policy,
}
use proxy_acl.Acl.Subnets.Distinct.{NamesApart, compile_from-Round}
use proxy_acl.Limits.Bucket.{Float64}
use proxy_acl.Limits.Tracker.{ClientLimits}
use proxy_acl.Config.{FileSubnet, ConfigError, bad_subnet_limits, apply, attach_limits}

text_apart : {a b : Bytes} → b ≢ a → text_eq a b ≡ false
text_apart {a} {b} apart = elim (Bool-cases (text_eq a b)) [
  | inl same ↦ absurd (apart (sym ((text_eq_iff a b).0 same)))
  | inr differs ↦ differs
]

module _ (regexp : Regexp) where
  -- The subnets of a policy, each compiled from the spec at its place.
  abbrev pub Compiled : ℕ → List SubnetSpec → List Subnet → Type 0
  Compiled i [] [] = Unit
  Compiled i [] (s ∷ ss) = ⊥
  Compiled i (spec ∷ specs) [] = ⊥
  Compiled i (spec ∷ specs) (s ∷ ss) =
      (compile_subnet regexp (record spec { name = name_or_index i spec.name }) ≡ ok s)
      × Compiled (i + 1) specs ss

  compile_from-Compiled :
      (specs : List SubnetSpec) (i : ℕ) (names : List Bytes) (owner : List (Prefix × Bytes))
      {ss : List Subnet}
      → compile_from regexp i names owner specs ≡ ok ss
      → Compiled i specs ss
  compile_from-Compiled [] i names owner {ss} h =
      let e : ◌≡◌ {A = Result PolicyError (List Subnet)} (ok []) (ok ss) =
        unfold compile_from in h in
      let nothing : [] ≡ ss = cc in rw (← nothing) tt
  compile_from-Compiled (spec ∷ specs) i names owner h =
      let r = compile_from-Round regexp i names owner spec specs h in
      rw r.result (
        r.compiled,
        compile_from-Compiled specs (i + 1) (name_or_index i spec.name ∷ names) r.owner' r.onward,
      )

  pub new_policy-Compiled :
      (specs : List SubnetSpec) {ss : List Subnet}
      → new_policy regexp specs ≡ ok ss
      → Compiled 0 specs ss
  unfolding new_policy
  new_policy-Compiled [] h = cc
  new_policy-Compiled (spec ∷ specs) h = compile_from-Compiled (spec ∷ specs) 0 [] [] h

module _ (fl : Float64) (is_nan is_inf : fl.F → Bool) where
  open fl use {F}

  -- Each subnet has the limits that apply gives for its entry.
  abbrev pub Fits :
      ClientLimits F → GoMap Bytes (ClientLimits F) → List Subnet → List (FileSubnet F) → Type 0
  Fits base m [] files = Unit
  Fits base m (s ∷ ss) [] = ⊥
  Fits base m (s ∷ ss) (f ∷ fs) =
      ((l : ClientLimits F) × (apply fl is_nan is_inf f.limits base ≡ ok l)
        × (get s.name m ≡ some l))
      × Fits base m ss fs

  module _ {E : Type 0} (base : ClientLimits F) where
    abbrev attach :
        List Subnet
        → List (FileSubnet F)
        → GoMap Bytes (ClientLimits F)
        → Result (ConfigError E) (GoMap Bytes (ClientLimits F))
    attach = attach_limits fl is_nan is_inf base

    attach_limits-nil :
        (fs : List (FileSubnet F)) (m : GoMap Bytes (ClientLimits F))
        {out : GoMap Bytes (ClientLimits F)}
        → attach [] fs m ≡ ok out
        → out ≡ m
    unfolding attach_limits
    attach_limits-nil fs m h = cc

    attach_limits-short :
        (s : Subnet) (ss : List Subnet) (m : GoMap Bytes (ClientLimits F))
        {out : GoMap Bytes (ClientLimits F)}
        → attach (s ∷ ss) [] m ≡ ok out
        → ⊥
    unfolding attach_limits
    attach_limits-short s ss m h = cc

    attach_limits-cons :
        (s : Subnet) (ss : List Subnet) (f : FileSubnet F) (fs : List (FileSubnet F))
        (m : GoMap Bytes (ClientLimits F)) {out : GoMap Bytes (ClientLimits F)}
        → attach (s ∷ ss) (f ∷ fs) m ≡ ok out
        → (l : ClientLimits F) × (apply fl is_nan is_inf f.limits base ≡ ok l)
          × (attach ss fs (put s.name l m) ≡ ok out)
    unfolding attach_limits
    attach_limits-cons s ss f fs m h =
        let result = apply fl is_nan is_inf f.limits base in
        let (l, applied, onward) = >>=-eq-ok (map_err (bad_subnet_limits s.name) result) _ h in
        (l, map_err-ok (bad_subnet_limits s.name) result applied, onward)

    -- A name that no subnet has keeps its entry.
    get-attach_limits :
        (ss : List Subnet) (fs : List (FileSubnet F)) (m : GoMap Bytes (ClientLimits F))
        {out : GoMap Bytes (ClientLimits F)} (n : Bytes)
        → attach ss fs m ≡ ok out
        → All (λ s. n ≢ s.name) ss
        → get n out ≡ get n m
    get-attach_limits [] fs m n h apart = let same = attach_limits-nil fs m h in rw same refl
    get-attach_limits (s ∷ ss) [] m n h apart = absurd (attach_limits-short s ss m h)
    get-attach_limits (s ∷ ss) (f ∷ fs) m n h apart =
        let (l, applied, onward) = attach_limits-cons s ss f fs m h in
        get-attach_limits ss fs (put s.name l m) n onward apart.1
        ∙ get-put s.name n l m
        ∙ rw (text_apart apart.0) refl

    pub attach_limits-Fits :
        (ss : List Subnet) (fs : List (FileSubnet F)) (m : GoMap Bytes (ClientLimits F))
        {out : GoMap Bytes (ClientLimits F)}
        → attach ss fs m ≡ ok out
        → NamesApart ss
        → Fits base out ss fs
    attach_limits-Fits [] fs m h apart = tt
    attach_limits-Fits (s ∷ ss) [] m h apart = attach_limits-short s ss m h
    attach_limits-Fits (s ∷ ss) (f ∷ fs) m h apart =
        let (l, applied, onward) = attach_limits-cons s ss f fs m h in
        (
          (
            l,
            applied,
            get-attach_limits ss fs (put s.name l m) s.name onward apart.0
                ∙ get-put_self s.name l m,
          ),
          attach_limits-Fits ss fs (put s.name l m) onward apart.1,
        )
