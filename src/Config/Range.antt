-- ===== src/Config/Range.antt =====
-- Parse does not index the subnets of the file out of range.
use proxy_acl.Base.{
  ℕ, ◌+◌, ◌≡◌, ◌≢◌, refl, Bool, true, false, Option, none, some, List, [], ◌∷◌, map, Result, ok,
  err, map_err, map_err-ok, ◌>>=◌,
}
use proxy_acl.Base.Text.{Bytes}
use proxy_acl.Base.Ints.{ℤ, pos, negsuc}
use proxy_acl.Base.Maps.{GoMap, text_key, put}
use proxy_acl.Acl.Rules.{Regexp}
use proxy_acl.Acl.Subnets.{Subnet, new_policy}
use proxy_acl.Limits.Bucket.{Float64}
use proxy_acl.Limits.Tracker.{ClientLimits}
use proxy_acl.Config.{
  FileSubnet, ConfigFile, bad_level, bad_limits, bad_policy, bad_subnet_limits, index_out_of_range,
  default_client_limits, apply, spec_of, attach_limits, level_of, total_of, build, Decoder,
  parse_decoded, parse,
}
use proxy_acl.Config.Attach.{Compiled, new_policy-Compiled}

-- A chain has an error only from its first step, or from what follows once that has succeeded.
>>=-without {ℓ κ μ} :
    {D : Type ℓ} {A : Type κ} {B : Type μ} {e : D} (first : Result D A) (rest : A → Result D B)
    → (first ≢ err e)
    → ((a : A) → first ≡ ok a → rest a ≢ err e)
    → (first >>= rest) ≢ err e
>>=-without (ok a) rest h k = k a refl
>>=-without (err d) rest h k = λ e. h cc

map_err-without {ℓ κ μ} :
    {C : Type ℓ} {D : Type κ} {A : Type μ} {e : D} (f : C → D) (r : Result C A)
    → ((c : C) → f c ≢ e)
    → map_err f r ≢ err e
map_err-without f (ok a) h = λ same. cc
map_err-without f (err c) h = λ same. h c cc

module _ (fl : Float64) (is_nan is_inf : fl.F → Bool) {E L : Type 0} (info_level : L)
    (parse_level : Bytes → Result E L) (regexp : Regexp) where
  open fl use {F}

  attach_limits-in_range :
      (base : ClientLimits F) (i : ℕ) (fs : List (FileSubnet F)) (ss : List Subnet)
      (m : GoMap Bytes (ClientLimits F))
      → Compiled regexp i (map (spec_of fl is_nan is_inf) fs) ss
      → attach_limits fl is_nan is_inf {E = E} base ss fs m ≢ err index_out_of_range
  unfolding attach_limits
  attach_limits-in_range base i fs [] m c = λ h. cc
  attach_limits-in_range base i [] (s ∷ ss) m c = absurd c
  attach_limits-in_range base i (f ∷ fs) (s ∷ ss) m c =
      >>=-without (map_err (bad_subnet_limits s.name) (apply fl is_nan is_inf f.limits base)) _
        (map_err-without (bad_subnet_limits s.name) (apply fl is_nan is_inf f.limits base)
          (λ e h. cc))
        (λ l applied. attach_limits-in_range base (i + 1) fs ss (put s.name l m) c.1)

  total_of-in_range : (t : Option ℤ) → total_of fl is_nan is_inf {E = E} t ≢ err index_out_of_range
  unfolding total_of
  total_of-in_range none = λ h. cc
  total_of-in_range (some (pos n)) = λ h. cc
  total_of-in_range (some (negsuc n)) = λ h. cc

  level_of-in_range :
      (text : Bytes)
      → level_of fl is_nan is_inf info_level parse_level regexp text ≢ err index_out_of_range
  unfolding level_of
  level_of-in_range [] = λ h. cc
  level_of-in_range (c ∷ text) = map_err-without bad_level (parse_level (c ∷ text)) (λ e h. cc)

  build-in_range :
      (f : ConfigFile F)
      → build fl is_nan is_inf info_level parse_level regexp f ≢ err index_out_of_range
  unfolding build
  build-in_range f =
      let defaults = default_client_limits fl is_nan is_inf in
      let specs = map (spec_of fl is_nan is_inf) f.subnets in
      let result = apply fl is_nan is_inf f.client_limits defaults in
      >>=-without (level_of fl is_nan is_inf info_level parse_level regexp f.log_level) _
        (level_of-in_range f.log_level)
        (λ level p1.
          >>=-without (total_of fl is_nan is_inf f.total_connections) _
            (total_of-in_range f.total_connections)
            (λ total p2.
              >>=-without (map_err bad_limits result) _
                (map_err-without bad_limits result (λ e h. cc))
                (λ limits p3.
                  >>=-without (map_err bad_policy (new_policy regexp specs)) _
                    (map_err-without bad_policy (new_policy regexp specs) (λ e h. cc))
                    (λ policy p4.
                      >>=-without (attach_limits fl is_nan is_inf limits policy f.subnets []) _
                        (attach_limits-in_range limits 0 f.subnets policy [] (
                          new_policy-Compiled regexp specs
                            (map_err-ok bad_policy (new_policy regexp specs) p4)))
                        (λ m p5 h. cc)))))

  parse_decoded-in_range :
      (d : Option (Result E (ConfigFile F)) × Bool)
      → parse_decoded fl is_nan is_inf info_level parse_level regexp d ≢ err index_out_of_range
  unfolding parse_decoded
  parse_decoded-in_range (none, at_end) = λ h. cc
  parse_decoded-in_range (some (err e), at_end) = λ h. cc
  parse_decoded-in_range (some (ok f), false) = λ h. cc
  parse_decoded-in_range (some (ok f), true) = build-in_range f

  -- Parse never indexes the file's subnets out of range, whatever the file says.
  pub parse-in_range :
      (decode : Decoder fl is_nan is_inf info_level parse_level regexp) (text : Bytes)
      → parse fl is_nan is_inf info_level parse_level regexp decode text ≢ err index_out_of_range
  unfolding parse
  parse-in_range decode text = parse_decoded-in_range (decode text)
