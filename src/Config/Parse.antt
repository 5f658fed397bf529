-- ===== src/Config/Parse.antt =====
-- Parse: what a config that it accepts has from the file.
use proxy_acl.Base.{
  ◌⊎◌, ◌≢◌, ◌++◌, inl, inr, ap, is_empty, if◌then◌else◌, ℕ, ◌+◌, ◌≡◌, refl, Bool, true, false,
  Option, none, some, List, [], ◌∷◌, map, Result, ok, err, map_err, map_err-ok, >>=-eq-ok,
}
use proxy_acl.Base.Text.{Bytes, codes, itoa}
use proxy_acl.Base.Ints.{ℤ, pos, negsuc}
use proxy_acl.Config.Apply.{Chosen, Taken, apply-ok_iff}
use proxy_acl.Base.Maps.{text_key}
use proxy_acl.Acl.Rules.{Regexp}
use proxy_acl.Acl.Subnets.{Subnet, name_or_index, compile_subnet, new_policy}
use proxy_acl.Acl.Subnets.Distinct.{new_policy-distinct}
use proxy_acl.Limits.Bucket.{Float64}
use proxy_acl.Config.{
  FileSubnet, ConfigFile, bad_level, bad_limits, bad_policy, Config, default_client_limits, apply,
  spec_of, attach_limits, level_of, total_of, build, Decoder, parse_decoded, parse,
  client_limits_of,
}
use proxy_acl.Config.Attach.{Compiled, new_policy-Compiled, Fits, attach_limits-Fits}

module _ (fl : Float64) (is_nan is_inf : fl.F → Bool) {E L : Type 0} (info_level : L)
    (parse_level : Bytes → Result E L) (regexp : Regexp) where
  open fl use {F}

  -- Each subnet is compiled from the entry at its place, under the entry's name or else its index, and
  -- ClientLimits gives for it what the entry sets over the top-level limits.
  abbrev pub FromFile : Config L F → ℕ → List (FileSubnet F) → List Subnet → Type 0
  FromFile cfg i [] [] = Unit
  FromFile cfg i [] (s ∷ ss) = ⊥
  FromFile cfg i (f ∷ fs) [] = ⊥
  FromFile cfg i (f ∷ fs) (s ∷ ss) =
      (compile_subnet regexp (record {
        name = if is_empty f.name then codes "subnet[" ++ itoa i ++ codes "]" else f.name;
        cidrs = f.cidrs;
        port_texts = f.port_texts;
        allow_texts = f.allow_texts;
        deny_texts = f.deny_texts;
      })
        ≡ ok s)
      × Taken fl is_nan is_inf f.limits (client_limits_of cfg none) (client_limits_of cfg (some s))
      × FromFile cfg (i + 1) fs ss

  -- What a config has from the file it is built of: 20,000 connections in all, and for a client 512
  -- connections, 200 requests a second in bursts of 1000, and an idle hour, where the file says nothing.
  pub record Built (f : ConfigFile F) (cfg : Config L F) : Type 0 where
    pub level :
        ((f.log_level ≡ []) × (cfg.log_level ≡ info_level))
        ⊎ ((f.log_level ≢ []) × (parse_level f.log_level ≡ ok cfg.log_level))
    pub total : Chosen f.total_connections (pos 20_000) (pos cfg.total_connections)
    pub limits :
        Taken fl is_nan is_inf f.client_limits
          (record {
            max_connections = 512;
            requests_per_second = fl.of_int 200;
            request_burst = 1000;
            tunnel_idle_timeout = 3_600_000_000_000;
          })
          (client_limits_of cfg none)
    pub subnets : FromFile cfg 0 f.subnets cfg.policy

  level_of-ok :
      (text : Bytes) (level : L)
      → level_of fl is_nan is_inf info_level parse_level regexp text ≡ ok level
      → ((text ≡ []) × (level ≡ info_level)) ⊎ ((text ≢ []) × (parse_level text ≡ ok level))
  unfolding level_of
  level_of-ok [] level h = inl (refl, cc)
  level_of-ok (c ∷ text) level h = inr (λ e. cc, map_err-ok bad_level (parse_level (c ∷ text)) h)

  total_of-ok :
      (o : Option ℤ) (n : ℕ)
      → total_of fl is_nan is_inf {E = E} o ≡ ok n
      → Chosen o (pos 20_000) (pos n)
  unfolding total_of
  total_of-ok none n h = let e : n ≡ 20_000 = cc in ap pos e
  total_of-ok (some (pos m)) n h = let e : n ≡ m = cc in ap pos e
  total_of-ok (some (negsuc m)) n h = cc

  Compiled-Fits :
      (cfg : Config L F) (i : ℕ) (fs : List (FileSubnet F)) (ss : List Subnet)
      → Compiled regexp i (map (spec_of fl is_nan is_inf) fs) ss
      → Fits fl is_nan is_inf cfg.client_limits cfg.subnet_limits ss fs
      → FromFile cfg i fs ss
  unfolding spec_of name_or_index client_limits_of
  Compiled-Fits cfg i [] [] c h = tt
  Compiled-Fits cfg i [] (s ∷ ss) c h = absurd c
  Compiled-Fits cfg i (f ∷ fs) [] c h = absurd c
  Compiled-Fits cfg i (f ∷ fs) (s ∷ ss) (compiled, c) ((l, applied, found), h) = (
    compiled,
    rw found ((apply-ok_iff fl is_nan is_inf f.limits cfg.client_limits l).0 applied),
    Compiled-Fits cfg (i + 1) fs ss c h,
  )

  build-Built :
      (f : ConfigFile F) {cfg : Config L F}
      → build fl is_nan is_inf info_level parse_level regexp f ≡ ok cfg
      → Built f cfg
  unfolding build client_limits_of
  build-Built f {cfg} h =
      let specs = map (spec_of fl is_nan is_inf) f.subnets in
      let (level, level_ok, h1) =
        >>=-eq-ok (level_of fl is_nan is_inf info_level parse_level regexp f.log_level) _ h in
      let (total, total_ok, h2) = >>=-eq-ok (total_of fl is_nan is_inf f.total_connections) _ h1 in
      let (limits, limits_ok, h3) =
        >>=-eq-ok
          (map_err bad_limits
            (apply fl is_nan is_inf f.client_limits (default_client_limits fl is_nan is_inf)))
          _ h2 in
      let (policy, policy_ok, h4) = >>=-eq-ok (map_err bad_policy (new_policy regexp specs)) _ h3 in
      let (m, attached, h5) =
        >>=-eq-ok (attach_limits fl is_nan is_inf limits policy f.subnets []) _ h4 in
      let policy_ok' = map_err-ok bad_policy (new_policy regexp specs) policy_ok in
      let built : Config L F = record {
        log_level = level;
        policy = policy;
        total_connections = total;
        client_limits = limits;
        subnet_limits = m;
      } in
      let same : built ≡ cfg = cc in
      rw (← same) (record {
        level = level_of-ok f.log_level level level_ok;
        total = total_of-ok f.total_connections total total_ok;
        limits =
            (apply-ok_iff fl is_nan is_inf f.client_limits (default_client_limits fl is_nan is_inf)
                limits).0
              (map_err-ok bad_limits _ limits_ok);
        subnets =
            Compiled-Fits built 0 f.subnets policy (new_policy-Compiled regexp specs policy_ok') (
              attach_limits-Fits fl is_nan is_inf limits policy f.subnets [] attached
                (new_policy-distinct regexp specs policy policy_ok').1);
      })

  parse_decoded-ok :
      (d : Option (Result E (ConfigFile F)) × Bool) {cfg : Config L F}
      → parse_decoded fl is_nan is_inf info_level parse_level regexp d ≡ ok cfg
      → (f : ConfigFile F) × (d ≡ (some (ok f), true)) × Built f cfg
  unfolding parse_decoded
  parse_decoded-ok (none, at_end) h = cc
  parse_decoded-ok (some (err e), at_end) h = cc
  parse_decoded-ok (some (ok f), false) h = cc
  parse_decoded-ok (some (ok f), true) h = (f, refl, build-Built f h)

  -- A config that Parse accepts comes from a file of exactly one document: its level is the file's, or
  -- the info level; its total is the file's, or 20,000; the top-level limits are the file's, or else 512
  -- connections, 200 requests a second, a burst of 1000 and an idle hour; and its policy has one subnet
  -- for each entry of the file, in order, compiled from that entry under its own name or its index, for
  -- which ClientLimits gives what the entry has over the top-level limits. All limits pass the tests of
  -- apply.
  pub parse-Built :
      (decode : Decoder fl is_nan is_inf info_level parse_level regexp) (text : Bytes)
      (cfg : Config L F)
      → parse fl is_nan is_inf info_level parse_level regexp decode text ≡ ok cfg
      → (f : ConfigFile F) × (decode text ≡ (some (ok f), true)) × Built f cfg
  unfolding parse
  parse-Built decode text cfg h = parse_decoded-ok (decode text) h
