-- ===== src/Config.antt =====
-- internal/config/config.go: what a config file says, from its decoded form on. The YAML decoder and
-- zerolog's levels are parameters.
pub mod Apply
pub mod Attach
pub mod Parse
pub mod Range
pub mod Store
use proxy_acl.Base.{
  ℕ, Bool, true, false, Option, none, some, List, [], ◌∷◌, not, ◌&&◌, ◌||◌, map, is_empty,
  if◌then◌else◌, ltb, Result, ok, err, map_err, ◌>>=◌, ◌>>◌,
}
use proxy_acl.Base.Text.{Bytes}
use proxy_acl.Base.Ints.{ℤ, pos, is_negative, magnitude}
use proxy_acl.Base.Maps.{GoMap, text_key, get, put}
use proxy_acl.Acl.Rules.{Regexp}
use proxy_acl.Acl.Subnets.{SubnetSpec, Subnet, PolicyError, new_policy}
use proxy_acl.Limits.Bucket.{Float64}
use proxy_acl.Limits.Tracker.{ClientLimits}

abbrev pub default_total_connections : ℕ
default_total_connections = 20_000

-- `fileClientLimits`: nil pointers are absent keys. Durations are nanoseconds.
pub record FileClientLimits (F : Type 0) : Type 0 where
  pub client_connections : Option ℤ
  pub requests_per_second : Option F
  pub request_burst : Option ℤ
  pub tunnel_idle_timeout : Option ℤ

-- `fileSubnet`
pub record FileSubnet (F : Type 0) : Type 0 where
  pub name : Bytes
  pub cidrs : List Bytes
  pub port_texts : List Bytes
  pub allow_texts : List Bytes
  pub deny_texts : List Bytes
  pub limits : FileClientLimits F

-- `file`, with the two parts of `fileLimits`
pub record ConfigFile (F : Type 0) : Type 0 where
  pub log_level : Bytes
  pub total_connections : Option ℤ
  pub client_limits : FileClientLimits F
  pub subnets : List (FileSubnet F)

-- A `limits.Client` before its values are tested.
pub record Draft (F : Type 0) : Type 0 where
  pub max_connections : ℤ
  pub rate : F
  pub burst : ℤ
  pub idle : ℤ

pub data ClientLimitsError : Type 0 where
  rate_not_finite negative_value burst_too_small : ClientLimitsError

pub data ConfigError (E : Type 0) : Type 0 where
  empty_config extra_document negative_total : ConfigError E
  bad_yaml bad_level : E → ConfigError E
  bad_limits : ClientLimitsError → ConfigError E
  bad_policy : PolicyError → ConfigError E
  bad_subnet_limits : Bytes → ClientLimitsError → ConfigError E
  index_out_of_range : ConfigError E

-- `Config`. The map from the policy's subnets to limits is by name: no two subnets of a policy have
-- the same.
pub record Config (L F : Type 0) : Type 0 where
  pub log_level : L
  pub policy : List Subnet
  pub total_connections : ℕ
  pub client_limits : ClientLimits F
  pub subnet_limits : GoMap Bytes (ClientLimits F)

abbrev pub or_default : {A : Type 0} → Option A → A → A
or_default none a = a
or_default (some b) a = b

module _ (fl : Float64) (is_nan is_inf : fl.F → Bool) where
  open fl use {F, zero_f, of_int, lt_f}

  -- DefaultClientLimits
  abbrev pub default_client_limits : ClientLimits F
  default_client_limits = record {
    max_connections = 512;
    requests_per_second = of_int 200;
    request_burst = 1000;
    tunnel_idle_timeout = 3_600_000_000_000;
  }

  -- The first half of apply: the fields that are set override those of the base.
  abbrev pub override : FileClientLimits F → ClientLimits F → Draft F
  override f base = record {
    max_connections = or_default f.client_connections (pos base.max_connections);
    rate = or_default f.requests_per_second base.requests_per_second;
    burst = or_default f.request_burst (pos base.request_burst);
    idle = or_default f.tunnel_idle_timeout (pos base.tunnel_idle_timeout);
  }

  abbrev pub limits_of_draft : Draft F → ClientLimits F
  limits_of_draft l = record {
    max_connections = magnitude l.max_connections;
    requests_per_second = l.rate;
    request_burst = magnitude l.burst;
    tunnel_idle_timeout = magnitude l.idle;
  }

  -- The switch of apply.
  unfoldable pub check_draft : Draft F → Result ClientLimitsError (ClientLimits F)
  check_draft l =
      if is_nan l.rate || is_inf l.rate
      then err rate_not_finite
      else if is_negative l.max_connections
          || lt_f l.rate zero_f
          || is_negative l.burst
          || is_negative l.idle
      then err negative_value
      else if lt_f zero_f l.rate && ltb (magnitude l.burst) 1
      then err burst_too_small
      else ok (limits_of_draft l)

  -- fileClientLimits.apply
  unfoldable pub apply :
      FileClientLimits F → ClientLimits F → Result ClientLimitsError (ClientLimits F)
  unfolding check_draft
  apply f base = check_draft (override f base)

  unfoldable pub spec_of : FileSubnet F → SubnetSpec
  spec_of s = record {
    name = s.name;
    cidrs = s.cidrs;
    port_texts = s.port_texts;
    allow_texts = s.allow_texts;
    deny_texts = s.deny_texts;
  }

  -- The loop of Parse over the policy's subnets; `f.Subnets[i]` out of range would be a panic.
  unfoldable pub attach_limits :
      {E : Type 0}
      → ClientLimits F
      → List Subnet
      → List (FileSubnet F)
      → GoMap Bytes (ClientLimits F)
      → Result (ConfigError E) (GoMap Bytes (ClientLimits F))
  unfolding apply put
  attach_limits base [] files m = ok m
  attach_limits base (s ∷ subnets) [] m = err index_out_of_range
  attach_limits base (s ∷ subnets) (f ∷ files) m = do
    l ← map_err (bad_subnet_limits s.name) (apply f.limits base)
    attach_limits base subnets files (put s.name l m)

  unfoldable pub total_of : {E : Type 0} → Option ℤ → Result (ConfigError E) ℕ
  total_of none = ok default_total_connections
  total_of (some n) = if is_negative n then err negative_total else ok (magnitude n)

  module _ {E L : Type 0} (info_level : L) (parse_level : Bytes → Result E L)
      (regexp : Regexp) where
    unfoldable pub level_of : Bytes → Result (ConfigError E) L
    level_of text = if is_empty text then ok info_level else map_err bad_level (parse_level text)

    -- Parse, on a decoded file.
    unfoldable pub build : ConfigFile F → Result (ConfigError E) (Config L F)
    unfolding level_of total_of apply new_policy spec_of attach_limits
    build f = do
      level ← level_of f.log_level
      total ← total_of f.total_connections
      limits ← map_err bad_limits (apply f.client_limits default_client_limits)
      policy ← map_err bad_policy (new_policy regexp (map spec_of f.subnets))
      subnet_limits ← attach_limits limits policy f.subnets []
      ok (record {
        log_level = level;
        policy = policy;
        total_connections = total;
        client_limits = limits;
        subnet_limits = subnet_limits;
      })

    -- What the decoder makes of a file: its first document, if there is one, and whether a second
    -- Decode is at the end.
    abbrev pub Decoder : Type 0
    Decoder = Bytes → Option (Result E (ConfigFile F)) × Bool

    -- The decoded documents, looked at in the order of Parse.
    unfoldable pub parse_decoded :
        Option (Result E (ConfigFile F)) × Bool → Result (ConfigError E) (Config L F)
    unfolding build
    parse_decoded (none, at_end) = err empty_config
    parse_decoded (some (err e), at_end) = err (bad_yaml e)
    parse_decoded (some (ok f), false) = err extra_document
    parse_decoded (some (ok f), true) = build f

    -- Parse
    unfoldable pub parse : Decoder → Bytes → Result (ConfigError E) (Config L F)
    unfolding parse_decoded
    parse decode text = parse_decoded (decode text)

-- Config.ClientLimits; a nil subnet is in no map.
unfoldable pub client_limits_of : {L F : Type 0} → Config L F → Option Subnet → ClientLimits F
unfolding get
client_limits_of cfg none = cfg.client_limits
client_limits_of cfg (some s) = or_default (get s.name cfg.subnet_limits) cfg.client_limits
