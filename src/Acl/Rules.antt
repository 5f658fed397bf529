-- ===== src/Acl/Rules.antt =====
-- internal/acl/rules.go: rule sets, how a pattern is compiled into one, and how they match.
pub mod Suffix
pub mod Hits
pub mod Meaning
use proxy_acl.Base.{
  ℕ, ◌+◌, ◌≡◌, refl, Bool, true, false, not, ◌&&◌, ◌||◌, Option, none, some, List, [], ◌∷◌, ◌++◌,
  ◌==◌, if◌then◌else◌, is_empty, or_else, Result, ok, err, map_err, ◌>>=◌, ◌>>◌,
}
use proxy_acl.Base.Text.{
  Bytes, codes, text_eq, trim_space, trim_suffix, contains, has_prefix, cut_prefix, to_lower,
}
use proxy_acl.Netip.{
  Addr, Prefix, has_zone, bit_len, is_4_in_6, prefix_eq, masked, contains_addr, v4, v6,
}
use proxy_acl.Netip.Parse.{parse_addr, parse_cidr}
use proxy_acl.Acl.Host.{
  HostError, Destination, host_name, ip_literal, check_host_chars, validate_hostname,
}
use proxy_acl.Acl.Wildcard.{Wildcard, wildcard_of, wildcard_matches}

pub data PrefixError : Type 0 where
  not_an_address zoned mapped host_bits_set : PrefixError

pub data RuleError : Type 0 where
  empty_pattern empty_regex bad_regex leading_star : RuleError
  bad_prefix : PrefixError → RuleError
  bad_name : HostError → RuleError

-- A CIDR, or an address as a prefix of its own length, before the tests that both go through.
unfoldable pub read_prefix : Bytes → Result PrefixError Prefix
unfolding parse_addr parse_cidr contains has_zone bit_len
read_prefix s =
    if contains s b'/'
    then elim (parse_cidr s) [ none ↦ err not_an_address | some p ↦ ok p ]
    else elim (parse_addr s) [
      | none ↦ err not_an_address
      | some a ↦ if has_zone a then err zoned else ok (record { addr = a; bits = bit_len a })
    ]

unfoldable pub parse_prefix : Bytes → Result PrefixError Prefix
unfolding read_prefix trim_space is_4_in_6 prefix_eq masked
parse_prefix text = do
  p ← read_prefix (trim_space text)
  if is_4_in_6 p.addr
      then err mapped
      else if prefix_eq p (masked p)
      then ok p
      else err host_bits_set

pub record NameRule : Type 0 where
  pub pattern_text : Bytes
  pub matches : Bytes → Bool

pub record AddrRule : Type 0 where
  pub pattern_text : Bytes
  pub prefix : Prefix

-- `exact` and `suffix` are Go maps from names to patterns; a nil map is an empty one.
abbrev pub NameMap : Type 0
NameMap = List (Bytes × Bytes)

unfoldable pub lookup : Bytes → NameMap → Option Bytes
unfolding text_eq
lookup k [] = none
lookup k ((j, v) ∷ m) = if text_eq j k then some v else lookup k m

-- if _, dup := m[k]; !dup { m[k] = v }
unfoldable pub insert_new : Bytes → Bytes → NameMap → NameMap
unfolding lookup
insert_new k v m = elim (lookup k m) [ some old ↦ m | none ↦ (k, v) ∷ m ]

pub record RuleSet : Type 0 where
  pub exact : NameMap
  pub suffix : NameMap
  pub names : List NameRule
  pub any_rule : Bytes
  pub addrs : List AddrRule

abbrev pub no_rules : RuleSet
no_rules = record { exact = []; suffix = []; names = []; any_rule = []; addrs = [] }

-- The loop of matchName over the domain suffixes of a name: `next_domain m d` is the rest of the
-- loop once `d` itself is not in the map.
unfoldable pub next_domain : NameMap → Bytes → Option Bytes
unfolding lookup
next_domain m [] = none
next_domain m (c ∷ d) =
    let rest = next_domain m d in if c == b'.' then or_else (lookup d m) rest else rest

unfoldable pub match_suffix : NameMap → Bytes → Option Bytes
unfolding next_domain
match_suffix m d = or_else (lookup d m) (next_domain m d)

unfoldable pub match_names : List NameRule → Bytes → Option Bytes
match_names [] n = none
match_names (r ∷ rs) n = if r.matches n then some r.pattern_text else match_names rs n

-- A match is the pattern that matched. `rs.any` is "" where there is no such rule.
unfoldable pub match_name : RuleSet → Bytes → Option Bytes
unfolding lookup match_suffix match_names
match_name rs n = or_else (lookup n rs.exact) (
    or_else (if is_empty rs.suffix then none else match_suffix rs.suffix n)
      (or_else (match_names rs.names n) (if is_empty rs.any_rule then none else some rs.any_rule)))

unfoldable pub match_addrs : List AddrRule → Addr → Option Bytes
unfolding contains_addr
match_addrs [] a = none
match_addrs (r ∷ rs) a = if contains_addr r.prefix a then some r.pattern_text else match_addrs rs a

unfoldable pub match_addr : RuleSet → Addr → Option Bytes
unfolding match_addrs
match_addr rs a = match_addrs rs.addrs a

unfoldable pub match_rules : RuleSet → Destination → Option Bytes
unfolding match_name match_addr
match_rules rs (host_name n) = match_name rs n
match_rules rs (ip_literal a) = match_addr rs a

-- The kind of a hostname pattern, with its normalized name or its matcher.
pub data NamePattern : Type 0 where
  exact_name : Bytes → NamePattern
  domain_suffix : Bytes → NamePattern
  any_name : NamePattern
  wildcard : Wildcard → NamePattern

-- p[0] == '*' && !HasPrefix(p, "*.")
unfoldable pub stray_star : Bytes → Bool
unfolding has_prefix
stray_star p = has_prefix p (codes "*") && not (has_prefix p (codes "*."))

-- compileNamePattern, on the pattern in lower case without its trailing dot.
unfoldable pub classify : Bytes → Result RuleError NamePattern
unfolding text_eq cut_prefix contains validate_hostname stray_star wildcard_of
classify p = if text_eq p (codes "*") then ok any_name else elim (cut_prefix p (codes ".")) [
  | some base ↦ do map_err bad_name (validate_hostname base false); ok (domain_suffix base)
  | none ↦
      if not (contains p b'*')
      then (do map_err bad_name (validate_hostname p false); ok (exact_name p))
      else if stray_star p
      then err leading_star
      else (do map_err bad_name (validate_hostname p true); ok (wildcard (wildcard_of p)))
]

unfoldable pub compile_name_pattern : Bytes → Result RuleError NamePattern
unfolding classify check_host_chars to_lower trim_suffix
compile_name_pattern text = do
  map_err bad_name (check_host_chars text true)
  classify (to_lower (trim_suffix text b'.'))

unfoldable pub looks_like_address : Bytes → Bool
unfolding contains parse_addr
looks_like_address p =
    contains p b':' || contains p b'/' || elim (parse_addr p) [ none ↦ false | some a ↦ true ]

-- What one pattern becomes: a regular expression's matcher, a prefix, or a hostname pattern.
pub data Rule : Type 0 where
  by_regex : (Bytes → Bool) → Rule
  by_prefix : Prefix → Rule
  by_name : NamePattern → Rule

unfoldable pub put_name : RuleSet → Bytes → NamePattern → RuleSet
unfolding insert_new
put_name rs p (exact_name n) = record rs { exact = insert_new n p rs.exact }
put_name rs p (domain_suffix n) = record rs { suffix = insert_new n p rs.suffix }
put_name rs p any_name = record rs { any_rule = if is_empty rs.any_rule then p else rs.any_rule }
put_name rs p (wildcard w) = record rs {
  names = rs.names ++ record { pattern_text = p; matches = wildcard_matches w } ∷ [];
}

-- The writes of `add`, once the pattern has been read.
unfoldable pub put_rule : RuleSet → Bytes → Rule → RuleSet
unfolding put_name
put_rule rs p (by_regex m) = record rs {
  names = rs.names ++ record { pattern_text = p; matches = m } ∷ [];
}
put_rule rs p (by_prefix pfx) = record rs {
  addrs = rs.addrs ++ record { pattern_text = p; prefix = pfx } ∷ [];
}
put_rule rs p (by_name kind) = put_name rs p kind

-- The `regexp` package: an expression's matcher, if it compiles.
abbrev pub Regexp : Type 0
Regexp = Bytes → Option (Bytes → Bool)

module _ (regexp : Regexp) where
  unfoldable pub read_regex : Bytes → Result RuleError Rule
  read_regex expr =
      if is_empty expr
      then err empty_regex
      else elim (regexp (codes "(?i)^(?:" ++ expr ++ codes ")$")) [
        | none ↦ err bad_regex
        | some m ↦ ok (by_regex m)
      ]

  -- The branches of `add` that read a trimmed pattern.
  unfoldable pub read_rule : Bytes → Result RuleError Rule
  unfolding read_regex cut_prefix looks_like_address parse_prefix compile_name_pattern
  read_rule p = elim (cut_prefix p (codes "~")) [
    | some expr ↦ read_regex expr
    | none ↦
        if looks_like_address p
        then (do pfx ← map_err bad_prefix (parse_prefix p); ok (by_prefix pfx))
        else (do kind ← compile_name_pattern p; ok (by_name kind))
  ]

  unfoldable pub add : RuleSet → Bytes → Result RuleError RuleSet
  unfolding read_rule put_rule trim_space
  add rs text =
      let p = trim_space text in
      if is_empty p then err empty_pattern else (do rule ← read_rule p; ok (put_rule rs p rule))

  -- The loop of compileRules; the error is wrapped with its pattern.
  unfoldable pub add_all : RuleSet → List Bytes → Result (Bytes × RuleError) RuleSet
  unfolding add
  add_all rs [] = ok rs
  add_all rs (p ∷ ps) = do rs' ← map_err (λ e. (p, e)) (add rs p); add_all rs' ps

  unfoldable pub compile_rules : List Bytes → Result (Bytes × RuleError) RuleSet
  unfolding add_all
  compile_rules patterns = add_all no_rules patterns
