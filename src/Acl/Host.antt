-- ===== src/Acl/Host.antt =====
-- internal/acl/rules.go: validation of hostnames and of requested hosts.
pub mod Shape
use proxy_acl.Base.{
  ℕ, ◌+◌, ◌≡◌, refl, Bool, true, false, not, ◌&&◌, ◌||◌, Option, none, some, List, [], ◌∷◌, ltb,
  leb, ◌==◌, if◌then◌else◌, length, is_empty, Result, ok, err, ◌>>=◌, ◌>>◌,
}
use proxy_acl.Base.Text.{
  Bytes, codes, text_eq, trim_suffix, contains, split, to_lower, last_byte, cut_prefix, is_digit,
}
use proxy_acl.Netip.{Addr, v4, has_zone, unmap}
use proxy_acl.Netip.Parse.{parse_addr}

pub data HostError : Type 0 where
  zoned_address : HostError
  invalid_character : ℕ → HostError
  empty_hostname hostname_too_long empty_label label_too_long : HostError
  star_not_allowed hyphen_at_edge numeric_top_level ip_wildcard : HostError

-- A validated request target: a hostname in lower case, or an address, never both.
pub data Destination : Type 0 where
  host_name : Bytes → Destination
  ip_literal : Addr → Destination

abbrev pub is_letter : ℕ → Bool
is_letter c = (leb b'a' c && leb c b'z') || (leb b'A' c && leb c b'Z')

-- The `switch` of checkHostChars.
abbrev pub host_char : Bool → ℕ → Bool
host_char wildcard c =
    is_letter c || is_digit c || c == b'-' || c == b'_' || c == b'.' || (c == b'*' && wildcard)

unfoldable pub check_host_chars : Bytes → Bool → Result HostError (Unit {0})
check_host_chars [] wildcard = ok tt
check_host_chars (c ∷ s) wildcard =
    let rest = check_host_chars s wildcard in
    if host_char wildcard c then rest else err (invalid_character c)

abbrev pub is_hex : ℕ → Bool
is_hex c = is_digit c || (leb b'a' c && leb c b'f')

unfoldable pub all_bytes : (ℕ → Bool) → Bytes → Bool
all_bytes p [] = true
all_bytes p (c ∷ s) = p c && all_bytes p s

-- A decimal, octal or hex number.
unfoldable pub is_numeric : Bytes → Bool
unfolding cut_prefix all_bytes
is_numeric l = elim (cut_prefix l (codes "0x")) [
  | some h ↦ if is_empty h then true else all_bytes is_hex h
  | none ↦ all_bytes is_digit l && not (is_empty l)
]

-- The tests on one label; `l[0]` and `l[len(l)-1]` stand behind the test for an empty label.
unfoldable pub check_label : Bytes → Bool → Result HostError (Unit {0})
unfolding contains last_byte
check_label [] wildcard = err empty_label
check_label (c ∷ l) wildcard =
    if ltb 63 (length (c ∷ l))
    then err label_too_long
    else if contains (c ∷ l) b'*' && not wildcard
    then err star_not_allowed
    else if c == b'-' || last_byte c l == b'-'
    then err hyphen_at_edge
    else ok tt

-- The loop over the labels, with `allNumeric`.
unfoldable pub check_labels : List Bytes → Bool → Bool → Result HostError Bool
unfolding check_label is_numeric text_eq
check_labels [] wildcard all_numeric = ok all_numeric
check_labels (l ∷ ls) wildcard all_numeric = do
  check_label l wildcard
  check_labels ls wildcard
      (if not (is_numeric l) && not (text_eq l (codes "*")) then false else all_numeric)

-- labels[len(labels)-1]
unfoldable pub last_label : List Bytes → Bytes
last_label [] = []
last_label (l ∷ []) = l
last_label (l ∷ l' ∷ ls) = last_label (l' ∷ ls)

unfoldable pub validate_hostname : Bytes → Bool → Result HostError (Unit {0})
unfolding check_labels last_label is_numeric split
validate_hostname name wildcard =
    if is_empty name
    then err empty_hostname
    else if ltb 253 (length name)
    then err hostname_too_long
    else do
      all_numeric ← check_labels (split name b'.') wildcard true
      if is_numeric (last_label (split name b'.'))
          then err numeric_top_level
          else if wildcard && all_numeric
          then err ip_wildcard
          else ok tt

-- parseHost, when `netip.ParseAddr` has refused the text.
unfoldable pub parse_name : Bytes → Result HostError Destination
unfolding check_host_chars validate_hostname to_lower trim_suffix
parse_name h = do
  check_host_chars h false
  let name = to_lower (trim_suffix h b'.')
  validate_hostname name false
  ok (host_name name)

unfoldable pub parse_host : Bytes → Result HostError Destination
unfolding parse_name parse_addr has_zone unmap
parse_host h = elim (parse_addr h) [
  | some a ↦ if has_zone a then err zoned_address else ok (ip_literal (unmap a))
  | none ↦ parse_name h
]
