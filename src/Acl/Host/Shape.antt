-- ===== src/Acl/Host/Shape.antt =====
-- The hostnames that `validate_hostname` accepts, and what `parse_host` makes of a text.
use proxy_acl.Base.{
  ℕ, ◌≤◌, ◌≡◌, ◌≢◌, ◌↔◌, ◌⊎◌, inl, inr, refl, sym, Bool, true, false, none, List, [], ◌∷◌, arith,
  ltb, length, All, ok, >>=-eq-ok, Option-cases, Bool-cases,
}
use proxy_acl.Base.Text.{Bytes, trim_suffix, contains, split, to_lower, lower_byte, last_byte}
use proxy_acl.Netip.Parse.{parse_addr}
use proxy_acl.Acl.Host.{
  host_name, host_char, check_host_chars, is_numeric, check_label, check_labels, last_label,
  validate_hostname, parse_name, parse_host,
}

-- A byte of a normalized name.
abbrev pub NameByte : ℕ → Type 0
NameByte c =
    ((b'a' ≤ c) × (c ≤ b'z')) ⊎ ((b'0' ≤ c) × (c ≤ b'9')) ⊎ (c ≡ b'-') ⊎ (c ≡ b'_') ⊎ (c ≡ b'.')

-- One to 63 bytes, with no "*", and no hyphen at either end.
abbrev pub IsLabel : Bytes → Type 0
IsLabel [] = ⊥
IsLabel (c ∷ l) =
    (length (c ∷ l) ≤ 63) × (contains (c ∷ l) b'*' ≡ false) × (c ≢ b'-') × (last_byte c l ≢ b'-')

pub record IsHostname (n : Bytes) : Type 0 where
  pub not_empty : n ≢ []
  pub short : length n ≤ 253
  pub labels : All IsLabel (split n b'.')
  pub top : is_numeric (last_label (split n b'.')) ≡ false

check_label_iff : (l : Bytes) → (check_label l false ≡ ok tt) ↔ IsLabel l
unfolding check_label
check_label_iff [] = (λ h. cc, λ h. absurd h)
check_label_iff (c ∷ l) = (λ h. ground arith, λ h. ground arith)

check_labels→All :
    (ls : List Bytes) (n : Bool) {m : Bool} → check_labels ls false n ≡ ok m → All IsLabel ls
unfolding check_labels
check_labels→All [] n h = tt
check_labels→All (l ∷ ls) n h =
    let (u, good, rest) = >>=-eq-ok (check_label l false) _ h in
    ((check_label_iff l).0 good, check_labels→All ls _ rest)

All→check_labels :
    (ls : List Bytes) (n : Bool) → All IsLabel ls → (m : Bool) × (check_labels ls false n ≡ ok m)
unfolding check_labels
All→check_labels [] n h = (n, refl)
All→check_labels (l ∷ ls) n (good, rest) =
    rw ((check_label_iff l).1 good) (All→check_labels ls _ rest)

validate→IsHostname : (n : Bytes) → validate_hostname n false ≡ ok tt → IsHostname n
unfolding validate_hostname
validate→IsHostname [] h = cc
validate→IsHostname (c ∷ n) h = elim (Bool-cases (ltb 253 (length (c ∷ n)))) [
  | inl long ↦ ground (arith, long)
  | inr fits ↦
      let (m, good, rest) =
        >>=-eq-ok (check_labels (split (c ∷ n) b'.') false true) _ (rw fits at h) in
      record {
        not_empty = cc;
        short = ground arith;
        labels = check_labels→All (split (c ∷ n) b'.') true good;
        top = ground (arith, rest);
      }
]

IsHostname→validate : (n : Bytes) → IsHostname n → validate_hostname n false ≡ ok tt
unfolding validate_hostname
IsHostname→validate [] h = absurd (h.not_empty refl)
IsHostname→validate (c ∷ n) h =
    let (m, good) = All→check_labels (split (c ∷ n) b'.') true h.labels in
    let fits : ltb 253 (length (c ∷ n)) ≡ false = ground (arith, h.short) in rw (fits, good, h.top)

-- Without wildcards, exactly the hostnames of this shape are accepted.
pub validate_hostname_iff : (n : Bytes) → (validate_hostname n false ≡ ok tt) ↔ IsHostname n
validate_hostname_iff n = (validate→IsHostname n, IsHostname→validate n)

lower_byte-NameByte : (c : ℕ) → host_char false c ≡ true → NameByte (lower_byte c)
unfolding lower_byte
lower_byte-NameByte c h = ground arith

lower-NameByte :
    (s : Bytes) {u : Unit {0}} → check_host_chars s false ≡ ok u → All NameByte (to_lower s)
unfolding check_host_chars to_lower
lower-NameByte [] h = tt
lower-NameByte (c ∷ s) h = elim (Bool-cases (host_char false c)) [
  | inl good ↦ (lower_byte-NameByte c good, lower-NameByte s (rw good at h))
  | inr bad ↦ ground (arith, bad)
]

check_host_chars-trim :
    (s : Bytes) {u : Unit {0}}
    → check_host_chars s false ≡ ok u
    → check_host_chars (trim_suffix s b'.') false ≡ ok tt
unfolding check_host_chars trim_suffix
check_host_chars-trim [] h = refl
check_host_chars-trim (c ∷ []) h = ground arith
check_host_chars-trim (c ∷ d ∷ s) h = elim (Bool-cases (host_char false c)) [
  | inl good ↦ rw good (check_host_chars-trim (d ∷ s) (rw good at h))
  | inr bad ↦ ground (arith, bad)
]

-- A name that `parse_host` returns: what the text was, and its shape.
parse_name-shape :
    (h n : Bytes)
    → parse_name h ≡ ok (host_name n)
    → (n ≡ to_lower (trim_suffix h b'.')) × All NameByte n × IsHostname n
unfolding parse_name
parse_name-shape h n e =
    let (u, chars, rest) = >>=-eq-ok (check_host_chars h false) _ e in
    let name = to_lower (trim_suffix h b'.') in
    let (v, good, last) = >>=-eq-ok (validate_hostname name false) _ rest in
    let same : name ≡ n = cc in
    (
      sym same,
      rw (← same) (lower-NameByte (trim_suffix h b'.') (check_host_chars-trim h chars)),
      rw (← same) (validate→IsHostname name good),
    )

-- A requested host that becomes a name is no address literal. The name is the text in lower case
-- without a trailing dot, has only letters, digits, "-", "_" and ".", and the shape of a hostname.
pub parse_host-name :
    (h n : Bytes)
    → parse_host h ≡ ok (host_name n)
    → (parse_addr h ≡ none) × (n ≡ to_lower (trim_suffix h b'.')) × All NameByte n × IsHostname n
unfolding parse_host
parse_host-name h n e = elim (Option-cases (parse_addr h)) [
  | inl missing ↦
      let (name, bytes, shape) = parse_name-shape h n (rw (missing, parse_host) at e) in
      (missing, name, bytes, shape)
  | inr (a, found) ↦ ground (arith, found)
]
