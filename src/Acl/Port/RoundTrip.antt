-- ===== src/Acl/Port/RoundTrip.antt =====
-- What `parse_port` and `parse_port_range` accept.
use proxy_acl.Base.{
  ℕ, ◌+◌, ◌-◌, ◌*◌, ◌≤◌, ◌<◌, ◌≡◌, ◌↔◌, inl, inr, refl, sym, ap, ◌∙◌, true, some, [], ◌∷◌, arith,
  length, All, ok, Bool-cases,
}
use proxy_acl.Base.Text.{Bytes, is_digit, itoa}
use proxy_acl.Base.Decimal.{IsDigit, value, Leads, le-value, itoa-value, itoa-spells}
use proxy_acl.Netip.Parse.{atoi, digits_value}
use proxy_acl.Acl.Host.{all_bytes}
use proxy_acl.Acl.Port.{parse_port}

digits→All : (s : Bytes) → all_bytes is_digit s ≡ true → All IsDigit s
unfolding all_bytes
digits→All [] h = tt
digits→All (c ∷ s) h = ground (arith, digits→All s)

All→digits : (s : Bytes) → All IsDigit s → all_bytes is_digit s ≡ true
unfolding all_bytes
All→digits [] h = refl
All→digits (c ∷ s) h = ground (arith, All→digits s)

digits_value_lem : (s : Bytes) (n : ℕ) → All IsDigit s → digits_value s n ≡ some (value n s)
unfolding digits_value
digits_value_lem [] n h = refl
digits_value_lem (c ∷ s) n h = ground (arith, digits_value_lem s (n * 10 + (c - b'0')))

-- Six digits or more without a leading 0 spell a number that is no port.
six_digits : (s : Bytes) → All IsDigit s → Leads s → 5 < length s → 65535 < value 0 s
six_digits (a ∷ b ∷ c ∷ d ∷ e ∷ f ∷ s) h lead long =
    omega (arith, le-value s (value 0 (a ∷ b ∷ c ∷ d ∷ e ∷ f ∷ [])))
six_digits [] h lead long = absurd (omega arith)
six_digits (a ∷ []) h lead long = absurd (omega arith)
six_digits (a ∷ b ∷ []) h lead long = absurd (omega arith)
six_digits (a ∷ b ∷ c ∷ []) h lead long = absurd (omega arith)
six_digits (a ∷ b ∷ c ∷ d ∷ []) h lead long = absurd (omega arith)
six_digits (a ∷ b ∷ c ∷ d ∷ e ∷ []) h lead long = absurd (omega arith)

-- A text that parses is digits without a leading 0, and its port is what they spell.
parse_port-digits :
    (s : Bytes) {n : ℕ}
    → parse_port s ≡ ok n
    → All IsDigit s × Leads s × (value 0 s ≡ n) × (1 ≤ n) × (n ≤ 65535)
unfolding parse_port atoi
parse_port-digits [] h = cc
parse_port-digits (c ∷ s) {n} h = elim (Bool-cases (all_bytes is_digit (c ∷ s))) [
  | inl all ↦ let d = digits→All (c ∷ s) all in ground (arith, d, digits_value_lem (c ∷ s) 0 d)
  | inr other ↦ ground (arith, other)
]

parse_port-digits_self :
    (s : Bytes) → All IsDigit s → Leads s → value 0 s ≤ 65535 → parse_port s ≡ ok (value 0 s)
unfolding parse_port atoi
parse_port-digits_self [] d lead fits = absurd lead
parse_port-digits_self (c ∷ s) d lead fits = ground (
  arith,
  digits_value_lem (c ∷ s) 0 d,
  All→digits (c ∷ s) d,
  six_digits (c ∷ s) d lead,
  le-value s (c - b'0'),
)

-- A text parses as the port `n` exactly when it is the decimal print of `n` and `n` is between 1
-- and 65535.
pub parse_port_iff :
    (s : Bytes) (n : ℕ) → (parse_port s ≡ ok n) ↔ ((itoa n ≡ s) × (1 ≤ n) × (n ≤ 65535))
parse_port_iff s n = (
  λ h.
      let (d, lead, spells, low, high) = parse_port-digits s h in
      (ap itoa (sym spells) ∙ itoa-value s d lead, low, high),
  λ (printed, low, high).
      let (d, lead, spells) = itoa-spells n low in
      rw (← printed) (parse_port-digits_self (itoa n) d lead (rw spells high) ∙ ap ok spells),
)
