-- ===== src/Acl/Port.antt =====
-- internal/acl/rules.go: ports and port ranges. An uint16 is a number; every result of
-- `parse_port` is one.
pub mod RoundTrip
use proxy_acl.Base.{
  ℕ, ◌≡◌, refl, Bool, ◌&&◌, ◌||◌, none, some, List, [], ◌∷◌, ltb, leb, ◌==◌, if◌then◌else◌, length,
  Result, ok, err, ◌>>=◌,
}
use proxy_acl.Base.Text.{Bytes, codes, cut, trim_space, is_digit}
use proxy_acl.Netip.Parse.{atoi}
use proxy_acl.Acl.Host.{all_bytes}

pub data PortError : Type 0 where
  invalid_port port_out_of_range range_end_before_start : PortError

-- strconv.Atoi and the range test.
unfoldable pub port_number : Bytes → Result PortError ℕ
unfolding atoi
port_number s = elim (atoi s) [
  | none ↦ err port_out_of_range
  | some n ↦ if ltb n 1 || ltb 65535 n then err port_out_of_range else ok n
]

unfoldable pub parse_port : Bytes → Result PortError ℕ
unfolding port_number all_bytes
parse_port [] = err invalid_port
parse_port (c ∷ s) =
    if ltb 5 (length (c ∷ s)) || c == b'0'
    then err invalid_port
    else if all_bytes is_digit (c ∷ s)
    then port_number (c ∷ s)
    else err invalid_port

pub record PortRange : Type 0 where
  pub lo : ℕ
  pub hi : ℕ

unfoldable pub in_range : PortRange → ℕ → Bool
in_range r p = leb r.lo p && leb p r.hi

unfoldable pub parse_port_range : Bytes → Result PortError PortRange
unfolding parse_port cut trim_space
parse_port_range s = elim (cut (trim_space s) b'-') [
  | none ↦ do lo ← parse_port (trim_space s); ok (record { lo = lo; hi = lo })
  | some (lo_text, hi_text) ↦ do
    lo ← parse_port lo_text
    hi ← parse_port hi_text
    if ltb hi lo then err range_end_before_start else ok (record { lo = lo; hi = hi })
]
