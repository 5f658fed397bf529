-- ===== src/Netip.antt =====
-- What the program uses of Go's `net/netip`: addresses, prefixes and their text.
pub mod Parse
pub mod Laws
use proxy_acl.Base.{
  ℕ, ◌+◌, ◌-◌, ◌*◌, ◌/◌, ◌%◌, ◌^◌, ◌<◌, ◌≡◌, ◌↔◌, refl, arith, [], Bool, true, false, not, ◌&&◌,
  ◌==◌, if◌then◌else◌, is_empty,
}
use proxy_acl.Base.Text.{Bytes, text_eq, text_eq_iff}
use proxy_acl.Base.Maps.{Key}

-- `netip.Addr`: the zero Addr, an IPv4 address, or an IPv6 address with its zone ("" for none).
pub data Addr : Type 0 where
  no_addr : Addr
  v4 : ℕ → Addr
  v6 : ℕ → Bytes → Addr

-- Addr.IsValid
unfoldable pub is_valid : Addr → Bool
is_valid no_addr = false
is_valid (v4 n) = true
is_valid (v6 n z) = true

-- Addr.Zone() != ""
unfoldable pub has_zone : Addr → Bool
has_zone no_addr = false
has_zone (v4 n) = false
has_zone (v6 n z) = not (is_empty z)

-- Addr.BitLen
unfoldable pub bit_len : Addr → ℕ
bit_len no_addr = 0
bit_len (v4 n) = 32
bit_len (v6 n z) = 128

-- Addr.Is4, Addr.Is6
unfoldable pub is_4 : Addr → Bool
is_4 no_addr = false
is_4 (v4 n) = true
is_4 (v6 n z) = false

unfoldable pub is_6 : Addr → Bool
is_6 no_addr = false
is_6 (v4 n) = false
is_6 (v6 n z) = true

-- Addr.Is4In6: an address of ::ffff:0:0/96
unfoldable pub is_4_in_6 : Addr → Bool
is_4_in_6 no_addr = false
is_4_in_6 (v4 n) = false
is_4_in_6 (v6 n z) = n / 2 ^ 32 == 0xffff

-- Addr.Unmap
unfoldable pub unmap : Addr → Addr
unmap no_addr = no_addr
unmap (v4 n) = v4 n
unmap (v6 n z) = if n / 2 ^ 32 == 0xffff then v4 (n % 2 ^ 32) else v6 n z

unfoldable pub addr_eq : Addr → Addr → Bool
unfolding text_eq
addr_eq no_addr no_addr = true
addr_eq (v4 n) (v4 m) = n == m
addr_eq (v6 n z) (v6 m y) = n == m && text_eq z y
addr_eq _ _ = false

pub addr_eq_iff : (a b : Addr) → (addr_eq a b ≡ true) ↔ (a ≡ b)
unfolding addr_eq
addr_eq_iff no_addr no_addr = (λ _. refl, λ _. refl)
addr_eq_iff no_addr (v4 m) = (λ h. cc, λ h. cc)
addr_eq_iff no_addr (v6 m y) = (λ h. cc, λ h. cc)
addr_eq_iff (v4 n) no_addr = (λ h. cc, λ h. cc)
addr_eq_iff (v4 n) (v4 m) = ground arith
addr_eq_iff (v4 n) (v6 m y) = (λ h. cc, λ h. cc)
addr_eq_iff (v6 n z) no_addr = (λ h. cc, λ h. cc)
addr_eq_iff (v6 n z) (v4 m) = (λ h. cc, λ h. cc)
addr_eq_iff (v6 n z) (v6 m y) = ground (arith, text_eq_iff z y)

instance abbrev pub addr_key : Key Addr
addr_key = record { same = addr_eq; same_iff = addr_eq_iff }

-- `netip.Prefix`. The zero Prefix is the one of the zero Addr. `PrefixFrom` and `ParsePrefix` are
-- called within range, so that every other prefix is valid.
pub record Prefix : Type 0 where
  pub addr : Addr
  pub bits : ℕ

unfoldable pub prefix_eq : Prefix → Prefix → Bool
unfolding addr_eq
prefix_eq p q = addr_eq p.addr q.addr && p.bits == q.bits

-- The first `b` bits of a number of `w` bits, and the number with the others cleared.
unfoldable pub top_bits : ℕ → ℕ → ℕ → ℕ
top_bits w b n = n / 2 ^ (w - b)

unfoldable pub clear_low : ℕ → ℕ → ℕ → ℕ
unfolding top_bits
clear_low w b n = top_bits w b n * 2 ^ (w - b)

-- Addr.Prefix(b) at a valid length; it drops the zone. Prefix.Masked is this at its own length.
unfoldable pub addr_prefix : Addr → ℕ → Prefix
unfolding clear_low
addr_prefix no_addr b = record { addr = no_addr; bits = 0 }
addr_prefix (v4 n) b = record { addr = v4 (clear_low 32 b n); bits = b }
addr_prefix (v6 n z) b = record { addr = v6 (clear_low 128 b n) []; bits = b }

unfoldable pub masked : Prefix → Prefix
unfolding addr_prefix
masked p = addr_prefix p.addr p.bits

-- Prefix.Contains: the families agree, the address has no zone, and the first bits agree.
unfoldable pub covers : Addr → ℕ → Addr → Bool
unfolding top_bits
covers (v4 m) b (v4 n) = top_bits 32 b n == top_bits 32 b m
covers (v6 m y) b (v6 n z) = is_empty z && top_bits 128 b n == top_bits 128 b m
covers _ b _ = false

unfoldable pub contains_addr : Prefix → Addr → Bool
unfolding covers
contains_addr p a = covers p.addr p.bits a
