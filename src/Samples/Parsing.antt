-- ===== src/Samples/Parsing.antt =====
-- Runs of the parsers on fixed texts.
use proxy_acl.Base.{◌+◌, ◌*◌, ◌^◌, ◌≡◌, refl, true, false, none, some, [], ok, err}
use proxy_acl.Base.Text.{codes, trim_space}
use proxy_acl.Netip.{v4, v6}
use proxy_acl.Netip.Parse.{parse_addr, parse_cidr}
use proxy_acl.Acl.Host.{
  host_name, ip_literal, numeric_top_level, zoned_address, hyphen_at_edge, parse_host,
}
use proxy_acl.Acl.Port.{invalid_port, port_out_of_range, parse_port, parse_port_range}
use proxy_acl.Acl.Wildcard.{wildcard_of, wildcard_matches}

loopback : parse_addr (codes "127.0.0.1") ≡ some (v4 (127 * 2 ^ 24 + 1))
unfolding parse_addr
loopback = refl

leading_zero : parse_addr (codes "127.0.0.01") ≡ none
unfolding parse_addr
leading_zero = refl

short_v6 : parse_addr (codes "fe80::1%eth0") ≡ some (v6 (0xfe80 * 2 ^ 112 + 1) (codes "eth0"))
unfolding parse_addr
short_v6 = refl

mapped_v6 : parse_addr (codes "::ffff:1.2.3.4") ≡ some (v6 (0xffff_0102_0304) [])
unfolding parse_addr
mapped_v6 = refl

full_v6 :
    parse_addr (codes "1:2:3:4:5:6:7:8") ≡ some (v6 (0x0001_0002_0003_0004_0005_0006_0007_0008) [])
unfolding parse_addr
full_v6 = refl

nine_groups : parse_addr (codes "1:2:3:4:5:6:7:8:9") ≡ none
unfolding parse_addr
nine_groups = refl

a_cidr : parse_cidr (codes "10.0.0.0/8") ≡ some (record { addr = v4 (10 * 2 ^ 24); bits = 8 })
unfolding parse_cidr
a_cidr = refl

plain_name : parse_host (codes "Example.COM.") ≡ ok (host_name (codes "example.com"))
unfolding parse_host
plain_name = refl

short_ip : parse_host (codes "127.1") ≡ err numeric_top_level
unfolding parse_host
short_ip = refl

hex_ip : parse_host (codes "0x7f000001") ≡ err numeric_top_level
unfolding parse_host
hex_ip = refl

mapped : parse_host (codes "::ffff:10.0.0.1") ≡ ok (ip_literal (v4 0x0a00_0001))
unfolding parse_host
mapped = refl

zoned : parse_host (codes "fe80::1%eth0") ≡ err zoned_address
unfolding parse_host
zoned = refl

edge_hyphen : parse_host (codes "a.-b.com") ≡ err hyphen_at_edge
unfolding parse_host
edge_hyphen = refl

a_port : parse_port (codes "443") ≡ ok 443
unfolding parse_port
a_port = refl

port_leading_zero : parse_port (codes "0443") ≡ err invalid_port
unfolding parse_port
port_leading_zero = refl

too_large : parse_port (codes "65536") ≡ err port_out_of_range
unfolding parse_port
too_large = refl

a_range : parse_port_range (codes " 8000-8100 ") ≡ ok (record { lo = 8000; hi = 8100 })
unfolding parse_port_range
a_range = refl

deep : wildcard_matches (wildcard_of (codes "*.example.com")) (codes "a.b.example.com") ≡ true
unfolding wildcard_matches wildcard_of
deep = refl

not_itself : wildcard_matches (wildcard_of (codes "*.example.com")) (codes "example.com") ≡ false
unfolding wildcard_matches wildcard_of
not_itself = refl

one_label :
    wildcard_matches (wildcard_of (codes "api-*.example.com")) (codes "api-1.x.example.com") ≡ false
unfolding wildcard_matches wildcard_of
one_label = refl

trims : trim_space (codes " a b  ") ≡ codes "a b"
unfolding trim_space
trims = refl
