-- ===== src/Acl/Public.antt =====
-- internal/acl/rules.go: the address ranges that are not public.
pub mod Ranges
use Prim.Native.String.{String}
use proxy_acl.Base.{ℕ, ◌≡◌, refl, Bool, not, Option, none, some, List, [], ◌∷◌, map, any}
use proxy_acl.Base.Text.{Bytes, codes}
use proxy_acl.Netip.{Addr, v4, v6, Prefix, contains_addr}
use proxy_acl.Netip.Parse.{parse_cidr}

-- The texts of `nonPublic`, and what `netip.MustParsePrefix` makes of them (`non_public_lem`).
abbrev non_public_texts : List String
non_public_texts =
    "0.0.0.0/8" ∷ "10.0.0.0/8" ∷ "100.64.0.0/10" ∷ "127.0.0.0/8" ∷ "169.254.0.0/16"
    ∷ "172.16.0.0/12" ∷ "192.0.0.0/24" ∷ "192.88.99.0/24" ∷ "192.168.0.0/16" ∷ "198.18.0.0/15"
    ∷ "224.0.0.0/4" ∷ "240.0.0.0/4" ∷ "::/96" ∷ "::ffff:0:0/96" ∷ "64:ff9b::/96" ∷ "64:ff9b:1::/48"
    ∷ "2001::/32" ∷ "2002::/16" ∷ "fc00::/7" ∷ "fe80::/10" ∷ "fec0::/10" ∷ "ff00::/8" ∷ []

abbrev cidr_4 : ℕ → ℕ → Prefix
cidr_4 n b = record { addr = v4 n; bits = b }

abbrev cidr_6 : ℕ → ℕ → Prefix
cidr_6 n b = record { addr = v6 n []; bits = b }

unfoldable pub non_public : List Prefix
non_public =
    cidr_4 0x0000_0000 8
    ∷ cidr_4 0x0a00_0000 8
    ∷ cidr_4 0x6440_0000 10
    ∷ cidr_4 0x7f00_0000 8
    ∷ cidr_4 0xa9fe_0000 16
    ∷ cidr_4 0xac10_0000 12
    ∷ cidr_4 0xc000_0000 24
    ∷ cidr_4 0xc058_6300 24
    ∷ cidr_4 0xc0a8_0000 16
    ∷ cidr_4 0xc612_0000 15
    ∷ cidr_4 0xe000_0000 4
    ∷ cidr_4 0xf000_0000 4
    ∷ cidr_6 0 96
    ∷ cidr_6 0xffff_0000_0000 96
    ∷ cidr_6 0x0064_ff9b_0000_0000_0000_0000_0000_0000 96
    ∷ cidr_6 0x0064_ff9b_0001_0000_0000_0000_0000_0000 48
    ∷ cidr_6 0x2001_0000_0000_0000_0000_0000_0000_0000 32
    ∷ cidr_6 0x2002_0000_0000_0000_0000_0000_0000_0000 16
    ∷ cidr_6 0xfc00_0000_0000_0000_0000_0000_0000_0000 7
    ∷ cidr_6 0xfe80_0000_0000_0000_0000_0000_0000_0000 10
    ∷ cidr_6 0xfec0_0000_0000_0000_0000_0000_0000_0000 10
    ∷ cidr_6 0xff00_0000_0000_0000_0000_0000_0000_0000 8
    ∷ []

-- Every text parses, to the prefix listed.
pub non_public_lem : map (λ s. parse_cidr (codes s)) non_public_texts ≡ map some non_public
unfolding parse_cidr non_public
non_public_lem = refl

unfoldable pub is_public : Addr → Bool
unfolding non_public contains_addr any
is_public a = not (any (λ p. contains_addr p a) non_public)
