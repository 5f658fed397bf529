-- ===== src/Acl/Public/Ranges.antt =====
-- The IPv4 addresses that are not public, as intervals.
use proxy_acl.Base.{
  ℕ, ◌+◌, ◌-◌, ◌*◌, ◌/◌, ◌^◌, ◌≡◌, Bool, not, ◌&&◌, List, [], ◌∷◌, arith, leb, ◌==◌, any,
}
use proxy_acl.Netip.{v4}
use proxy_acl.Acl.Public.{is_public}

-- a.b.c.d as a number
abbrev pub dotted : ℕ → ℕ → ℕ → ℕ → ℕ
dotted a b c d = ((a * 256 + b) * 256 + c) * 256 + d

abbrev pub between : ℕ → ℕ → ℕ → Bool
between lo hi n = leb lo n && leb n hi

-- First and last address of every range.
abbrev pub reserved_blocks : List (ℕ × ℕ)
reserved_blocks =
    (dotted 0 0 0 0, dotted 0 255 255 255)
    ∷ (dotted 10 0 0 0, dotted 10 255 255 255)
    ∷ (dotted 100 64 0 0, dotted 100 127 255 255)
    ∷ (dotted 127 0 0 0, dotted 127 255 255 255)
    ∷ (dotted 169 254 0 0, dotted 169 254 255 255)
    ∷ (dotted 172 16 0 0, dotted 172 31 255 255)
    ∷ (dotted 192 0 0 0, dotted 192 0 0 255)
    ∷ (dotted 192 88 99 0, dotted 192 88 99 255)
    ∷ (dotted 192 168 0 0, dotted 192 168 255 255)
    ∷ (dotted 198 18 0 0, dotted 198 19 255 255)
    ∷ (dotted 224 0 0 0, dotted 239 255 255 255)
    ∷ (dotted 240 0 0 0, dotted 255 255 255 255)
    ∷ []

abbrev pub reserved_4 : ℕ → Bool
unfolding any
reserved_4 n = any (λ r. between r.0 r.1 n) reserved_blocks

-- A number has the first bits `q` exactly if it lies in the block of those bits.
module _ (q n : ℕ) where
  block_8 : (n / 2 ^ 8 == q) ≡ between (q * 2 ^ 8) (q * 2 ^ 8 + (2 ^ 8 - 1)) n
  block_8 = ground arith

  block_16 : (n / 2 ^ 16 == q) ≡ between (q * 2 ^ 16) (q * 2 ^ 16 + (2 ^ 16 - 1)) n
  block_16 = ground arith

  block_17 : (n / 2 ^ 17 == q) ≡ between (q * 2 ^ 17) (q * 2 ^ 17 + (2 ^ 17 - 1)) n
  block_17 = ground arith

  block_20 : (n / 2 ^ 20 == q) ≡ between (q * 2 ^ 20) (q * 2 ^ 20 + (2 ^ 20 - 1)) n
  block_20 = ground arith

  block_22 : (n / 2 ^ 22 == q) ≡ between (q * 2 ^ 22) (q * 2 ^ 22 + (2 ^ 22 - 1)) n
  block_22 = ground arith

  block_24 : (n / 2 ^ 24 == q) ≡ between (q * 2 ^ 24) (q * 2 ^ 24 + (2 ^ 24 - 1)) n
  block_24 = ground arith

  block_28 : (n / 2 ^ 28 == q) ≡ between (q * 2 ^ 28) (q * 2 ^ 28 + (2 ^ 28 - 1)) n
  block_28 = ground arith

-- An IPv4 address is public exactly if it lies in none of the reserved ranges.
pub is_public-v4 : (n : ℕ) → is_public (v4 n) ≡ not (reserved_4 n)
unfolding is_public
is_public-v4 n = rw (
  block_24 0 n,
  block_24 10 n,
  block_22 401 n,
  block_24 127 n,
  block_16 43518 n,
  block_20 2753 n,
  block_8 12582912 n,
  block_8 12605539 n,
  block_16 49320 n,
  block_17 25353 n,
  block_28 14 n,
  block_28 15 n,
)
