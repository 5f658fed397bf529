-- ===== src/Netip/Laws.antt =====
-- Addresses that are parsed fit their family's width, and what the widest prefixes contain.
use proxy_acl.Base.{
  ℕ, ◌+◌, ◌*◌, ◌/◌, ◌^◌, ◌<◌, ◌≡◌, ◌⊎◌, inl, inr, true, false, Option, none, some, List, [], ◌∷◌,
  arith, ◌==◌, Option-cases, Bool-cases,
}
use proxy_acl.Base.Text.{Bytes, cut}
use proxy_acl.Netip.{Addr, no_addr, v4, v6, Prefix, has_zone, unmap, contains_addr}
use proxy_acl.Netip.Parse.{
  word_of, v4_fields, parse_v4, zoned_v6, parse_v6, parse_groups, parse_kind, parse_addr,
}

word_of-lt_4 : (bs : List ℕ) (acc : ℕ) → word_of 32 acc bs < 2 ^ 32
unfolding word_of
word_of-lt_4 [] acc = omega arith
word_of-lt_4 (b ∷ bs) acc = word_of-lt_4 bs (acc * 256 + b)

word_of-lt_6 : (bs : List ℕ) (acc : ℕ) → word_of 128 acc bs < 2 ^ 128
unfolding word_of
word_of-lt_6 [] acc = omega arith
word_of-lt_6 (b ∷ bs) acc = word_of-lt_6 bs (acc * 256 + b)

-- An address of a known family that fits.
abbrev pub Sized : Addr → Type 0
Sized no_addr = ⊥
Sized (v4 n) = n < 2 ^ 32
Sized (v6 n z) = n < 2 ^ 128

abbrev SizedIf : Option Addr → Type 0
SizedIf none = Unit
SizedIf (some a) = Sized a

parse_v4-Sized : (s : Bytes) → SizedIf (parse_v4 s)
unfolding parse_v4
parse_v4-Sized s = elim (Option-cases (v4_fields s 0 0 [])) [
  | inl bad ↦ rw bad tt
  | inr (fields, good) ↦ rw good (word_of-lt_4 fields 0)
]

groups-Sized :
    (r zone : Bytes)
    → SizedIf (elim (parse_groups r) [ none ↦ none | some ip ↦ some (v6 (word_of 128 0 ip) zone) ])
groups-Sized r zone = elim (Option-cases (parse_groups r)) [
  | inl bad ↦ rw bad tt
  | inr (ip, good) ↦ rw good (word_of-lt_6 ip 0)
]

zoned_v6-Sized : (s : Bytes) (parts : Option (Bytes × Bytes)) → SizedIf (zoned_v6 s parts)
unfolding zoned_v6
zoned_v6-Sized s none = ground (arith, groups-Sized s [])
zoned_v6-Sized s (some (a, zone)) = ground (arith, groups-Sized a zone)

parse_v6-Sized : (s : Bytes) → SizedIf (parse_v6 s)
unfolding parse_v6
parse_v6-Sized s = zoned_v6-Sized s (cut s b'%')

parse_kind-Sized : (r s : Bytes) → SizedIf (parse_kind r s)
unfolding parse_kind
parse_kind-Sized [] s = tt
parse_kind-Sized (c ∷ r) s = elim (Bool-cases (c == b'.')) [
  | inl dot ↦ rw dot (parse_v4-Sized s)
  | inr p ↦ elim (Bool-cases (c == b':')) [
    | inl colon ↦ rw (p, colon) (parse_v6-Sized s)
    | inr q ↦ elim (Bool-cases (c == b'%')) [
      | inl percent ↦ rw (p, q, percent) tt
      | inr other ↦ rw (p, q, other) (parse_kind-Sized r s)
    ]
  ]
]

-- A parsed address is of a family, and its value fits the family's width.
pub parse_addr-Sized : (s : Bytes) (a : Addr) → parse_addr s ≡ some a → Sized a
unfolding parse_addr
parse_addr-Sized s a h =
    let sized = parse_kind-Sized s s in let e : parse_kind s s ≡ some a = h in rw e at sized

unmap-Sized : (a : Addr) → Sized a → Sized (unmap a)
unfolding unmap
unmap-Sized no_addr h = absurd h
unmap-Sized (v4 n) h = h
unmap-Sized (v6 n z) h = elim (Bool-cases (n / 2 ^ 32 == 0xffff)) [
  | inl mapped ↦ rw mapped (omega arith)
  | inr plain ↦ rw plain h
]

-- 0.0.0.0/0 and ::/0
abbrev pub every_v4 : Prefix
every_v4 = record { addr = v4 0; bits = 0 }

abbrev pub every_v6 : Prefix
every_v6 = record { addr = v6 0 []; bits = 0 }

-- Every address without a zone is in one of the two widest prefixes.
pub contains-every :
    (a : Addr)
    → Sized a
    → has_zone a ≡ false
    → (contains_addr every_v4 (unmap a) ≡ true) ⊎ (contains_addr every_v6 (unmap a) ≡ true)
unfolding contains_addr unmap has_zone
contains-every no_addr h z = absurd h
contains-every (v4 n) h z = inl (ground arith)
contains-every (v6 n []) h z = elim (Bool-cases (n / 2 ^ 32 == 0xffff)) [
  | inl mapped ↦ inl (rw mapped (ground arith))
  | inr plain ↦ inr (rw plain (ground arith))
]
contains-every (v6 n (c ∷ z')) h z = cc
