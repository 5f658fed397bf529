-- ===== src/Netip/Parse.antt =====
-- `netip.ParseAddr` and `netip.ParsePrefix`. Their error texts only end up in messages, so a
-- failure is `none`.
use proxy_acl.Base.{
  ℕ, zero, suc, ◌+◌, ◌-◌, ◌*◌, ◌/◌, ◌%◌, ◌^◌, Bool, true, false, not, ◌&&◌, ◌||◌, Option, none,
  some, List, [], ◌∷◌, ◌++◌, ltb, leb, ◌==◌, if◌then◌else◌, length, is_empty, take, drop, replicate,
}
use proxy_acl.Base.Text.{Bytes, codes, cut, cut_last, has_prefix, cut_prefix, is_digit}
use proxy_acl.Netip.{Addr, v4, v6, Prefix, bit_len, is_6, has_zone}

infixl 5 ◌>>=◌
abbrev ◌>>=◌ {ℓ κ} : {A : Type ℓ} {B : Type κ} → Option A → (A → Option B) → Option B
none >>= f = none
some a >>= f = f a

-- parseIPv4Fields: the octets read so far are `fields`, each an uint8.
unfoldable pub v4_fields : Bytes → ℕ → ℕ → List ℕ → Option (List ℕ)
v4_fields [] val dig fields =
    if ltb (length fields) 3 then none else some (fields ++ (val % 256) ∷ [])
v4_fields (c ∷ s) val dig fields =
    let digit = v4_fields s (val * 10 + (c - b'0')) (dig + 1) fields in
    let dot = v4_fields s 0 0 (fields ++ (val % 256) ∷ []) in
    if is_digit c
    then (if dig == 1 && val == 0
        then none
        else if ltb 255 (val * 10 + (c - b'0'))
        then none
        else digit)
    else if c == b'.'
    then (if dig == 0 || is_empty s then none else if length fields == 3 then none else dot)
    else none

-- The big-endian number of some bytes, in a word of `w` bits: AddrFrom4 and AddrFrom16.
unfoldable pub word_of : ℕ → ℕ → List ℕ → ℕ
word_of w acc [] = acc % 2 ^ w
word_of w acc (b ∷ bs) = word_of w (acc * 256 + b) bs

unfoldable pub parse_v4 : Bytes → Option Addr
unfolding v4_fields word_of
parse_v4 s = do fields ← v4_fields s 0 0 []; some (v4 (word_of 32 0 fields))

hex_value : ℕ → Option ℕ
hex_value c =
    if is_digit c
    then some (c - b'0')
    else if leb b'a' c && leb c b'f'
    then some (c - b'a' + 10)
    else if leb b'A' c && leb c b'F'
    then some (c - b'A' + 10)
    else none

-- One run of hex digits: its value, its length and what follows.
hex_run : Bytes → ℕ → ℕ → Option (ℕ × ℕ × Bytes)
unfolding hex_value
hex_run [] acc off = some (acc, off, [])
hex_run (c ∷ s) acc off = elim (hex_value c) [
  | none ↦ some (acc, off, c ∷ s)
  | some v ↦
      let rest = hex_run s (acc * 16 + v) (off + 1) in
      if ltb 3 off then none else if ltb 65535 (acc * 16 + v) then none else rest
]

-- The bytes of the address so far, and where "::" stood in them.
abbrev Groups : Type 0
Groups = Bytes × List ℕ × Option ℕ

is_some : Option ℕ → Bool
is_some none = false
is_some (some n) = true

-- A trailing IPv4 address, in place of the last two groups.
trailing_v4 : Bytes → List ℕ → Option ℕ → Option Groups
unfolding v4_fields is_some
trailing_v4 s ip ellipsis =
    if not (is_some ellipsis) && not (length ip == 12)
    then none
    else if ltb 16 (length ip + 4)
    then none
    else do fields ← v4_fields s 0 0 []; some ([], ip ++ fields, ellipsis)

-- What may follow a group: the end, ":" with more, or "::".
after_group : Bytes → List ℕ → Option ℕ → (Bytes → Option ℕ → Option Groups) → Option Groups
unfolding is_some
after_group [] ip ellipsis next = some ([], ip, ellipsis)
after_group (c ∷ []) ip ellipsis next = none
after_group (c ∷ d ∷ s) ip ellipsis next =
    if not (c == b':')
    then none
    else if d == b':'
    then (if is_some ellipsis
        then none
        else if is_empty s
        then some ([], ip, some (length ip))
        else next s (some (length ip)))
    else next (d ∷ s) ellipsis

-- The loop of parseIPv6. It runs while fewer than 16 bytes are there, so at most eight times.
groups : ℕ → Bytes → List ℕ → Option ℕ → Option Groups
unfolding hex_run trailing_v4 after_group has_prefix
groups zero s ip ellipsis = some (s, ip, ellipsis)
groups (suc k) s ip ellipsis = do
  (acc, off, rest) ← hex_run s 0 0
  let ip' = ip ++ (acc / 256) ∷ (acc % 256) ∷ []
  let more = after_group rest ip' ellipsis (λ s' e. groups k s' ip' e)
  if off == 0 then none else if has_prefix rest (b'.' ∷ []) then trailing_v4 s ip ellipsis else more

-- The end of parseIPv6: the whole text is used, and "::" is filled up with zeros.
expand : Groups → Option (List ℕ)
unfolding take drop replicate
expand (c ∷ s, ip, e) = none
expand ([], ip, none) = if ltb (length ip) 16 then none else some ip
expand ([], ip, some e) =
    if ltb (length ip) 16
    then some (take e ip ++ replicate (16 - length ip) 0 ++ drop e ip)
    else none

unfoldable pub parse_groups : Bytes → Option (List ℕ)
unfolding groups expand cut_prefix
parse_groups s = elim (cut_prefix s (codes "::")) [
  | none ↦ groups 8 s [] none >>= expand
  | some r ↦ if is_empty r then some (replicate 16 0) else (groups 8 r [] (some 0) >>= expand)
]

-- The address and its zone, by what stands round the "%".
unfoldable pub zoned_v6 : Bytes → Option (Bytes × Bytes) → Option Addr
unfolding parse_groups word_of
zoned_v6 s none = do ip ← parse_groups s; some (v6 (word_of 128 0 ip) [])
zoned_v6 s (some (a, zone)) =
    if is_empty zone then none else do ip ← parse_groups a; some (v6 (word_of 128 0 ip) zone)

unfoldable pub parse_v6 : Bytes → Option Addr
unfolding zoned_v6 cut
parse_v6 s = zoned_v6 s (cut s b'%')

-- ParseAddr: the first of ".", ":" and "%" decides the kind.
unfoldable pub parse_kind : Bytes → Bytes → Option Addr
unfolding parse_v4 parse_v6
parse_kind [] s = none
parse_kind (c ∷ r) s =
    let rest = parse_kind r s in
    if c == b'.'
    then parse_v4 s
    else if c == b':'
    then parse_v6 s
    else if c == b'%'
    then none
    else rest

unfoldable pub parse_addr : Bytes → Option Addr
unfolding parse_kind
parse_addr s = parse_kind s s

-- strconv.Atoi of digits alone; a number out of int's range is out of every caller's range too.
unfoldable pub digits_value : Bytes → ℕ → Option ℕ
digits_value [] n = some n
digits_value (c ∷ s) n =
    let rest = digits_value s (n * 10 + (c - b'0')) in if is_digit c then rest else none

unfoldable pub atoi : Bytes → Option ℕ
unfolding digits_value
atoi [] = none
atoi (c ∷ s) = digits_value (c ∷ s) 0

-- A length of more than one byte begins with 1 to 9.
bad_bits : Bytes → Bool
bad_bits (c ∷ d ∷ s) = ltb c b'1' || ltb b'9' c
bad_bits _ = false

unfoldable pub parse_cidr : Bytes → Option Prefix
unfolding parse_addr cut_last bad_bits atoi is_6 has_zone bit_len
parse_cidr s = do
  (before, after) ← cut_last s b'/'
  ip ← parse_addr before
  if is_6 ip && has_zone ip then none else if bad_bits after then none else do
    bits ← atoi after
    if ltb (bit_len ip) bits then none else some (record { addr = ip; bits = bits })
