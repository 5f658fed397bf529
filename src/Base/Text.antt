-- ===== src/Base/Text.antt =====
-- Byte strings, with the operations of Go's `strings` package that the program calls. A Go string
-- is its bytes.
use Prim.Native.Char.{code}
use Prim.Native.String.{String}
use proxy_acl.Base.{
  ℕ, zero, suc, ◌+◌, ◌/◌, ◌%◌, ◌≡◌, refl, ◌↔◌, Bool, true, false, ◌&&◌, ◌||◌, Option, none, some,
  List, [], ◌∷◌, reverse, arith, leb, ◌==◌, if◌then◌else◌,
}

abbrev pub Bytes : Type 0
Bytes = List ℕ

-- The code points of a literal: its bytes, as every literal of the program is ASCII.
abbrev pub codes : String → Bytes
codes String.[] = []
codes (String.◌∷◌ c s) = code c ∷ codes s

-- s == t
unfoldable pub text_eq : Bytes → Bytes → Bool
text_eq [] [] = true
text_eq [] (d ∷ t) = false
text_eq (c ∷ s) [] = false
text_eq (c ∷ s) (d ∷ t) = c == d && text_eq s t

pub text_eq_iff : (s t : Bytes) → (text_eq s t ≡ true) ↔ (s ≡ t)
unfolding text_eq
text_eq_iff [] [] = (λ _. refl, λ _. refl)
text_eq_iff [] (d ∷ t) = (λ h. cc, λ h. cc)
text_eq_iff (c ∷ s) [] = (λ h. cc, λ h. cc)
text_eq_iff (c ∷ s) (d ∷ t) = ground (arith, text_eq_iff s t)

-- strings.HasPrefix(s, p)
unfoldable pub has_prefix : Bytes → Bytes → Bool
has_prefix s [] = true
has_prefix [] (c ∷ p) = false
has_prefix (d ∷ s) (c ∷ p) = d == c && has_prefix s p

-- strings.CutPrefix(s, p): what follows the prefix
unfoldable pub cut_prefix : Bytes → Bytes → Option Bytes
cut_prefix s [] = some s
cut_prefix [] (c ∷ p) = none
cut_prefix (d ∷ s) (c ∷ p) = if d == c then cut_prefix s p else none

-- strings.TrimSuffix(s, c) for a suffix of one byte
unfoldable pub trim_suffix : Bytes → ℕ → Bytes
trim_suffix [] c = []
trim_suffix (d ∷ []) c = if d == c then [] else d ∷ []
trim_suffix (d ∷ e ∷ s) c = d ∷ trim_suffix (e ∷ s) c

-- strings.Contains(s, c) for one byte
unfoldable pub contains : Bytes → ℕ → Bool
contains [] c = false
contains (d ∷ s) c = d == c || contains s c

-- strings.Split(s, sep) for a separator of one byte: never an empty list
abbrev attach : ℕ → List Bytes → List Bytes
attach c [] = (c ∷ []) ∷ []
attach c (l ∷ ls) = (c ∷ l) ∷ ls

unfoldable pub split : Bytes → ℕ → List Bytes
split [] sep = [] ∷ []
split (c ∷ s) sep = let rest = split s sep in if c == sep then [] ∷ rest else attach c rest

-- strings.Cut(s, sep): what stands before and after the first separator
unfoldable pub cut : Bytes → ℕ → Option (Bytes × Bytes)
cut [] sep = none
cut (c ∷ s) sep =
    let rest = cut s sep in
    if c == sep then some ([], s) else elim rest [ none ↦ none | some (a, b) ↦ some (c ∷ a, b) ]

-- What stands before and after the last separator (`bytealg.LastIndexByteString`).
unfoldable pub cut_last : Bytes → ℕ → Option (Bytes × Bytes)
cut_last [] sep = none
cut_last (c ∷ s) sep = elim (cut_last s sep) [
  | none ↦ if c == sep then some ([], s) else none
  | some (a, b) ↦ some (c ∷ a, b)
]

-- strings.ToLower, on ASCII text
unfoldable pub lower_byte : ℕ → ℕ
lower_byte c = if leb b'A' c && leb c b'Z' then c + 32 else c

unfoldable pub to_lower : Bytes → Bytes
unfolding lower_byte
to_lower [] = []
to_lower (c ∷ s) = lower_byte c ∷ to_lower s

unfoldable pub last_byte : ℕ → Bytes → ℕ
last_byte c [] = c
last_byte c (d ∷ s) = last_byte d s

abbrev pub is_digit : ℕ → Bool
is_digit c = leb b'0' c && leb c b'9'

-- strconv.Itoa of a number that is not negative. Every round divides by ten, so as many rounds as
-- the number are enough.
unfoldable pub emit : ℕ → ℕ → Bytes → Bytes
emit zero n out = out
emit (suc f) n out =
    let rest = emit f (n / 10) ((b'0' + n % 10) ∷ out) in if n == 0 then out else rest

unfoldable pub itoa : ℕ → Bytes
unfolding emit
itoa n = if n == 0 then b'0' ∷ [] else emit n n []

-- strings.TrimSpace. Unicode's white space, as UTF-8: six ASCII bytes, U+0085, U+00A0, U+1680,
-- U+2000 to U+200A, U+2028, U+2029, U+202F, U+205F and U+3000. `space_2` and `space_3` hold the
-- bytes behind the first.
ascii_space : ℕ → Bool
ascii_space c = c == 32 || (leb 9 c && leb c 13)

space_2 : ℕ → ℕ → Bool
space_2 c d = c == 0xc2 && (d == 0x85 || d == 0xa0)

space_3 : ℕ → ℕ → ℕ → Bool
space_3 c d e =
    (c == 0xe1 && d == 0x9a && e == 0x80)
    || (c == 0xe2
        && d == 0x80
        && ((leb 0x80 e && leb e 0x8a) || e == 0xa8 || e == 0xa9 || e == 0xaf))
    || (c == 0xe2 && d == 0x81 && e == 0x9f)
    || (c == 0xe3 && d == 0x80 && e == 0x80)

trim_left : Bytes → Bytes
unfolding ascii_space space_2 space_3
trim_left [] = []
trim_left (c ∷ []) = if ascii_space c then [] else c ∷ []
trim_left (c ∷ d ∷ []) =
    let rest = trim_left (d ∷ []) in
    if ascii_space c then rest else if space_2 c d then [] else c ∷ d ∷ []
trim_left (c ∷ d ∷ e ∷ s) =
    let rest1 = trim_left (d ∷ e ∷ s) in
    let rest2 = trim_left (e ∷ s) in
    let rest3 = trim_left s in
    if ascii_space c
    then rest1
    else if space_2 c d
    then rest2
    else if space_3 c d e
    then rest3
    else c ∷ d ∷ e ∷ s

-- The same from the end, on the reversed text.
trim_reversed : Bytes → Bytes
unfolding ascii_space space_2 space_3
trim_reversed [] = []
trim_reversed (c ∷ []) = if ascii_space c then [] else c ∷ []
trim_reversed (d ∷ c ∷ []) =
    let rest = trim_reversed (c ∷ []) in
    if ascii_space d then rest else if space_2 c d then [] else d ∷ c ∷ []
trim_reversed (e ∷ d ∷ c ∷ s) =
    let rest1 = trim_reversed (d ∷ c ∷ s) in
    let rest2 = trim_reversed (c ∷ s) in
    let rest3 = trim_reversed s in
    if ascii_space e
    then rest1
    else if space_2 d e
    then rest2
    else if space_3 c d e
    then rest3
    else e ∷ d ∷ c ∷ s

unfoldable pub trim_space : Bytes → Bytes
unfolding trim_left trim_reversed
trim_space s = reverse (trim_reversed (reverse (trim_left s)))
