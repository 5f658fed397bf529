-- ===== src/Acl/Wildcard/Patterns.antt =====
-- The names that the text of a wildcard pattern stands for.
use proxy_acl.Base.{
  none, ◌≡◌, ◌≢◌, ◌↔◌, ◌⊎◌, inl, inr, refl, ap, true, false, List, [], ◌∷◌, ◌++◌, arith, ◌==◌,
  Bool-cases, All,
}
use proxy_acl.Base.Text.{Bytes, codes, cut_prefix}
use proxy_acl.Acl.Wildcard.{Wildcard, Piece, pieces_of, wildcard_of, wildcard_matches}
use proxy_acl.Acl.Wildcard.Language.{
  Spells, Below, begin, Inside, more, stop, again, Names, wildcard_matches_iff,
}
use proxy_acl.Acl.Wildcard.Texts.{Matching, Matching→Spells, Spells→Matching}

-- Labels, each with its dot, before the rest of a name.
abbrev pub dotted : List Bytes → Bytes → Bytes
dotted [] tail = tail
dotted (l ∷ labels) tail = l ++ b'.' ∷ dotted labels tail

abbrev Dotless : Bytes → Type 0
Dotless l = All (λ c. c ≢ b'.') l

abbrev pub Proper : List Bytes → Type 0
Proper labels = All (λ l. (l ≢ []) × Dotless l) labels

-- One or more labels, before a name that the text stands for.
pub record UnderLabels (p name : Bytes) : Type 0 where
  pub labels : List Bytes
  pub tail : Bytes
  pub one_or_more : labels ≢ []
  pub proper : Proper labels
  pub joined : name ≡ dotted labels tail
  pub matching : Matching p tail

-- What a pattern stands for: "*." in front asks for one or more labels.
abbrev pub Named : Bytes → Bytes → Type 0
Named p name =
    ((rest : Bytes) × (p ≡ b'*' ∷ b'.' ∷ rest) × UnderLabels rest name)
    ⊎ (((rest : Bytes) → p ≢ b'*' ∷ b'.' ∷ rest) × Matching p name)

-- A begun label, the labels behind it, and the rest.
record Open (p name : Bytes) : Type 0 where
  front : Bytes
  labels : List Bytes
  tail : Bytes
  dotless : Dotless front
  proper : Proper labels
  joined : name ≡ front ++ b'.' ∷ dotted labels tail
  matching : Matching p tail

mutual
  Below→Under :
      (p : Bytes) {q : List Piece} {s : Bytes} → Below q s → q ≡ pieces_of p → UnderLabels p s
  Below→Under p (begin {c} h d) e =
      let o = Inside→Open p d e in
      record {
        labels = (c ∷ o.front) ∷ o.labels;
        tail = o.tail;
        one_or_more = λ none_at_all. cc;
        proper = (((λ empty. cc), (h, o.dotless)), o.proper);
        joined = ap (λ s. c ∷ s) o.joined;
        matching = o.matching;
      }

  Inside→Open : (p : Bytes) {q : List Piece} {s : Bytes} → Inside q s → q ≡ pieces_of p → Open p s
  Inside→Open p (more {c} h d) e =
      let o = Inside→Open p d e in
      record {
        front = c ∷ o.front;
        labels = o.labels;
        tail = o.tail;
        dotless = (h, o.dotless);
        proper = o.proper;
        joined = ap (λ s. c ∷ s) o.joined;
        matching = o.matching;
      }
  Inside→Open p (stop {s = s} dot d) e = record {
    front = [];
    labels = [];
    tail = s;
    dotless = tt;
    proper = tt;
    joined = ap (λ c. c ∷ s) dot;
    matching = Spells→Matching p d e;
  }
  Inside→Open p (again {s = s} dot d) e =
      let u = Below→Under p d e in
      record {
        front = [];
        labels = u.labels;
        tail = u.tail;
        dotless = tt;
        proper = u.proper;
        joined = rw (dot, ← u.joined) refl;
        matching = u.matching;
      }

-- A label that has begun, up to its dot.
Inside-front :
    {q : List Piece} (front : Bytes) {s : Bytes}
    → Dotless front
    → Inside q (b'.' ∷ s)
    → Inside q (front ++ b'.' ∷ s)
Inside-front [] d h = h
Inside-front (c ∷ front) (plain, d) h = more plain (Inside-front front d h)

Below-dotted :
    {q : List Piece} (l : Bytes) (labels : List Bytes) (tail : Bytes)
    → Proper (l ∷ labels)
    → Spells q tail
    → Below q (dotted (l ∷ labels) tail)
Below-dotted [] labels tail ((nonempty, d), ok_) h = absurd (nonempty refl)
Below-dotted (c ∷ l) [] tail ((nonempty, (plain, d)), ok_) h =
    begin plain (Inside-front l d (stop refl h))
Below-dotted (c ∷ l) (l' ∷ labels) tail ((nonempty, (plain, d)), ok_) h =
    begin plain (Inside-front l d (again refl (Below-dotted l' labels tail ok_ h)))

Under→Below : (p name : Bytes) → UnderLabels p name → Below (pieces_of p) name
Under→Below p name u = by_labels u.labels refl
  where
    by_labels : (labels : List Bytes) → u.labels ≡ labels → Below (pieces_of p) name
    by_labels [] e = absurd (u.one_or_more e)
    by_labels (l ∷ labels) e =
        rw (u.joined, e)
          (Below-dotted l labels u.tail (rw e at u.proper) (Matching→Spells u.matching))

below_lem :
    (rest name : Bytes)
    → Names (record { below = true; pieces = pieces_of rest }) name ↔ UnderLabels rest name
below_lem rest name = (λ d. Below→Under rest d refl, Under→Below rest name)

plain_lem :
    (p name : Bytes) → Names (record { below = false; pieces = pieces_of p }) name ↔ Matching p name
plain_lem p name = (λ d. Spells→Matching p d refl, λ d. Matching→Spells d)

starred :
    (rest : Bytes)
    → wildcard_of (b'*' ∷ b'.' ∷ rest) ≡ record { below = true; pieces = pieces_of rest }
unfolding wildcard_of
starred rest = refl

-- A pattern with "*." in front, or without.
abbrev Starred : Bytes → Type 0
Starred p = (rest : Bytes) × (p ≡ b'*' ∷ b'.' ∷ rest)

-- "*." is cut, or it is not in front.
cut_star :
    (p : Bytes)
    → Starred p ⊎ (((rest : Bytes) → p ≢ b'*' ∷ b'.' ∷ rest) × (cut_prefix p (codes "*.") ≡ none))
unfolding cut_prefix
cut_star [] = inr (λ rest e. cc, refl)
cut_star (c ∷ p) = elim (Bool-cases (c == b'*')) [
  | inr other ↦ inr (λ rest e. ground (arith, other), rw other refl)
  | inl star ↦ let e : c ≡ b'*' = ground (arith, star) in rw e (cut_dot p)
]
  where
    cut_dot :
        (q : Bytes)
        → Starred (b'*' ∷ q)
          ⊎ (((rest : Bytes) → b'*' ∷ q ≢ b'*' ∷ b'.' ∷ rest)
              × (cut_prefix (b'*' ∷ q) (codes "*.") ≡ none))
    cut_dot [] = inr (λ rest e. cc, refl)
    cut_dot (d ∷ q) = elim (Bool-cases (d == b'.')) [
      | inl dot ↦ let f : d ≡ b'.' = ground (arith, dot) in inl (q, rw f refl)
      | inr other ↦ inr (λ rest e. ground (arith, other), rw other refl)
    ]

wildcard_of-plain :
    (p : Bytes)
    → cut_prefix p (codes "*.") ≡ none
    → wildcard_of p ≡ record { below = false; pieces = pieces_of p }
unfolding wildcard_of
wildcard_of-plain p h = rw h refl

-- The expression of a pattern matches exactly the names that the pattern stands for: with "*." in front
-- these are the names that have one or more labels, each with a byte, before a name that the text behind
-- it stands for, and otherwise the names that the text itself stands for, where "*" stands for bytes
-- other than the dot and every other byte for itself.
pub wildcard_of_iff :
    (p name : Bytes) → (wildcard_matches (wildcard_of p) name ≡ true) ↔ Named p name
wildcard_of_iff p name = elim (cut_star p) [
  | inl (rest, e) ↦
      let w : Wildcard = record { below = true; pieces = pieces_of rest } in
      let m = wildcard_matches_iff w name in
      let u = below_lem rest name in
      rw (e, starred rest)
        (
          λ h. inl (rest, refl, u.0 (m.0 h)),
          λ n. elim n [
            | inl (rest', again_, under) ↦
                let tail : rest' ≡ rest = cc in m.1 (u.1 (rw tail at under))
            | inr (plain, matching) ↦ absurd (plain rest refl)
          ],
        )
  | inr (plain, e) ↦
      let w : Wildcard = record { below = false; pieces = pieces_of p } in
      let m = wildcard_matches_iff w name in
      let u = plain_lem p name in
      rw (wildcard_of-plain p e) (
        λ h. inr (plain, u.0 (m.0 h)),
        λ n. elim n [
          | inl (rest', front, under) ↦ absurd (plain rest' front)
          | inr (plain', matching) ↦ m.1 (u.1 matching)
        ],
      )
]
