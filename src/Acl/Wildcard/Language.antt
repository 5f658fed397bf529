-- ===== src/Acl/Wildcard/Language.antt =====
-- The names that a wildcard pattern stands for, with no search in the description.
use proxy_acl.Base.{
  ℕ, ◌≡◌, ◌≢◌, ◌↔◌, inl, inr, refl, Bool, true, false, List, [], ◌∷◌, arith, ◌==◌, Bool-cases,
}
use proxy_acl.Base.Text.{Bytes}
use proxy_acl.Acl.Wildcard.{
  Piece, literal, in_label, Wildcard, match_pieces, match_below, wildcard_matches,
}

-- The pieces, each with the bytes that it stands for. A "*" never stands for a dot.
pub data Spells : List Piece → Bytes → Type 0 where
  done : Spells [] []
  same : (c : ℕ) {p : List Piece} {s : Bytes} → Spells p s → Spells (literal c ∷ p) (c ∷ s)
  leave : {p : List Piece} {s : Bytes} → Spells p s → Spells (in_label ∷ p) s
  take_one :
      {c : ℕ} {p : List Piece} {s : Bytes}
      → c ≢ b'.'
      → Spells (in_label ∷ p) s
      → Spells (in_label ∷ p) (c ∷ s)

-- One or more labels, each with a byte and followed by its dot, before a name of the pieces.
-- `Inside` is the same with its first label begun.
mutual
  pub data Below : List Piece → Bytes → Type 0 where
    begin : {c : ℕ} {p : List Piece} {s : Bytes} → c ≢ b'.' → Inside p s → Below p (c ∷ s)

  pub data Inside : List Piece → Bytes → Type 0 where
    more : {c : ℕ} {p : List Piece} {s : Bytes} → c ≢ b'.' → Inside p s → Inside p (c ∷ s)
    stop : {c : ℕ} {p : List Piece} {s : Bytes} → c ≡ b'.' → Spells p s → Inside p (c ∷ s)
    again : {c : ℕ} {p : List Piece} {s : Bytes} → c ≡ b'.' → Below p s → Inside p (c ∷ s)

match→Spells : (p : List Piece) (s : Bytes) → match_pieces p s ≡ true → Spells p s
unfolding match_pieces
match→Spells [] [] h = done
match→Spells [] (c ∷ s) h = cc
match→Spells (literal x ∷ p) [] h = cc
match→Spells (literal x ∷ p) (c ∷ s) h =
    let e : c ≡ x = ground arith in rw e (same x (match→Spells p s (ground arith)))
match→Spells (in_label ∷ p) [] h = leave (match→Spells p [] h)
match→Spells (in_label ∷ p) (c ∷ s) h = elim (Bool-cases (match_pieces p (c ∷ s))) [
  | inl now ↦ leave (match→Spells p (c ∷ s) now)
  | inr later ↦ take_one (ground arith) (match→Spells (in_label ∷ p) s (ground arith))
]

Spells→match : {p : List Piece} {s : Bytes} → Spells p s → match_pieces p s ≡ true
unfolding match_pieces
Spells→match done = refl
Spells→match (same c d) = ground (arith, Spells→match d)
Spells→match (leave {s = []} d) = Spells→match d
Spells→match (leave {s = c ∷ s} d) = ground (arith, Spells→match d)
Spells→match (take_one h d) = ground (arith, Spells→match d)

pub match_pieces_iff : (p : List Piece) (s : Bytes) → (match_pieces p s ≡ true) ↔ Spells p s
match_pieces_iff p s = (match→Spells p s, Spells→match)

-- What the state of `match_below` asks for.
abbrev Begun : List Piece → Bytes → Bool → Type 0
Begun p s true = Inside p s
Begun p s false = Below p s

below→Begun :
    (p : List Piece) (s : Bytes) (inside : Bool) → match_below p s inside ≡ true → Begun p s inside
unfolding match_below
below→Begun p [] inside h = cc
below→Begun p (c ∷ s) false h = begin (ground arith) (below→Begun p s true (ground arith))
below→Begun p (c ∷ s) true h = elim (Bool-cases (c == b'.')) [
  | inl dot ↦ elim (Bool-cases (match_pieces p s)) [
    | inl now ↦ stop (ground arith) (match→Spells p s now)
    | inr later ↦ again (ground arith) (below→Begun p s false (ground arith))
  ]
  | inr other ↦ more (ground arith) (below→Begun p s true (ground arith))
]

mutual
  unfolding match_below

  Below→match : {p : List Piece} {s : Bytes} → Below p s → match_below p s false ≡ true
  Below→match (begin h d) = ground (arith, Inside→match d)

  Inside→match : {p : List Piece} {s : Bytes} → Inside p s → match_below p s true ≡ true
  Inside→match (more h d) = ground (arith, Inside→match d)
  Inside→match (stop h d) = ground (arith, Spells→match d)
  Inside→match (again h d) = ground (arith, Below→match d)

-- The names of a wildcard: those of its pieces, or those with labels in front of them.
abbrev pub Names : Wildcard → Bytes → Type 0
Names w name = elim w.below [ true ↦ Below w.pieces name | false ↦ Spells w.pieces name ]

-- The expression matches exactly the names that the wildcard stands for.
pub wildcard_matches_iff :
    (w : Wildcard) (name : Bytes) → (wildcard_matches w name ≡ true) ↔ Names w name
unfolding wildcard_matches
wildcard_matches_iff w name = by_kind w.below refl
  where
    by_kind : (b : Bool) → w.below ≡ b → (wildcard_matches w name ≡ true) ↔ Names w name
    by_kind true e = rw e (below→Begun w.pieces name false, Below→match)
    by_kind false e = rw e (match_pieces_iff w.pieces name)
