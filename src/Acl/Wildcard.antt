-- ===== src/Acl/Wildcard.antt =====
-- internal/acl/rules.go: wildcard patterns. The code prints one of two regular expressions and has
-- the `regexp` package match it; here is that expression and what it matches.
pub mod Language
pub mod Texts
pub mod Patterns
use proxy_acl.Base.{
  ℕ, ◌≡◌, refl, Bool, true, false, not, ◌&&◌, ◌||◌, none, some, List, [], ◌∷◌, ◌==◌, if◌then◌else◌,
}
use proxy_acl.Base.Text.{Bytes, codes, cut_prefix}

-- A byte that stands for itself (`regexp.QuoteMeta`), or `[^.]*` for a "*".
pub data Piece : Type 0 where
  literal : ℕ → Piece
  in_label : Piece

-- `^(?:[^.]+\.)+` in front, or `^`; then the pieces; then `$`.
pub record Wildcard : Type 0 where
  pub below : Bool
  pub pieces : List Piece

unfoldable pub pieces_of : Bytes → List Piece
pieces_of [] = []
pieces_of (c ∷ s) = (if c == b'*' then in_label else literal c) ∷ pieces_of s

unfoldable pub wildcard_of : Bytes → Wildcard
unfolding pieces_of cut_prefix
wildcard_of p = elim (cut_prefix p (codes "*.")) [
  | some rest ↦ record { below = true; pieces = pieces_of rest }
  | none ↦ record { below = false; pieces = pieces_of p }
]

unfoldable pub match_pieces : List Piece → Bytes → Bool
match_pieces [] [] = true
match_pieces [] (c ∷ s) = false
match_pieces (literal x ∷ p) [] = false
match_pieces (literal x ∷ p) (c ∷ s) = c == x && match_pieces p s
match_pieces (in_label ∷ p) [] = match_pieces p []
match_pieces (in_label ∷ p) (c ∷ s) =
    match_pieces p (c ∷ s) || (not (c == b'.') && match_pieces (in_label ∷ p) s)

-- One label or more, each with its dot, before the pieces. `inside` says whether the current label
-- has a byte.
unfoldable pub match_below : List Piece → Bytes → Bool → Bool
unfolding match_pieces
match_below p [] inside = false
match_below p (c ∷ s) inside =
    let onward = match_below p s false in
    let further = match_below p s true in
    if c == b'.' then inside && (match_pieces p s || onward) else further

unfoldable pub wildcard_matches : Wildcard → Bytes → Bool
unfolding match_pieces match_below
wildcard_matches w name =
    if w.below then match_below w.pieces name false else match_pieces w.pieces name
