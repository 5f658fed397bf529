-- ===== src/Acl/Wildcard/Texts.antt =====
-- The pieces of a text spell what the text stands for.
use proxy_acl.Base.{
  ℕ, ◌≡◌, ◌≢◌, inl, inr, refl, true, false, List, [], ◌∷◌, arith, ◌==◌, Bool-cases,
}
use proxy_acl.Base.Text.{Bytes}
use proxy_acl.Acl.Wildcard.{Piece, literal, in_label, pieces_of}
use proxy_acl.Acl.Wildcard.Language.{Spells, done, same, leave, take_one}

-- A "*" stands for bytes other than the dot, and every other byte for itself.
pub data Matching : Bytes → Bytes → Type 0 where
  at_end : Matching [] []
  same_byte : {c : ℕ} {p s : Bytes} → c ≢ b'*' → Matching p s → Matching (c ∷ p) (c ∷ s)
  no_more : {p s : Bytes} → Matching p s → Matching (b'*' ∷ p) s
  one_byte : {c : ℕ} {p s : Bytes} → c ≢ b'.' → Matching (b'*' ∷ p) s → Matching (b'*' ∷ p) (c ∷ s)

pieces_of-star :
    (c : ℕ) (p : Bytes) → (c == b'*') ≡ true → pieces_of (c ∷ p) ≡ in_label ∷ pieces_of p
unfolding pieces_of
pieces_of-star c p h = rw h refl

pieces_of-byte :
    (c : ℕ) (p : Bytes) → (c == b'*') ≡ false → pieces_of (c ∷ p) ≡ literal c ∷ pieces_of p
unfolding pieces_of
pieces_of-byte c p h = rw h refl

pub Matching→Spells : {p s : Bytes} → Matching p s → Spells (pieces_of p) s
Matching→Spells at_end = unfold pieces_of in done
Matching→Spells (same_byte {c} {p} h d) =
    rw (pieces_of-byte c p (ground (arith, h))) (same c (Matching→Spells d))
Matching→Spells (no_more {p} d) = rw (pieces_of-star b'*' p refl) (leave (Matching→Spells d))
Matching→Spells (one_byte {c} {p} h d) =
    rw (pieces_of-star b'*' p refl)
      (take_one h (rw (pieces_of-star b'*' p refl) at (Matching→Spells d)))

-- The first piece of a text, if the pieces begin so.
literal-first :
    (x c : ℕ) (p : Bytes) (q : List Piece)
    → literal c ∷ q ≡ pieces_of (x ∷ p)
    → (x ≢ b'*') × (c ≡ x) × (q ≡ pieces_of p)
literal-first x c p q e = elim (Bool-cases (x == b'*')) [
  | inl star ↦
      let e' : literal c ∷ q ≡ in_label ∷ pieces_of p = rw (pieces_of-star x p star) at e in cc
  | inr byte ↦
      let e' : literal c ∷ q ≡ literal x ∷ pieces_of p = rw (pieces_of-byte x p byte) at e in
      (ground (arith, byte), cc, cc)
]

in_label-first :
    (x : ℕ) (p : Bytes) (q : List Piece)
    → in_label ∷ q ≡ pieces_of (x ∷ p)
    → (x ≡ b'*') × (q ≡ pieces_of p)
in_label-first x p q e = elim (Bool-cases (x == b'*')) [
  | inl star ↦
      let e' : in_label ∷ q ≡ in_label ∷ pieces_of p = rw (pieces_of-star x p star) at e in
      (ground (arith, star), cc)
  | inr byte ↦
      let e' : in_label ∷ q ≡ literal x ∷ pieces_of p = rw (pieces_of-byte x p byte) at e in cc
]

nothing-first : (x : ℕ) (p : Bytes) → [] ≡ pieces_of (x ∷ p) → ⊥
unfolding pieces_of
nothing-first x p e = cc

pieces_of-nil : {x : Piece} {q : List Piece} → x ∷ q ≡ pieces_of [] → ⊥
unfolding pieces_of
pieces_of-nil e = cc

pub Spells→Matching :
    (p : Bytes) {q : List Piece} {s : Bytes} → Spells q s → q ≡ pieces_of p → Matching p s
Spells→Matching [] done e = at_end
Spells→Matching (x ∷ p) done e = absurd (nothing-first x p e)
Spells→Matching [] (same c d) e = absurd (pieces_of-nil e)
Spells→Matching (x ∷ p) (same c {p = q} d) e =
    let (plain, byte, rest) = literal-first x c p q e in
    rw byte (same_byte plain (Spells→Matching p d rest))
Spells→Matching [] (leave d) e = absurd (pieces_of-nil e)
Spells→Matching (x ∷ p) (leave {p = q} d) e =
    let (star, rest) = in_label-first x p q e in rw star (no_more (Spells→Matching p d rest))
Spells→Matching [] (take_one h d) e = absurd (pieces_of-nil e)
Spells→Matching (x ∷ p) (take_one {c} {p = q} h d) e =
    let (star, rest) = in_label-first x p q e in
    rw star (one_byte h (rw star at (Spells→Matching (x ∷ p) d e)))
