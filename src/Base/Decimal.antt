-- ===== src/Base/Decimal.antt =====
-- Decimal text: what `itoa` prints and what `atoi` reads.
use proxy_acl.Base.{
  ℕ, zero, suc, ◌+◌, ◌-◌, ◌*◌, ◌/◌, ◌%◌, ◌≤◌, ◌<◌, ◌≡◌, ◌≢◌, ◌⊎◌, inl, inr, refl, [], ◌∷◌, ◌++◌,
  append_assoc, append-nil, ◌∙◌, arith, ◌==◌, Bool-cases, All, All-append,
}
use proxy_acl.Base.Text.{Bytes, emit, itoa}

abbrev pub IsDigit : ℕ → Type 0
IsDigit c = (b'0' ≤ c) × (c ≤ b'9')

-- The number that digits spell behind `n`.
abbrev pub value : ℕ → Bytes → ℕ
value n [] = n
value n (c ∷ s) = value (n * 10 + (c - b'0')) s

-- There is a first digit, and it is not 0.
abbrev pub Leads : Bytes → Type 0
Leads [] = ⊥
Leads (c ∷ s) = c ≢ b'0'

-- Each further digit can only raise the number.
pub le-value : (s : Bytes) (n : ℕ) → n ≤ value n s
le-value [] start = omega arith
le-value (digit ∷ more) start = omega (arith, le-value more (start * 10 + (digit - b'0')))

value-append : (s t : Bytes) (n : ℕ) → value n (s ++ t) ≡ value (value n s) t
value-append [] t n = refl
value-append (c ∷ s) t n = value-append s t (n * 10 + (c - b'0'))

-- The fuel of `emit` does not matter, once there is enough.
emit_fuel : (f g n : ℕ) (out : Bytes) → n ≤ f → n ≤ g → emit f n out ≡ emit g n out
unfolding emit
emit_fuel zero zero n out h k = refl
emit_fuel zero (suc g) n out h k = ground arith
emit_fuel (suc f) zero n out h k = ground arith
emit_fuel (suc f) (suc g) n out h k = ground (arith, emit_fuel f g (n / 10) ((b'0' + n % 10) ∷ out))

emit_zero : (f : ℕ) (out : Bytes) → emit f 0 out ≡ out
unfolding emit
emit_zero zero out = refl
emit_zero (suc f) out = refl

-- One round puts the last digit in front.
emit_digit :
    (f k c : ℕ) (out : Bytes)
    → IsDigit c
    → 0 < k * 10 + (c - b'0')
    → k * 10 + (c - b'0') ≤ f
    → emit f (k * 10 + (c - b'0')) out ≡ emit f k (c ∷ out)
unfolding emit
emit_digit zero k c out d pos h = absurd (omega arith)
emit_digit (suc f) k c out d pos h =
    let q : (k * 10 + (c - b'0')) / 10 ≡ k = omega arith in
    let r : b'0' + (k * 10 + (c - b'0')) % 10 ≡ c = omega arith in
    ground (arith, q, r, emit_fuel f (suc f) k (c ∷ out))

-- Printing what digits spell behind `k` prints `k` before them.
emit-value :
    (s : Bytes) (f k : ℕ) (out : Bytes)
    → All IsDigit s
    → (0 < k) ⊎ Leads s
    → value k s ≤ f
    → emit f (value k s) out ≡ emit f k (s ++ out)
emit-value [] f k out d lead h = refl
emit-value (c ∷ s) f k out (dc, ds) lead h =
    let pos : 0 < k * 10 + (c - b'0') = omega (arith, first lead) in
    let below : k * 10 + (c - b'0') ≤ f = omega (arith, le-value s (k * 10 + (c - b'0'))) in
    emit-value s f (k * 10 + (c - b'0')) out ds (inl pos) h
    ∙ emit_digit f k c (s ++ out) dc pos below
  where
    first : (0 < k) ⊎ (c ≢ b'0') → 0 < k + (c - b'0')
    first (inl p) = omega arith
    first (inr p) = omega arith

-- Digits without a leading 0 are the print of the number that they spell.
pub itoa-value : (s : Bytes) → All IsDigit s → Leads s → itoa (value 0 s) ≡ s
unfolding itoa
itoa-value [] d lead = absurd lead
itoa-value (c ∷ s) d lead = ground (
  arith,
  le-value s (0 * 10 + (c - b'0')),
  emit-value (c ∷ s) (value 0 (c ∷ s)) 0 [] d (inr lead),
  emit_zero (value 0 (c ∷ s)) ((c ∷ s) ++ []),
  append-nil (c ∷ s),
)

Leads-append : (s t : Bytes) → Leads s → Leads (s ++ t)
Leads-append [] t h = absurd h
Leads-append (c ∷ s) t h = h

record Printed (n : ℕ) (out text : Bytes) : Type 0 where
  digits : Bytes
  is_text : text ≡ digits ++ out
  all_digits : All IsDigit digits
  leads : Leads digits
  spells : value 0 digits ≡ n

emit-Printed : (f n : ℕ) (out : Bytes) → 0 < n → n ≤ f → Printed n out (emit f n out)
unfolding emit
emit-Printed zero n out pos h = absurd (omega arith)
emit-Printed (suc f) n out pos h = elim (Bool-cases (n / 10 == 0)) [
  | inl small ↦
      let low : n / 10 ≡ 0 = ground arith in
      record {
        digits = (b'0' + n % 10) ∷ [];
        is_text = ground (arith, low, emit_zero f ((b'0' + n % 10) ∷ out));
        all_digits = omega arith;
        leads = omega arith;
        spells = omega arith;
      }
  | inr large ↦
      let p = emit-Printed f (n / 10) ((b'0' + n % 10) ∷ out) (ground arith) (omega arith) in
      record {
        digits = p.digits ++ (b'0' + n % 10) ∷ [];
        is_text = ground (arith, p.is_text, append_assoc p.digits ((b'0' + n % 10) ∷ []) out);
        all_digits = All-append IsDigit p.digits ((b'0' + n % 10) ∷ []) p.all_digits (omega arith);
        leads = Leads-append p.digits ((b'0' + n % 10) ∷ []) p.leads;
        spells = rw value-append (let e = p.spells in omega arith);
      }
]

-- A positive number prints as digits without a leading 0 that spell it.
pub itoa-spells : (n : ℕ) → 0 < n → All IsDigit (itoa n) × Leads (itoa n) × (value 0 (itoa n) ≡ n)
unfolding itoa
itoa-spells n pos =
    let p = emit-Printed n n [] pos (omega arith) in
    let e : itoa n ≡ p.digits = ground (arith, p.is_text, append-nil p.digits) in
    (rw e p.all_digits, rw e p.leads, rw e p.spells)
