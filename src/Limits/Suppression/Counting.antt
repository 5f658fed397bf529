-- ===== src/Limits/Suppression/Counting.antt =====
-- Every log line is written or counted, and the keys counted one by one stay bounded.
use proxy_acl.Base.{
  ℕ, ◌+◌, ◌≤◌, ◌<◌, ◌≡◌, ◌↔◌, ◌⊎◌, ap, sym, ◌∙◌, Bool, true, false, ltb, refl, [], ◌∷◌, arith,
  if◌then◌else◌, length, inl, inr, Bool-cases,
}
use proxy_acl.Base.Text.{text_eq_iff}
use proxy_acl.Limits.Bucket.{Float64, take_token}
use proxy_acl.Limits.Suppression.{
  SuppressedKey, Counts, Entry, key_eq, has_key, count_key, suppress, log_line, max_suppressed_keys,
  log_rate, log_burst,
}

-- The lines that a map counts.
abbrev pub lines : Counts → ℕ
lines [] = 0
lines ((k, n) ∷ m) = n + lines m

lines-count_key : (k : SuppressedKey) (m : Counts) → lines (count_key k m) ≡ lines m + 1
unfolding count_key
lines-count_key k [] = refl
lines-count_key k ((j, n) ∷ m) = elim (Bool-cases (key_eq j k)) [
  | inl same ↦ rw same (omega arith)
  | inr other ↦ rw other (omega (arith, lines-count_key k m))
]

length-count_key :
    (k : SuppressedKey) (m : Counts)
    → length (count_key k m) ≡ (if has_key k m then length m else length m + 1)
unfolding count_key has_key
length-count_key k [] = refl
length-count_key k ((j, n) ∷ m) = elim (Bool-cases (key_eq j k)) [
  | inl same ↦ rw same refl
  | inr other ↦ ground (arith, other, length-count_key k m)
]

-- The count under a key, 0 without one.
abbrev pub count_of : SuppressedKey → Counts → ℕ
count_of k [] = 0
count_of k ((j, n) ∷ m) = if key_eq j k then n else count_of k m

-- The key is among those counted.
abbrev pub Counted : SuppressedKey → Counts → Type 0
Counted k [] = ⊥
Counted k ((j, n) ∷ m) = (j ≡ k) ⊎ Counted k m

key_eq_iff : (j k : SuppressedKey) → (key_eq j k ≡ true) ↔ (j ≡ k)
unfolding key_eq
key_eq_iff j k = (
  λ h.
      let actions : j.action ≡ k.action = (text_eq_iff j.action k.action).0 (ground (arith, h)) in
      let hosts : j.host ≡ k.host = (text_eq_iff j.host k.host).0 (ground (arith, h)) in cc,
  λ e.
      let actions = (text_eq_iff j.action k.action).1 (ap (λ x. x.action) e) in
      let hosts = (text_eq_iff j.host k.host).1 (ap (λ x. x.host) e) in
      ground (arith, actions, hosts),
)

has_key-Counted : (k : SuppressedKey) (m : Counts) → has_key k m ≡ true → Counted k m
unfolding has_key
has_key-Counted k [] h = cc
has_key-Counted k ((j, n) ∷ m) h = elim (Bool-cases (key_eq j k)) [
  | inl same ↦ inl ((key_eq_iff j k).0 same)
  | inr other ↦ inr (has_key-Counted k m (ground (arith, other)))
]

Counted-has_key : (k : SuppressedKey) (m : Counts) → has_key k m ≡ false → ¬ Counted k m
unfolding has_key
Counted-has_key k [] h counted = counted
Counted-has_key k ((j, n) ∷ m) h (inl same) =
    let e : key_eq j k ≡ true = (key_eq_iff j k).1 same in ground (arith, e)
Counted-has_key k ((j, n) ∷ m) h (inr counted) = Counted-has_key k m (ground (arith, h)) counted

-- A key that is one key is not another.
key_eq-apart : (i k j : SuppressedKey) → key_eq i k ≡ false → key_eq i j ≡ true → key_eq k j ≡ false
key_eq-apart i k j other found = elim (Bool-cases (key_eq k j)) [
  | inr apart ↦ apart
  | inl same ↦
      let e : i ≡ k = (key_eq_iff i j).0 found ∙ sym ((key_eq_iff k j).0 same) in
      let t : key_eq i k ≡ true = (key_eq_iff i k).1 e in cc
]

-- One more under its own key, and no more under any other.
count_of-count_key :
    (k : SuppressedKey) (m : Counts) (j : SuppressedKey)
    → count_of j (count_key k m) ≡ count_of j m + (if key_eq k j then 1 else 0)
unfolding count_key
count_of-count_key k [] j = ground arith
count_of-count_key k ((i, n) ∷ m) j = elim (Bool-cases (key_eq i k)) [
  | inl here ↦
      let same : key_eq k j ≡ key_eq i j = ap (λ x. key_eq x j) (sym ((key_eq_iff i k).0 here)) in
      rw (here, same) (ground arith)
  | inr other ↦ rw other (elim (Bool-cases (key_eq i j)) [
    | inl found ↦ rw (found, key_eq-apart i k j other found) (omega arith)
    | inr later ↦ rw later (count_of-count_key k m j)
  ])
]

module _ (fl : Float64) where
  -- The lines of an entry that the next summary accounts for.
  abbrev pub pending : Entry fl.F → ℕ
  pending c = lines c.suppressed + c.other

  abbrev pub KeysBounded : Entry fl.F → Type 0
  KeysBounded c = length c.suppressed ≤ max_suppressed_keys

  pending-suppress :
      (c : Entry fl.F) (k : SuppressedKey) → pending (suppress fl c k) ≡ pending c + 1
  unfolding suppress
  pending-suppress c k = ground (arith, lines-count_key k c.suppressed)

  suppress-KeysBounded :
      (c : Entry fl.F) (k : SuppressedKey) → KeysBounded c → KeysBounded (suppress fl c k)
  unfolding suppress
  suppress-KeysBounded c k h = ground (arith, length-count_key k c.suppressed)

  -- How an entry's counts are after a line: as they were; or the line is one more under its key, which
  -- was counted there before or is among the first 16; or it is one more of the others.
  abbrev pub Recorded : Entry fl.F → SuppressedKey → Entry fl.F → Bool → Type 0
  Recorded c k c' true = (c'.suppressed ≡ c.suppressed) × (c'.other ≡ c.other)
  Recorded c k c' false =
      ((Counted k c.suppressed ⊎ (length c.suppressed < 16))
        × ((j : SuppressedKey)
            → count_of j c'.suppressed ≡ count_of j c.suppressed + (if key_eq k j then 1 else 0))
        × (c'.other ≡ c.other))
      ⊎ (¬ Counted k c.suppressed
          × (16 ≤ length c.suppressed)
          × (c'.suppressed ≡ c.suppressed)
          × (c'.other ≡ c.other + 1))

  suppress-Recorded : (c : Entry fl.F) (k : SuppressedKey) → Recorded c k (suppress fl c k) false
  unfolding suppress
  suppress-Recorded c k = elim (Bool-cases (has_key k c.suppressed)) [
    | inl found ↦
        rw found (
          inl (inl (has_key-Counted k c.suppressed found), count_of-count_key k c.suppressed, refl))
    | inr new ↦ elim (Bool-cases (ltb (length c.suppressed) max_suppressed_keys)) [
      | inl room ↦
          rw (new, room) (inl (inr (ground (arith, room)), count_of-count_key k c.suppressed, refl))
      | inr full ↦
          rw (new, full)
            (inr (Counted-has_key k c.suppressed new, ground (arith, full), refl, refl))
    ]
  ]

  -- If at most 16 keys were counted one by one, a log line is written and leaves all counts alone; or it
  -- is one more under its own key and no other, if that key was counted before or fewer than 16 were; or
  -- it is one more of the others, if neither is so. The lines accounted for are as many as before, or
  -- one more, and at most 16 keys are counted one by one afterwards.
  pub log_line-counted :
      (c : Entry fl.F) (now : ℕ) (k : SuppressedKey)
      → KeysBounded c
      → Recorded c k (log_line fl c now k).0 (log_line fl c now k).1
        × (pending (log_line fl c now k).0
            ≡ (if (log_line fl c now k).1 then pending c else pending c + 1))
        × KeysBounded (log_line fl c now k).0
  unfolding log_line
  log_line-counted c now k h =
      let taken = take_token fl c.logs now (fl.of_int log_rate) log_burst in
      let c' = record c { logs = taken.0 } in
      elim (Bool-cases taken.1) [
        | inl written ↦ rw written ((refl, refl), refl, h)
        | inr held ↦
            rw held (suppress-Recorded c' k, pending-suppress c' k, suppress-KeysBounded c' k h)
      ]
