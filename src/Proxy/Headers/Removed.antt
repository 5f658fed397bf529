-- ===== src/Proxy/Headers/Removed.antt =====
-- Which headers are forwarded.
use proxy_acl.Base.{
  ◌≡◌, ◌↔◌, ◌⊎◌, inl, inr, refl, sym, ap, ◌∙◌, true, false, List, [], ◌∷◌, Member, Bool-cases,
  is_empty,
}
use proxy_acl.Base.Text.{Bytes, codes, text_eq, text_eq_iff, split}
use proxy_acl.Proxy.Headers.{
  Header, trim_string, hop_by_hop, values_at, delete_key, header_del, remove_parts, remove_fields,
  remove_names, remove_hop_by_hop,
}

-- `h'` has exactly the entries of `h` whose key is not one of `D`.
abbrev Without : (Bytes → Type 0) → Header → Header → Type 0
Without D h h' = (k : Bytes) (vs : List Bytes) → Member (k, vs) h' ↔ (Member (k, vs) h × ¬ D k)

Without-none : (D : Bytes → Type 0) (h : Header) → ((k : Bytes) → ¬ D k) → Without D h h
Without-none D h none_ k vs = (λ m. (m, none_ k), λ r. r.0)

Without-then :
    (C D E : Bytes → Type 0) (h h' h'' : Header)
    → Without C h h'
    → Without D h' h''
    → ((k : Bytes) → E k ↔ (C k ⊎ D k))
    → Without E h h''
Without-then C D E h h' h'' first second all k vs = (
  λ m.
      let (before, not_d) = (second k vs).0 m in
      let (start, not_c) = (first k vs).0 before in
      (start, λ e. elim ((all k).0 e) [ inl c ↦ not_c c | inr d ↦ not_d d ]),
  λ r.
      (second k vs).1
        ((first k vs).1 (r.0, λ c. r.1 ((all k).1 (inl c))), λ d. r.1 ((all k).1 (inr d))),
)

other_key :
    (key j k : Bytes) (ws vs : List Bytes)
    → text_eq j key ≡ false
    → ◌≡◌ {A = Bytes × List Bytes} (k, vs) (j, ws)
    → ¬ (k ≡ key)
other_key key j k ws vs different here e =
    let same : text_eq j key ≡ true = (text_eq_iff j key).1 (sym (ap (λ p. p.0) here) ∙ e) in cc

delete_key-Without : (key : Bytes) (h : Header) → Without (λ k. k ≡ key) h (delete_key key h)
unfolding delete_key
delete_key-Without key [] k vs = (λ m. absurd m, λ r. absurd r.0)
delete_key-Without key ((j, ws) ∷ h) k vs = elim (Bool-cases (text_eq j key)) [
  | inl same ↦
      let e : j ≡ key = (text_eq_iff j key).0 same in
      rw same (
        λ m. let (there, other) = (delete_key-Without key h k vs).0 m in (inr there, other),
        λ r. elim r.0 [
          | inl here ↦ absurd (r.1 (ap (λ p. p.0) here ∙ e))
          | inr there ↦ (delete_key-Without key h k vs).1 (there, r.1)
        ],
      )
  | inr different ↦ rw different (
    λ m. elim m [
      | inl here ↦ (inl here, other_key key j k ws vs different here)
      | inr there ↦
          let (before, other) = (delete_key-Without key h k vs).0 there in (inr before, other)
    ],
    λ r. elim r.0 [
      | inl here ↦ inl here
      | inr there ↦ inr ((delete_key-Without key h k vs).1 (there, r.1))
    ],
  )
]

module _ (canon : Bytes → Bytes) where
  -- A part of the field names the key.
  abbrev NamedPart : Bytes → List Bytes → Type 0
  NamedPart k parts =
      (part : Bytes) × Member part parts
      × (is_empty (trim_string part) ≡ false)
      × (k ≡ canon (trim_string part))

  -- A field of Connection has the key's name between its commas.
  abbrev pub NamedBy : Bytes → List Bytes → Type 0
  NamedBy k fields = (field : Bytes) × Member field fields × NamedPart k (split field b',')

  abbrev pub Listed : Bytes → List Bytes → Type 0
  Listed k names = (name : Bytes) × Member name names × (k ≡ canon name)

  remove_names-Without :
      (h : Header) (names : List Bytes)
      → Without (λ k. Listed k names) h (remove_names canon h names)
  unfolding remove_names header_del
  remove_names-Without h [] = Without-none _ h (λ k (name, m, e). m)
  remove_names-Without h (name ∷ names) =
      Without-then (λ k. k ≡ canon name) (λ k. Listed k names) (λ k. Listed k (name ∷ names)) h _ _
        (delete_key-Without (canon name) h) (remove_names-Without (delete_key (canon name) h) names)
        (λ k. (
          λ (n, m, e). elim m [
            | inl here ↦ inl (e ∙ ap canon here)
            | inr there ↦ inr (n, there, e)
          ],
          λ s. elim s [ inl e ↦ (name, inl refl, e) | inr (n, there, e) ↦ (n, inr there, e) ],
        ))

  remove_parts-Without :
      (h : Header) (parts : List Bytes)
      → Without (λ k. NamedPart k parts) h (remove_parts canon h parts)
  unfolding remove_parts header_del
  remove_parts-Without h [] = Without-none _ h (λ k (part, m, filled, e). m)
  remove_parts-Without h (part ∷ parts) = elim (Bool-cases (is_empty (trim_string part))) [
    | inl empty ↦ rw empty (
        Without-then (λ k. ⊥) (λ k. NamedPart k parts) (λ k. NamedPart k (part ∷ parts)) h h _
          (Without-none _ h (λ k never. never)) (remove_parts-Without h parts)
          (λ k. (
            λ (n, m, filled, e). elim m [
              | inl here ↦ absurd (clash n here empty filled)
              | inr there ↦ inr (n, there, filled, e)
            ],
            λ s. elim s [
              | inl never ↦ absurd never
              | inr (n, there, filled, e) ↦ (n, inr there, filled, e)
            ],
          )))
    | inr filled ↦ rw filled (
        Without-then (λ k. k ≡ canon (trim_string part)) (λ k. NamedPart k parts)
          (λ k. NamedPart k (part ∷ parts)) h _ _ (delete_key-Without (canon (trim_string part)) h)
          (remove_parts-Without (delete_key (canon (trim_string part)) h) parts)
          (λ k. (
            λ (n, m, some_, e). elim m [
              | inl here ↦ inl (e ∙ ap (λ p. canon (trim_string p)) here)
              | inr there ↦ inr (n, there, some_, e)
            ],
            λ s. elim s [
              | inl e ↦ (part, inl refl, filled, e)
              | inr (n, there, some_, e) ↦ (n, inr there, some_, e)
            ],
          )))
  ]
    where
      clash :
          (n : Bytes)
          → n ≡ part
          → is_empty (trim_string part) ≡ true
          → ¬ (is_empty (trim_string n) ≡ false)
      clash n here empty filled = let same : is_empty (trim_string n) ≡ true = rw here empty in cc

  remove_fields-Without :
      (h : Header) (fields : List Bytes)
      → Without (λ k. NamedBy k fields) h (remove_fields canon h fields)
  unfolding remove_fields
  remove_fields-Without h [] = Without-none _ h (λ k (field, m, named). m)
  remove_fields-Without h (field ∷ fields) =
      Without-then (λ k. NamedPart k (split field b',')) (λ k. NamedBy k fields)
        (λ k. NamedBy k (field ∷ fields)) h _ _ (remove_parts-Without h (split field b','))
        (remove_fields-Without (remove_parts canon h (split field b',')) fields)
        (λ k. (
          λ (f, m, named). elim m [
            | inl here ↦
                let named' : NamedPart k (split field b',') = rw (sym here) named in inl named'
            | inr there ↦ inr (f, there, named)
          ],
          λ s. elim s [
            | inl named ↦ (field, inl refl, named)
            | inr (f, there, named) ↦ (f, inr there, named)
          ],
        ))

  -- A header is kept, with its values, exactly if its key is neither named between the commas of the
  -- Connection fields nor one of the nine hop-by-hop names, each name in its canonical form.
  pub remove_hop_by_hop_iff :
      (h : Header) (k : Bytes) (vs : List Bytes)
      → Member (k, vs) (remove_hop_by_hop canon h) ↔ (
          Member (k, vs) h
          × ¬ (NamedBy k (values_at (canon (codes "Connection")) h) ⊎ Listed k hop_by_hop))
  unfolding remove_hop_by_hop
  remove_hop_by_hop_iff h =
      let fields = values_at (canon (codes "Connection")) h in
      Without-then (λ k. NamedBy k fields) (λ k. Listed k hop_by_hop)
        (λ k. NamedBy k fields ⊎ Listed k hop_by_hop) h _ _ (remove_fields-Without h fields)
        (remove_names-Without (remove_fields canon h fields) hop_by_hop) (λ k. (λ s. s, λ s. s))
