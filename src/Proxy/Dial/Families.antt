-- ===== src/Proxy/Dial/Families.antt =====
-- The addresses that are tried: the first three of each family.
use proxy_acl.Base.{
  ℕ, zero, suc, ◌-◌, ◌≤◌, ◌≡◌, refl, ◌∙◌, Bool, not, ◌&&◌, List, [], ◌∷◌, ◌++◌, append-nil,
  append_assoc, arith, ltb, length, length-append, take, if◌then◌else◌, Bool-cases, inl, inr,
}
use proxy_acl.Netip.{Addr}
use proxy_acl.Proxy.Dial.{max_addrs_per_family, same_family, group, families}

-- The elements that pass a test.
unfoldable pub filter_by : (Addr → Bool) → List Addr → List Addr
filter_by p [] = []
filter_by p (a ∷ addrs) = let rest = filter_by p addrs in if p a then a ∷ rest else rest

-- A list filled up to three with the next elements that pass.
abbrev fill : (Addr → Bool) → List Addr → List Addr → List Addr
fill p l addrs = l ++ take (max_addrs_per_family - length l) (filter_by p addrs)

fill-step :
    (p : Addr → Bool) (l : List Addr) (a : Addr) (addrs : List Addr)
    → length l ≤ 3
    → fill p (if p a && ltb (length l) max_addrs_per_family then l ++ a ∷ [] else l) addrs
      ≡ fill p l (a ∷ addrs)
unfolding filter_by take
fill-step p l a addrs bound = elim (Bool-cases (p a)) [
  | inr other ↦ rw other refl
  | inl same ↦ rw same (elim (Bool-cases (ltb (length l) 3)) [
    | inr full ↦
        let none_left : 3 - length l ≡ 0 = ground (arith, full) in rw (full, none_left) refl
    | inl room ↦
        let left : 3 - length l ≡ suc (3 - length (l ++ a ∷ [])) =
          ground (arith, room, length-append l (a ∷ [])) in
        rw (room, left) (append_assoc l (a ∷ []) _)
  ])
]

length-fill :
    (b : Bool) (l : List Addr) (a : Addr)
    → length l ≤ 3
    → length (if b && ltb (length l) max_addrs_per_family then l ++ a ∷ [] else l) ≤ 3
length-fill b l a bound = ground (arith, length-append l (a ∷ []))

take-nil : (n : ℕ) → take {A = Addr} n [] ≡ []
unfolding take
take-nil zero = refl
take-nil (suc n) = refl

group_fills :
    (first : Addr) (addrs primary fallback : List Addr)
    → length primary ≤ 3
    → length fallback ≤ 3
    → group first primary fallback addrs ≡ (
      fill (same_family first) primary addrs,
      fill (λ a. not (same_family first a)) fallback addrs,
    )
unfolding group take filter_by
group_fills first [] primary fallback p f =
    rw
      (
        take-nil (3 - length primary),
        take-nil (3 - length fallback),
        append-nil primary,
        append-nil fallback,
      )
      refl
group_fills first (a ∷ addrs) primary fallback p f =
    group_fills first addrs _ _ (length-fill (same_family first a) primary a p)
      (length-fill (not (same_family first a)) fallback a f)
    ∙ rw
        (
          fill-step (same_family first) primary a addrs p,
          fill-step (λ b. not (same_family first b)) fallback a addrs f,
        )
        refl

-- The addresses to try first are the first three of the family of the destination's first address,
-- and the fallback ones the first three of the other family, both in the order of the decision.
pub families_of :
    (a : Addr) (addrs : List Addr)
    → families (a ∷ addrs) ≡ (
      take 3 (filter_by (same_family a) (a ∷ addrs)),
      take 3 (filter_by (λ b. not (same_family a b)) (a ∷ addrs)),
    )
unfolding families
families_of a addrs = group_fills a (a ∷ addrs) [] [] (omega arith) (omega arith)
