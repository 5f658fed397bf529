-- ===== src/Proxy/Dial/Plan.antt =====
-- vetted.dial tries nothing but addresses of the decision.
use proxy_acl.Base.{
  ℕ, zero, suc, ◌≡◌, ◌⊎◌, inl, inr, sym, ap, Bool, true, false, not, some, List, [], ◌∷◌, Member,
  Bool-cases, take, if◌then◌else◌, arith,
}
use proxy_acl.Base.Text.{Bytes, itoa, text_eq, text_eq_iff}
use proxy_acl.Netip.{Addr}
use proxy_acl.Proxy.Dial.{Vetted, same_family, families, dial_plan}
use proxy_acl.Proxy.Dial.Families.{filter_by, families_of}

take-Member : (n : ℕ) (xs : List Addr) (a : Addr) → Member a (take n xs) → Member a xs
unfolding take
take-Member zero xs a m = absurd m
take-Member (suc n) [] a m = absurd m
take-Member (suc n) (x ∷ xs) a (inl here) = inl here
take-Member (suc n) (x ∷ xs) a (inr there) = inr (take-Member n xs a there)

Member-test :
    (b : Bool) (x a : Addr) (kept xs : List Addr)
    → (Member a kept → Member a xs)
    → Member a (if b then x ∷ kept else kept)
    → Member a (x ∷ xs)
Member-test true x a kept xs later (inl here) = inl here
Member-test true x a kept xs later (inr there) = inr (later there)
Member-test false x a kept xs later there = inr (later there)

filter_by-Member :
    (p : Addr → Bool) (xs : List Addr) (a : Addr) → Member a (filter_by p xs) → Member a xs
unfolding filter_by
filter_by-Member p [] a m = absurd m
filter_by-Member p (x ∷ xs) a m =
    Member-test (p x) x a (filter_by p xs) xs (filter_by-Member p xs a) m

chosen-Member :
    (p : Addr → Bool) (chosen xs : List Addr) (a : Addr)
    → chosen ≡ take 3 (filter_by p xs)
    → Member a chosen
    → Member a xs
chosen-Member p chosen xs a e m =
    let m' : Member a (take 3 (filter_by p xs)) = rw (sym e) m in
    filter_by-Member p xs a (take-Member 3 (filter_by p xs) a m')

families-Member :
    (addrs : List Addr) (a : Addr)
    → Member a (families addrs).0 ⊎ Member a (families addrs).1
    → Member a addrs
unfolding families
families-Member [] a (inl m) = absurd m
families-Member [] a (inr m) = absurd m
families-Member (x ∷ xs) a (inl m) =
    chosen-Member (same_family x) _ (x ∷ xs) a (ap (λ r. r.0) (families_of x xs)) m
families-Member (x ∷ xs) a (inr m) =
    chosen-Member (λ b. not (same_family x b)) _ (x ∷ xs) a (ap (λ r. r.1) (families_of x xs)) m

-- If vetted.dial goes on to dial, the host and the port it was asked for are those that were checked,
-- and every address that it tries, in either family, is one of the decision's.
pub dial_plan-Member :
    (v : Vetted) (host port : Bytes) (primary fallback : List Addr)
    → dial_plan v (some (host, port)) ≡ some (primary, fallback)
    → (host ≡ v.host)
      × (port ≡ itoa v.port)
      × ((a : Addr) → Member a primary ⊎ Member a fallback → Member a v.addrs)
unfolding dial_plan
dial_plan-Member v host port primary fallback e = elim (Bool-cases (text_eq host v.host)) [
  | inr other ↦ absurd (grind arith)
  | inl same_host ↦ elim (Bool-cases (text_eq port (itoa v.port))) [
    | inr other ↦ absurd (grind arith)
    | inl same_port ↦
        let made : families v.addrs ≡ (primary, fallback) = grind arith in
        let first : primary ≡ (families v.addrs).0 = sym (ap (λ r. r.0) made) in
        let second : fallback ≡ (families v.addrs).1 = sym (ap (λ r. r.1) made) in
        (
          (text_eq_iff host v.host).0 same_host,
          (text_eq_iff port (itoa v.port)).0 same_port,
          λ a. rw (first, second) (λ m. families-Member v.addrs a m),
        )
  ]
]
