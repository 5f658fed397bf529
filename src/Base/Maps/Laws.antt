-- ===== src/Base/Maps/Laws.antt =====
-- The laws of maps, in the form that has no side condition.
use Prim.Native.Nat.{◌+◌, ◌≤◌}
use mathlib.Core.Path.{◌≡◌, refl, sym, ap, ◌∙◌}
use mathlib.Core.Logic.{inl, inr}
use mathlib.Core.Bool.{true, false}
use mathlib.Core.Option.{none, some}
use mathlib.Core.List.{[], ◌∷◌}
use native.Mathlib.Omega.{arith}
use proxy_acl.Base.Tests.{if◌then◌else◌, Bool-cases, Bool_ext}
use proxy_acl.Base.Lists.{length}
use proxy_acl.Base.Maps.{Key, GoMap, get, delete, put}

module _ {ℓ} {K : Type ℓ} ⦃key : Key K⦄ where
  pub same_refl : (k : K) → key.same k k ≡ true
  same_refl k = (key.same_iff k k).1 refl

  pub same_sym : (j k : K) → key.same j k ≡ key.same k j
  same_sym j k =
      Bool_ext (key.same j k) (key.same k j)
        (λ h. (key.same_iff k j).1 (sym ((key.same_iff j k).0 h)))
        (λ h. (key.same_iff j k).1 (sym ((key.same_iff k j).0 h)))

module _ {ℓ κ} {K : Type ℓ} {V : Type κ} ⦃key : Key K⦄ where
  pub get-delete :
      (k j : K) (m : GoMap K V) → get j (delete k m) ≡ (if key.same k j then none else get j m)
  unfolding get delete
  get-delete k j [] = ground arith
  get-delete k j ((i, v) ∷ m) = elim (Bool-cases (key.same i k)) [
    | inl here ↦
        let e : i ≡ k = (key.same_iff i k).0 here in rw (here, get-delete k j m, e) (ground arith)
    | inr other ↦ elim (Bool-cases (key.same i j)) [
      | inr apart ↦ rw (other, apart) (get-delete k j m)
      | inl found ↦
          let e : i ≡ j = (key.same_iff i j).0 found in
          let differs : key.same k j ≡ false =
            same_sym k j ∙ ap (λ x. key.same x k) (sym e) ∙ other in
          rw (other, found, differs) refl
    ]
  ]

  pub get-put :
      (k j : K) (v : V) (m : GoMap K V)
      → get j (put k v m) ≡ (if key.same k j then some v else get j m)
  unfolding get put
  get-put k j v m = elim (Bool-cases (key.same k j)) [
    | inl here ↦ rw here refl
    | inr other ↦ rw other (get-delete k j m ∙ rw other refl)
  ]

  pub get-put_self : (k : K) (v : V) (m : GoMap K V) → get k (put k v m) ≡ some v
  get-put_self k v m = get-put k k v m ∙ rw (same_refl k) refl

  pub length-delete : (k : K) (m : GoMap K V) → length (delete k m) ≤ length m
  unfolding delete
  length-delete k [] = omega arith
  length-delete k ((j, v) ∷ m) = ground (arith, length-delete k m)

  pub length-put : (k : K) (v : V) (m : GoMap K V) → length (put k v m) ≤ length m + 1
  unfolding put
  length-put k v m = omega (arith, length-delete k m)
