-- ===== src/Base/Maps.antt =====
-- Go maps as association lists, for every type of keys with a test of equality.
pub mod Laws
use Prim.Native.Nat.{ℕ}
use mathlib.Core.Path.{◌≡◌}
use mathlib.Core.Logic.{◌↔◌}
use mathlib.Core.Bool.{Bool, true, false}
use mathlib.Core.Option.{Option, none, some}
use mathlib.Core.List.{List, [], ◌∷◌}
use proxy_acl.Base.Tests.{if◌then◌else◌}
use proxy_acl.Base.Text.{Bytes, text_eq, text_eq_iff}

pub record Key {ℓ} (K : Type ℓ) : Type ℓ where
  pub same : K → K → Bool
  pub same_iff : (j k : K) → (same j k ≡ true) ↔ (j ≡ k)

instance abbrev pub text_key : Key Bytes
text_key = record { same = text_eq; same_iff = text_eq_iff }

abbrev pub GoMap {ℓ κ} : Type ℓ → Type κ → Type (ℓ ⊔ κ)
GoMap K V = List (K × V)

module _ {ℓ κ} {K : Type ℓ} {V : Type κ} ⦃key : Key K⦄ where
  -- v, ok := m[k]
  unfoldable pub get : K → GoMap K V → Option V
  get k [] = none
  get k ((j, v) ∷ m) = if key.same j k then some v else get k m

  -- delete(m, k)
  unfoldable pub delete : K → GoMap K V → GoMap K V
  delete k [] = []
  delete k ((j, v) ∷ m) = let rest = delete k m in if key.same j k then rest else (j, v) ∷ rest

  -- m[k] = v
  unfoldable pub put : K → V → GoMap K V → GoMap K V
  unfolding delete
  put k v m = (k, v) ∷ delete k m
