-- ===== src/Common/Dict.antt =====
-- Python's dict as an association list in insertion order, over a key type with a Boolean equality.
use mathlib.Core.Path.{◌≡◌, refl}
use mathlib.Core.Bool.{Bool, true}
use mathlib.Core.List.{List, [], ◌∷◌}
use mathlib.Core.Logic.{◌↔◌}
use mathlib.Core.Option.{Option, none, some}
use native.Mathlib.Omega.{arith}
use email_extractor.Common.Tests.{if◌then◌else◌, ◌==◌, ==_iff}
use text.Mathlib.Text.{◌==◌ as str_eq}
use text.Mathlib.TextEquality.{eq_iff}
use Prim.Native.String.{String}
use Prim.Native.Nat.{ℕ}

-- A Boolean equality test.
pub record Eq {ℓ} (A : Type ℓ) : Type ℓ where
  pub beq : A → A → Bool
  pub beq_iff : (a b : A) → (beq a b ≡ true) ↔ (a ≡ b)

module _ {ℓ κ} {K : Type ℓ} {V : Type κ} ⦃e : Eq K⦄ where
  -- `d.get(k)`
  abbrev pub get : K → List (K × V) → Option V
  get k [] = none
  get k ((j, v) ∷ d) = if e.beq j k then some v else get k d

  -- `d[k] = v`
  abbrev pub put : K → V → List (K × V) → List (K × V)
  put k v [] = (k, v) ∷ []
  put k v ((j, w) ∷ d) = if e.beq j k then (j, v) ∷ d else (j, w) ∷ put k v d

  pub get-put :
      (k j : K) (v : V) (d : List (K × V))
      → get j (put k v d) ≡ (if e.beq k j then some v else get j d)
  get-put k j v [] = refl
  get-put k j v ((i, w) ∷ d) =
      ground (arith, e.beq_iff k j, e.beq_iff i k, e.beq_iff i j, get-put k j v d)

instance abbrev pub string_eq : Eq String
string_eq = record { beq = str_eq; beq_iff = eq_iff }

instance abbrev pub nat_eq : Eq ℕ
nat_eq = record { beq = ◌==◌; beq_iff = ==_iff }
