-- ===== src/Prelude/Dict.antt =====
-- Go maps as association lists, and sets of numbers as lists. The order of a list is the order in
-- which a `range` loop visits the map.
use Prim.Native.Nat.{ℕ}
use mathlib.Core.Bool.{Bool, true, false, ◌||◌}
use mathlib.Core.List.{List, [], ◌∷◌}
use mathlib.Core.Logic.{◌↔◌, inl, inr}
use mathlib.Core.Option
use mathlib.Core.Option.{Option, none, some}
use mathlib.Core.Path.{◌≡◌, refl}
use native.Mathlib.Omega.{arith}
use sercon.Prelude.Tests.{◌==◌, ==_iff, if◌then◌else◌, Option-cases}
use sercon.Prelude.Text.{Bytes, str_eq, str_eq_iff}

-- Keys that can be compared.
pub record Key {ℓ} (K : Type ℓ) : Type ℓ where
  pub beq : K → K → Bool
  pub beq_iff : (a b : K) → (beq a b ≡ true) ↔ (a ≡ b)

instance abbrev pub nat_key : Key ℕ
nat_key = record { beq = λ a b. a == b; beq_iff = ==_iff }

instance abbrev pub str_key : Key Bytes
str_key = record { beq = str_eq; beq_iff = str_eq_iff }

module _ {ℓ κ} {K : Type ℓ} {V : Type κ} ⦃e : Key K⦄ where
  unfoldable pub get : K → List (K × V) → Option V
  get k [] = none
  get k ((j, v) ∷ d) = if e.beq j k then some v else get k d

  unfoldable pub put : K → V → List (K × V) → List (K × V)
  put k v [] = (k, v) ∷ []
  put k v ((j, w) ∷ d) = if e.beq j k then (j, v) ∷ d else (j, w) ∷ put k v d

  -- The value under a key, changed in place.
  unfoldable pub adjust : K → (V → V) → List (K × V) → List (K × V)
  adjust k f [] = []
  adjust k f ((j, v) ∷ d) = if e.beq j k then (j, f v) ∷ d else (j, v) ∷ adjust k f d

  unfoldable pub delete : K → List (K × V) → List (K × V)
  delete k [] = []
  delete k ((j, v) ∷ d) = if e.beq j k then delete k d else (j, v) ∷ delete k d

  pub get-put :
      (k j : K) (v : V) (d : List (K × V))
      → get j (put k v d) ≡ (if e.beq k j then some v else get j d)
  unfolding get put
  get-put k j v [] = refl
  get-put k j v ((i, w) ∷ d) =
      ground (arith, e.beq_iff k j, e.beq_iff i k, e.beq_iff i j, get-put k j v d)

  pub get-adjust :
      (k j : K) (f : V → V) (d : List (K × V))
      → get j (adjust k f d) ≡ (if e.beq k j then Option.map f (get j d) else get j d)
  unfolding get adjust
  get-adjust k j f [] = ground arith
  get-adjust k j f ((i, w) ∷ d) =
      ground (arith, e.beq_iff k j, e.beq_iff i k, e.beq_iff i j, get-adjust k j f d)

  pub get-delete :
      (k j : K) (d : List (K × V)) → get j (delete k d) ≡ (if e.beq k j then none else get j d)
  unfolding get delete
  get-delete k j [] = ground arith
  get-delete k j ((i, w) ∷ d) =
      ground (arith, e.beq_iff k j, e.beq_iff i k, e.beq_iff i j, get-delete k j d)

module _ {ℓ κ} {K : Type ℓ} {V : Type κ} ⦃e : Key K⦄ where
  -- What stands under a key after `adjust`, in both directions.
  pub adjust-get :
      (k j : K) (f : V → V) (d : List (K × V)) {v : V}
      → get j d ≡ some v
      → get j (adjust k f d) ≡ some (if e.beq k j then f v else v)
  adjust-get k j f d h = ground (arith, get-adjust k j f d)

  pub adjust-inv :
      (k j : K) (f : V → V) (d : List (K × V)) {v : V}
      → get j (adjust k f d) ≡ some v
      → (w : V) × (get j d ≡ some w) × (v ≡ (if e.beq k j then f w else w))
  adjust-inv k j f d {v} h = elim (Option-cases (get j d)) [
    | inl none_there ↦ ground (arith, get-adjust k j f d)
    | inr (w, there) ↦ (w, there, ground (arith, get-adjust k j f d))
  ]

  pub get-put_self : (k : K) (v : V) (d : List (K × V)) → get k (put k v d) ≡ some v
  get-put_self k v d = ground (arith, get-put k k v d, e.beq_iff k k)

-- `_, ok := set[c]`
unfoldable pub has : ℕ → List ℕ → Bool
has c [] = false
has c (x ∷ xs) = x == c || has c xs

-- `set[c] = struct{}{}`
unfoldable pub include : ℕ → List ℕ → List ℕ
include c [] = c ∷ []
include c (x ∷ xs) = if x == c then x ∷ xs else x ∷ include c xs

-- `delete(set, c)`
unfoldable pub exclude : ℕ → List ℕ → List ℕ
exclude c [] = []
exclude c (x ∷ xs) = if x == c then exclude c xs else x ∷ exclude c xs

pub has-include : (c d : ℕ) (xs : List ℕ) → has d (include c xs) ≡ (c == d || has d xs)
unfolding has include
has-include c d [] = ground arith
has-include c d (x ∷ xs) = ground (arith, has-include c d xs)

pub has-exclude :
    (c d : ℕ) (xs : List ℕ) → has d (exclude c xs) ≡ (if c == d then false else has d xs)
unfolding has exclude
has-exclude c d [] = ground arith
has-exclude c d (x ∷ xs) = ground (arith, has-exclude c d xs)
