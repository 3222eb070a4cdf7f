-- ===== src/Prelude/Sort.antt =====
-- `sort.Strings`, and `sort.Slice` by a text field: insertion into a sorted list.
use Prim.Native.Nat.{ℕ, ◌+◌}
use mathlib.Core.Bool.{Bool, true, false, ◌&&◌, ◌||◌}
use mathlib.Core.List.{List, [], ◌∷◌}
use mathlib.Core.Path.{◌≡◌, refl, ◌∙◌}
use native.Mathlib.Omega.{arith}
use sercon.Prelude.Tests.{ltb, ◌==◌, if◌then◌else◌, if-intro}
use sercon.Prelude.Text.{Bytes}

-- `a < b` on strings
unfoldable pub str_lt : Bytes → Bytes → Bool
str_lt a [] = false
str_lt [] (y ∷ b) = true
str_lt (x ∷ a) (y ∷ b) = ltb x y || (x == y && str_lt a b)

module _ {ℓ} {A : Type ℓ} (key : A → Bytes) where
  unfoldable pub insert_by : A → List A → List A
  insert_by a [] = a ∷ []
  insert_by a (x ∷ xs) = if str_lt (key x) (key a) then x ∷ insert_by a xs else a ∷ x ∷ xs

  unfoldable pub sort_by : List A → List A
  unfolding insert_by
  sort_by [] = []
  sort_by (x ∷ xs) = insert_by x (sort_by xs)

-- How many elements pass a test: two lists that agree on every test hold the same elements.
abbrev pub count {ℓ} : {A : Type ℓ} → (A → Bool) → List A → ℕ
count t [] = 0
count t (x ∷ xs) = (if t x then 1 else 0) + count t xs

pub str_lt-asym : (a b : Bytes) → str_lt a b ≡ true → str_lt b a ≡ false
unfolding str_lt
str_lt-asym a [] h = cc
str_lt-asym [] (y ∷ b) h = refl
str_lt-asym (x ∷ a) (y ∷ b) h = ground (arith, str_lt-asym a b)

module _ {A : Type 0} (key : A → Bytes) where
  -- No element is before its predecessor.
  abbrev pub IsAfter : A → List A → Type 0
  IsAfter x [] = Unit
  IsAfter x (y ∷ ys) = str_lt (key y) (key x) ≡ false

  abbrev pub IsSorted : List A → Type 0
  IsSorted [] = Unit
  IsSorted (x ∷ xs) = IsAfter x xs × IsSorted xs

  insert_by-IsAfter :
      (x a : A) (xs : List A)
      → IsAfter x xs
      → str_lt (key x) (key a) ≡ true
      → IsAfter x (insert_by key a xs)
  unfolding insert_by
  insert_by-IsAfter x a [] h lt = str_lt-asym (key x) (key a) lt
  insert_by-IsAfter x a (y ∷ ys) h lt =
      if-intro (IsAfter x) (str_lt (key y) (key a)) _ _ (λ _. h)
        (λ _. str_lt-asym (key x) (key a) lt)

  insert_by-IsSorted : (a : A) (xs : List A) → IsSorted xs → IsSorted (insert_by key a xs)
  unfolding insert_by
  insert_by-IsSorted a [] h = (tt, tt)
  insert_by-IsSorted a (x ∷ xs) h =
      if-intro IsSorted (str_lt (key x) (key a)) _ _
        (λ lt. (insert_by-IsAfter x a xs h.0 lt, insert_by-IsSorted a xs h.1)) (λ ge. (ge, h))

  pub sort_by-IsSorted : (xs : List A) → IsSorted (sort_by key xs)
  unfolding sort_by
  sort_by-IsSorted [] = tt
  sort_by-IsSorted (x ∷ xs) = insert_by-IsSorted x (sort_by key xs) (sort_by-IsSorted xs)

  count-insert_by :
      (t : A → Bool) (a : A) (xs : List A) → count t (insert_by key a xs) ≡ count t (a ∷ xs)
  unfolding insert_by
  count-insert_by t a [] = refl
  count-insert_by t a (x ∷ xs) =
      if-intro (λ ys. count t ys ≡ count t (a ∷ x ∷ xs)) (str_lt (key x) (key a)) _ _
        (λ _. omega (arith, count-insert_by t a xs)) (λ _. refl)

  pub count-sort_by : (t : A → Bool) (xs : List A) → count t (sort_by key xs) ≡ count t xs
  unfolding sort_by
  count-sort_by t [] = refl
  count-sort_by t (x ∷ xs) =
      count-insert_by t x (sort_by key xs) ∙ omega (arith, count-sort_by t xs)
