-- ===== src/Common/Sort.antt =====
-- `xs.sort(compare)`: a stable sort has one result, which insertion computes. The argument says
-- whether the first of two elements may stay before the second, `compare(a, b) <= 0`.
use mathlib.Core.Path.{◌≡◌, refl}
use mathlib.Core.Bool.{Bool, ◌||◌}
use mathlib.Core.List.{List, [], ◌∷◌}
use native.Mathlib.Omega.{arith}
use rolekit.Common.Tests.{if◌then◌else◌}
use rolekit.Common.Text.{Text, has, dedupe, dedupe_from, text_eq_sound}

module _ {ℓ} {A : Type ℓ} (keeps : A → A → Bool) where
  unfoldable pub insert_by : A → List A → List A
  insert_by x [] = x ∷ []
  insert_by x (y ∷ ys) = if keeps x y then x ∷ y ∷ ys else y ∷ insert_by x ys

  unfoldable pub sort_by : List A → List A
  unfolding insert_by
  sort_by [] = []
  sort_by (x ∷ xs) = insert_by x (sort_by xs)

module _ (keeps : Text → Text → Bool) where
  has-insert_by :
      (x : Text) (xs : List Text) (s : Text) → has (insert_by keeps x xs) s ≡ has (x ∷ xs) s
  unfolding has insert_by
  has-insert_by x [] s = refl
  has-insert_by x (y ∷ ys) s = ground (arith, has-insert_by x ys s)

  pub has-sort_by : (xs : List Text) (s : Text) → has (sort_by keeps xs) s ≡ has xs s
  unfolding has sort_by
  has-sort_by [] s = refl
  has-sort_by (x ∷ xs) s = ground (arith, has-insert_by x (sort_by keeps xs) s, has-sort_by xs s)

has-dedupe_from :
    (seen xs : List Text) (s : Text)
    → (has seen s || has (dedupe_from seen xs) s) ≡ (has seen s || has xs s)
unfolding dedupe_from has
has-dedupe_from seen [] s = refl
has-dedupe_from seen (x ∷ xs) s =
    ground (arith, text_eq_sound x s, has-dedupe_from seen xs s, has-dedupe_from (x ∷ seen) xs s)

pub has-dedupe : (xs : List Text) (s : Text) → has (dedupe xs) s ≡ has xs s
unfolding dedupe has
has-dedupe xs s = has-dedupe_from [] xs s
