-- ===== src/Common/SortedUnique.antt =====
-- `[...new Set(xs)].sort()`: the distinct values in the order of their UTF-16 code units.
use mathlib.Core.Path.{◌≡◌, refl, ap, ◌∙◌}
use mathlib.Core.Logic.{◌⊎◌, inl, inr}
use mathlib.Core.Bool.{Bool, true, false, ◌&&◌, ◌||◌}
use mathlib.Core.List.{List, [], ◌∷◌}
use native.Mathlib.Omega.{arith}
use rolekit.Common.Tests.{◌==◌, ltb, Bool-cases}
use rolekit.Common.Lists.{All}
use rolekit.Common.Text.{Text, text_eq, text_eq_sound, text_eq_refl, has, dedupe, dedupe_from}
use rolekit.Common.Sort.{insert_by, sort_by, has-sort_by, has-dedupe}

-- Whether the first text does not come after the second.
unfoldable pub text_leb : Text → Text → Bool
text_leb [] t = true
text_leb (a ∷ s) [] = false
text_leb (a ∷ s) (b ∷ t) = ltb a b || (a == b && text_leb s t)

unfoldable pub sorted_unique : List Text → List Text
unfolding dedupe sort_by text_leb
sorted_unique xs = sort_by text_leb (dedupe xs)

text_leb_total : (s t : Text) → (text_leb s t ≡ true) ⊎ (text_leb t s ≡ true)
unfolding text_leb
text_leb_total [] t = inl refl
text_leb_total (a ∷ s) [] = inr refl
text_leb_total (a ∷ s) (b ∷ t) = ground (arith, text_leb_total s t)

text_eq_sym : (s t : Text) → text_eq s t ≡ false → text_eq t s ≡ false
text_eq_sym s t h = elim (Bool-cases (text_eq t s)) [
  | inl same ↦ absurd (false_ne (text_eq_sound t s same) h)
  | inr other ↦ other
]
  where
    false_ne : t ≡ s → text_eq s t ≡ false → ⊥
    false_ne e k = let r : text_eq s t ≡ true = rw e (text_eq_refl s) in ground arith

-- Each element may stand before the next.
abbrev pub IsSorted : List Text → Type 0
IsSorted [] = Unit
IsSorted (x ∷ []) = Unit
IsSorted (x ∷ y ∷ ys) = (text_leb x y ≡ true) × IsSorted (y ∷ ys)

-- No element is equal to a later one.
abbrev pub IsDistinct : List Text → Type 0
IsDistinct [] = Unit
IsDistinct (x ∷ xs) = All (λ y. text_eq x y ≡ false) xs × IsDistinct xs

insert_by-IsSorted : (x : Text) (xs : List Text) → IsSorted xs → IsSorted (insert_by text_leb x xs)
unfolding insert_by
insert_by-IsSorted x [] h = tt
insert_by-IsSorted x (y ∷ []) h = ground (arith, text_leb_total x y)
insert_by-IsSorted x (y ∷ z ∷ zs) h =
    ground (arith, text_leb_total x y, insert_by-IsSorted x (z ∷ zs))

sort_by-IsSorted : (xs : List Text) → IsSorted (sort_by text_leb xs)
unfolding sort_by
sort_by-IsSorted [] = tt
sort_by-IsSorted (x ∷ xs) = insert_by-IsSorted x (sort_by text_leb xs) (sort_by-IsSorted xs)

sort_by_sorted : (xs : List Text) → IsSorted xs → sort_by text_leb xs ≡ xs
unfolding sort_by
sort_by_sorted [] h = refl
sort_by_sorted (x ∷ []) h = refl
sort_by_sorted (x ∷ y ∷ ys) h = rw (sort_by_sorted (y ∷ ys) h.1) (insert_first x y ys h.0)
  where
    insert_first :
        (x y : Text) (ys : List Text)
        → text_leb x y ≡ true
        → insert_by text_leb x (y ∷ ys) ≡ x ∷ y ∷ ys
    insert_first x y ys h = ground arith

All-insert_by :
    (P : Text → Type 0) (x : Text) (xs : List Text)
    → P x
    → All P xs
    → All P (insert_by text_leb x xs)
unfolding insert_by
All-insert_by P x [] p h = (p, tt)
All-insert_by P x (y ∷ ys) p (q, h) = elim (Bool-cases (text_leb x y)) [
  | inl first ↦ rw first (p, (q, h))
  | inr later ↦ rw later (q, All-insert_by P x ys p h)
]

insert_by-IsDistinct :
    (x : Text) (xs : List Text)
    → All (λ y. text_eq x y ≡ false) xs
    → IsDistinct xs
    → IsDistinct (insert_by text_leb x xs)
unfolding insert_by
insert_by-IsDistinct x [] d h = (tt, tt)
insert_by-IsDistinct x (y ∷ ys) (ne, d) (away, h) = elim (Bool-cases (text_leb x y)) [
  | inl first ↦ rw first ((ne, d), (away, h))
  | inr later ↦ rw later (
    All-insert_by (λ z. text_eq y z ≡ false) x ys (text_eq_sym x y ne) away,
    insert_by-IsDistinct x ys d h,
  )
]

All-sort_by : (P : Text → Type 0) (xs : List Text) → All P xs → All P (sort_by text_leb xs)
unfolding sort_by
All-sort_by P [] h = tt
All-sort_by P (x ∷ xs) (p, h) = All-insert_by P x (sort_by text_leb xs) p (All-sort_by P xs h)

sort_by-IsDistinct : (xs : List Text) → IsDistinct xs → IsDistinct (sort_by text_leb xs)
unfolding sort_by
sort_by-IsDistinct [] h = tt
sort_by-IsDistinct (x ∷ xs) (away, h) =
    insert_by-IsDistinct x (sort_by text_leb xs) (All-sort_by (λ y. text_eq x y ≡ false) xs away)
      (sort_by-IsDistinct xs h)

-- What `dedupe_from` lets through is new.
dedupe_from_new : (seen xs : List Text) → All (λ y. has seen y ≡ false) (dedupe_from seen xs)
unfolding dedupe_from has
dedupe_from_new seen [] = tt
dedupe_from_new seen (x ∷ xs) = elim (Bool-cases (has seen x)) [
  | inl old ↦ rw old (dedupe_from_new seen xs)
  | inr new ↦
      rw new (new, weaken x seen (dedupe_from (x ∷ seen) xs) (dedupe_from_new (x ∷ seen) xs))
]
  where
    weaken :
        (x : Text) (seen ys : List Text)
        → All (λ y. has (x ∷ seen) y ≡ false) ys
        → All (λ y. has seen y ≡ false) ys
    weaken x seen [] h = tt
    weaken x seen (y ∷ ys) (p, h) = (ground arith, weaken x seen ys h)

new_apart :
    (x : Text) (seen ys : List Text)
    → All (λ y. has (x ∷ seen) y ≡ false) ys
    → All (λ y. text_eq x y ≡ false) ys
unfolding has
new_apart x seen [] h = tt
new_apart x seen (y ∷ ys) (p, h) = (ground arith, new_apart x seen ys h)

dedupe_from-IsDistinct : (seen xs : List Text) → IsDistinct (dedupe_from seen xs)
unfolding dedupe_from
dedupe_from-IsDistinct seen [] = tt
dedupe_from-IsDistinct seen (x ∷ xs) = elim (Bool-cases (has seen x)) [
  | inl old ↦ rw old (dedupe_from-IsDistinct seen xs)
  | inr new ↦ rw new (
    new_apart x seen (dedupe_from (x ∷ seen) xs) (dedupe_from_new (x ∷ seen) xs),
    dedupe_from-IsDistinct (x ∷ seen) xs,
  )
]

has_new-cons :
    (x : Text) (seen ys : List Text)
    → All (λ y. text_eq x y ≡ false) ys
    → All (λ y. has seen y ≡ false) ys
    → All (λ y. has (x ∷ seen) y ≡ false) ys
unfolding has
has_new-cons x seen [] h k = tt
has_new-cons x seen (y ∷ ys) (p, h) (q, k) = (ground arith, has_new-cons x seen ys h k)

dedupe_from_distinct :
    (seen xs : List Text)
    → All (λ y. has seen y ≡ false) xs
    → IsDistinct xs
    → dedupe_from seen xs ≡ xs
unfolding dedupe_from
dedupe_from_distinct seen [] n h = refl
dedupe_from_distinct seen (x ∷ xs) (new, n) (away, h) =
    rw new
      (ap (λ ys. x ∷ ys) (dedupe_from_distinct (x ∷ seen) xs (has_new-cons x seen xs away n) h))

has_nothing : (xs : List Text) → All (λ y. has [] y ≡ false) xs
unfolding has
has_nothing [] = tt
has_nothing (x ∷ xs) = (refl, has_nothing xs)

pub sorted_unique-IsSorted : (xs : List Text) → IsSorted (sorted_unique xs)
unfolding sorted_unique
sorted_unique-IsSorted xs = sort_by-IsSorted (dedupe xs)

pub sorted_unique-IsDistinct : (xs : List Text) → IsDistinct (sorted_unique xs)
unfolding sorted_unique
sorted_unique-IsDistinct xs = sort_by-IsDistinct (dedupe xs) (dedupe_from-IsDistinct [] xs)

pub has-sorted_unique : (xs : List Text) (s : Text) → has (sorted_unique xs) s ≡ has xs s
unfolding sorted_unique
has-sorted_unique xs s = has-sort_by text_leb (dedupe xs) s ∙ has-dedupe xs s

pub sorted_unique_idempotent :
    (xs : List Text) → sorted_unique (sorted_unique xs) ≡ sorted_unique xs
unfolding sorted_unique
sorted_unique_idempotent xs =
    ap (sort_by text_leb) (
      dedupe_from_distinct [] (sorted_unique xs) (has_nothing (sorted_unique xs))
        (sort_by-IsDistinct (dedupe xs) (dedupe_from-IsDistinct [] xs)))
    ∙ sort_by_sorted (sorted_unique xs) (sort_by-IsSorted (dedupe xs))
