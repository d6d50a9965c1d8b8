-- ===== src/Core/Response/Distinct.antt =====
-- `duplicateValues` against the lists with no repeated value.
use rolekit.Common.{
  false, not, ◌&&◌, ◌≡◌, refl, ◌≢◌, ◌↔◌, inl, inr, List, [], ◌∷◌, ◌++◌, All, arith, Bool-cases,
}
use rolekit.Common.Text.{Text, text_eq, has}
use rolekit.Common.SortedUnique.{IsDistinct}
use rolekit.Core.Response.Validate.{duplicates_from, duplicate_values}

abbrev IsFresh : List Text → List Text → Type 0
IsFresh seen [] = Unit
IsFresh seen (x ∷ xs) = (has seen x ≡ false) × IsFresh (x ∷ seen) xs

duplicates_from-cons :
    (seen : List Text) (d : Text) (found xs : List Text) → duplicates_from seen (d ∷ found) xs ≢ []
unfolding duplicates_from
duplicates_from-cons seen d found [] = cc
duplicates_from-cons seen d found (x ∷ xs) =
    elim (Bool-cases (has seen x && not (has (d ∷ found) x))) [
      | inl new ↦ rw new (duplicates_from-cons (x ∷ seen) d (found ++ (x ∷ [])) xs)
      | inr old ↦ rw old (duplicates_from-cons (x ∷ seen) d found xs)
    ]

IsFresh-of_duplicates : (seen xs : List Text) → duplicates_from seen [] xs ≡ [] → IsFresh seen xs
unfolding duplicates_from has
IsFresh-of_duplicates seen [] h = tt
IsFresh-of_duplicates seen (x ∷ xs) h = elim (Bool-cases (has seen x)) [
  | inl old ↦ absurd (duplicates_from-cons (x ∷ seen) x [] xs (rw (old, duplicates_from) at h))
  | inr new ↦ (new, IsFresh-of_duplicates (x ∷ seen) xs (rw (new, duplicates_from) at h))
]

duplicates_of_IsFresh : (seen xs : List Text) → IsFresh seen xs → duplicates_from seen [] xs ≡ []
unfolding duplicates_from has
duplicates_of_IsFresh seen [] h = refl
duplicates_of_IsFresh seen (x ∷ xs) (new, h) = rw new (duplicates_of_IsFresh (x ∷ seen) xs h)

All-not_has-cons :
    (x : Text) (seen xs : List Text)
    → All (λ y. has (x ∷ seen) y ≡ false) xs
      ↔ (All (λ y. text_eq x y ≡ false) xs × All (λ y. has seen y ≡ false) xs)
unfolding has
All-not_has-cons x seen [] = (λ _. (tt, tt), λ _. tt)
All-not_has-cons x seen (y ∷ ys) =
    let ih = All-not_has-cons x seen ys in
    (
      (λ h. ((ground arith, (ih.0 h.1).0), (ground arith, (ih.0 h.1).1))),
      (λ h. (ground arith, ih.1 (h.0.1, h.1.1))),
    )

IsFresh-iff :
    (seen xs : List Text) → IsFresh seen xs ↔ (All (λ y. has seen y ≡ false) xs × IsDistinct xs)
IsFresh-iff seen [] = (λ _. (tt, tt), λ _. tt)
IsFresh-iff seen (x ∷ xs) =
    let ih = IsFresh-iff (x ∷ seen) xs in
    let both = All-not_has-cons x seen xs in
    (
      (λ h.
          let (away, distinct) = ih.0 h.1 in ((h.0, (both.0 away).1), ((both.0 away).0, distinct))),
      (λ h. (h.0.0, ih.1 (both.1 (h.1.0, h.0.1), h.1.1))),
    )

not_has-nil : (xs : List Text) → All (λ y. has [] y ≡ false) xs
unfolding has
not_has-nil [] = tt
not_has-nil (x ∷ xs) = (refl, not_has-nil xs)

-- `duplicateValues` finds nothing exactly in a list with no repeated value.
pub duplicate_values-eq-nil_iff : (xs : List Text) → (duplicate_values xs ≡ []) ↔ IsDistinct xs
unfolding duplicate_values
duplicate_values-eq-nil_iff xs = (
  (λ h. ((IsFresh-iff [] xs).0 (IsFresh-of_duplicates [] xs h)).1),
  (λ h. duplicates_of_IsFresh [] xs ((IsFresh-iff [] xs).1 (not_has-nil xs, h))),
)
