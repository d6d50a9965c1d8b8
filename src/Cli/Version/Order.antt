-- ===== src/Cli/Version/Order.antt =====
-- The precedence of versions is a total order.
use rolekit.Common.{
  true, false, not, ◌≡◌, refl, inl, inr, Option, none, some, List, [], ◌∷◌, arith, Bool-cases,
}
use rolekit.Common.Text.{Text, text_eq, text_eq_sound, text_eq_refl}
use rolekit.Cli.Version.Compare.{
  Order, before, same, after, ParsedVersion, text_ltb, split_dots, compare_numeric_identifiers,
  compare_identifiers, compare_pieces, compare_prereleases, compare_tags, compare_parsed_versions,
}

abbrev pub turned : Order → Order
turned before = after
turned same = same
turned after = before

text_eq_comm : (s t : Text) → text_eq s t ≡ text_eq t s
unfolding text_eq
text_eq_comm [] [] = refl
text_eq_comm [] (b ∷ t) = refl
text_eq_comm (a ∷ s) [] = refl
text_eq_comm (a ∷ s) (b ∷ t) = ground (arith, text_eq_comm s t)

text_eq_trans : (s t u : Text) → text_eq s t ≡ true → text_eq t u ≡ true → text_eq s u ≡ true
text_eq_trans s t u p q = rw (text_eq_sound s t p, text_eq_sound t u q) (text_eq_refl u)

text_ltb-turned : (s t : Text) → text_eq s t ≡ false → text_ltb t s ≡ not (text_ltb s t)
unfolding text_eq text_ltb
text_ltb-turned [] [] h = cc
text_ltb-turned [] (b ∷ t) h = refl
text_ltb-turned (a ∷ s) [] h = refl
text_ltb-turned (a ∷ s) (b ∷ t) h = ground (arith, text_ltb-turned s t)

text_ltb_trans : (s t u : Text) → text_ltb s t ≡ true → text_ltb t u ≡ true → text_ltb s u ≡ true
unfolding text_ltb
text_ltb_trans s [] u p q = ground arith
text_ltb_trans s (b ∷ t) [] p q = ground arith
text_ltb_trans [] (b ∷ t) (c ∷ u) p q = refl
text_ltb_trans (a ∷ s) (b ∷ t) (c ∷ u) p q = ground (arith, text_ltb_trans s t u)

text_ltb_distinct : (s t : Text) → text_ltb s t ≡ true → text_eq s t ≡ false
unfolding text_eq text_ltb
text_ltb_distinct s [] h = ground arith
text_ltb_distinct [] (b ∷ t) h = refl
text_ltb_distinct (a ∷ s) (b ∷ t) h = ground (arith, text_ltb_distinct s t)

compare_identifiers-turned :
    (x y : Text) → text_eq x y ≡ false → compare_identifiers y x ≡ turned (compare_identifiers x y)
unfolding compare_identifiers compare_numeric_identifiers
compare_identifiers-turned x y h = ground (arith, text_ltb-turned x y, text_eq_comm x y)

compare_identifiers_trans :
    (x y z : Text)
    → text_eq x y ≡ false
    → text_eq y z ≡ false
    → compare_identifiers x y ≡ before
    → compare_identifiers y z ≡ before
    → compare_identifiers x z ≡ before
unfolding compare_identifiers compare_numeric_identifiers
compare_identifiers_trans x y z n m p q =
    ground (arith, text_ltb_trans x y z, text_ltb_distinct x z)

compare_pieces-turned : (xs ys : List Text) → compare_pieces ys xs ≡ turned (compare_pieces xs ys)
unfolding compare_pieces
compare_pieces-turned [] [] = refl
compare_pieces-turned [] (y ∷ ys) = refl
compare_pieces-turned (x ∷ xs) [] = refl
compare_pieces-turned (x ∷ xs) (y ∷ ys) =
    ground (arith, text_eq_comm x y, compare_pieces-turned xs ys, compare_identifiers-turned x y)

-- An identifier is not before an equal one that it is after.
no_cycle :
    (x y : Text)
    → text_eq x y ≡ false
    → compare_identifiers x y ≡ before
    → compare_identifiers y x ≡ before
    → ⊥
no_cycle x y n p q = ground (arith, compare_identifiers-turned x y)

compare_pieces_trans :
    (xs ys zs : List Text)
    → compare_pieces xs ys ≡ before
    → compare_pieces ys zs ≡ before
    → compare_pieces xs zs ≡ before
unfolding compare_pieces
compare_pieces_trans [] [] zs p q = cc
compare_pieces_trans [] (y ∷ ys) [] p q = cc
compare_pieces_trans [] (y ∷ ys) (z ∷ zs) p q = refl
compare_pieces_trans (x ∷ xs) [] zs p q = cc
compare_pieces_trans (x ∷ xs) (y ∷ ys) [] p q = cc
compare_pieces_trans (x ∷ xs) (y ∷ ys) (z ∷ zs) p q = elim (Bool-cases (text_eq x y)) [
  | inl here ↦ let e = text_eq_sound x y here in ground (arith, compare_pieces_trans xs ys zs)
  | inr apart ↦ elim (Bool-cases (text_eq y z)) [
    | inl there ↦ let e = text_eq_sound y z there in ground arith
    | inr far ↦ elim (Bool-cases (text_eq x z)) [
      | inl back ↦
          let e = text_eq_sound x z back in
          absurd (no_cycle x y apart (ground arith) (ground arith))
      | inr other ↦
          let d : compare_identifiers x z ≡ before =
            compare_identifiers_trans x y z apart far (ground arith) (ground arith) in
          ground arith
    ]
  ]
]

compare_tags-turned : (l r : Option Text) → compare_tags r l ≡ turned (compare_tags l r)
unfolding compare_tags compare_prereleases
compare_tags-turned none none = refl
compare_tags-turned none (some r) = refl
compare_tags-turned (some l) none = refl
compare_tags-turned (some l) (some r) =
    ground (arith, text_eq_comm l r, compare_pieces-turned (split_dots l) (split_dots r))

compare_prereleases_trans :
    (l m r : Text)
    → compare_prereleases l m ≡ before
    → compare_prereleases m r ≡ before
    → compare_prereleases l r ≡ before
unfolding compare_prereleases
compare_prereleases_trans l m r p q =
    compare_pieces_trans (split_dots l) (split_dots m) (split_dots r) p q

not_before : (l : Text) → compare_prereleases l l ≡ before → ⊥
unfolding compare_prereleases
not_before l h = ground (arith, compare_pieces-turned (split_dots l) (split_dots l))

compare_tags_trans :
    (l m r : Option Text)
    → compare_tags l m ≡ before
    → compare_tags m r ≡ before
    → compare_tags l r ≡ before
unfolding compare_tags
compare_tags_trans none none r p q = cc
compare_tags_trans none (some m) r p q = cc
compare_tags_trans (some l) none none p q = cc
compare_tags_trans (some l) none (some r) p q = cc
compare_tags_trans (some l) (some m) none p q = refl
compare_tags_trans (some l) (some m) (some r) p q =
    let c : compare_prereleases l r ≡ before =
      compare_prereleases_trans l m r (ground arith) (ground arith) in
    elim (Bool-cases (text_eq l r)) [
      | inl back ↦ let e = text_eq_sound l r back in absurd (not_before l (ground arith))
      | inr other ↦ ground arith
    ]

-- The precedence of two versions turns when they change places: one comes before the other exactly when
-- the other comes after it.
pub compare_parsed_versions-turned :
    (l r : ParsedVersion) → compare_parsed_versions r l ≡ turned (compare_parsed_versions l r)
unfolding compare_parsed_versions
compare_parsed_versions-turned l r = ground (arith, compare_tags-turned l.prerelease r.prerelease)

-- If one version comes before a second and that before a third, the first comes before the third.
pub compare_parsed_versions_trans :
    (l m r : ParsedVersion)
    → compare_parsed_versions l m ≡ before
    → compare_parsed_versions m r ≡ before
    → compare_parsed_versions l r ≡ before
unfolding compare_parsed_versions
compare_parsed_versions_trans l m r p q =
    ground (arith, compare_tags_trans l.prerelease m.prerelease r.prerelease)
