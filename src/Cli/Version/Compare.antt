-- ===== src/Cli/Version/Compare.antt =====
-- `compareParsedVersions` of src/adapters/cli/version.ts. A comparison's result -1, 0 or 1 is an `Order`.
use rolekit.Common.{
  ℕ, Bool, true, false, not, ◌&&◌, ◌||◌, Option, none, some, List, [], ◌∷◌, if◌then◌else◌, ltb, leb,
  ◌==◌, length, all,
}
use rolekit.Common.Text.{Text, text_eq}

pub data Order : Type 0 where
  before same after : Order

-- What `parseCliVersion` returns, without the text that it read.
pub record ParsedVersion : Type 0 where
  pub major : ℕ
  pub minor : ℕ
  pub patch : ℕ
  pub prerelease : Option Text
  pub build : Option Text

-- `left < right` for texts
unfoldable pub text_ltb : Text → Text → Bool
text_ltb s [] = false
text_ltb [] (b ∷ t) = true
text_ltb (a ∷ s) (b ∷ t) = ltb a b || (a == b && text_ltb s t)

-- The first piece with one more code unit in front.
abbrev grow : ℕ → List Text → List Text
grow c [] = (c ∷ []) ∷ []
grow c (p ∷ ps) = (c ∷ p) ∷ ps

-- `text.split('.')`
unfoldable pub split_dots : Text → List Text
split_dots [] = [] ∷ []
split_dots (c ∷ t) = let rest = split_dots t in if c == 46 then [] ∷ rest else grow c rest

abbrev is_digit : ℕ → Bool
is_digit c = leb 48 c && leb c 57

-- `NUMERIC_IDENTIFIER_PATTERN.test(value)`
unfoldable pub is_numeric : Text → Bool
is_numeric t = ltb 0 (length t) && all is_digit t

unfoldable pub compare_numeric_identifiers : Text → Text → Order
unfolding text_eq text_ltb
compare_numeric_identifiers left right =
    if not (length left == length right)
    then if ltb (length left) (length right) then before else after
    else if text_eq left right
    then same
    else if text_ltb left right
    then before
    else after

-- Two identifiers that are not equal.
unfoldable pub compare_identifiers : Text → Text → Order
unfolding is_numeric text_ltb
compare_identifiers left right =
    if is_numeric left && is_numeric right
    then compare_numeric_identifiers left right
    else if is_numeric left
    then before
    else if is_numeric right
    then after
    else if text_ltb left right
    then before
    else after

-- The loop of `comparePrereleases`.
unfoldable pub compare_pieces : List Text → List Text → Order
unfolding text_eq
compare_pieces [] [] = same
compare_pieces [] (y ∷ ys) = before
compare_pieces (x ∷ xs) [] = after
compare_pieces (x ∷ xs) (y ∷ ys) =
    let rest = compare_pieces xs ys in if text_eq x y then rest else compare_identifiers x y

unfoldable pub compare_prereleases : Text → Text → Order
unfolding split_dots
compare_prereleases left right = compare_pieces (split_dots left) (split_dots right)

-- A prerelease comes before the release.
unfoldable pub compare_tags : Option Text → Option Text → Order
unfolding text_eq
compare_tags none none = same
compare_tags none (some r) = after
compare_tags (some l) none = before
compare_tags (some l) (some r) = if text_eq l r then same else compare_prereleases l r

abbrev pub decide : ℕ → ℕ → Order → Order
decide left right rest =
    if not (left == right) then if ltb left right then before else after else rest

unfoldable pub compare_parsed_versions : ParsedVersion → ParsedVersion → Order
compare_parsed_versions left right = decide left.major right.major (
    decide left.minor right.minor
      (decide left.patch right.patch (compare_tags left.prerelease right.prerelease)))

-- `compareParsedVersions(version, parsedMinimum) >= 0`
unfoldable pub at_least : ParsedVersion → ParsedVersion → Bool
at_least version minimum = elim (compare_parsed_versions version minimum) [
  | before ↦ false
  | _ ↦ true
]
