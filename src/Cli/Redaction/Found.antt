-- ===== src/Cli/Redaction/Found.antt =====
-- Every occurrence of a candidate is found.
use rolekit.Common.{
  ℕ, zero, suc, ◌+◌, ◌≤◌, ◌<◌, true, ◌||◌, ◌≡◌, refl, ◌∙◌, inl, inr, List, [], ◌∷◌, ◌++◌, arith,
  drop, length, Bool-cases, All, All-append,
}
use rolekit.Common.Text.{Text, starts_with, has, text_eq, text_eq_sound}
use rolekit.Cli.Redaction.Spans.{SourceSpan, matches_from, add_matches}
use rolekit.Cli.Redaction.Cover.{covers}
use rolekit.Cli.Redaction.Blind.{IsProper}

covers-append :
    (p : ℕ) (ss ts : List SourceSpan) → covers p (ss ++ ts) ≡ (covers p ss || covers p ts)
covers-append p [] ts = refl
covers-append p (s ∷ ss) ts = ground (arith, covers-append p ss ts)

matches_from-All :
    (index : ℕ) (candidate text : Text) → All IsProper (matches_from index candidate text)
unfolding matches_from
matches_from-All index candidate [] = tt
matches_from-All index candidate (c ∷ t) = elim (Bool-cases (starts_with (c ∷ t) candidate)) [
  | inl found ↦ rw (matches_from, found) (omega arith, matches_from-All (index + 1) candidate t)
  | inr other ↦ rw (matches_from, other) (matches_from-All (index + 1) candidate t)
]

pub add_matches-All :
    (spans : List SourceSpan) (text : Text) (candidates : List Text)
    → All IsProper spans
    → All IsProper (add_matches spans text candidates)
unfolding add_matches
add_matches-All spans text [] h = h
add_matches-All spans text (c ∷ cs) h =
    add_matches-All (spans ++ matches_from 0 c text) text cs
      (All-append IsProper spans (matches_from 0 c text) h (matches_from-All 0 c text))

found_later :
    (index p : ℕ) (candidate : Text) (c : ℕ) (t : Text)
    → covers p (matches_from (index + 1) candidate t) ≡ true
    → covers p (matches_from index candidate (c ∷ t)) ≡ true
unfolding matches_from
found_later index p candidate c t h = elim (Bool-cases (starts_with (c ∷ t) candidate)) [
  | inl found ↦ rw (matches_from, found) (ground arith)
  | inr other ↦ rw (matches_from, other) h
]

matches_from-covers :
    (index k p : ℕ) (candidate text : Text)
    → 0 < length candidate
    → starts_with (drop k text) candidate ≡ true
    → index + k ≤ p
    → p < index + k + length candidate
    → covers p (matches_from index candidate text) ≡ true
unfolding matches_from starts_with
matches_from-covers index k p [] text n h a b = absurd (omega arith)
matches_from-covers index zero p (d ∷ ds) [] n h a b = absurd (ground arith)
matches_from-covers index (suc k) p (d ∷ ds) [] n h a b = absurd (ground arith)
matches_from-covers index zero p (d ∷ ds) (c ∷ t) n h a b = rw (matches_from, h) (ground arith)
matches_from-covers index (suc k) p (d ∷ ds) (c ∷ t) n h a b =
    found_later index p (d ∷ ds) c t
      (matches_from-covers (index + 1) k p (d ∷ ds) t n h (omega arith) (omega arith))

add_matches_keeps :
    (p : ℕ) (spans : List SourceSpan) (text : Text) (candidates : List Text)
    → covers p spans ≡ true
    → covers p (add_matches spans text candidates) ≡ true
unfolding add_matches
add_matches_keeps p spans text [] h = h
add_matches_keeps p spans text (c ∷ cs) h =
    add_matches_keeps p (spans ++ matches_from 0 c text) text cs
      (covers-append p spans (matches_from 0 c text) ∙ ground arith)

-- Wherever a candidate that is not empty occurs in a text, all of its positions are covered by the spans that
-- the candidates add, occurrences that overlap others included.
pub add_matches-covers :
    (spans : List SourceSpan) (text candidate : Text) (candidates : List Text) (k p : ℕ)
    → has candidates candidate ≡ true
    → 0 < length candidate
    → starts_with (drop k text) candidate ≡ true
    → k ≤ p
    → p < k + length candidate
    → covers p (add_matches spans text candidates) ≡ true
unfolding add_matches has
add_matches-covers spans text candidate [] k p there n h a b = absurd (ground arith)
add_matches-covers spans text candidate (c ∷ cs) k p there n h a b =
    elim (Bool-cases (text_eq c candidate)) [
      | inl same ↦
          let e = text_eq_sound c candidate same in
          let found = matches_from-covers 0 k p candidate text n h (omega arith) (omega arith) in
          add_matches_keeps p (spans ++ matches_from 0 c text) text cs
            (covers-append p spans (matches_from 0 c text) ∙ rw e (ground arith))
      | inr other ↦
          add_matches-covers (spans ++ matches_from 0 c text) text candidate cs k p (ground arith) n
            h a b
    ]
