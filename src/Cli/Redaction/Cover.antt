-- ===== src/Cli/Redaction/Cover.antt =====
-- Merging keeps the positions that spans cover, and leaves gaps between the spans.
use rolekit.Common.{
  ℕ, ◌≤◌, ◌<◌, Bool, false, ◌&&◌, ◌||◌, ◌≡◌, refl, ap, ◌∙◌, inl, inr, List, [], ◌∷◌, arith, ltb,
  leb, Bool-cases,
}
use rolekit.Common.Sort.{sort_by, insert_by}
use rolekit.Cli.Redaction.Spans.{
  SourceSpan, may_precede, merge_after, merge_sorted, merge_source_spans,
}

-- Whether a position is in a span, or in one of several.
abbrev pub in_span : ℕ → SourceSpan → Bool
in_span p s = leb s.start p && ltb p s.end

abbrev pub covers : ℕ → List SourceSpan → Bool
covers p [] = false
covers p (s ∷ ss) = in_span p s || covers p ss

-- Every span begins at a position or after it.
abbrev pub StartsFrom : ℕ → List SourceSpan → Type 0
StartsFrom n [] = Unit
StartsFrom n (s ∷ ss) = (n ≤ s.start) × StartsFrom n ss

abbrev pub IsSorted : List SourceSpan → Type 0
IsSorted [] = Unit
IsSorted (s ∷ ss) = StartsFrom s.start ss × IsSorted ss

StartsFrom-weaken : (m n : ℕ) (ss : List SourceSpan) → m ≤ n → StartsFrom n ss → StartsFrom m ss
StartsFrom-weaken m n [] p h = tt
StartsFrom-weaken m n (s ∷ ss) p (a, h) = (omega arith, StartsFrom-weaken m n ss p h)

covers-insert_by :
    (p : ℕ) (x : SourceSpan) (ss : List SourceSpan)
    → covers p (insert_by may_precede x ss) ≡ covers p (x ∷ ss)
unfolding insert_by
covers-insert_by p x [] = refl
covers-insert_by p x (s ∷ ss) = ground (arith, covers-insert_by p x ss)

covers-sort_by : (p : ℕ) (ss : List SourceSpan) → covers p (sort_by may_precede ss) ≡ covers p ss
unfolding sort_by
covers-sort_by p [] = refl
covers-sort_by p (s ∷ ss) =
    covers-insert_by p s (sort_by may_precede ss) ∙ ap (λ b. in_span p s || b) (covers-sort_by p ss)

StartsFrom-insert_by :
    (n : ℕ) (x : SourceSpan) (ss : List SourceSpan)
    → n ≤ x.start
    → StartsFrom n ss
    → StartsFrom n (insert_by may_precede x ss)
unfolding insert_by
StartsFrom-insert_by n x [] p h = (p, tt)
StartsFrom-insert_by n x (s ∷ ss) p (a, h) = elim (Bool-cases (may_precede x s)) [
  | inl first ↦ rw (insert_by, first) (p, (a, h))
  | inr later ↦ rw (insert_by, later) (a, StartsFrom-insert_by n x ss p h)
]

insert_by-IsSorted :
    (x : SourceSpan) (ss : List SourceSpan) → IsSorted ss → IsSorted (insert_by may_precede x ss)
unfolding insert_by may_precede
insert_by-IsSorted x [] h = (tt, tt)
insert_by-IsSorted x (s ∷ ss) (a, h) = elim (Bool-cases (may_precede x s)) [
  | inl first ↦
      let p : x.start ≤ s.start = ground arith in
      rw (insert_by, first) ((p, StartsFrom-weaken x.start s.start ss p a), (a, h))
  | inr later ↦
      let p : s.start ≤ x.start = ground arith in
      rw (insert_by, later) (StartsFrom-insert_by s.start x ss p a, insert_by-IsSorted x ss h)
]

sort_by-IsSorted : (ss : List SourceSpan) → IsSorted (sort_by may_precede ss)
unfolding sort_by
sort_by-IsSorted [] = tt
sort_by-IsSorted (s ∷ ss) = insert_by-IsSorted s (sort_by may_precede ss) (sort_by-IsSorted ss)

covers-merge_after :
    (p : ℕ) (previous : SourceSpan) (ss : List SourceSpan)
    → StartsFrom previous.start ss
    → IsSorted ss
    → covers p (merge_after previous ss) ≡ covers p (previous ∷ ss)
unfolding merge_after
covers-merge_after p previous [] f h = refl
covers-merge_after p previous (s ∷ ss) (a, f) (b, h) =
    elim (Bool-cases (ltb previous.end s.start)) [
      | inl apart ↦
          rw (merge_after, apart)
            (ap (λ c. in_span p previous || c) (covers-merge_after p s ss b h))
      | inr near ↦ elim (Bool-cases (ltb previous.end s.end)) [
        | inl longer ↦
            let joined : SourceSpan = record { start = previous.start; end = s.end } in
            let more = covers-merge_after p joined ss f h in
            rw (merge_after, near, longer) (more ∙ ground arith)
        | inr same ↦
            rw (merge_after, near, same) (covers-merge_after p previous ss f h ∙ ground arith)
      ]
    ]

covers-merge_sorted :
    (p : ℕ) (ss : List SourceSpan) → IsSorted ss → covers p (merge_sorted ss) ≡ covers p ss
unfolding merge_sorted
covers-merge_sorted p [] h = refl
covers-merge_sorted p (s ∷ ss) (a, h) = covers-merge_after p s ss a h

-- The merged spans cover exactly the positions that the spans cover.
pub covers-merge_source_spans :
    (p : ℕ) (ss : List SourceSpan) → covers p (merge_source_spans ss) ≡ covers p ss
unfolding merge_source_spans
covers-merge_source_spans p ss =
    covers-merge_sorted p (sort_by may_precede ss) (sort_by-IsSorted ss) ∙ covers-sort_by p ss

-- The first span, if any, begins after a position.
abbrev pub IsAfter : ℕ → List SourceSpan → Type 0
IsAfter n [] = Unit
IsAfter n (s ∷ ss) = n < s.start

-- Each span ends before the next one begins.
abbrev pub IsSeparated : List SourceSpan → Type 0
IsSeparated [] = Unit
IsSeparated (s ∷ ss) = IsAfter s.end ss × IsSeparated ss

merge_after-IsAfter :
    (n : ℕ) (previous : SourceSpan) (ss : List SourceSpan)
    → n < previous.start
    → IsAfter n (merge_after previous ss)
unfolding merge_after
merge_after-IsAfter n previous [] p = p
merge_after-IsAfter n previous (s ∷ ss) p = elim (Bool-cases (ltb previous.end s.start)) [
  | inl apart ↦ rw (merge_after, apart) p
  | inr near ↦ elim (Bool-cases (ltb previous.end s.end)) [
    | inl longer ↦
        rw (merge_after, near, longer)
          (merge_after-IsAfter n (record { start = previous.start; end = s.end }) ss p)
    | inr same ↦ rw (merge_after, near, same) (merge_after-IsAfter n previous ss p)
  ]
]

merge_after-IsSeparated :
    (previous : SourceSpan) (ss : List SourceSpan) → IsSeparated (merge_after previous ss)
unfolding merge_after
merge_after-IsSeparated previous [] = (tt, tt)
merge_after-IsSeparated previous (s ∷ ss) = elim (Bool-cases (ltb previous.end s.start)) [
  | inl apart ↦
      rw (merge_after, apart)
        (merge_after-IsAfter previous.end s ss (ground arith), merge_after-IsSeparated s ss)
  | inr near ↦ elim (Bool-cases (ltb previous.end s.end)) [
    | inl longer ↦
        rw (merge_after, near, longer)
          (merge_after-IsSeparated (record { start = previous.start; end = s.end }) ss)
    | inr same ↦ rw (merge_after, near, same) (merge_after-IsSeparated previous ss)
  ]
]

merge_sorted-IsSeparated : (ss : List SourceSpan) → IsSeparated (merge_sorted ss)
unfolding merge_sorted
merge_sorted-IsSeparated [] = tt
merge_sorted-IsSeparated (s ∷ ss) = merge_after-IsSeparated s ss

-- Merging keeps exactly the positions that the spans cover, and each merged span ends before the next one
-- begins, with a gap between the two.
pub merge_source_spans_lem :
    (ss : List SourceSpan)
    → IsSeparated (merge_source_spans ss)
      × ((p : ℕ) → covers p (merge_source_spans ss) ≡ covers p ss)
unfolding merge_source_spans
merge_source_spans_lem ss =
    (merge_sorted-IsSeparated (sort_by may_precede ss), λ p. covers-merge_source_spans p ss)
