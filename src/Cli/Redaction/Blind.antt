-- ===== src/Cli/Redaction/Blind.antt =====
-- The redacted text says nothing of what stands in the spans.
use rolekit.Common.{
  ℕ, zero, suc, ◌+◌, ◌-◌, ◌≤◌, ◌<◌, false, ◌≡◌, refl, sym, ap, ◌∙◌, inl, inr, some, List, [], ◌∷◌,
  arith, take, drop, get_elem?, ltb, Bool-cases, All,
}
use rolekit.Common.Text.{Text}
use rolekit.Common.Sort.{sort_by, insert_by}
use rolekit.Cli.Redaction.Spans.{
  SourceSpan, slice, may_precede, merge_after, merge_sorted, merge_source_spans, replace_from,
  replace_source_spans,
}
use rolekit.Cli.Redaction.Cover.{covers, covers-merge_source_spans}

get-drop : (n p : ℕ) (t : Text) → get_elem? (drop n t) p ≡ get_elem? t (n + p)
get-drop zero p t = ap (get_elem? t) (omega arith)
get-drop (suc n) p [] = refl
get-drop (suc n) p (c ∷ t) =
    let e : suc n + p ≡ suc (n + p) = omega arith in get-drop n p t ∙ ap (get_elem? (c ∷ t)) (sym e)

all_same : (t u : Text) → ((p : ℕ) → get_elem? t p ≡ get_elem? u p) → t ≡ u
all_same [] [] h = refl
all_same [] (d ∷ u) h = absurd (let e = h 0 in ground arith)
all_same (c ∷ t) [] h = absurd (let e = h 0 in ground arith)
all_same (c ∷ t) (d ∷ u) h =
    let e : some c ≡ some d = h 0 in let rest = all_same t u (λ p. h (suc p)) in ground arith

take_same :
    (n : ℕ) (t u : Text) → ((p : ℕ) → p < n → get_elem? t p ≡ get_elem? u p) → take n t ≡ take n u
take_same zero t u h = refl
take_same (suc n) [] [] h = refl
take_same (suc n) [] (d ∷ u) h = absurd (let e = h 0 (omega arith) in ground arith)
take_same (suc n) (c ∷ t) [] h = absurd (let e = h 0 (omega arith) in ground arith)
take_same (suc n) (c ∷ t) (d ∷ u) h =
    let e : some c ≡ some d = h 0 (omega arith) in
    let rest = take_same n t u (λ p q. h (suc p) (omega arith)) in ground arith

slice_same :
    (m n : ℕ) (t u : Text)
    → ((p : ℕ) → m ≤ p → p < n → get_elem? t p ≡ get_elem? u p)
    → slice m n t ≡ slice m n u
slice_same m n t u h =
    take_same (n - m) (drop m t) (drop m u)
      (λ p q. get-drop m p t ∙ (h (m + p) (omega arith) (omega arith) ∙ sym (get-drop m p u)))

drop_same :
    (m : ℕ) (t u : Text) → ((p : ℕ) → m ≤ p → get_elem? t p ≡ get_elem? u p) → drop m t ≡ drop m u
drop_same m t u h =
    all_same (drop m t) (drop m u)
      (λ p. get-drop m p t ∙ (h (m + p) (omega arith) ∙ sym (get-drop m p u)))

-- A span ends where it begins or later.
abbrev pub IsProper : SourceSpan → Type 0
IsProper s = s.start ≤ s.end

-- From a position on, each span begins where the one before it ends, or later.
abbrev IsOrdered : ℕ → List SourceSpan → Type 0
IsOrdered n [] = Unit
IsOrdered n (s ∷ ss) = (n ≤ s.start) × (s.start ≤ s.end) × IsOrdered s.end ss

covers-IsOrdered : (p n : ℕ) (ss : List SourceSpan) → p < n → IsOrdered n ss → covers p ss ≡ false
covers-IsOrdered p n [] h o = refl
covers-IsOrdered p n (s ∷ ss) h (a, b, o) =
    let rest = covers-IsOrdered p s.end ss (omega arith) o in ground arith

merge_after-IsOrdered :
    (n : ℕ) (previous : SourceSpan) (ss : List SourceSpan)
    → n ≤ previous.start
    → IsProper previous
    → All IsProper ss
    → IsOrdered n (merge_after previous ss)
unfolding merge_after
merge_after-IsOrdered n previous [] p q h = (p, q, tt)
merge_after-IsOrdered n previous (s ∷ ss) p q (a, h) =
    elim (Bool-cases (ltb previous.end s.start)) [
      | inl apart ↦
          rw (merge_after, apart) (p, q, merge_after-IsOrdered previous.end s ss (ground arith) a h)
      | inr near ↦ elim (Bool-cases (ltb previous.end s.end)) [
        | inl longer ↦
            rw (merge_after, near, longer)
              (merge_after-IsOrdered n (record { start = previous.start; end = s.end }) ss p
                (ground arith) h)
        | inr same ↦ rw (merge_after, near, same) (merge_after-IsOrdered n previous ss p q h)
      ]
    ]

insert_by-All :
    (x : SourceSpan) (ss : List SourceSpan)
    → IsProper x
    → All IsProper ss
    → All IsProper (insert_by may_precede x ss)
unfolding insert_by
insert_by-All x [] p h = (p, tt)
insert_by-All x (s ∷ ss) p (a, h) = elim (Bool-cases (may_precede x s)) [
  | inl first ↦ rw (insert_by, first) (p, (a, h))
  | inr later ↦ rw (insert_by, later) (a, insert_by-All x ss p h)
]

sort_by-All : (ss : List SourceSpan) → All IsProper ss → All IsProper (sort_by may_precede ss)
unfolding sort_by
sort_by-All [] h = tt
sort_by-All (s ∷ ss) (a, h) = insert_by-All s (sort_by may_precede ss) a (sort_by-All ss h)

merge_sorted-IsOrdered : (ss : List SourceSpan) → All IsProper ss → IsOrdered 0 (merge_sorted ss)
unfolding merge_sorted
merge_sorted-IsOrdered [] h = tt
merge_sorted-IsOrdered (s ∷ ss) (a, h) = merge_after-IsOrdered 0 s ss (omega arith) a h

replace_from_same :
    (n : ℕ) (ss : List SourceSpan) (t u : Text)
    → IsOrdered n ss
    → ((p : ℕ) → n ≤ p → covers p ss ≡ false → get_elem? t p ≡ get_elem? u p)
    → replace_from n ss t ≡ replace_from n ss u
unfolding replace_from
replace_from_same n [] t u o h = drop_same n t u (λ p q. h p q refl)
replace_from_same n (s ∷ ss) t u (a, b, o) h =
    let before =
      slice_same n s.start t u
        (λ p q r. h p q (let free = covers-IsOrdered p s.end ss (omega arith) o in ground arith)) in
    let after = replace_from_same s.end ss t u o (λ p q r. h p (omega arith) (ground arith)) in
    rw (before, after) refl

merged-IsOrdered : (ss : List SourceSpan) → All IsProper ss → IsOrdered 0 (merge_source_spans ss)
unfolding merge_source_spans
merged-IsOrdered ss h = merge_sorted-IsOrdered (sort_by may_precede ss) (sort_by-All ss h)

-- Two texts that have the same code unit, or both none, at every position that no span covers become the
-- same redacted text, if every span ends where it begins or later. So the redacted text tells nothing of what
-- stands in the spans.
pub replace_source_spans_blind :
    (t u : Text) (ss : List SourceSpan)
    → All IsProper ss
    → ((p : ℕ) → covers p ss ≡ false → get_elem? t p ≡ get_elem? u p)
    → replace_source_spans t ss ≡ replace_source_spans u ss
unfolding replace_source_spans
replace_source_spans_blind t u ss h same =
    replace_from_same 0 (merge_source_spans ss) t u (merged-IsOrdered ss h)
      (λ p q r. same p (sym (covers-merge_source_spans p ss) ∙ r))
