-- ===== src/Cli/Redaction/Spans.antt =====
-- `addMatches`, `mergeSourceSpans` and `replaceSourceSpans` of src/adapters/cli/redaction.ts.
use rolekit.Common.{
  ℕ, ◌+◌, ◌-◌, Bool, ◌&&◌, ◌||◌, List, [], ◌∷◌, ◌++◌, if◌then◌else◌, ltb, leb, ◌==◌, length, take,
  drop,
}
use rolekit.Common.Text.{Text, codes, starts_with}
use rolekit.Common.Sort.{sort_by}

pub record SourceSpan : Type 0 where
  pub start : ℕ
  pub end : ℕ

-- `left.start - right.start || left.end - right.end`, where the result is not positive
unfoldable pub may_precede : SourceSpan → SourceSpan → Bool
may_precede left right =
    ltb left.start right.start || (left.start == right.start && leb left.end right.end)

-- The step of the `reduce`, with the span that is last so far.
unfoldable pub merge_after : SourceSpan → List SourceSpan → List SourceSpan
merge_after previous [] = previous ∷ []
merge_after previous (span ∷ spans) =
    let apart = merge_after span spans in
    let longer = merge_after (record { start = previous.start; end = span.end }) spans in
    let same = merge_after previous spans in
    if ltb previous.end span.start
    then previous ∷ apart
    else if ltb previous.end span.end
    then longer
    else same

unfoldable pub merge_sorted : List SourceSpan → List SourceSpan
unfolding merge_after
merge_sorted [] = []
merge_sorted (span ∷ spans) = merge_after span spans

-- `mergeSourceSpans`
unfoldable pub merge_source_spans : List SourceSpan → List SourceSpan
unfolding sort_by may_precede merge_sorted
merge_source_spans spans = merge_sorted (sort_by may_precede spans)

-- `text.slice(from, to)`
abbrev pub slice : ℕ → ℕ → Text → Text
slice from to text = take (to - from) (drop from text)

abbrev pub redacted : Text
redacted = codes "[REDACTED]"

-- The loop of `replaceSourceSpans`, and what is after the last span.
unfoldable pub replace_from : ℕ → List SourceSpan → Text → Text
replace_from copied_through [] text = drop copied_through text
replace_from copied_through (span ∷ spans) text =
    slice copied_through span.start text ++ (redacted ++ replace_from span.end spans text)

-- `replaceSourceSpans`
unfoldable pub replace_source_spans : Text → List SourceSpan → Text
unfolding merge_source_spans replace_from
replace_source_spans text spans = replace_from 0 (merge_source_spans spans) text

-- The matches of one candidate: the loop over `text.indexOf(candidate, index + 1)`, from an index on, in
-- what is left of the text there. An empty candidate is found at the end of the text over and over, and is
-- never given.
unfoldable pub matches_from : ℕ → Text → Text → List SourceSpan
unfolding starts_with
matches_from index candidate [] = []
matches_from index candidate (c ∷ t) =
    let later = matches_from (index + 1) candidate t in
    if starts_with (c ∷ t) candidate
    then record { start = index; end = index + length candidate } ∷ later
    else later

-- `addMatches` on plain text
unfoldable pub add_matches : List SourceSpan → Text → List Text → List SourceSpan
unfolding matches_from
add_matches spans text [] = spans
add_matches spans text (candidate ∷ candidates) =
    add_matches (spans ++ matches_from 0 candidate text) text candidates
