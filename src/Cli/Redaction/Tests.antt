-- ===== src/Cli/Redaction/Tests.antt =====
-- Spans at concrete texts, and the theorems on them.
use rolekit.Common.{ℕ, zero, suc, true, false, ◌≡◌, refl, List, [], ◌∷◌, arith, drop, get_elem?}
use rolekit.Common.Text.{Text, codes, starts_with, has, text_eq}
use rolekit.Common.Sort.{sort_by}
use rolekit.Cli.Redaction.Spans.{
  SourceSpan, may_precede, merge_after, merge_sorted, merge_source_spans, replace_from,
  replace_source_spans, matches_from, add_matches,
}
use rolekit.Cli.Redaction.Cover.{covers, IsSeparated, merge_source_spans_lem}
use rolekit.Cli.Redaction.Blind.{replace_source_spans_blind}
use rolekit.Cli.Redaction.Found.{add_matches-covers}

-- The occurrences of "aba" in the first text overlap.
abbrev text : Text
text = codes "xababay"

abbrev spans : List SourceSpan
spans = record { start = 1; end = 4 } ∷ record { start = 3; end = 6 } ∷ []

machine : Unit {0}
unfolding sort_by may_precede merge_after merge_sorted merge_source_spans replace_from
    replace_source_spans matches_from add_matches starts_with has text_eq
machine = tt

found : add_matches [] text (codes "aba" ∷ []) ≡ spans
unfolding machine
found = refl

replaced : replace_source_spans text spans ≡ codes "x[REDACTED]y"
unfolding machine
replaced = refl

merge_source_spans_lem_example :
    IsSeparated (merge_source_spans spans)
    × ((p : ℕ) → covers p (merge_source_spans spans) ≡ covers p spans)
merge_source_spans_lem_example = merge_source_spans_lem spans

-- The second text differs from the first in the spans only.
agree :
    (p : ℕ) → covers p spans ≡ false → get_elem? (codes "xababay") p ≡ get_elem? (codes "x12345y") p
agree zero h = refl
agree (suc zero) h = absurd (ground arith)
agree (suc (suc zero)) h = absurd (ground arith)
agree (suc (suc (suc zero))) h = absurd (ground arith)
agree (suc (suc (suc (suc zero)))) h = absurd (ground arith)
agree (suc (suc (suc (suc (suc zero))))) h = absurd (ground arith)
agree (suc (suc (suc (suc (suc (suc p)))))) h = refl

replace_source_spans_blind_example :
    replace_source_spans (codes "xababay") spans ≡ replace_source_spans (codes "x12345y") spans
replace_source_spans_blind_example =
    replace_source_spans_blind (codes "xababay") (codes "x12345y") spans
      (omega arith, (omega arith, tt)) agree

listed : has (codes "b" ∷ codes "aba" ∷ []) (codes "aba") ≡ true
unfolding machine
listed = refl

occurs : starts_with (drop 3 text) (codes "aba") ≡ true
unfolding machine
occurs = refl

add_matches-covers_example : covers 4 (add_matches [] text (codes "b" ∷ codes "aba" ∷ [])) ≡ true
add_matches-covers_example =
    add_matches-covers [] text (codes "aba") (codes "b" ∷ codes "aba" ∷ []) 3 4 listed (omega arith)
      occurs (omega arith) (omega arith)
