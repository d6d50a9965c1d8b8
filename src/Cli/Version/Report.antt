-- ===== src/Cli/Version/Report.antt =====
-- `createCliCompatibilityReport` of src/adapters/cli/version.ts, from the parsed versions on; none is the
-- `TypeError` for a minimum that is no version. The report's command and its sorted checks only pass
-- through the source.
use rolekit.Common.{
  Bool, true, false, not, ◌&&◌, ◌≡◌, refl, sym, ◌∙◌, ◌↔◌, inl, inr, Option, none, some, List, [],
  ◌∷◌, if◌then◌else◌, filter, All, arith, Bool-cases,
}
use rolekit.Common.Text.{Text, text_eq, text_eq_sound, text_eq_refl, has}
use rolekit.Common.SortedUnique.{sorted_unique, has-sorted_unique}
use rolekit.Cli.Version.Compare.{ParsedVersion, at_least}

-- `featureChecks[feature] === true`
unfoldable pub is_checked : List (Text × Bool) → Text → Bool
unfolding text_eq
is_checked [] feature = false
is_checked ((name, value) ∷ rest) feature =
    if text_eq name feature then value else is_checked rest feature

pub record Report : Type 0 where
  pub version : Option ParsedVersion
  pub version_meets_minimum : Bool
  pub critical_features : List Text
  pub missing_critical_features : List Text
  pub compatible : Bool

-- `cliVersionAtLeast`
unfoldable pub cli_version_at_least : ParsedVersion → Option ParsedVersion → Option Bool
cli_version_at_least version none = none
cli_version_at_least version (some minimum) = some (at_least version minimum)

abbrev no_missing : List Text → Bool
no_missing [] = true
no_missing (f ∷ fs) = false

unfoldable pub missing_features : List (Text × Bool) → List Text → List Text
unfolding is_checked
missing_features checks features = filter (λ f. not (is_checked checks f)) features

unfoldable pub report_of : Option ParsedVersion → Bool → List (Text × Bool) → List Text → Report
report_of version meets checks features = record {
  version = version;
  version_meets_minimum = meets;
  critical_features = features;
  missing_critical_features = missing_features checks features;
  compatible = meets && no_missing (missing_features checks features);
}

unfoldable pub create_cli_compatibility_report :
    Option ParsedVersion → Option ParsedVersion → List (Text × Bool) → List Text → Option Report
unfolding cli_version_at_least
create_cli_compatibility_report none minimum checks critical =
    some (report_of none false checks (sorted_unique critical))
create_cli_compatibility_report (some version) minimum checks critical =
    elim (cli_version_at_least version minimum) [
      | none ↦ none
      | some meets ↦ some (report_of (some version) meets checks (sorted_unique critical))
    ]

All-of_has : (P : Text → Type 0) (xs : List Text) → ((x : Text) → has xs x ≡ true → P x) → All P xs
unfolding has
All-of_has P [] h = tt
All-of_has P (x ∷ xs) h =
    (h x (rw (text_eq_refl x) refl), All-of_has P xs (λ y there. h y (ground arith)))

has_of-All : (P : Text → Type 0) (xs : List Text) → All P xs → (x : Text) → has xs x ≡ true → P x
unfolding has
has_of-All P [] h x there = absurd (ground arith)
has_of-All P (y ∷ ys) (p, h) x there = elim (Bool-cases (text_eq y x)) [
  | inl here ↦ rw (← text_eq_sound y x here) p
  | inr other ↦ has_of-All P ys h x (ground arith)
]

missing_features_iff :
    (checks : List (Text × Bool)) (fs : List Text)
    → (no_missing (missing_features checks fs) ≡ true) ↔ All (λ f. is_checked checks f ≡ true) fs
unfolding missing_features
missing_features_iff checks [] = ((λ _. tt), (λ _. refl))
missing_features_iff checks (f ∷ fs) = elim (Bool-cases (is_checked checks f)) [
  | inl there ↦
      let ih = missing_features_iff checks fs in
      ((λ h. (there, ih.0 (ground arith))), (λ h. let z = ih.1 h.1 in ground arith))
  | inr gone ↦ ((λ h. absurd (ground arith)), (λ h. absurd (ground arith)))
]

sorted_features_iff :
    (checks : List (Text × Bool)) (fs : List Text)
    → All (λ f. is_checked checks f ≡ true) (sorted_unique fs)
      ↔ All (λ f. is_checked checks f ≡ true) fs
sorted_features_iff checks fs = (
  (λ h.
      All-of_has _ fs
        (λ x there. has_of-All _ (sorted_unique fs) h x (has-sorted_unique fs x ∙ there))),
  (λ h.
      All-of_has _ (sorted_unique fs)
        (λ x there. has_of-All _ fs h x (sym (has-sorted_unique fs x) ∙ there))),
)

report_of_iff :
    (version : Option ParsedVersion) (meets : Bool) (checks : List (Text × Bool))
    (critical : List Text)
    → ((report_of version meets checks (sorted_unique critical)).compatible ≡ true)
      ↔ ((meets ≡ true) × All (λ f. is_checked checks f ≡ true) critical)
unfolding report_of
report_of_iff version meets checks critical =
    let m = missing_features_iff checks (sorted_unique critical) in
    let s = sorted_features_iff checks critical in
    ((λ h. (ground arith, s.0 (m.0 (ground arith)))), (λ h. let z = m.1 (s.1 h.1) in ground arith))

-- Where a report on a parsed version is made, it says compatible exactly if the version is at least the
-- minimum and every critical feature is checked as true.
pub create_cli_compatibility_report_iff :
    (version minimum : ParsedVersion) (checks : List (Text × Bool)) (critical : List Text)
    (r : Report)
    → create_cli_compatibility_report (some version) (some minimum) checks critical ≡ some r
    → (r.compatible ≡ true)
      ↔ ((at_least version minimum ≡ true) × All (λ f. is_checked checks f ≡ true) critical)
unfolding create_cli_compatibility_report
create_cli_compatibility_report_iff version minimum checks critical r h =
    let same : report_of (some version) (at_least version minimum) checks (sorted_unique critical)
        ≡ r =
      ground arith in
    rw (← same) (report_of_iff (some version) (at_least version minimum) checks critical)
