-- ===== src/Cli/Version/Tests.antt =====
-- Versions at concrete values, and the theorems applied to them.
use rolekit.Common.{Bool, true, false, ◌≡◌, refl, ◌↔◌, none, some, List, [], ◌∷◌, All}
use rolekit.Common.Text.{Text, codes, text_eq}
use rolekit.Common.SortedUnique.{sorted_unique}
use rolekit.Cli.Version.Compare.{
  before, ParsedVersion, compare_parsed_versions, compare_tags, compare_prereleases, compare_pieces,
  compare_identifiers, compare_numeric_identifiers, at_least,
}
use rolekit.Cli.Version.Order.{
  turned, compare_parsed_versions-turned, compare_parsed_versions_trans,
}
use rolekit.Cli.Version.Report.{
  is_checked, Report, report_of, create_cli_compatibility_report,
  create_cli_compatibility_report_iff,
}

abbrev version : Text → ParsedVersion
version tag = record { major = 1; minor = 2; patch = 0; prerelease = some tag; build = none }

abbrev release : ParsedVersion
release = record { major = 1; minor = 2; patch = 0; prerelease = none; build = some (codes "7") }

compare_machine : Unit {0}
unfolding compare_parsed_versions compare_tags compare_prereleases compare_pieces
    compare_identifiers compare_numeric_identifiers text_eq
compare_machine = tt

beta_2_10 : compare_parsed_versions (version (codes "beta.2")) (version (codes "beta.10")) ≡ before
unfolding compare_machine
beta_2_10 = refl

beta_release : compare_parsed_versions (version (codes "beta.10")) release ≡ before
unfolding compare_machine
beta_release = refl

compare_parsed_versions-turned_example :
    compare_parsed_versions release (version (codes "beta.10"))
    ≡ turned (compare_parsed_versions (version (codes "beta.10")) release)
compare_parsed_versions-turned_example =
    compare_parsed_versions-turned (version (codes "beta.10")) release

compare_parsed_versions_trans_example :
    compare_parsed_versions (version (codes "beta.2")) release ≡ before
compare_parsed_versions_trans_example =
    compare_parsed_versions_trans (version (codes "beta.2")) (version (codes "beta.10")) release
      beta_2_10 beta_release

abbrev checks : List (Text × Bool)
checks = (codes "json", true) ∷ (codes "color", false) ∷ []

abbrev report : Report
report = report_of (some release) true checks (codes "json" ∷ [])

reported :
    create_cli_compatibility_report
      (some release)
      (some (version (codes "beta.2")))
      checks
      (codes "json" ∷ [])
    ≡ some report
unfolding compare_machine create_cli_compatibility_report at_least sorted_unique
reported = refl

create_cli_compatibility_report_iff_example : (report.compatible ≡ true) ↔ (
    (at_least release (version (codes "beta.2")) ≡ true)
    × All (λ f. is_checked checks f ≡ true) (codes "json" ∷ []))
create_cli_compatibility_report_iff_example =
    create_cli_compatibility_report_iff release (version (codes "beta.2")) checks
      (codes "json" ∷ []) report reported
