-- ===== src/Core/Response/Coherent.antt =====
-- The presence of output and error that `validateExecutorResponse` asks for with each status.
use rolekit.Common.{
  true, false, ◌≡◌, refl, Option, none, some, arith, ◌⊎◌, inl, inr, Bool-cases, Option-cases, ◌&&◌,
  not, ◌||◌, ap, ◌∙◌,
}
use rolekit.Common.Text.{Text, codes, text_eq, text_eq_sound}
use rolekit.Core.Response.Validate.{semantic_valid, Snapshot}

abbrev pub SaysUndone : Option Text → Type 0
SaysUndone status =
    (status ≡ some (codes "failed"))
    ⊎ ((status ≡ some (codes "blocked")) ⊎ (status ≡ some (codes "cancelled")))

-- A snapshot that says completed has an output and no error, one that says failed, blocked or cancelled has
-- an error and no output.
abbrev pub IsCoherent : Snapshot → Type 0
IsCoherent s =
    (s.status ≡ some (codes "completed") → (s.has_output ≡ true) × (s.has_error ≡ false))
    × (SaysUndone s.status → (s.has_output ≡ false) × (s.has_error ≡ true))

said_completed :
    (s : Snapshot)
    → s.status ≡ some (codes "completed")
    → semantic_valid s ≡ (s.has_output && not s.has_error)
unfolding semantic_valid text_eq
said_completed s e = rw (semantic_valid, e) refl

said_undone :
    (s : Snapshot) → SaysUndone s.status → semantic_valid s ≡ (s.has_error && not s.has_output)
unfolding semantic_valid text_eq
said_undone s (inl e) = rw (semantic_valid, e) refl
said_undone s (inr (inl e)) = rw (semantic_valid, e) refl
said_undone s (inr (inr e)) = rw (semantic_valid, e) refl

pub IsCoherent-of : (s : Snapshot) → semantic_valid s ≡ true → IsCoherent s
IsCoherent-of s h = (
  (λ e. let both = said_completed s e in (ground arith, ground arith)),
  (λ e. let both = said_undone s e in (ground arith, ground arith)),
)

said_else :
    (s : Snapshot) (t : Text)
    → s.status ≡ some t
    → text_eq t (codes "completed") ≡ false
    → (text_eq t (codes "failed") || text_eq t (codes "blocked") || text_eq t (codes "cancelled"))
      ≡ false
    → semantic_valid s ≡ true
unfolding semantic_valid
said_else s t e a b = rw (semantic_valid, e, a, b) refl

undone_cases :
    (t : Text)
    → (text_eq t (codes "failed") || text_eq t (codes "blocked") || text_eq t (codes "cancelled"))
      ≡ true
    → (t ≡ codes "failed") ⊎ ((t ≡ codes "blocked") ⊎ (t ≡ codes "cancelled"))
undone_cases t h = elim (Bool-cases (text_eq t (codes "failed"))) [
  | inl a ↦ inl (text_eq_sound t _ a)
  | inr a ↦ elim (Bool-cases (text_eq t (codes "blocked"))) [
    | inl b ↦ inr (inl (text_eq_sound t _ b))
    | inr b ↦ inr (inr (text_eq_sound t _ (ground arith)))
  ]
]

said_none : (s : Snapshot) → s.status ≡ none → semantic_valid s ≡ true
unfolding semantic_valid
said_none s e = rw (semantic_valid, e) refl

pub semantic_valid-of : (s : Snapshot) → IsCoherent s → semantic_valid s ≡ true
semantic_valid-of s (done, undone) = elim (Option-cases s.status) [
  | inl nothing ↦ said_none s nothing
  | inr (t, e) ↦ elim (Bool-cases (text_eq t (codes "completed"))) [
    | inl same ↦
        let completed_now = e ∙ ap some (text_eq_sound t (codes "completed") same) in
        let (output, error) = done completed_now in
        said_completed s completed_now ∙ rw (output, error) refl
    | inr other ↦
        elim (Bool-cases (
          text_eq t (codes "failed")
          || text_eq t (codes "blocked")
          || text_eq t (codes "cancelled"))) [
            | inr unknown ↦ said_else s t e other unknown
            | inl known ↦
                let said : SaysUndone s.status = elim (undone_cases t known) [
                  | inl a ↦ inl (e ∙ ap some a)
                  | inr rest ↦ elim rest [
                    | inl b ↦ inr (inl (e ∙ ap some b))
                    | inr c ↦ inr (inr (e ∙ ap some c))
                  ]
                ] in
                let (output, error) = undone said in said_undone s said ∙ rw (output, error) refl
          ]
  ]
]
