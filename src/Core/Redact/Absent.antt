-- ===== src/Core/Redact/Absent.antt =====
-- No sensitive value is left in a redacted text.
use mathlib.Core.Path.{subst}
use rolekit.Common.{
  ℕ, zero, suc, ◌-◌, Bool, true, false, ◌≡◌, refl, ◌≢◌, ◌⊎◌, inl, inr, List, [], ◌∷◌, ◌++◌, length,
  All, Bool-cases, arith, ◌<◌, ◌||◌, ◌∙◌, ap,
}
use rolekit.Common.Text.{Text, codes, starts_with, includes, has, dedupe, text_eq, text_eq_sound}
use rolekit.Common.Sort.{has-sort_by, has-dedupe}
use rolekit.Core.Redact.Replace.{
  replace_from, redacted, longer_first, redact_each, redact_sensitive_text,
}

-- No code unit of the text is one of the marker's.
abbrev pub IsDisjoint : Text → Text → Type 0
IsDisjoint marker text = All (λ c. All (λ d. d ≢ c) marker) text

starts_with-nil : (t : Text) → starts_with t [] ≡ true
unfolding starts_with
starts_with-nil [] = refl
starts_with-nil (c ∷ t) = refl

or_true : (b c : Bool) → (b ≡ true) ⊎ (c ≡ true) → (b || c) ≡ true
or_true b c h = ground arith

includes-append :
    (m u : Text) (a : ℕ) (x : Text)
    → All (λ d. d ≢ a) m
    → includes (m ++ u) (a ∷ x) ≡ true
    → includes u (a ∷ x) ≡ true
unfolding includes
includes-append [] u a x d h = h
includes-append (b ∷ m) u a x (ne, d) h = ground (arith, includes-append m u a x d)

module _ (sep : Text) (m₀ : ℕ) (ms : Text) where
  -- What begins the replaced text, and shares nothing with the marker, began the text.
  starts_with-replace_from :
      (t x : Text)
      → IsDisjoint (m₀ ∷ ms) x
      → starts_with (replace_from sep (m₀ ∷ ms) 0 t) x ≡ true
      → starts_with t x ≡ true
  unfolding replace_from
  starts_with-replace_from t [] d h = starts_with-nil t
  starts_with-replace_from [] (a ∷ x) d h = ground arith
  starts_with-replace_from (c ∷ t) (a ∷ x) d h = elim (Bool-cases (starts_with (c ∷ t) sep)) [
    | inl hit ↦ absurd (ground arith)
    | inr miss ↦ ground (arith, starts_with-replace_from t x d.1)
  ]

  includes-replace_from :
      (skip : ℕ) (t : Text) (a : ℕ) (x : Text)
      → IsDisjoint (m₀ ∷ ms) (a ∷ x)
      → includes (replace_from sep (m₀ ∷ ms) skip t) (a ∷ x) ≡ true
      → includes t (a ∷ x) ≡ true
  unfolding includes replace_from
  includes-replace_from skip [] a x d h = h
  includes-replace_from (suc skip) (c ∷ t) a x d h =
      let ih = includes-replace_from skip t a x d h in or_true _ _ (inr ih)
  includes-replace_from zero (c ∷ t) a x d h = elim (Bool-cases (starts_with (c ∷ t) sep)) [
    | inl hit ↦ or_true _ _ (
        inr (
          includes-replace_from (length sep - 1) t a x d
            (includes-append (m₀ ∷ ms) _ a x d.0 (ground arith))))
    | inr miss ↦ elim (Bool-cases (starts_with (c ∷ replace_from sep (m₀ ∷ ms) 0 t) (a ∷ x))) [
      | inl here ↦ or_true _ _ (inl (starts_with-replace_from (c ∷ t) (a ∷ x) d (ground arith)))
      | inr later ↦ or_true _ _ (inr (includes-replace_from 0 t a x d (ground arith)))
    ]
  ]

module _ (a : ℕ) (x : Text) (m₀ : ℕ) (ms : Text) (d : IsDisjoint (m₀ ∷ ms) (a ∷ x)) where
  replaced_absent :
      (skip : ℕ) (t : Text) → includes (replace_from (a ∷ x) (m₀ ∷ ms) skip t) (a ∷ x) ≡ true → ⊥
  unfolding includes replace_from
  replaced_absent skip [] h = ground arith
  replaced_absent (suc skip) (c ∷ t) h = replaced_absent skip t h
  replaced_absent zero (c ∷ t) h = elim (Bool-cases (starts_with (c ∷ t) (a ∷ x))) [
    | inl hit ↦
        replaced_absent (length (a ∷ x) - 1) t (includes-append (m₀ ∷ ms) _ a x d.0 (ground arith))
    | inr miss ↦ elim (Bool-cases (starts_with (c ∷ replace_from (a ∷ x) (m₀ ∷ ms) 0 t) (a ∷ x))) [
      | inl here ↦
          let was : starts_with (c ∷ t) (a ∷ x) ≡ true =
            starts_with-replace_from (a ∷ x) m₀ ms (c ∷ t) (a ∷ x) d (ground arith) in
          absurd (ground arith)
      | inr later ↦ replaced_absent zero t (ground arith)
    ]
  ]

abbrev redacted_tail : Text
redacted_tail = codes "REDACTED]"

redact_each-cons :
    (v : ℕ) (vv : Text) (vs : List Text) (t : Text)
    → redact_each ((v ∷ vv) ∷ vs) t ≡ redact_each vs (replace_from (v ∷ vv) redacted 0 t)
unfolding redact_each
redact_each-cons v vv vs t = ground arith

redact_each_included :
    (vs : List Text) (t : Text) (a : ℕ) (x : Text)
    → IsDisjoint redacted (a ∷ x)
    → includes (redact_each vs t) (a ∷ x) ≡ true
    → includes t (a ∷ x) ≡ true
unfolding redact_each
redact_each_included [] t a x d h = h
redact_each_included ([] ∷ vs) t a x d h = redact_each_included vs t a x d h
redact_each_included ((v ∷ vv) ∷ vs) t a x d h =
    includes-replace_from (v ∷ vv) b'[' redacted_tail 0 t a x d (
      redact_each_included vs (replace_from (v ∷ vv) redacted 0 t) a x d (rw redact_each-cons at h))

redact_each_absent :
    (vs : List Text) (t : Text) (a : ℕ) (x : Text)
    → IsDisjoint redacted (a ∷ x)
    → has vs (a ∷ x) ≡ true
    → includes (redact_each vs t) (a ∷ x) ≡ true
    → ⊥
unfolding redact_each has text_eq
redact_each_absent [] t a x d m h = cc
redact_each_absent ([] ∷ vs) t a x d m h = redact_each_absent vs t a x d (ground arith) h
redact_each_absent ((v ∷ vv) ∷ vs) t a x d m h = elim (Bool-cases (text_eq (v ∷ vv) (a ∷ x))) [
  | inl same ↦ replaced_absent a x b'[' redacted_tail d 0 t (
      redact_each_included vs (replace_from (a ∷ x) redacted 0 t) a x d (
        subst (λ w. includes (redact_each vs (replace_from w redacted 0 t)) (a ∷ x) ≡ true)
          (text_eq_sound (v ∷ vv) (a ∷ x) same) (rw redact_each-cons at h)))
  | inr other ↦
      redact_each_absent vs (replace_from (v ∷ vv) redacted 0 t) a x d (ground arith)
        (rw redact_each-cons at h)
]

-- A sensitive value that is not empty and shares no code unit with the marker "[REDACTED]" does not
-- occur in the redacted text, whatever the other values are and however they overlap.
pub redact_sensitive_text_absent :
    (text : Text) (values : List Text) (value : Text)
    → 0 < length value
    → IsDisjoint redacted value
    → has values value ≡ true
    → includes (redact_sensitive_text text values) value ≡ false
unfolding redact_sensitive_text
redact_sensitive_text_absent text values [] p d m = absurd (omega arith)
redact_sensitive_text_absent text values (a ∷ x) p d m =
    elim (Bool-cases (includes (redact_sensitive_text text values) (a ∷ x))) [
      | inl h ↦ absurd (
          redact_each_absent _ text a x d
            (has-sort_by longer_first (dedupe values) (a ∷ x) ∙ (has-dedupe values (a ∷ x) ∙ m)) h)
      | inr h ↦ h
    ]

replace_from_unchanged :
    (sep marker t : Text) → includes t sep ≡ false → replace_from sep marker 0 t ≡ t
unfolding includes replace_from
replace_from_unchanged sep marker [] h = refl
replace_from_unchanged sep marker (c ∷ t) h = ground (arith, replace_from_unchanged sep marker t)

redact_each_unchanged :
    (vs : List Text) (t : Text)
    → All (λ v. (v ≡ []) ⊎ (includes t v ≡ false)) vs
    → redact_each vs t ≡ t
unfolding redact_each
redact_each_unchanged [] t h = refl
redact_each_unchanged ([] ∷ vs) t (p, h) = redact_each_unchanged vs t h
redact_each_unchanged ((v ∷ vv) ∷ vs) t (p, h) =
    redact_each-cons v vv vs t
    ∙ (ap (redact_each vs) (replace_from_unchanged (v ∷ vv) redacted t (ground arith))
        ∙ redact_each_unchanged vs t h)
