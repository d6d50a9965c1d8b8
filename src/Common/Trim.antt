-- ===== src/Common/Trim.antt =====
-- Which texts `trim` leaves empty.
use Prim.Native.Nat.{ℕ}
use mathlib.Core.Path.{◌≡◌, refl, ap, ◌∙◌}
use mathlib.Core.Logic.{◌↔◌, ◌⊎◌, inl, inr}
use mathlib.Core.Bool.{true, false}
use mathlib.Core.List.{[], ◌∷◌, ◌++◌, reverse, reverse-append, reverse-cons, append_assoc}
use native.Mathlib.Omega.{arith}
use rolekit.Common.Tests.{◌==◌, Bool-cases}
use rolekit.Common.Lists.{length}
use rolekit.Common.Text.{Text, is_space, trim_start, trim}

-- Some unit of the text is no white space.
abbrev pub IsPrinted : Text → Type 0
IsPrinted t =
    (before : Text) × (c : ℕ) × (after : Text) × (t ≡ before ++ (c ∷ after)) × (is_space c ≡ false)

trim_start-IsPrinted : (t : Text) → IsPrinted t → IsPrinted (trim_start t)
unfolding trim_start
trim_start-IsPrinted t (before, c, after, e, black) =
    let (start, f) = kept before c after black in (start, c, after, ap trim_start e ∙ f, black)
  where
    kept :
        (before : Text) (c : ℕ) (after : Text)
        → is_space c ≡ false
        → (start : Text) × (trim_start (before ++ (c ∷ after)) ≡ start ++ (c ∷ after))
    kept [] c after black = ([], rw (trim_start, black) refl)
    kept (d ∷ before) c after black = elim (Bool-cases (is_space d)) [
      | inl white ↦ rw (trim_start, white) (kept before c after black)
      | inr other ↦ (d ∷ before, rw (trim_start, other) refl)
    ]

reverse-IsPrinted : (t : Text) → IsPrinted t → IsPrinted (reverse t)
reverse-IsPrinted t (before, c, after, e, black) =
    let turned : reverse (before ++ (c ∷ after)) ≡ reverse after ++ (c ∷ reverse before) =
      reverse-append before (c ∷ after)
      ∙ (ap (λ x. x ++ reverse before) (reverse-cons c after)
          ∙ append_assoc (reverse after) (c ∷ []) (reverse before)) in
    (reverse after, c, reverse before, ap reverse e ∙ turned, black)

IsPrinted-filled : (t : Text) → IsPrinted t → (length t == 0) ≡ false
IsPrinted-filled [] ([], c, after, e, black) = absurd (cc)
IsPrinted-filled [] (d ∷ before, c, after, e, black) = absurd (cc)
IsPrinted-filled (x ∷ t) p = ground arith

start_cases : (t : Text) → IsPrinted t ⊎ (trim_start t ≡ [])
unfolding trim_start
start_cases [] = inr refl
start_cases (c ∷ t) = elim (Bool-cases (is_space c)) [
  | inr black ↦ inl ([], c, t, refl, black)
  | inl white ↦ elim (start_cases t) [
    | inl (before, d, after, e, black) ↦ inl (c ∷ before, d, after, ap (λ x. c ∷ x) e, black)
    | inr nothing ↦ inr (rw (trim_start, white) nothing)
  ]
]

trim_nothing : (t : Text) → trim_start t ≡ [] → (length (trim t) == 0) ≡ true
unfolding trim
trim_nothing t h = rw (trim, h) refl

-- `text.trim().length === 0` is false exactly of a text with a unit that is no white space.
pub length-trim_iff : (t : Text) → ((length (trim t) == 0) ≡ false) ↔ IsPrinted t
unfolding trim
length-trim_iff t = (
  (λ h. elim (start_cases t) [
    | inl printed ↦ printed
    | inr nothing ↦ absurd (let e = trim_nothing t nothing in ground arith)
  ]),
  (λ p. IsPrinted-filled (trim t) (
      reverse-IsPrinted _
        (trim_start-IsPrinted _ (reverse-IsPrinted _ (trim_start-IsPrinted t p))))),
)
