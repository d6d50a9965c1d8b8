-- ===== src/Core/Rolekit/Refused.antt =====
-- Which runs are refused, by the runs that began and ended before.
use rolekit.Common.{
  Bool, true, false, ◌||◌, ◌≡◌, refl, ap, ◌∙◌, inl, inr, List, [], ◌∷◌, ◌++◌, if◌then◌else◌, arith,
  Bool-cases, All, ◌↔◌, ◌⊎◌, sym,
}
use rolekit.Common.Text.{Text, text_eq, text_eq_sound, text_eq_refl, has}
use rolekit.Core.Error.{RolekitError, err}
use rolekit.Core.Plan.Normalize.{PlanEnv}
use rolekit.Core.Rolekit.Registry.{
  Rolekit, empty, enter_run, Change, add_role, add_adapter, enters, leaves, changes,
}
use rolekit.Core.Rolekit.Active.{is_running, changes_active, enter_run_refused}

-- A change that does not end the run of an id.
abbrev pub Spares : Text → Change → Type 0
Spares id (add_role role) = Unit
Spares id (add_adapter c) = Unit
Spares id (enters other) = Unit
Spares id (leaves other) = text_eq other id ≡ false

-- The changes have a beginning of the run of an id that no end of it comes after.
abbrev pub IsGoingOn : Text → List Change → Type 0
IsGoingOn id cs =
    (before : List Change) × (after : List Change) × (cs ≡ before ++ (enters id ∷ after))
    × All (Spares id) after

-- It was going on before the changes and goes on, or began in them.
abbrev GoesOn : Text → Bool → List Change → Type 0
GoesOn id now cs = ((now ≡ true) × All (Spares id) cs) ⊎ IsGoingOn id cs

later_one : (id : Text) (c : Change) (cs : List Change) → IsGoingOn id cs → IsGoingOn id (c ∷ cs)
later_one id c cs (before, after, e, spared) = (c ∷ before, after, ap (λ xs. c ∷ xs) e, spared)

one_before :
    (id : Text) (now next : Bool) (c : Change) (cs : List Change)
    → ((next ≡ true) → (now ≡ true) × Spares id c)
    → GoesOn id next cs
    → GoesOn id now (c ∷ cs)
one_before id now next c cs back (inl (still, spared)) =
    let (before, kept) = back still in inl (before, (kept, spared))
one_before id now next c cs back (inr began) = inr (later_one id c cs began)

is_running-GoesOn :
    (id : Text) (now : Bool) (cs : List Change) → is_running id now cs ≡ true → GoesOn id now cs
is_running-GoesOn id now [] h = inl (h, tt)
is_running-GoesOn id now (add_role role ∷ cs) h =
    one_before id now now _ cs (λ e. (e, tt)) (is_running-GoesOn id now cs h)
is_running-GoesOn id now (add_adapter c ∷ cs) h =
    one_before id now now _ cs (λ e. (e, tt)) (is_running-GoesOn id now cs h)
is_running-GoesOn id now (leaves other ∷ cs) h =
    one_before id now (if text_eq other id then false else now) _ cs
      (λ e. (ground arith, ground arith)) (is_running-GoesOn id _ cs h)
is_running-GoesOn id now (enters other ∷ cs) h = elim (Bool-cases (text_eq other id)) [
  | inr another ↦
      one_before id now (now || text_eq other id) _ cs (λ e. (ground arith, tt))
        (is_running-GoesOn id _ cs h)
  | inl same ↦ elim (is_running-GoesOn id (now || text_eq other id) cs h) [
    | inl (_, spared) ↦ inr ([], cs, ap (λ x. enters x ∷ cs) (text_eq_sound other id same), spared)
    | inr began ↦ inr (later_one id (enters other) cs began)
  ]
]

spared_runs :
    (id : Text) (now : Bool) (cs : List Change)
    → now ≡ true
    → All (Spares id) cs
    → is_running id now cs ≡ true
spared_runs id now [] h spared = h
spared_runs id now (add_role role ∷ cs) h spared = spared_runs id now cs h spared.1
spared_runs id now (add_adapter c ∷ cs) h spared = spared_runs id now cs h spared.1
spared_runs id now (enters other ∷ cs) h spared =
    spared_runs id (now || text_eq other id) cs (ground arith) spared.1
spared_runs id now (leaves other ∷ cs) h (kept, spared) =
    spared_runs id (if text_eq other id then false else now) cs (rw kept h) spared

began_runs :
    (id : Text) (before after : List Change) (now : Bool)
    → All (Spares id) after
    → is_running id now (before ++ (enters id ∷ after)) ≡ true
began_runs id [] after now spared =
    let same = text_eq_refl id in spared_runs id (now || text_eq id id) after (ground arith) spared
began_runs id (add_role role ∷ before) after now spared = began_runs id before after now spared
began_runs id (add_adapter c ∷ before) after now spared = began_runs id before after now spared
began_runs id (enters other ∷ before) after now spared =
    began_runs id before after (now || text_eq other id) spared
began_runs id (leaves other ∷ before) after now spared =
    began_runs id before after (if text_eq other id then false else now) spared

is_running_iff : (id : Text) (cs : List Change) → (is_running id false cs ≡ true) ↔ IsGoingOn id cs
is_running_iff id cs = (
  (λ h. elim (is_running-GoesOn id false cs h) [
    | inl (never, _) ↦ absurd (ground arith)
    | inr began ↦ began
  ]),
  (λ (before, after, e, spared). rw e (began_runs id before after false spared)),
)

enter_run-has_iff :
    (id : Text) (kit : Rolekit)
    → ((e : RolekitError) × (enter_run id kit ≡ err e)) ↔ (has kit.active_run_ids id ≡ true)
unfolding enter_run
enter_run-has_iff id kit =
    ((λ (e, h). enter_run_refused id kit e h), (λ h. rw (enter_run, h) (_, refl)))

-- Whatever changes a new instance goes through, with runs that begin, are refused and end in any order: a
-- run of an id is refused next exactly if among the changes the run of that id begins, or tries to, and
-- does not end after that.
pub enter_run_refused_iff :
    (env : PlanEnv) (cs : List Change) (id : Text)
    → ((e : RolekitError) × (enter_run id (changes env empty cs) ≡ err e)) ↔ IsGoingOn id cs
enter_run_refused_iff env cs id =
    let active = changes_active env cs id in
    let (refused, refuses) = enter_run-has_iff id (changes env empty cs) in
    let (going, goes) = is_running_iff id cs in
    ((λ h. going (sym active ∙ refused h)), (λ g. refuses (active ∙ goes g)))
