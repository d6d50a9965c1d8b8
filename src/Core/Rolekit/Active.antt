-- ===== src/Core/Rolekit/Active.antt =====
-- The set of active run ids, by the runs that began and ended.
use rolekit.Common.{
  Bool, true, false, not, ◌||◌, ◌≡◌, refl, ap, ◌∙◌, inl, inr, List, [], ◌∷◌, ◌++◌, filter,
  if◌then◌else◌, arith, Bool-cases,
}
use rolekit.Common.Text.{Text, text_eq, text_eq_sound, text_eq_refl, has}
use rolekit.Core.Error.{RolekitError, Result-cases, err}
use rolekit.Core.Plan.Normalize.{PlanEnv}
use rolekit.Core.Rolekit.Registry.{
  Rolekit, empty, register_role, register_adapter, enter_run, Change, add_role, add_adapter, enters,
  leaves, change, changes,
}
use rolekit.Core.Rolekit.Distinct.{register_role_lem, register_adapter_lem, enter_run_lem}

-- Whether the run of an id is going on after some changes: it began, or was going on before, and did not
-- end since.
abbrev pub is_running : Text → Bool → List Change → Bool
is_running id now [] = now
is_running id now (enters other ∷ cs) = is_running id (now || text_eq other id) cs
is_running id now (leaves other ∷ cs) = is_running id (if text_eq other id then false else now) cs
is_running id now (add_role role ∷ cs) = is_running id now cs
is_running id now (add_adapter c ∷ cs) = is_running id now cs

pub has-push :
    (xs : List Text) (x id : Text) → has (xs ++ (x ∷ [])) id ≡ (has xs id || text_eq x id)
unfolding has
has-push [] x id = ground arith
has-push (y ∷ ys) x id = ground (arith, has-push ys x id)

different :
    (other id x : Text) → text_eq x id ≡ true → text_eq other id ≡ false → text_eq x other ≡ false
different other id x p q = elim (Bool-cases (text_eq x other)) [
  | inl same ↦ let e = text_eq_sound x other same in absurd (ground arith)
  | inr apart ↦ apart
]

alike : (other id x : Text) → text_eq x id ≡ true → text_eq other id ≡ true → text_eq x other ≡ true
alike other id x p q =
    let e = text_eq_sound x id p in let f = text_eq_sound other id q in rw (e, f) (text_eq_refl id)

pub has-filter :
    (xs : List Text) (other id : Text)
    → has (filter (λ x. not (text_eq x other)) xs) id
      ≡ (if text_eq other id then false else has xs id)
unfolding has
has-filter [] other id = ground arith
has-filter (x ∷ xs) other id =
    ground (arith, has-filter xs other id, different other id x, alike other id x)

-- A run is refused only where its id is active.
pub enter_run_refused :
    (id : Text) (kit : Rolekit) (e : RolekitError)
    → enter_run id kit ≡ err e
    → has kit.active_run_ids id ≡ true
unfolding enter_run
enter_run_refused id kit e h = ground arith

active_already :
    (xs : List Text) (other id : Text)
    → has xs other ≡ true
    → has xs id ≡ (has xs id || text_eq other id)
active_already xs other id h = elim (Bool-cases (text_eq other id)) [
  | inl same ↦ let e = text_eq_sound other id same in ground arith
  | inr apart ↦ ground arith
]

-- What is active after one change.
change_active :
    (env : PlanEnv) (kit : Rolekit) (c : Change) (id : Text)
    → has (change env kit c).active_run_ids id ≡ is_running id (has kit.active_run_ids id) (c ∷ [])
unfolding change
change_active env kit (add_role role) id = elim (Result-cases (register_role env role kit)) [
  | inr (e, bad) ↦ rw (change, bad) refl
  | inl (next, fine) ↦
      let (snapshot, _, _, same) = register_role_lem env role kit next fine in
      rw (change, fine, same) refl
]
change_active env kit (add_adapter c) id = elim (Result-cases (register_adapter c kit)) [
  | inr (e, bad) ↦ rw (change, bad) refl
  | inl (next, fine) ↦
      let (_, same) = register_adapter_lem c kit next fine in rw (change, fine, same) refl
]
change_active env kit (enters other) id = elim (Result-cases (enter_run other kit)) [
  | inr (e, bad) ↦
      rw (change, bad)
        (active_already kit.active_run_ids other id (enter_run_refused other kit e bad))
  | inl (next, fine) ↦
      let (_, same) = enter_run_lem other kit next fine in
      rw (change, fine, same) (has-push kit.active_run_ids other id)
]
change_active env kit (leaves other) id = has-filter kit.active_run_ids other id

one_more :
    (id : Text) (now : Bool) (c : Change) (cs : List Change)
    → is_running id (is_running id now (c ∷ [])) cs ≡ is_running id now (c ∷ cs)
one_more id now (add_role role) cs = refl
one_more id now (add_adapter c) cs = refl
one_more id now (enters other) cs = refl
one_more id now (leaves other) cs = refl

pub changes_from_active :
    (env : PlanEnv) (kit : Rolekit) (cs : List Change) (id : Text)
    → has (changes env kit cs).active_run_ids id ≡ is_running id (has kit.active_run_ids id) cs
unfolding changes
changes_from_active env kit [] id = refl
changes_from_active env kit (c ∷ cs) id =
    changes_from_active env (change env kit c) cs id
    ∙ (ap (λ now. is_running id now cs) (change_active env kit c id)
        ∙ one_more id (has kit.active_run_ids id) c cs)

nothing_active : (id : Text) → has empty.active_run_ids id ≡ false
unfolding has empty
nothing_active id = refl

pub changes_active :
    (env : PlanEnv) (cs : List Change) (id : Text)
    → has (changes env empty cs).active_run_ids id ≡ is_running id false cs
changes_active env cs id =
    changes_from_active env empty cs id ∙ ap (λ now. is_running id now cs) (nothing_active id)
