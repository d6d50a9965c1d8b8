-- ===== src/Core/Rolekit/Distinct.antt =====
-- No id is registered twice, and no run id is active twice.
use rolekit.Common.{
  Bool, false, not, ◌≡◌, refl, ap, ◌∙◌, inl, inr, List, [], ◌∷◌, ◌++◌, map, filter, arith, All,
  All-append, Bool-cases, is_some,
}
use rolekit.Common.Text.{Text, text_eq, has}
use rolekit.Common.SortedUnique.{IsDistinct}
use rolekit.Core.Error.{Result-cases, ok}
use rolekit.Core.Plan.Data.{RoleSpec}
use rolekit.Core.Plan.Normalize.{PlanEnv}
use rolekit.Core.Rolekit.Registry.{
  Rolekit, empty, get, role_snapshot, register_role, AdapterCandidate, register_adapter, enter_run,
  Change, add_role, add_adapter, enters, leaves, change, changes,
}

IsDistinct-push :
    (xs : List Text) (x : Text) → has xs x ≡ false → IsDistinct xs → IsDistinct (xs ++ (x ∷ []))
unfolding has
IsDistinct-push [] x h d = (tt, tt)
IsDistinct-push (y ∷ ys) x h (a, d) = (
  All-append (λ z. text_eq y z ≡ false) ys (x ∷ []) a (ground arith, tt),
  IsDistinct-push ys x (ground arith) d,
)

All-filter :
    (P : Text → Type 0) (keep : Text → Bool) (xs : List Text) → All P xs → All P (filter keep xs)
All-filter P keep [] h = tt
All-filter P keep (x ∷ xs) (p, h) = ground (arith, All-filter P keep xs h)

IsDistinct-filter :
    (keep : Text → Bool) (xs : List Text) → IsDistinct xs → IsDistinct (filter keep xs)
IsDistinct-filter keep [] d = tt
IsDistinct-filter keep (x ∷ xs) (a, d) = elim (Bool-cases (keep x)) [
  | inl stays ↦
      rw stays (All-filter (λ z. text_eq x z ≡ false) keep xs a, IsDistinct-filter keep xs d)
  | inr goes ↦ rw goes (IsDistinct-filter keep xs d)
]

has-map-get {ℓ} :
    {A : Type ℓ} (key : Text) (entries : List (Text × A))
    → has (map (λ e. e.0) entries) key ≡ is_some (get key entries)
unfolding has get
has-map-get key [] = refl
has-map-get key ((k, v) ∷ rest) = ground (arith, has-map-get key rest)

map-push {ℓ} :
    {A : Type ℓ} (entries : List (Text × A)) (key : Text) (value : A)
    → map (λ (e : Text × A). e.0) (entries ++ ((key, value) ∷ []))
      ≡ map (λ e. e.0) entries ++ (key ∷ [])
map-push [] key value = refl
map-push (e ∷ rest) key value = ap (λ xs. e.0 ∷ xs) (map-push rest key value)

push_key {ℓ} :
    {A : Type ℓ} (entries : List (Text × A)) (key : Text) (value : A)
    → is_some (get key entries) ≡ false
    → IsDistinct (map (λ e. e.0) entries)
    → IsDistinct (map (λ e. e.0) (entries ++ ((key, value) ∷ [])))
push_key entries key value h d =
    rw (map-push entries key value)
      (IsDistinct-push (map (λ e. e.0) entries) key (has-map-get key entries ∙ h) d)

pub record IsValid (kit : Rolekit) : Type 0 where
  pub roles : IsDistinct (map (λ e. e.0) kit.roles)
  pub adapters : IsDistinct (map (λ e. e.0) kit.adapters)
  pub runs : IsDistinct kit.active_run_ids

empty-IsValid : IsValid empty
unfolding empty
empty-IsValid = record { roles = tt; adapters = tt; runs = tt }

-- What a registration that succeeds has done.
pub register_role_lem :
    (env : PlanEnv) (role : RoleSpec) (kit next : Rolekit)
    → register_role env role kit ≡ ok next
    → (snapshot : RoleSpec) × (role_snapshot env role ≡ ok snapshot)
      × (is_some (get snapshot.id kit.roles) ≡ false)
      × (next ≡ record kit { roles = kit.roles ++ ((snapshot.id, snapshot) ∷ []) })
unfolding register_role
register_role_lem env role kit next h = elim (Result-cases (role_snapshot env role)) [
  | inr (e, bad) ↦ absurd (ground arith)
  | inl (snapshot, fine) ↦ (snapshot, fine, ground arith, ground arith)
]

pub register_adapter_lem :
    (c : AdapterCandidate) (kit next : Rolekit)
    → register_adapter c kit ≡ ok next
    → (is_some (get c.id_text kit.adapters) ≡ false)
      × (next ≡ record kit { adapters = kit.adapters ++ ((c.id_text, c.adapter) ∷ []) })
unfolding register_adapter
register_adapter_lem c kit next h = (ground arith, ground arith)

pub enter_run_lem :
    (id : Text) (kit next : Rolekit)
    → enter_run id kit ≡ ok next
    → (has kit.active_run_ids id ≡ false)
      × (next ≡ record kit { active_run_ids = kit.active_run_ids ++ (id ∷ []) })
unfolding enter_run
enter_run_lem id kit next h = (ground arith, ground arith)

change-IsValid :
    (env : PlanEnv) (kit : Rolekit) (c : Change) → IsValid kit → IsValid (change env kit c)
unfolding change
change-IsValid env kit (add_role role) v = elim (Result-cases (register_role env role kit)) [
  | inr (e, bad) ↦ rw (change, bad) v
  | inl (next, fine) ↦
      let (snapshot, _, new, same) = register_role_lem env role kit next fine in
      rw (change, fine, same)
        (record {
          roles = push_key kit.roles snapshot.id snapshot new v.roles;
          adapters = v.adapters;
          runs = v.runs;
        })
]
change-IsValid env kit (add_adapter c) v = elim (Result-cases (register_adapter c kit)) [
  | inr (e, bad) ↦ rw (change, bad) v
  | inl (next, fine) ↦
      let (new, same) = register_adapter_lem c kit next fine in
      rw (change, fine, same)
        (record {
          roles = v.roles;
          adapters = push_key kit.adapters c.id_text c.adapter new v.adapters;
          runs = v.runs;
        })
]
change-IsValid env kit (enters id) v = elim (Result-cases (enter_run id kit)) [
  | inr (e, bad) ↦ rw (change, bad) v
  | inl (next, fine) ↦
      let (new, same) = enter_run_lem id kit next fine in
      rw (change, fine, same)
        (record {
          roles = v.roles;
          adapters = v.adapters;
          runs = IsDistinct-push kit.active_run_ids id new v.runs;
        })
]
change-IsValid env kit (leaves id) v = record {
  roles = v.roles;
  adapters = v.adapters;
  runs = IsDistinct-filter (λ other. not (text_eq other id)) kit.active_run_ids v.runs;
}

changes_from-IsValid :
    (env : PlanEnv) (kit : Rolekit) (cs : List Change) → IsValid kit → IsValid (changes env kit cs)
unfolding changes
changes_from-IsValid env kit [] v = v
changes_from-IsValid env kit (c ∷ cs) v =
    changes_from-IsValid env (change env kit c) cs (change-IsValid env kit c v)

-- Whatever roles and adapters are offered to a new instance and whichever runs begin and end, in any
-- order: no role id and no adapter id is registered twice, and no run id is active twice.
pub changes-IsValid : (env : PlanEnv) (cs : List Change) → IsValid (changes env empty cs)
changes-IsValid env cs = changes_from-IsValid env empty cs empty-IsValid
