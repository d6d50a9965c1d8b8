-- ===== src/Cli/Termination/Verified.antt =====
-- What the termination of a process tree on Windows establishes.
use rolekit.Common.{
  ℕ, Bool, true, false, ◌&&◌, ◌≡◌, refl, sym, ap, ◌++◌, ◌⊎◌, inl, inr, none, some, List, [], ◌∷◌,
  All, arith, Bool-cases,
}
use rolekit.Common.Text.{Text, codes}
use rolekit.Cli.Termination.Windows.{
  HelperOutcome, WindowsEnv, Windows, member_of, distinct_from, is_pid, is_zero, unique_pids,
  surviving_windows_pids, helper_failures, wait_for_exit, no_items, captured_pids, exit_of,
  taskkill_succeeded, fall_back, terminate_windows_process_tree,
}

none_survive :
    (pids : List ℕ) (look : ℕ → Bool)
    → no_items (surviving_windows_pids pids look) ≡ true
    → All (λ p. look p ≡ false) pids
none_survive [] look h = tt
none_survive (p ∷ ps) look h = elim (Bool-cases (look p)) [
  | inl alive ↦ absurd (ground arith)
  | inr gone ↦ (gone, none_survive ps look (ground arith))
]

captured_root :
    (env : WindowsEnv) (pid : ℕ) → is_pid pid ≡ true → member_of pid (captured_pids env pid) ≡ true
unfolding captured_pids unique_pids distinct_from
captured_root env pid h = ground arith

-- What holds where a termination does not throw.
pub record IsVerified (env : WindowsEnv) (pid : ℕ) (t : Windows) : Type 0 where
  pub rooted : member_of pid t.captured ≡ true
  pub gone : All (λ p. env.exists_after_taskkill p ≡ false) t.captured
  pub listed_fine : helper_failures (codes "Windows descendant enumeration") env.snapshot ≡ []
  pub killed_fine : is_zero (exit_of env.taskkill.result) ≡ true
  pub gentle : (t.fell_back ≡ false) × (t.killed ≡ [])

no_items-nil {ℓ} : {A : Type ℓ} (xs : List A) → no_items xs ≡ true → xs ≡ []
no_items-nil [] h = refl
no_items-nil (x ∷ xs) h = absurd (ground arith)

taskkill_succeeded-is_zero :
    (o : HelperOutcome) → taskkill_succeeded o ≡ true → is_zero (exit_of o.result) ≡ true
unfolding taskkill_succeeded
taskkill_succeeded-is_zero o h = ground arith

fall_back_throws :
    (env : WindowsEnv) (captured : List ℕ) → (fall_back env captured).thrown ≡ none → ⊥
unfolding fall_back
fall_back_throws env captured h = cc

-- A termination of a process with a valid id that does not throw has captured that process, and after
-- taskkill neither it nor any other process that it has captured exists; the enumeration of the descendants
-- had no failure, taskkill exited with 0, and nothing was killed by the fallback or by force.
pub terminate_windows_process_tree-IsVerified :
    (env : WindowsEnv) (pid : ℕ)
    → is_pid pid ≡ true
    → (terminate_windows_process_tree env (some pid)).thrown ≡ none
    → IsVerified env pid (terminate_windows_process_tree env (some pid))
unfolding terminate_windows_process_tree
terminate_windows_process_tree-IsVerified env pid fits h =
    elim (Bool-cases (
      no_items (helper_failures (codes "Windows descendant enumeration") env.snapshot)
      && (taskkill_succeeded env.taskkill
          && no_items
              (surviving_windows_pids (captured_pids env pid) env.exists_after_taskkill)))) [
                | inr failed ↦ absurd (fall_back_throws env (captured_pids env pid) (ground arith))
                | inl fine ↦
                    rw (terminate_windows_process_tree, fine)
                      (record {
                        rooted = captured_root env pid fits;
                        gone =
                            none_survive (captured_pids env pid) env.exists_after_taskkill
                              (ground arith);
                        listed_fine = no_items-nil _ (ground arith);
                        killed_fine = taskkill_succeeded-is_zero env.taskkill (ground arith);
                        gentle = (refl, refl);
                      })
              ]

-- The look finds one of the processes.
abbrev pub FindsSome : List ℕ → (ℕ → Bool) → Type 0
FindsSome pids look = (p : ℕ) × (member_of p pids ≡ true) × (look p ≡ true)

-- The look that the wait ends with: every look before it finds one of the processes, and it finds none of
-- them, or there is no look after it before the deadline.
abbrev pub IsLastLook : List ℕ → (ℕ → Bool) → List (ℕ → Bool) → Type 0
IsLastLook pids look looks =
    (earlier : List (ℕ → Bool)) × (later : List (ℕ → Bool)) × (looks ≡ earlier ++ (look ∷ later))
    × All (FindsSome pids) earlier
    × (All (λ p. look p ≡ false) pids ⊎ (later ≡ []))

some_survive :
    (pids : List ℕ) (look : ℕ → Bool)
    → no_items (surviving_windows_pids pids look) ≡ false
    → FindsSome pids look
some_survive [] look h = absurd (ground arith)
some_survive (p ∷ ps) look h = elim (Bool-cases (look p)) [
  | inl alive ↦ (p, ground arith, alive)
  | inr gone ↦
      let (q, there, alive) = some_survive ps look (ground arith) in (q, ground arith, alive)
]

wait_lem :
    (pids : List ℕ) (found : List ℕ) (first : ℕ → Bool) (later : List (ℕ → Bool))
    → found ≡ surviving_windows_pids pids first
    → (look : ℕ → Bool) × IsLastLook pids look (first ∷ later)
      × (wait_for_exit pids found later ≡ surviving_windows_pids pids look)
unfolding wait_for_exit
wait_lem pids [] first later h =
    (first, ([], later, refl, tt, inl (none_survive pids first (ap no_items (sym h)))), h)
wait_lem pids (s ∷ ss) first [] h = (first, ([], [], refl, tt, inr refl), h)
wait_lem pids (s ∷ ss) first (next ∷ later) h =
    let (look, (earlier, rest, e, found, ends), same) =
      wait_lem pids (surviving_windows_pids pids next) next later refl in
    let some : FindsSome pids first = some_survive pids first (ap no_items (sym h)) in
    (look, (first ∷ earlier, rest, ap (λ ls. first ∷ ls) e, (some, found), ends), same)

fall_back_lem :
    (env : WindowsEnv) (captured : List ℕ)
    → (look : ℕ → Bool) × IsLastLook captured look (env.exists_first ∷ env.exists_later)
      × ((fall_back env captured).killed ≡ surviving_windows_pids captured look)
      × ((fall_back env captured).captured ≡ captured)
unfolding fall_back
fall_back_lem env captured =
    let (look, last, same) =
      wait_lem captured (surviving_windows_pids captured env.exists_first) env.exists_first
        env.exists_later refl in
    (look, last, same, refl)

-- A termination that throws has killed by force exactly the captured processes that the last look of the
-- wait found. Every look before it found one of them, and it found none, so that nothing is killed, or
-- it is the last look before the deadline.
pub terminate_windows_process_tree_killed :
    (env : WindowsEnv) (pid : ℕ) (ds : List Text)
    → (terminate_windows_process_tree env (some pid)).thrown ≡ some ds
    → let t = terminate_windows_process_tree env (some pid) in
      (look : ℕ → Bool) × IsLastLook t.captured look (env.exists_first ∷ env.exists_later)
      × (t.killed ≡ surviving_windows_pids t.captured look)
unfolding terminate_windows_process_tree fall_back
terminate_windows_process_tree_killed env pid ds h =
    elim (Bool-cases (
      no_items (helper_failures (codes "Windows descendant enumeration") env.snapshot)
      && (taskkill_succeeded env.taskkill
          && no_items
              (surviving_windows_pids (captured_pids env pid) env.exists_after_taskkill)))) [
                | inl fine ↦ absurd (ground arith)
                | inr failed ↦
                    let (look, last, same, kept) = fall_back_lem env (captured_pids env pid) in
                    rw (terminate_windows_process_tree, failed) (look, last, same)
              ]
