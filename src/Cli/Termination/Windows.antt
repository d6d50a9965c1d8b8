-- ===== src/Cli/Termination/Windows.antt =====
-- `terminateWindowsProcessTree` of src/adapters/cli/termination.ts. The three helpers are given by their
-- outcomes, and the operating system by what each look at a process finds.
use rolekit.Common.{
  ℕ, Bool, true, false, not, ◌&&◌, ◌||◌, Option, none, some, List, [], ◌∷◌, ◌++◌, map, filter,
  if◌then◌else◌, ltb, leb, ◌==◌,
}
use rolekit.Common.Text.{Text, codes, join, decimal}

pub record HelperResult : Type 0 where
  pub exit_code : Option ℕ
  pub pids : Option (List ℕ)
  pub failures : Option (List Text)

pub record HelperOutcome : Type 0 where
  pub result : Option HelperResult
  pub failure : Option Text
  pub timed_out : Bool

-- The outcomes of the helpers, and which processes exist: after taskkill, at each look of the wait that
-- the deadline leaves time for after the first, and after the forced kills.
pub record WindowsEnv : Type 0 where
  pub snapshot : HelperOutcome
  pub taskkill : HelperOutcome
  pub fallback : HelperOutcome
  pub exists_after_taskkill : ℕ → Bool
  pub exists_first : ℕ → Bool
  pub exists_later : List (ℕ → Bool)
  pub exists_last : ℕ → Bool

-- What the call did: whether the fallback ran, the processes it killed by force, and what it throws.
pub record Windows : Type 0 where
  pub captured : List ℕ
  pub fell_back : Bool
  pub killed : List ℕ
  pub thrown : Option (List Text)

abbrev pub member_of : ℕ → List ℕ → Bool
member_of p [] = false
member_of p (q ∷ qs) = p == q || member_of p qs

unfoldable pub distinct_from : List ℕ → List ℕ → List ℕ
distinct_from seen [] = []
distinct_from seen (p ∷ ps) =
    let rest = distinct_from (p ∷ seen) ps in if member_of p seen then rest else p ∷ rest

-- `Number.isSafeInteger(pid) && pid > 0`
abbrev pub is_pid : ℕ → Bool
is_pid p = ltb 0 p && leb p 9007199254740991

unfoldable pub unique_pids : List ℕ → List ℕ
unfolding distinct_from
unique_pids pids = distinct_from [] (filter is_pid pids)

abbrev pub surviving_windows_pids : List ℕ → (ℕ → Bool) → List ℕ
surviving_windows_pids pids process_exists = filter process_exists pids

abbrev code_text : Option ℕ → Text
code_text none = codes "null"
code_text (some c) = decimal c

abbrev listed {ℓ} : {A : Type ℓ} → Option (List A) → List A
listed none = []
listed (some xs) = xs

abbrev pub is_zero : Option ℕ → Bool
is_zero none = false
is_zero (some c) = c == 0

-- A bad exit code is a failure of its own only where the helper names none.
unfoldable pub result_failures : Text → Option ℕ → List Text → List Text
result_failures stage code [] =
    if is_zero code
    then []
    else (stage ++ (codes " helper exited with code " ++ code_text code)) ∷ []
result_failures stage code (f ∷ fs) = f ∷ fs

unfoldable pub helper_failures : Text → HelperOutcome → List Text
unfolding result_failures
helper_failures stage outcome =
    if outcome.timed_out
    then (stage ++ codes " helper exceeded the total termination deadline") ∷ []
    else elim outcome.failure [
      | some failure ↦ (stage ++ (codes " helper failed: " ++ failure)) ∷ []
      | none ↦ elim outcome.result [
        | none ↦ (stage ++ codes " helper did not return a result") ∷ []
        | some result ↦ result_failures stage result.exit_code (listed result.failures)
      ]
    ]

-- `waitForWindowsPidsExit`: it looks again until nothing survives or the deadline is over.
unfoldable pub wait_for_exit : List ℕ → List ℕ → List (ℕ → Bool) → List ℕ
wait_for_exit pids [] later = []
wait_for_exit pids (s ∷ ss) [] = s ∷ ss
wait_for_exit pids (s ∷ ss) (look ∷ later) =
    wait_for_exit pids (surviving_windows_pids pids look) later

abbrev pub no_items {ℓ} : {A : Type ℓ} → List A → Bool
no_items [] = true
no_items (x ∷ xs) = false

abbrev pids_of : Option HelperResult → List ℕ
pids_of none = []
pids_of (some r) = listed r.pids

abbrev pub exit_of : Option HelperResult → Option ℕ
exit_of none = none
exit_of (some r) = r.exit_code

abbrev undefined {ℓ} : {A : Type ℓ} → Option A → Bool
undefined none = true
undefined (some a) = false

abbrev told : Text → List ℕ → List Text
told message [] = []
told message (p ∷ ps) = (message ++ join (codes ", ") (map decimal (p ∷ ps))) ∷ []

-- One diagnostic is there in any case, so that the source's branch for none is never taken.
unfoldable pub diagnostics_of : WindowsEnv → List ℕ → List ℕ → List Text
unfolding join decimal helper_failures
diagnostics_of env survivors final_survivors =
    helper_failures (codes "Windows descendant enumeration") env.snapshot
    ++ (helper_failures (codes "Windows tree-aware taskkill") env.taskkill
        ++ (helper_failures (codes "Windows fallback kill") env.fallback
            ++ (codes
                  "tree-aware taskkill did not establish race-free containment; explicit-PID fallback cleanup is unverified"
                ∷ (told (codes "verification found surviving parent/descendant PIDs: ") survivors
                    ++ told (codes "final force-kill verification still found PIDs: ")
                        final_survivors))))

unfoldable pub captured_pids : WindowsEnv → ℕ → List ℕ
unfolding unique_pids
captured_pids env pid = unique_pids (pid ∷ pids_of env.snapshot.result)

unfoldable pub taskkill_succeeded : HelperOutcome → Bool
unfolding helper_failures
taskkill_succeeded taskkill =
    no_items (helper_failures (codes "Windows tree-aware taskkill") taskkill)
    && (is_zero (exit_of taskkill.result) && (not taskkill.timed_out && undefined taskkill.failure))

-- From the fallback on.
unfoldable pub fall_back : WindowsEnv → List ℕ → Windows
unfolding wait_for_exit diagnostics_of
fall_back env captured =
    let survivors =
      wait_for_exit captured (surviving_windows_pids captured env.exists_first) env.exists_later in
    record {
      captured = captured;
      fell_back = true;
      killed = survivors;
      thrown =
          some (diagnostics_of env survivors (surviving_windows_pids captured env.exists_last));
    }

unfoldable pub terminate_windows_process_tree : WindowsEnv → Option ℕ → Windows
unfolding captured_pids taskkill_succeeded helper_failures
terminate_windows_process_tree env none = record {
  captured = [];
  fell_back = false;
  killed = [];
  thrown = none;
}
terminate_windows_process_tree env (some pid) =
    if no_items (helper_failures (codes "Windows descendant enumeration") env.snapshot)
      && (taskkill_succeeded env.taskkill
          && no_items (surviving_windows_pids (captured_pids env pid) env.exists_after_taskkill))
    then record { captured = captured_pids env pid; fell_back = false; killed = []; thrown = none }
    else fall_back env (captured_pids env pid)
