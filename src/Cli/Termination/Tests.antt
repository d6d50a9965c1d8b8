-- ===== src/Cli/Termination/Tests.antt =====
-- Terminations at concrete helpers, and the theorems applied to them.
use rolekit.Common.{ℕ, Bool, true, false, ◌≡◌, refl, Option, none, some, List, [], ◌∷◌, ◌==◌}
use rolekit.Cli.Termination.Windows.{
  HelperOutcome, WindowsEnv, surviving_windows_pids, fall_back, terminate_windows_process_tree,
  diagnostics_of,
}
use rolekit.Cli.Termination.Verified.{
  IsVerified, terminate_windows_process_tree-IsVerified, IsLastLook,
  terminate_windows_process_tree_killed,
}

abbrev answered : Option (List ℕ) → HelperOutcome
answered pids = record {
  result = some (record { exit_code = some 0; pids = pids; failures = none });
  failure = none;
  timed_out = false;
}

-- Process 7 has the descendants 8 and 9; taskkill ends them all.
abbrev calm : WindowsEnv
calm = record {
  snapshot = answered (some (8 ∷ 9 ∷ 8 ∷ []));
  taskkill = answered none;
  fallback = answered none;
  exists_after_taskkill = λ _. false;
  exists_first = λ _. false;
  exists_later = [];
  exists_last = λ _. false;
}

-- Taskkill leaves process 9, which the fallback does not end before the deadline.
abbrev stubborn : WindowsEnv
stubborn = record calm {
  exists_after_taskkill = λ p. p == 9;
  exists_first = λ _. true;
  exists_later = (λ p. p == 9) ∷ [];
}

calm_run :
    terminate_windows_process_tree calm (some 7)
    ≡ record { captured = 7 ∷ 8 ∷ 9 ∷ []; fell_back = false; killed = []; thrown = none }
unfolding terminate_windows_process_tree
calm_run = refl

calm_thrown : (terminate_windows_process_tree calm (some 7)).thrown ≡ none
unfolding terminate_windows_process_tree
calm_thrown = refl

terminate_windows_process_tree-IsVerified_example :
    IsVerified calm 7 (terminate_windows_process_tree calm (some 7))
terminate_windows_process_tree-IsVerified_example =
    terminate_windows_process_tree-IsVerified calm 7 refl calm_thrown

stubborn_killed : (terminate_windows_process_tree stubborn (some 7)).killed ≡ 9 ∷ []
unfolding terminate_windows_process_tree fall_back
stubborn_killed = refl

stubborn_thrown :
    (terminate_windows_process_tree stubborn (some 7)).thrown
    ≡ some (diagnostics_of stubborn (9 ∷ []) [])
unfolding terminate_windows_process_tree fall_back
stubborn_thrown = refl

terminate_windows_process_tree_killed_example :
    let t = terminate_windows_process_tree stubborn (some 7) in
    (look : ℕ → Bool) × IsLastLook t.captured look ((λ _. true) ∷ (λ p. p == 9) ∷ [])
    × (t.killed ≡ surviving_windows_pids t.captured look)
terminate_windows_process_tree_killed_example =
    terminate_windows_process_tree_killed stubborn 7 (diagnostics_of stubborn (9 ∷ []) [])
      stubborn_thrown
