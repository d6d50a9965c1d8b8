-- ===== src/Core/Events/Terminal.antt =====
-- What an emitter does at most once.
use rolekit.Common.{ℕ, suc, ◌≤◌, false, ◌≡◌, List, [], ◌∷◌, length, if◌then◌else◌}
use rolekit.Common.Text.{Text}
use rolekit.Core.Events.Emitter.{RunEvent, Emitter}
use rolekit.Core.Events.Order.{is_terminal}

-- How many terminal events are in a list.
abbrev pub terminals : List RunEvent → ℕ
terminals [] = 0
terminals (e ∷ es) = if is_terminal e.event then suc (terminals es) else terminals es

-- The flags say what was done.
record IsOnce (s : Emitter) : Type 0 where
  open_still : s.terminal_emitted ≡ false → terminals s.delivered ≡ 0
  once : terminals s.delivered ≤ 1
  quiet : s.callback_failure_logged ≡ false → length s.logged ≡ 0
  told_once : length s.logged ≤ 1
