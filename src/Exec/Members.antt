-- ===== src/Exec/Members.antt =====
-- How many threads of the group the exec thread has to wait for, before it looks at the leader.
use mtech.Prelude.{ℕ, ◌+◌, ◌≤◌, ◌<◌, ◌≡◌, Bool, not, ◌&&◌, ◌==◌, if◌then◌else◌}
use mtech.Prelude.Family.{update, total, total-update, total-le-member}
use mtech.Exec.State.{Task, is_hashed, is_running}

-- A thread other than the exec thread `e` and the leader `l` weighs one while `counts` holds of it.
abbrev pub weight : (Task → Bool) → ℕ → ℕ → ℕ → Task → ℕ
weight counts e l i t = if not (i == e) && (not (i == l) && counts t) then 1 else 0

abbrev pub in_group : Task → Bool
in_group t = is_hashed t.progress

-- A thread that the count is about: one in the group, or with the project's switch on one that has not
-- come to the early wake-up.
abbrev pub awaited : Bool → Task → Bool
awaited optimization_on t = if optimization_on then is_running t.progress else is_hashed t.progress

unfoldable pub members : (Task → Bool) → ℕ → ℕ → ℕ → (ℕ → Task) → ℕ
members counts e l n tasks = total (weight counts e l) n tasks

module _ (counts : Task → Bool) (e l n : ℕ) (tasks : ℕ → Task) (i : ℕ) (inside : i < n) where
  -- A change of one thread changes the number by its weight.
  pub members-update :
      (t : Task)
      → members counts e l n (update tasks i t) + weight counts e l i (tasks i)
        ≡ members counts e l n tasks + weight counts e l i t
  unfolding members
  members-update t = total-update (weight counts e l) tasks i n t inside

  pub members-member : weight counts e l i (tasks i) ≤ members counts e l n tasks
  unfolding members
  members-member = total-le-member (weight counts e l) tasks i n inside
