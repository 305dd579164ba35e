-- ===== src/Service/Schedules.antt =====
-- The tasks of a server at the same time: in which orders their actions can come. A task that is
-- started by another may be picked before that one here, which only adds orders.
use socks_hub.Prelude.{List, [], ◌∷◌, All}

-- The next action of one of the tasks, and what is left of them.
pub data Pick {ℓ} {A : Type ℓ} : List (List A) → A → List (List A) → Type ℓ where
  now : {a : A} {task : List A} {tasks : List (List A)} → Pick ((a ∷ task) ∷ tasks) a (task ∷ tasks)
  past :
      {a : A} {task : List A} {tasks rest : List (List A)}
      → Pick tasks a rest
      → Pick (task ∷ tasks) a (task ∷ rest)

-- The actions of tasks that run at the same time, up to some moment: any task may be the next one,
-- and each keeps its own order.
pub data Schedule {ℓ} {A : Type ℓ} : List (List A) → List A → Type ℓ where
  stops : {tasks : List (List A)} → Schedule tasks []
  runs :
      {a : A} {acts : List A} {tasks rest : List (List A)}
      → Pick tasks a rest
      → Schedule rest acts
      → Schedule tasks (a ∷ acts)

module _ {ℓ κ} {A : Type ℓ} (P : A → Type κ) where
  Pick-All :
      {a : A} {tasks rest : List (List A)}
      → Pick tasks a rest
      → All (All P) tasks
      → P a × All (All P) rest
  Pick-All now h = (h.0.0, (h.0.1, h.1))
  Pick-All (past pick) h = let (picked, rest) = Pick-All pick h.1 in (picked, (h.0, rest))

  -- What holds of all actions of all tasks holds of those of a schedule.
  pub All-Schedule :
      {tasks : List (List A)} {acts : List A} → Schedule tasks acts → All (All P) tasks → All P acts
  All-Schedule stops h = tt
  All-Schedule (runs pick schedule) h =
      let (picked, rest) = Pick-All pick h in (picked, All-Schedule schedule rest)
