-- ===== src/Effects/Sessions.antt =====
-- The order of the actions of a run: stages, and the actions that lead from one to the next.
use socks_hub.Prelude.{◌≡◌, List, [], ◌∷◌}
use socks_hub.Io.{Result, ok, err}
use socks_hub.Effects.{Run, continue, ◌>>=◌}

module _ {Stage : Type 0} (over : Stage) where
  -- The stage behind an action; one that fails is the last one.
  abbrev pub on_success : {A : Type 0} → Result A → (A → Stage) → Stage
  on_success (ok a) stage = stage a
  on_success (err e) stage = over

module _ {Stage Act : Type 0} (over : Stage) (Turn : Stage → Act → Stage → Type 0) where
  -- The actions that lead through the stages from one on. A session may end at each of them.
  pub data Session : Stage → List Act → Type 0 where
    ends : {s : Stage} → Session s []
    goes :
        {s t : Stage} {a : Act} {acts : List Act}
        → Turn s a t
        → Session t acts
        → Session s (a ∷ acts)

  -- What follows an action is a session if each success leads to one.
  pub continue-Session :
      {A B : Type 0} (r : Result A) (stage : A → Stage) (f : A → Run Act B)
      → ((a : A) → Session (stage a) (f a).0)
      → Session (on_success over r stage) (continue r f).0
  continue-Session (ok a) stage f go_on = go_on a
  continue-Session (err e) stage f go_on = ends

  -- What follows a part without actions of its own.
  pub quiet-Session :
      {A B : Type 0} (s : Stage) (m : Run Act A) (f : A → Run Act B)
      → m.0 ≡ []
      → ((a : A) → Session s (f a).0)
      → Session s (m >>= f).0
  quiet-Session {A} s m f quiet go_on = rw quiet (either m.1)
    where
      either : (r : Result A) → Session s (continue r f).0
      either (ok a) = go_on a
      either (err e) = ends
