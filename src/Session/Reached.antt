-- ===== src/Session/Reached.antt =====
-- The states that a connection of ftp/conn.go reaches.
use s3ftpgateway.Base.{◌≡◌, ◌≢◌, none, List, [], ◌∷◌, ◌++◌, arith}
use s3ftpgateway.Command.{parse_command}
use s3ftpgateway.Session.Invariant.{MayHaveTasks, IsSound, exec_command-IsSound}
use s3ftpgateway.Session.Transfer.{run_task}
use s3ftpgateway.Session.Run.{Step, line, late_line, shut, closing, finish, Reach, start, next}
use s3ftpgateway.Session.{Env, Server, Session, Task, task_retr, task_store, task_list, task_rename}

append-ne-nil {ℓ} : {A : Type ℓ} → (xs ys : List A) (y : A) → xs ++ y ∷ ys ≢ []
append-ne-nil [] ys y e = cc
append-ne-nil (x ∷ xs) ys y e = cc

module _ {S : Type 0} where
  -- A goroutine was started by a logged-in client, and none logs out.
  task_auth :
      (c : Session S) (before later : List (Task S)) (t : Task S)
      → c.tasks ≡ before ++ t ∷ later
      → MayHaveTasks c.auth c.tasks
      → c.auth ≢ none
  task_auth c before later t e m n = ground (arith, append-ne-nil before later t)

module _ {S : Type 0} (env : Env) (srv : Server S) where
  run_task-IsSound :
      (t : Task S) (c : Session S) → c.auth ≢ none → IsSound c → IsSound (run_task env srv t c)
  unfolding run_task
  run_task-IsSound (task_retr content conn) c a v = ground (arith)
  run_task-IsSound (task_list payload n conn) c a v = ground (arith)
  run_task-IsSound (task_store name old conn message) c a v = ground (arith)
  run_task-IsSound (task_rename fs from to content) c a v = ground (arith)

module _ {S : Type 0} (srv : Server S) where
  Step-IsSound : {c c' : Session S} → Step srv c c' → IsSound c → IsSound c'
  Step-IsSound (line env text c e) v = exec_command-IsSound env srv (parse_command text) c e v
  Step-IsSound (late_line c e) v = ground arith
  Step-IsSound (shut executing c) v = ground arith
  Step-IsSound (closing c) v = ground arith
  Step-IsSound (finish env c before later t e) v =
      let logged : c.auth ≢ none = task_auth c before later t e v.may_have_tasks in
      run_task-IsSound env srv t (record c { tasks = before ++ later }) logged (ground arith)

  -- In every state that a connection can reach by lines of the client, a shutdown, a close and
  -- goroutines that end: a logged-in client stands in a canonical directory below the root; a
  -- rename is pending by name exactly when its contents are open; after more than five failed
  -- logins the session is shutting down, and it counts no more than six; and goroutines run only
  -- for a logged-in client.
  pub Reach-IsSound : {c : Session S} → Reach srv c → IsSound c
  Reach-IsSound (start store) = ground arith
  Reach-IsSound (next r s) = Step-IsSound s (Reach-IsSound r)
