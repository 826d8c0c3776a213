-- ===== src/Db/Loaded.antt =====
-- What a task finds when it looks up the row of its job and then the row that the job is about.
use sglang_ops_stack.Base.Exec.{Result, ok, err}
use sglang_ops_stack.Db.{Session, rollback}

pub data Loaded (T : Type 0) : Type 0 where
  no_job : Loaded T
  -- The session holds the job alone.
  no_target : Session Unit → Loaded T
  loaded : Session T → Loaded T

module _ {T : Type 0} where
  abbrev pub rolled_back : Loaded T → Loaded T
  rolled_back no_job = no_job
  rolled_back (no_target db) = no_target (rollback db)
  rolled_back (loaded db) = loaded (rollback db)

  -- `except Exception: rollback()` around a task: no exception leaves it.
  unfoldable pub swallow : {E : Type 0} → Result E Unit × Loaded T → Loaded T
  swallow (ok a, found) = found
  swallow (err e, found) = rolled_back found
