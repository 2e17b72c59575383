-- ===== src/Shell/Reap/Defs.antt =====
-- shell/sh9/child_handler.c and shell/sh8/child_handler.c.
use dcl140_2023_nov.Prelude.{
  ℕ, zero, suc, ◌^◌, ◌-◌, ◌≡◌, Option, none, some, List, [], ◌∷◌, ◌++◌, codes, ◌==◌, if◌then◌else◌,
}
use dcl140_2023_nov.Shell.Process.{Msg, fputs, perror, echild}
use dcl140_2023_nov.Shell.Run.Defs.{WaitStatus, display_status}

-- What `waitpid(-1, &status, WNOHANG)` returns: 0, -1 with an errno, or a pid and its status.
pub data Answer : Type 0 where
  nobody : Answer
  error : ℕ → Answer
  reaped : ℕ → WaitStatus → Answer

-- The kernel's table of the children, as far as `waitpid` shows it.
pub record Kernel : Type 1 where
  pub Table : Type 0
  pub waitpid : Table → Answer × Table
  -- the children that are dead and not waited for, in the order in which `waitpid` takes them
  pub dead : Table → List (ℕ × WaitStatus)
  -- A call takes the first dead child off the table, and reports it.
  pub takes_first :
      (s : Table) (pid : ℕ) (st : WaitStatus) (rest : List (ℕ × WaitStatus))
      → dead s ≡ (pid, st) ∷ rest
      → ((waitpid s).0 ≡ reaped pid st) × (dead (waitpid s).1 ≡ rest)

-- What a handler leaves: it returned with an errno and what it printed, or it called `abort`.
pub data Handled (T : Type 0) : Type 0 where
  returned : T → ℕ → List Msg → Handled T
  aborted : List Msg → Handled T

module _ (k : Kernel) where
  open k use {Table, waitpid}

  on_answer :
      (Table → List Msg → Option (Handled Table))
      → ℕ
      → List Msg
      → Table
      → Answer
      → Option (Handled Table)
  on_answer again saved out s nobody = some (returned s saved out)
  on_answer again saved out s (error e) =
      if e == echild
      then some (returned s saved out)
      else some (aborted (out ++ perror (codes "waitpid") e ∷ []))
  on_answer again saved out s (reaped pid st) = again s (out ++ display_status pid st)

  -- `child_handler` of sh9 at an errno, from its loop on. A round per dead child, and one more.
  unfoldable pub child_handler : ℕ → ℕ → Table → List Msg → Option (Handled Table)
  unfolding on_answer
  child_handler zero saved s out = none
  child_handler (suc fuel) saved s out =
      on_answer (child_handler fuel saved) saved out (waitpid s).1 (waitpid s).0

  -- Of sh8: the errno of a failing `waitpid` stays, and an error other than ECHILD is reported as
  -- the child -1 (as the int that `%d` prints), with the status that the last round left.
  on_answer_sh8 :
      (Table → ℕ → WaitStatus → List Msg → Option (Handled Table))
      → ℕ
      → WaitStatus
      → List Msg
      → Table
      → Answer
      → Option (Handled Table)
  on_answer_sh8 again errno status out s nobody = some (returned s errno out)
  on_answer_sh8 again errno status out s (error e) =
      let rest =
        again s e status
          (out ++ fputs (codes "child process has died!\n") ∷ display_status minus_one status) in
      if e == echild then some (returned s e out) else rest
    where
      minus_one : ℕ
      minus_one = 2 ^ 32 - 1
  on_answer_sh8 again errno status out s (reaped pid st) =
      again s errno st (out ++ fputs (codes "child process has died!\n") ∷ display_status pid st)

  unfoldable pub child_handler_sh8 : ℕ → Table → ℕ → WaitStatus → List Msg → Option (Handled Table)
  unfolding on_answer_sh8
  child_handler_sh8 zero s errno status out = none
  child_handler_sh8 (suc fuel) s errno status out =
      on_answer_sh8 (child_handler_sh8 fuel) errno status out (waitpid s).1 (waitpid s).0
