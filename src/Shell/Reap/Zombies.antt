-- ===== src/Shell/Reap/Zombies.antt =====
-- shell/sh9: when the handler of SIGCHLD (child_handler.c, set up in shell.c) and the wait of
-- run_command.c for a foreground child take the children that died. A SIGCHLD that comes while another is
-- pending is lost, and one that comes while the handler runs stays pending, since the handler blocks it.
use dcl140_2023_nov.Prelude.{
  ℕ, ◌+◌, ◌≡◌, Bool, true, false, Option, none, some, List, [], ◌∷◌, ◌++◌, get_elem?, set, length,
  ◌==◌, if◌then◌else◌, ◌>>=◌,
}
use dcl140_2023_nov.Sync.Sums.{total}

pub data Child : Type 0 where
  running dead reaped : Child

-- Whether a SIGCHLD is pending, and the handler runs; the foreground child that is waited for; the
-- children in the order of their start; and how many statuses were reported, and how many from a `stat`
-- that no wait had written.
pub record State : Type 0 where
  pub pending : Bool
  pub handling : Bool
  pub foreground : Option ℕ
  pub children : List Child
  pub reports : ℕ
  pub unwritten : ℕ

abbrev pub initial : State
initial = record {
  pending = false;
  handling = false;
  foreground = none;
  children = [];
  reports = 0;
  unwritten = 0;
}

pub data Move : Type 0 where
  -- the shell starts a command, to wait for it or not
  forks : Bool → Move
  dies : ℕ → Move
  deliver : Move
  -- the handler's `waitpid` takes a child, or finds none that is dead
  takes : ℕ → Move
  finds_none : Move
  -- the wait for the foreground child is over
  waited : Move

abbrev pub is_dead : Child → ℕ
is_dead running = 0
is_dead dead = 1
is_dead reaped = 0

abbrev pub is_reaped : Child → ℕ
is_reaped running = 0
is_reaped dead = 0
is_reaped reaped = 1

abbrev pub put : ℕ → Child → State → State
put i c s = record s { children = set s.children i c }

unfoldable pub die : ℕ → State → Child → Option State
die i s running = some (put i dead (record s { pending = true }))
die i s dead = none
die i s reaped = none

unfoldable pub take_dead : ℕ → State → Child → Option State
take_dead i s running = none
take_dead i s dead = some (put i reaped (record s { reports = s.reports + 1 }))
take_dead i s reaped = none

-- `waitpid(pid, &stat, 0)` and `display_status`: the status of a child that the handler has taken is
-- reported from what `stat` held.
unfoldable pub wait_for : ℕ → State → Child → Option State
wait_for i s running = none
wait_for i s dead = some (put i reaped (record s { reports = s.reports + 1; foreground = none }))
wait_for i s reaped = some (record s { unwritten = s.unwritten + 1; foreground = none })

unfoldable pub wait_foreground : State → Option ℕ → Option State
unfolding wait_for
wait_foreground s none = none
wait_foreground s (some i) = get_elem? s.children i >>= wait_for i s

unfoldable pub fork_child : Bool → State → Option ℕ → Option State
fork_child b s none = some (record s {
  children = s.children ++ running ∷ [];
  foreground = if b then some (length s.children) else none;
})
fork_child b s (some i) = none

-- While the handler runs, the shell does not.
unfoldable pub step : Move → State → Option State
unfolding die take_dead wait_foreground fork_child
step (forks b) s = if s.handling then none else fork_child b s s.foreground
step (dies i) s = get_elem? s.children i >>= die i s
step deliver s =
    if s.handling
    then none
    else if s.pending
    then some (record s { pending = false; handling = true })
    else none
step (takes i) s = if s.handling then (get_elem? s.children i >>= take_dead i s) else none
step finds_none s =
    if s.handling
    then if total is_dead s.children == 0 then some (record s { handling = false }) else none
    else none
step waited s = if s.handling then none else wait_foreground s s.foreground

pub data Reach : State → Type 0 where
  start : Reach initial
  next : {s t : State} (m : Move) → Reach s → step m s ≡ some t → Reach t
