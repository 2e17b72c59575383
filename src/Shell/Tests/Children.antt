-- ===== src/Shell/Tests/Children.antt =====
-- Children that die in concrete states of the shell.
use dcl140_2023_nov.Prelude.{◌≡◌, ◌⊎◌, refl, true, false, [], ◌∷◌}
use dcl140_2023_nov.Sync.Sums.{total}
use dcl140_2023_nov.Shell.Reap.Zombies as Zombies
use dcl140_2023_nov.Shell.Reap.Noticed.{Notices, Reach-Notices}

-- Two children died, and the second SIGCHLD was lost.
abbrev two_dead : Zombies.State
two_dead = record Zombies.initial { handling = true; children = Zombies.dead ∷ Zombies.dead ∷ [] }

two_dead-Reach : Zombies.Reach two_dead
unfolding dcl140_2023_nov.Shell.Reap.Zombies.step dcl140_2023_nov.Shell.Reap.Zombies.die
    dcl140_2023_nov.Shell.Reap.Zombies.fork_child
two_dead-Reach =
    Zombies.next Zombies.deliver
      (Zombies.next (Zombies.dies 1)
        (Zombies.next (Zombies.dies 0)
          (Zombies.next (Zombies.forks false)
            (Zombies.next (Zombies.forks false) Zombies.start refl) refl)
          refl)
        refl)
      refl

Reach-Notices_example :
    ((total Zombies.is_dead two_dead.children ≡ 0) ⊎ Notices two_dead)
    × (two_dead.reports ≡ total Zombies.is_reaped two_dead.children)
Reach-Notices_example = Reach-Notices two_dead-Reach

-- A foreground child that the handler takes first: its status is reported from an unwritten `stat`.
abbrev taken_first : Zombies.State
taken_first = record Zombies.initial { children = Zombies.reaped ∷ []; reports = 1; unwritten = 1 }

taken_first-Reach : Zombies.Reach taken_first
unfolding dcl140_2023_nov.Shell.Reap.Zombies.step dcl140_2023_nov.Shell.Reap.Zombies.die
    dcl140_2023_nov.Shell.Reap.Zombies.fork_child dcl140_2023_nov.Shell.Reap.Zombies.take_dead
    dcl140_2023_nov.Shell.Reap.Zombies.wait_foreground dcl140_2023_nov.Shell.Reap.Zombies.wait_for
    dcl140_2023_nov.Sync.Sums.total
taken_first-Reach =
    Zombies.next Zombies.waited
      (Zombies.next Zombies.finds_none
        (Zombies.next (Zombies.takes 0)
          (Zombies.next Zombies.deliver
            (Zombies.next (Zombies.dies 0) (Zombies.next (Zombies.forks true) Zombies.start refl)
              refl)
            refl)
          refl)
        refl)
      refl
