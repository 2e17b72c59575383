-- ===== src/Shell/Pipe/Spec.antt =====
-- A pipeline, described on the commands between the bars.
use dcl140_2023_nov.Prelude.{
  ℕ, ◌+◌, ◌%◌, Option, none, some, List, [], ◌∷◌, ◌++◌, Bytes, codes, str_eq, if◌then◌else◌,
}
use dcl140_2023_nov.Shell.Process.{
  pipe_read, pipe_write, fputs, perror, Os, Ports, einval, Tree, became, exited, forked,
}
use dcl140_2023_nov.Shell.Pipe.Defs.{bar}

abbrev into_first : Bytes → List (List Bytes) → List (List Bytes)
into_first t [] = (t ∷ []) ∷ []
into_first t (c ∷ cs) = (t ∷ c) ∷ cs

-- The commands of a line: the runs of tokens between the bars, empty ones included.
unfoldable pub commands : List Bytes → List (List Bytes)
commands [] = [] ∷ []
commands (t ∷ ts) = if str_eq t bar then [] ∷ commands ts else into_first t (commands ts)

abbrev gave_up : Ports → ℕ → Tree
gave_up v e =
    exited (e % 256) (v.err ++ perror (codes "Couldn't fork or exec child process") e ∷ [])

abbrev pub illegal : Ports → Tree
illegal v =
    gave_up
      (record v {
        err = v.err ++ fputs (codes "Missing command next to pipe in commandline.\n") ∷ [];
      })
      einval

abbrev pub replaced : Ports → List Bytes → Option ℕ → Tree
replaced v c none = became c v.stdin v.stdout v.err
replaced v c (some e) = gave_up v e

-- The process becomes the command, or reports that it cannot.
abbrev pub started : Os → Ports → List Bytes → Tree
started os v c = replaced v c (os.exec c)

abbrev talking : ℕ → Ports → Ports
talking k v = record v { stdout = pipe_write k }

abbrev pub listening : ℕ → Ports → Ports
listening k v = record v { stdin = pipe_read k; err = [] }

abbrev pub joined : Os → ℕ → Ports → List Bytes → Tree → Option ℕ → Tree
joined os k v c rest (some e) = gave_up v e
joined os k v c rest none = forked (started os (talking k v) c) rest

-- The processes of a pipeline from its k-th command on. An empty command stops it, where it is
-- the last one already in front of the bar.
unfoldable pub pipeline : Os → ℕ → Ports → List (List Bytes) → Tree
pipeline os k v [] = illegal v
pipeline os k v ([] ∷ cs) = illegal v
pipeline os k v ((t ∷ c) ∷ []) = started os v (t ∷ c)
pipeline os k v ((t ∷ c) ∷ [] ∷ []) = illegal v
pipeline os k v ((t ∷ c) ∷ d ∷ cs) =
    joined os k v (t ∷ c) (pipeline os (k + 1) (listening k v) (d ∷ cs)) (os.fork k)
