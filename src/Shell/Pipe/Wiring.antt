-- ===== src/Shell/Pipe/Wiring.antt =====
-- Which programs a pipeline ends up running, and where their streams lead.
use dcl140_2023_nov.Prelude.{
  ℕ, ◌+◌, ◌<◌, ◌≡◌, ◌≢◌, refl, ap, none, some, List, [], ◌∷◌, ◌++◌, length, Bytes, All, ◌>>=◌,
}
use dcl140_2023_nov.Shell.Argv.{tokens}
use dcl140_2023_nov.Shell.Process.{
  Stream, pipe_read, pipe_write, Os, Proc, Ports, ports_of, Tree, became, exited, forked,
}
use dcl140_2023_nov.Shell.Pipe.Defs.{pipe_and_exec}
use dcl140_2023_nov.Shell.Pipe.Spec.{commands, listening, pipeline}
use dcl140_2023_nov.Shell.Pipe.Refines.{PipesWork, commands_cons, pipe_and_exec-pipeline}

abbrev pub Program : Type 0
Program = List Bytes × Stream × Stream

-- The programs of a tree of processes, with their input and output.
unfoldable pub programs : Tree → List Program
programs (became c i o e) = (c, i, o) ∷ []
programs (exited s e) = []
programs (forked a b) = programs a ++ programs b

-- The commands of a line in order, each one's output the next one's input.
unfoldable pub wire : ℕ → Stream → Stream → List (List Bytes) → List Program
wire k i o [] = []
wire k i o (c ∷ []) = (c, i, o) ∷ []
wire k i o (c ∷ d ∷ cs) = (c, i, pipe_write k) ∷ wire (k + 1) (pipe_read k) o (d ∷ cs)

-- No call of the pipeline fails.
pub record AllWorks (os : Os) : Type 0 where
  pub pipes : PipesWork os
  pub forks : (k : ℕ) → os.fork k ≡ none
  pub execs : (c : List Bytes) → os.exec c ≡ none

abbrev pub NonEmpty : List Bytes → Type 0
NonEmpty c = c ≢ []

some_command : (ts : List Bytes) → commands ts ≢ []
some_command ts e = let (d, cs, q) = commands_cons ts in cc

module _ (os : Os) (works : AllWorks os) where
  pipeline-wire :
      (cs : List (List Bytes)) (k : ℕ) (v : Ports)
      → cs ≢ []
      → All NonEmpty cs
      → programs (pipeline os k v cs) ≡ wire k v.stdin v.stdout cs
  unfolding pipeline programs wire
  pipeline-wire [] k v n h = absurd (n refl)
  pipeline-wire ([] ∷ cs) k v n h = absurd (h.0 refl)
  pipeline-wire ((t ∷ c) ∷ []) k v n h = rw (works.execs (t ∷ c))
  pipeline-wire ((t ∷ c) ∷ [] ∷ cs) k v n h = absurd (h.1.0 refl)
  pipeline-wire ((t ∷ c) ∷ (u ∷ d) ∷ cs) k v n h =
      rw (works.forks k, works.execs (t ∷ c))
        (ap (λ ps. (t ∷ c, v.stdin, pipe_write k) ∷ ps)
          (pipeline-wire ((u ∷ d) ∷ cs) (k + 1) (listening k v) (λ e. cc) h.1))

  -- If no system call fails, no command between the bars is empty, and the rounds are more than
  -- the tokens, a pipeline of n commands ends up as its n programs in order, the first with the
  -- input and the last with the output of the process that began it, and every other end of them
  -- in a pipe between two neighbours.
  pub pipe_and_exec-wire :
      (fuel k : ℕ) (p : Proc) (ts : List Bytes)
      → length ts < fuel
      → tokens p.argv ≡ some ts
      → All NonEmpty (commands ts)
      → (pipe_and_exec fuel os k p >>= λ t. some (programs t))
        ≡ some (wire k p.stdin p.stdout (commands ts))
  pipe_and_exec-wire fuel k p ts f h e =
      rw (pipe_and_exec-pipeline os works.pipes fuel k p ts f h)
        (ap some (pipeline-wire (commands ts) k (ports_of p) (some_command ts) e))
