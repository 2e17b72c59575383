-- ===== src/Shell/Main/Total.antt =====
-- The shell never faults, and comes to the end of every input.
use dcl140_2023_nov.Prelude.{
  ℕ, zero, suc, ◌<◌, ◌≡◌, refl, ap, ◌∙◌, Bool, true, false, Option, none, some, List, [], ◌∷◌,
  Bytes, length, c_str, get_line, get_line_lem, arith, ◌>>=◌, >>=-eq-some, Option-cases, inl, inr,
}
use dcl140_2023_nov.Shell.Argv.{Slot, junk, null, str, vector, fetch, tokens, tokens-vector}
use dcl140_2023_nov.Shell.Process.{Proc, view_of}
use dcl140_2023_nov.Shell.Parse.Defs.{free_argv}
use dcl140_2023_nov.Shell.Parse.Words.{words, expected, parse-words}
use dcl140_2023_nov.Shell.Pipe.Refines.{PipesWork}
use dcl140_2023_nov.Shell.Run.Defs.{Ran, shell_exits, goes_on, run_command}
use dcl140_2023_nov.Shell.Run.Command.{view_ran, RanView, continues, run_command-spec}
use dcl140_2023_nov.Shell.Builtin.Defs.{
  Handler, bi_builtin, bi_cd, bi_echo, bi_hostname, bi_id, bi_pwd, bi_quit, Sh, Done, goes, exits,
  inbuilts, find_cmd, echo, id_line, run_handler, is_builtin, do_builtin,
}
use dcl140_2023_nov.Shell.Builtin.Dispatch.{echo-echo_spec}
use dcl140_2023_nov.Shell.Main.Defs.{
  System, Session, After, Ended, after_builtin, after_command, on_parsed, on_after, on_line, ready,
  left, failed, prompt, do_line, command, main_loop,
}

-- A computation that returns.
abbrev pub Returns {ℓ} : {A : Type ℓ} → Option A → Type ℓ
Returns {A = A} o = (a : A) × (o ≡ some a)

Returns-bind {ℓ κ} :
    {A : Type ℓ} {B : Type κ} (o : Option A) (f : A → Option B)
    → Returns o
    → ((a : A) → Returns (f a))
    → Returns (o >>= f)
Returns-bind (some a) f r k = k a
Returns-bind none f (a, e) k = cc

-- The calls on which the code relies without a test: `pipe`, the `waitpid` for a foreground child,
-- and the entries of the user and the group; and a working directory with a name.
pub record Reliable (y : System) : Type 0 where
  pub pipes : (n : ℕ) → PipesWork (y.os n)
  pub waits : (n : ℕ) → Returns (y.wait n)
  pub user : Returns (y.env.passwd y.env.uid)
  pub groups : (g : ℕ) → Returns (y.env.group g)
  pub directory : Returns y.env.getcwd

free_argv-tokens : (a : List Slot) → free_argv a ≡ tokens a
unfolding free_argv tokens
free_argv-tokens [] = refl
free_argv-tokens (junk ∷ a) = refl
free_argv-tokens (null ∷ a) = refl
free_argv-tokens (str t ∷ a) = rw (free_argv-tokens a)

module _ (y : System) (r : Reliable y) where
  run_handler-Returns :
      (c : Bytes) (ts : List Bytes) (rest : List Slot) (s : Sh) (h : Handler)
      → Returns (run_handler y.env (vector (c ∷ ts) rest) s h)
  unfolding run_handler fetch
  run_handler-Returns c [] rest s bi_builtin = (_, refl)
  run_handler-Returns c (t ∷ ts) rest s bi_builtin = (_, refl)
  run_handler-Returns c [] rest s bi_cd = (_, refl)
  run_handler-Returns c (t ∷ ts) rest s bi_cd = (_, refl)
  run_handler-Returns c ts rest s bi_echo =
      Returns-bind (echo (vector (c ∷ ts) rest)) _ (_, echo-echo_spec c ts rest) (λ o. (_, refl))
  run_handler-Returns c ts rest s bi_hostname = (_, refl)
  run_handler-Returns c ts rest s bi_id =
      Returns-bind
        (y.env.passwd y.env.uid >>= λ me. y.env.group me.1 >>= λ g. some (id_line y.env.uid me g)) _
        (Returns-bind (y.env.passwd y.env.uid) _ r.user
          λ me. Returns-bind (y.env.group me.1) _ (r.groups me.1) λ g. (_, refl))
        λ o. (_, refl)
  run_handler-Returns c ts rest s bi_pwd = Returns-bind y.env.getcwd _ r.directory (λ d. (_, refl))
  run_handler-Returns c ts rest s bi_quit = (_, refl)

  vector-Returns : (a : List Slot) (ts : List Bytes) → tokens a ≡ some ts → Returns (free_argv a)
  vector-Returns a ts h = (ts, free_argv-tokens a ∙ h)

  after_builtin-Returns :
      (s : Session) (a : List Slot) (ts : List Bytes) (d : Done)
      → tokens a ≡ some ts
      → Returns (after_builtin s a d)
  unfolding after_builtin
  after_builtin-Returns s a ts (goes sh) h =
      Returns-bind (free_argv a) _ (vector-Returns a ts h) (λ us. (_, refl))
  after_builtin-Returns s a ts (exits c sh) h = (_, refl)

  after_command-Returns :
      (s : Session) (ran : Ran) (w : RanView)
      → view_ran ran ≡ some w
      → Returns (after_command s ran)
  unfolding after_command
  after_command-Returns s (shell_exits t) w h = (_, refl)
  after_command-Returns s (goes_on p t) w h =
      let (us, e, k) = >>=-eq-some (tokens p.argv) (λ us. some (continues (view_of p us) t)) h in
      Returns-bind (free_argv p.argv) _ (vector-Returns p.argv us e) (λ us. (_, refl))

  run-Returns :
      (n : ℕ) (s : Session) (p : Proc) (ts : List Bytes)
      → tokens p.argv ≡ some ts
      → Returns (run_command (y.os n) (y.fork n) (y.wait n) p >>= after_command s)
  run-Returns n s p ts h =
      let (st, e) = r.waits n in
      let (ran, q, k) =
        >>=-eq-some (run_command (y.os n) (y.fork n) (some st) p) view_ran
          (run_command-spec (y.os n) (r.pipes n) st p ts (y.fork n) h) in
      let (a, f) = after_command-Returns s ran _ k in (a, rw (e, q) f)

  -- A word that is a keyword names a handler, so `this` is set when `do_builtin` reads it.
  command-Returns :
      (c : Bytes) (ts : List Bytes) (s : Session) (b : Bool) (sh : Sh)
      → (b ≡ true → (h : Handler) × (sh.this ≡ some h))
      → Returns (command y s (vector (c ∷ ts) []) (b, sh))
  unfolding command do_builtin
  command-Returns c ts s true sh set =
      let (h, e) = set refl in
      let (d, q) = run_handler-Returns c ts [] sh h in
      let (a, f) =
        after_builtin-Returns (record s { sh = sh }) (vector (c ∷ ts) []) (c ∷ ts) d
          (tokens-vector (c ∷ ts) []) in
      let k = after_builtin (record s { sh = sh }) (vector (c ∷ ts) []) in
      (
        a,
        ap (λ (o : Option Handler). o >>= run_handler y.env (vector (c ∷ ts) []) sh >>= k) e
            ∙ ap (λ (o : Option Done). o >>= k) q
            ∙ f,
      )
  command-Returns c ts s false sh set =
      run-Returns s.count (record s { sh = sh }) _ (c ∷ ts) (tokens-vector (c ∷ ts) [])

  is_builtin-this :
      (w : Bytes) (sh : Sh)
      → (is_builtin w sh).0 ≡ true
      → (h : Handler) × ((is_builtin w sh).1.this ≡ some h)
  unfolding is_builtin
  is_builtin-this w sh h = elim (Option-cases (find_cmd inbuilts w)) [
    | inl e ↦ absurd (ground (arith, e))
    | inr (k, e) ↦ (k, rw e)
  ]

  parsed-Returns : (s : Session) (ws : List Bytes) → Returns (on_parsed y s (expected ws))
  unfolding on_parsed fetch
  parsed-Returns s [] = (_, refl)
  parsed-Returns s (w ∷ ws) =
      command-Returns w ws s (is_builtin w s.sh).0 (is_builtin w s.sh).1 (is_builtin-this w s.sh)

  do_line-Returns : (s : Session) (line : Bytes) → Returns (do_line y s line)
  unfolding do_line
  do_line-Returns s line = rw (parse-words (c_str line)) (parsed-Returns s (words (c_str line)))

  after-Returns :
      (again : Session → Option Ended)
      → ((t : Session) → Returns (again t))
      → (a : After) → Returns (on_after again a)
  unfolding on_after
  after-Returns again k (ready s) = k (prompt s)
  after-Returns again k (left s) = (_, refl)
  after-Returns again k (failed t) = (_, refl)

  line-Returns :
      (again : Session → Bytes → Option Ended) (s : Session) (line rest : Bytes)
      → ((t : Session) → Returns (again t rest))
      → Returns (on_line again y s (line, rest))
  unfolding on_line
  line-Returns again s [] rest k = (_, refl)
  line-Returns again s (c ∷ line) rest k =
      Returns-bind (do_line y s (c ∷ line)) _ (do_line-Returns s (c ∷ line))
        (after-Returns (λ t. again t rest) k)

  -- Whatever the input, if the calls that the code does not test succeed and the rounds are more
  -- than the bytes, the shell reads through it and exits: no line makes it read or write outside
  -- an argv, follow a NULL, or run without end.
  pub main_loop-Returns :
      (fuel : ℕ) (s : Session) (input : Bytes)
      → length input < fuel
      → Returns (main_loop fuel y s input)
  unfolding main_loop
  main_loop-Returns zero s input h = absurd (omega arith)
  main_loop-Returns (suc fuel) s [] h = unfold get_line on_line in (_, refl)
  main_loop-Returns (suc fuel) s (c ∷ input) h =
      let piece = get_line (suc 253) (c ∷ input) in
      let less = (get_line_lem (suc 253) (c ∷ input)).2 (omega arith) (λ e. cc) in
      line-Returns (main_loop fuel y) s piece.0 piece.1
        λ t. main_loop-Returns fuel t piece.1 (omega arith)
