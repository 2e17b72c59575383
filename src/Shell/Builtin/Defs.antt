-- ===== src/Shell/Builtin/Defs.antt =====
-- shell/sh9/builtin.c. Its static variables are fields of the shell's state.
use dcl140_2023_nov.Prelude.{
  ℕ, Bool, true, false, Option, none, some, List, [], ◌∷◌, ◌++◌, drop, Bytes, codes, str_eq,
  if◌then◌else◌, ◌>>=◌,
}
use dcl140_2023_nov.Shell.Argv.{Slot, junk, null, str, fetch}
use dcl140_2023_nov.Shell.Process.{Msg, perror}

pub data Handler : Type 0 where
  bi_builtin bi_cd bi_echo bi_hostname bi_id bi_pwd bi_quit : Handler

-- `struct cmd inbuilts[]`, without the NULL that ends it.
abbrev pub inbuilts : List (Bytes × Handler)
inbuilts =
    (codes "builtin", bi_builtin)
    ∷ (codes "cd", bi_cd)
    ∷ (codes "echo", bi_echo)
    ∷ (codes "hostname", bi_hostname)
    ∷ (codes "id", bi_id)
    ∷ (codes "print", bi_echo)
    ∷ (codes "pwd", bi_pwd)
    ∷ (codes "quit", bi_quit)
    ∷ (codes "exit", bi_quit)
    ∷ (codes "bye", bi_quit)
    ∷ (codes "logout", bi_quit)
    ∷ []

-- What goes to stdout: strings, and numbers as `%d` prints them.
pub data Out : Type 0 where
  text : Bytes → Out
  number : ℕ → Out

-- The answers of the system: `getenv("HOME")`, `chdir` (an errno where it fails; its argument may be
-- NULL), the nodename of `uname`, `getuid`, `getpwuid` and `getgrgid` (NULL for no entry), and
-- `getcwd`.
pub record Env : Type 0 where
  pub home : Option Bytes
  pub chdir : Option Bytes → Option ℕ
  pub uname : Bytes
  pub uid : ℕ
  pub passwd : ℕ → Option (Bytes × ℕ)
  pub group : ℕ → Option Bytes
  pub getcwd : Option Bytes

-- `this`, the nodename in `myInfo`, what was written to stdout and stderr, and the directories that
-- the shell changed to.
pub record Sh : Type 0 where
  pub this : Option Handler
  pub nodename : Bytes
  pub out : List Out
  pub err : List Msg
  pub dirs : List (Option Bytes)

abbrev pub print : List Out → Sh → Sh
print o s = record s { out = s.out ++ o }

-- What a builtin leaves: the shell, or its end with a status.
pub data Done : Type 0 where
  goes : Sh → Done
  exits : ℕ → Sh → Done

unfoldable pub find_cmd : List (Bytes × Handler) → Bytes → Option Handler
find_cmd [] cmd = none
find_cmd ((keyword, h) ∷ rest) cmd = if str_eq keyword cmd then some h else find_cmd rest cmd

note : Sh → Option Handler → Bool × Sh
note s none = (false, s)
note s (some h) = (true, record s { this = some h })

-- `is_builtin(cmd)`
unfoldable pub is_builtin : Bytes → Sh → Bool × Sh
unfolding note
is_builtin cmd s = note s (find_cmd inbuilts cmd)

tell : Bytes → Bool × Sh → Sh
tell w (b, s) =
    print
      (text w
        ∷ text (codes " is ")
        ∷ text (if b then [] else codes "not ")
        ∷ text (codes "a built in feature\n")
        ∷ [])
      s

builtin_arg : Sh → Slot → Option Sh
unfolding tell
builtin_arg s junk = none
builtin_arg s null = some s
builtin_arg s (str w) = some (tell w (is_builtin w s))

cd_answer : Option Bytes → Sh → Option ℕ → Sh
cd_answer d s none = record s { dirs = s.dirs ++ d ∷ [] }
cd_answer d s (some e) = record s { err = s.err ++ perror (codes "cd") e ∷ [] }

cd_arg : Env → Sh → Slot → Option Sh
unfolding cd_answer
cd_arg v s junk = none
cd_arg v s null = some (cd_answer v.home s (v.chdir v.home))
cd_arg v s (str d) = some (cd_answer (some d) s (v.chdir (some d)))

-- The loop of `echo`, from the cell at which it reads on.
unfoldable pub echo_loop : List Slot → Option (List Out)
echo_loop [] = none
echo_loop (junk ∷ a) = none
echo_loop (null ∷ a) = some []
echo_loop (str t ∷ a) = echo_loop a >>= λ o. some (text t ∷ text (codes " ") ∷ o)

-- `argv++` leaves the loop to start one cell further on.
echo_flag : List Slot → Bool → Option (List Out)
echo_flag a true = echo_loop (drop 2 a)
echo_flag a false = echo_loop (drop 1 a) >>= λ o. some (o ++ text (codes "\n") ∷ [])

echo_arg : List Slot → Slot → Option (List Out)
unfolding echo_flag
echo_arg a junk = none
echo_arg a null = echo_flag a false
echo_arg a (str t) = echo_flag a (str_eq t (codes "-n"))

unfoldable pub echo : List Slot → Option (List Out)
unfolding echo_arg
echo a = fetch a 1 >>= echo_arg a

cached : Env → Bytes → Bytes
cached v [] = v.uname
cached v (c ∷ n) = c ∷ n

-- No entry for the user or the group is a NULL that is dereferenced.
pub id_line : ℕ → Bytes × ℕ → Bytes → List Out
id_line uid (name, gid) group =
    text (codes "Userid = ")
    ∷ number uid
    ∷ text (codes " (")
    ∷ text name
    ∷ text (codes "), Groupid = ")
    ∷ number gid
    ∷ text (codes " (")
    ∷ text group
    ∷ text (codes ")\n")
    ∷ []

id_text : Env → Option (List Out)
unfolding id_line
id_text v = v.passwd v.uid >>= λ me. v.group me.1 >>= λ g. some (id_line v.uid me g)

unfoldable pub run_handler : Env → List Slot → Sh → Handler → Option Done
unfolding builtin_arg cd_arg cached id_text
run_handler v a s bi_builtin = fetch a 1 >>= builtin_arg s >>= λ t. some (goes t)
run_handler v a s bi_cd = fetch a 1 >>= cd_arg v s >>= λ t. some (goes t)
run_handler v a s bi_echo = echo a >>= λ o. some (goes (print o s))
run_handler v a s bi_hostname =
    let n = cached v s.nodename in
    some (goes (print (text n ∷ text (codes "\n") ∷ []) (record s { nodename = n })))
run_handler v a s bi_id = id_text v >>= λ o. some (goes (print o s))
run_handler v a s bi_pwd = v.getcwd >>= λ d. some (goes (print (text d ∷ text (codes "\n") ∷ []) s))
run_handler v a s bi_quit = some (exits 0 s)

-- `do_builtin(argv)`: `this` is dereferenced.
unfoldable pub do_builtin : Env → List Slot → Sh → Option Done
do_builtin v a s = s.this >>= run_handler v a s
