-- ===== src/Lib.antt =====
-- A verification library for the exercises of a course on Linux programming: a shell (shell), a
-- dictionary in several versions (lookup_proj), the synchronization examples
-- (examples/mod11-synchronization), and two shorter ones
-- (examples/mod03-system.and.process.information and examples/mod07-threads).
--
-- Shell models shell/sh9, the last version of the shell, with the handler of shell/sh8 and the
-- redirections of shell/sh6 (Redirect/Earlier) beside its own. Main (shell.c) reads a line, has Parse
-- (parse.c) make an argv vector of it, and gives the vector to a builtin (Builtin, builtin.c) or to
-- run_command (Run, run_command.c and is_background.c). The child of run_command does the
-- redirections (Redirect, redirect_in.c and redirect_out.c) and then the pipeline (Pipe,
-- pipe_present.c and pipe_command.c). Reap is child_handler.c, and Reap/Zombies how it and the wait
-- for a foreground child take the children that died, as a relation of single steps. The files but
-- Reap work on the vectors of Argv: lists of cells that are unwritten, NULL or a string; a read of an
-- unwritten cell, an access outside the array and a NULL that is followed are `none`. Process is what
-- a command sees of the system: streams, errno, messages, and the answers of open, execvp, pipe and
-- fork as a parameter; what a command makes is the tree of its processes.
--
-- Lookup models the function `lookup` of lookup1.c (Linear), lookup2.c (Index), lookup5.c (Mapped),
-- and lookup7.c, lookup8.c and lookup9.c (Remote/Client), and the loops of udp_server.c,
-- usock_server.c and isock_server.c (Remote/Server), with the start of these servers and the fork for
-- each client (Remote/Main); Remote/EndToEnd and Remote/Service put clients and a server together.
-- The static variables of a `lookup` are a record that it takes and returns. bsearch and qsort are
-- parameters with the laws of ISO C (Search).
--
-- Convert models convert.c, which makes such a file from a text, and Prompt main.c, which asks a
-- `lookup` for the words of the user; Prompt/Session puts both and Linear together, and
-- Prompt/Untrimmed is the loop of fifo_client.c. Queue models lookup4.c and msgq_server.c, Fifo
-- lookup3.c and fifo_server.c; Start is what the starts of the servers share. Shared models
-- lookup6.c and shm_server.c, how both are set up (SetUp), and from there two clients and the
-- server, as a relation of single steps over the semaphores and the record of shared memory. A
-- client that has its result may exit, and the system undoes then what its SEM_UNDO asks for.
--
-- Sync/Stack models threadonly/stack.c and stackMain.c: the producer and the consumer as a relation
-- of single steps over the mutex and the condition variable. The steps between two calls of these are
-- one step, which the mutex makes so. Sync/Counter models threadonly/mutex.c, two threads that count
-- one variable up, Sync/Tellers threadonly/sem.c and procnthread/proc_sem.c, the clients and the
-- tellers of a bank, and Sync/Jobs threadonly/ipcsem.c, the jobs of a moving company, in the same
-- way. Sync/ReadersWriters models threadonly/rw.c and procnthread/proc_rw.c, Sync/SharedStack
-- procnthread/proc_stack.c and proc_stackMain.c, and Sync/SharedCounter procnthread/proc_mutex.c with
-- its handler of ^C. The programs of procnthread are the threads of any number of processes, from
-- where their shared file is set up; Sync/Area models how they come to it. Sync/Sums has what they
-- share.
--
-- Examples models mod07-threads/parallel.c (Parallel) and
-- mod03-system.and.process.information/myunsetenv.c (Environment), the latter on the vectors of
-- Shell/Argv.
--
-- Fuel: the loop of parse has two rounds more than the line has bytes, which is more than its tokens;
-- the loop that closes a vector up and pipe_and_exec have one more than the array has cells or the
-- line tokens; the main loop needs more rounds than the input has bytes; child_handler needs one more
-- than there are dead children; the loop that moves the environment up has one more than its array
-- has cells; the converter and the main program of the dictionary need more than there are entries
-- and words. The theorems show that these are enough.
--
-- Not modelled: what the shell does with SIGINT and SIGQUIT; the output of the threads, but for the
-- values that proc_mutex.c prints, and their delays; a client of lookup6.c that is killed before
-- its result, and the exit of its server; malloc, which is taken to succeed; the rest of the
-- earlier versions of the shell; the other examples, which show one system call each. The numbers
-- are indices and counts far below the bounds of their C types.
pub mod Prelude
pub mod Shell
pub mod Lookup
pub mod Sync
pub mod Examples
