-- ===== src/Sys.antt =====
-- The system calls of the servers. A call is recorded in a trace; what the system answers (the
-- descriptors of a new pipe, the id of a new process, the descriptor of an opened file) is a
-- parameter of the model: a function of the calls made so far.
use np.Prelude.{ℕ, ℤ, pos, Bool, List, Option, Fault}
use np.Libc.{Bytes}

-- `struct sockaddr_in`: the four bytes of the address, and the port as `ntohs` gives it.
pub record SockAddr : Type 0 where
  pub a : ℕ
  pub b : ℕ
  pub c : ℕ
  pub d : ℕ
  pub port : ℕ

abbrev pub stdin_fileno : ℤ
stdin_fileno = pos 0

abbrev pub stdout_fileno : ℤ
stdout_fileno = pos 1

abbrev pub stderr_fileno : ℤ
stderr_fileno = pos 2

-- One call of a process. `opened` is an `open` that succeeded, with the descriptor that it got;
-- `crash` is undefined behaviour in a child.
pub data Call : Type 0 where
  write : ℤ → Bytes → Call
  close : ℤ → Call
  dup2 : ℤ → ℤ → Call
  opened : Bytes → ℤ → Call
  exec : Bytes → List Bytes → Call
  mkfifo : Bytes → Call
  exit : Call
  crash : Fault → Call

-- What the server did: a call of its own, a pipe with its two ends (read, write), a fork with the
-- child's id and the child's calls, a wait for a child.
pub data Event : Type 0 where
  call : Call → Event
  pipe : ℕ → ℕ → Event
  fork : ℕ → List Call → Event
  waitpid : ℕ → Event

abbrev pub Trace : Type 0
Trace = List Event

-- The answers of the system. The loops that repeat a failing `pipe`, `fork` or `read` are seen at
-- their last round. `read` gives the bytes of one `read` on a descriptor; `open_file` fails with `none`;
-- `execvp` says whether a program can be started. `garbage` is what an
-- uninitialised `int` of the C code holds.
pub record Os : Type 0 where
  pub read_end : Trace → ℕ
  pub write_end : Trace → ℕ
  pub child_pid : Trace → ℕ
  pub open_file : Trace → Bytes → Option ℕ
  pub open_null : Trace → Option ℕ
  pub read : Trace → ℤ → Bytes
  pub execvp : Trace → Bytes → Bool
  pub garbage : Trace → ℤ
