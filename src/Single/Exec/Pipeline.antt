-- ===== src/Single/Exec/Pipeline.antt =====
-- `ordinary_pipe`: the commands of `a | b | c`, each a child process.
use np.Prelude.{
  ℕ, zero, suc, ◌+◌, ◌-◌, Bool, true, false, ◌||◌, List, [], ◌∷◌, ◌++◌, none, some, if◌then◌else◌,
  ◌==◌, get_elem?, ℤ, pos, minus_one, nonzero, ok, out_of_bounds,
}
use np.Libc.{Bytes, codes}
use np.CrossPipe.{CrossPipe, Fds, close_cross_pipe_fd, close_and_connect_fd}
use np.Sys.{
  Os, Trace, Event, call, write, close, dup2, opened, waitpid, stdout_fileno, stderr_fileno,
}
use np.Single.State.{M, ◌>>=◌, ◌>>◌, pure, require, gets, emit, perform, me, cross_pipe_of}
use np.Single.UserPipe.{in_blocked, out_blocked}
use np.Single.Exec.Child.{
  Steps, ◌⨾◌, of_result, open_path, child_input, child_output, run_program, arg0,
}
use np.Single.Exec.{
  make_pipe, fork_child, blocked_if, in_fd, output_pipe, release_input, store_cross, store_user,
  announce,
}

-- What the parser hands to `ordinary_pipe`; `fd_redir` is the opened file of a redirection.
pub record Job : Type 0 where
  pub cmd : List (List Bytes)
  pub cmd_num : ℕ
  pub cross_num : ℤ
  pub redir : Bool
  pub fd_redir : ℤ
  pub user_in_id : ℤ
  pub user_out_id : ℤ

-- The locals of the loop: `fd`, `ex_fd0`, `pos`, `pid_table` (filled only without a numbered pipe).
pub record Round : Type 0 where
  pub fd : Fds
  pub ex_fd0 : ℤ
  pub pos : ℤ
  pub pid_table : List ℕ

-- A new pipe between two commands, or the one that the last command writes to.
unfoldable pub round_pipe : Os → Job → CrossPipe → ℕ → Round → M (ℤ × Fds)
unfolding make_pipe output_pipe
round_pipe os job infor i r =
    if i == job.cmd_num - 1
    then output_pipe os infor job.cross_num job.user_out_id r.pos r.fd
    else (do fd ← make_pipe os; pure (r.pos, fd))

-- The middle of the child's code: its standard input if it is the first, else its standard output
-- if it is the last.
unfoldable pub child_ends : Os → Trace → Job → CrossPipe → ℤ → ℕ → Bool → ℤ → Bool → Fds → Steps
unfolding child_input child_output
child_ends os tr job infor sockfd i blocked_in from blocked_out fd =
    if i == 0
    then child_input os tr infor sockfd job.user_in_id blocked_in from
    else if i == job.cmd_num - 1
    then child_output os tr sockfd job.cross_num job.redir
        (dup2 job.fd_redir stdout_fileno ∷ [], true) job.user_out_id blocked_out fd
    else ([], true)

unfoldable pub child_steps :
    Os → Trace → Job → CrossPipe → ℤ → ℕ → Bool → ℤ → Bool → ℤ → Fds → ℤ → List Bytes → Steps
unfolding child_ends of_result run_program
child_steps os tr job infor sockfd i blocked_in from blocked_out p fd ex_fd0 args =
    of_result (if infor.data_num == 0 then ok [] else close_cross_pipe_fd infor p)
    ⨾ (dup2 sockfd stderr_fileno ∷ [], true)
    ⨾ child_ends os tr job infor sockfd i blocked_in from blocked_out fd
    ⨾ ((if job.redir then close job.fd_redir ∷ [] else []), true)
    ⨾ (close_and_connect_fd i 0 (job.cmd_num - 1) fd ex_fd0 true, true)
    ⨾ run_program os tr args

-- The parent's side at the first and at the last command.
unfoldable pub parent_ends : Job → CrossPipe → ℕ → ℤ → Fds → M (Unit {0})
unfolding release_input store_cross store_user
parent_ends job infor i p fd =
    if i == 0
    then release_input infor job.user_in_id
    else if i == job.cmd_num - 1
    then (if nonzero job.cross_num
        then store_cross infor p fd job.cross_num
        else if job.redir
        then perform (close job.fd_redir ∷ [])
        else store_user job.user_out_id fd)
    else pure tt

-- One round of the loop over the commands.
unfoldable pub run_round : Os → Job → CrossPipe → ℤ → ℕ → Round → M Round
unfolding round_pipe child_steps parent_ends fork_child blocked_if in_fd close_and_connect_fd
run_round os job infor sockfd i r = do
  (p, fd) ← round_pipe os job infor i r
  blocked_in ← if i == 0 then blocked_if in_blocked job.user_in_id else pure true
  from ← in_fd job.user_in_id blocked_in
  blocked_out ← if i == job.cmd_num - 1 then blocked_if out_blocked job.user_out_id else pure true
  args ← require (get_elem? job.cmd i) out_of_bounds
  s ← gets (λ s. s)
  let steps =
      child_steps os s.trace job infor sockfd i blocked_in from blocked_out p fd r.ex_fd0 args
  pid ← fork_child os steps.0
  parent_ends job infor i p fd
  perform (close_and_connect_fd i 0 (job.cmd_num - 1) fd r.ex_fd0 false)
  pure (record {
    fd = fd;
    ex_fd0 = if i == job.cmd_num - 1 then r.ex_fd0 else fd.read_end;
    pos = p;
    pid_table = if nonzero job.cross_num then r.pid_table else r.pid_table ++ pid ∷ [];
  })

-- The loop, by the rounds left.
unfoldable pub run_rounds : Os → Job → CrossPipe → ℤ → ℕ → ℕ → Round → M Round
unfolding run_round
run_rounds os job infor sockfd zero i r = pure r
run_rounds os job infor sockfd (suc left) i r = do
  r' ← run_round os job infor sockfd i r
  run_rounds os job infor sockfd left (i + 1) r'

unfoldable pub waits : List ℕ → List Event
waits [] = []
waits (pid ∷ pids) = waitpid pid ∷ waits pids

-- Behind the test of the redirection.
unfoldable pub run_job : Os → Job → Bytes → ℤ → CrossPipe → M (Unit {0})
unfolding announce run_rounds waits
run_job os job cmd_reserve sockfd infor = do
  announce cmd_reserve job.user_in_id job.user_out_id
  s ← gets (λ s. s)
  let junk : ℤ = os.garbage s.trace
  let start : Round = record {
    fd = record { read_end = junk; write_end = junk };
    ex_fd0 = junk;
    pos = minus_one;
    pid_table = [];
  }
  r ← run_rounds os job infor sockfd job.cmd_num 0 start
  if nonzero job.cross_num || job.redir || nonzero job.user_out_id
      then pure tt
      else emit (waits r.pid_table)

-- The file of a redirection is the first word behind the commands.
unfoldable pub ordinary_pipe : Os → List (List Bytes) → Bytes → ℕ → ℤ → Bool → ℤ → ℤ → M (Unit {0})
unfolding run_job open_path
ordinary_pipe os cmd cmd_reserve cmd_num cross_num redir user_in_id user_out_id = do
  c ← me
  infor ← cross_pipe_of c
  s ← gets (λ s. s)
  let job : ℤ → Job = λ fd_redir. record {
    cmd = cmd;
    cmd_num = cmd_num;
    cross_num = cross_num;
    redir = redir;
    fd_redir = fd_redir;
    user_in_id = user_in_id;
    user_out_id = user_out_id;
  }
  if redir
      then (do
        words ← require (get_elem? cmd cmd_num) out_of_bounds
        elim (open_path os s.trace (arg0 words)) [
          | none ↦ perform (write c.sockfd (codes "Error: can't open file\n") ∷ [])
          | some n ↦ do
            emit (call (opened (elim (arg0 words) [ none ↦ [] | some w ↦ w ]) (pos n)) ∷ [])
            run_job os (job (pos n)) cmd_reserve c.sockfd infor
        ])
      else run_job os (job (os.garbage s.trace)) cmd_reserve c.sockfd infor
