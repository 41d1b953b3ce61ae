-- ===== src/Multi/Exec/Pipeline.antt =====
-- `ordinary_pipe` of np_multi_proc.
use np.Prelude.{
  ℕ, zero, suc, ◌+◌, ◌-◌, Bool, true, false, List, [], ◌∷◌, ◌++◌, Option, none, some, if◌then◌else◌,
  ◌==◌, get_elem?, ℤ, pos, minus_one, nonzero, ok, out_of_bounds,
}
use np.Libc.{Bytes, codes}
use np.CrossPipe.{CrossPipe, close_cross_pipe_fd, close_and_connect_fd}
use np.Sys.{Os, Trace, call, write, close, dup2, opened, stdout_fileno, stderr_fileno}
use np.Single.Exec.Child.{Steps, ◌⨾◌, of_result, arg0, open_path, run_program}
use np.Single.Exec.Pipeline.{Job, waits}
use np.Multi.Prog.{Prog, ret, ◌>>=◌, ◌>>◌, require, mine, emit, perform}
use np.Multi.UserPipe.{print_user_pipe_msg_handler}
use np.Multi.Exec.Child.{child_input, child_output}
use np.Multi.Exec.{
  make_pipe, fork_child, Output, Before, look_before, choose_output, in_missing, out_missing,
  release_input, store_cross, close_user, must_wait,
}

-- The locals of the loop: those about the output, `ex_fd0` and `pid_table`.
pub record Round : Type 0 where
  pub out : Output
  pub ex_fd0 : ℤ
  pub pid_table : List ℕ

-- A new pipe between two commands, or where the last command writes to.
unfoldable pub round_output : Os → Job → CrossPipe → Bool → ℕ → Output → Prog Output
unfolding ◌>>=◌ make_pipe choose_output
round_output os job infor user_out_state i out =
    if i == job.cmd_num - 1
    then choose_output os infor job.cross_num job.user_out_id user_out_state out
    else (do fd ← make_pipe os; ret (record out { fd = fd }))

-- What the child reads of the shared table and of its own data.
pub record View : Type 0 where
  pub trace : Trace
  pub sockfd : ℤ
  pub no_input : Bool
  pub no_output : Bool

-- Standard input if it is the first command, else standard output if it is the last.
unfoldable pub child_ends : Os → Job → CrossPipe → Before → View → ℕ → Output → Steps
unfolding child_input child_output
child_ends os job infor b v i out =
    if i == 0
    then child_input os v.trace infor v.sockfd job.user_in_id v.no_input b.upipe_read_fd
    else if i == job.cmd_num - 1
    then child_output os v.trace v.sockfd job.cross_num job.redir
        (dup2 job.fd_redir stdout_fileno ∷ [], true) job.user_out_id v.no_output b.user_out_state
        out.fd out.upipe_write_fd
    else ([], true)

unfoldable pub child_steps :
    Os → Job → CrossPipe → Before → View → ℕ → Output → ℤ → List Bytes → Steps
unfolding child_ends of_result run_program
child_steps os job infor b v i out ex_fd0 args =
    of_result (if infor.data_num == 0 then ok [] else close_cross_pipe_fd infor out.pos)
    ⨾ (dup2 v.sockfd stderr_fileno ∷ [], true)
    ⨾ child_ends os job infor b v i out
    ⨾ ((if job.redir then close job.fd_redir ∷ [] else []), true)
    ⨾ (close_and_connect_fd i 0 (job.cmd_num - 1) out.fd ex_fd0 true, true)
    ⨾ run_program os v.trace args

-- The parent's side at the first and at the last command.
unfoldable pub parent_ends : Job → CrossPipe → Before → ℕ → Output → Prog (Unit {0})
unfolding release_input store_cross close_user
parent_ends job infor b i out =
    if i == 0
    then release_input infor job.user_in_id b.upipe_read_fd
    else if i == job.cmd_num - 1
    then (if nonzero job.cross_num
        then store_cross job.cross_num out
        else if job.redir
        then perform (close job.fd_redir ∷ [])
        else if nonzero job.user_out_id
        then close_user job.user_out_id b.user_out_state out
        else ret tt)
    else ret tt

-- One round of the loop over the commands.
unfoldable pub run_round : Os → Job → CrossPipe → Before → ℕ → Round → Prog Round
unfolding ◌>>=◌ ◌>>◌ round_output in_missing out_missing child_steps fork_child parent_ends
    close_and_connect_fd
run_round os job infor b i r = do
  out ← round_output os job infor b.user_out_state i r.out
  no_input ← if i == 0 then in_missing job.user_in_id b.upipe_read_fd else ret true
  no_output ←
      if i == job.cmd_num - 1 then out_missing job.user_out_id out.upipe_write_exist else ret true
  args ← require (get_elem? job.cmd i) out_of_bounds
  o ← mine (λ o. o)
  let view : View = record {
    trace = o.trace;
    sockfd = o.sockfd;
    no_input = no_input;
    no_output = no_output;
  }
  pid ← fork_child os (child_steps os job infor b view i out r.ex_fd0 args).0
  parent_ends job infor b i out
  perform (close_and_connect_fd i 0 (job.cmd_num - 1) out.fd r.ex_fd0 false)
  ret (record {
    out = out;
    ex_fd0 = if i == job.cmd_num - 1 then r.ex_fd0 else out.fd.read_end;
    pid_table = if nonzero job.cross_num then r.pid_table else r.pid_table ++ pid ∷ [];
  })

-- The loop, by the rounds left.
unfoldable pub run_rounds : Os → Job → CrossPipe → Before → ℕ → ℕ → Round → Prog Round
unfolding ◌>>=◌ run_round
run_rounds os job infor b zero i r = ret r
run_rounds os job infor b (suc left) i r = do
  r' ← run_round os job infor b i r
  run_rounds os job infor b left (i + 1) r'

-- Behind the test of the redirection. With a numbered pipe and a user pipe `pid_table` is not filled
-- and may be read: the waits are then for uninitialised numbers, and the model has none.
unfoldable pub run_job : Os → Job → Before → Bytes → Prog (Unit {0})
unfolding ◌>>=◌ ◌>>◌ print_user_pipe_msg_handler run_rounds must_wait waits
run_job os job b cmd_reserve = do
  print_user_pipe_msg_handler cmd_reserve job.user_in_id job.user_out_id
  o ← mine (λ o. o)
  let junk : ℤ = os.garbage o.trace
  let start : Round = record {
    out = record {
      pos = minus_one;
      fd = record { read_end = junk; write_end = junk };
      upipe_write_fd = junk;
      upipe_write_exist = false;
    };
    ex_fd0 = junk;
    pid_table = [];
  }
  r ← run_rounds os job o.infor b job.cmd_num 0 start
  wanted ←
      must_wait job.cross_num job.redir job.user_out_id b.user_out_state r.out.upipe_write_exist
  if wanted then emit (waits r.pid_table) else ret tt

-- `open` of the file of a redirection: with `none` it has failed.
unfoldable pub redirected :
    Os → (ℤ → Job) → Before → Bytes → Option Bytes → Option ℕ → Prog (Unit {0})
unfolding ◌>>=◌ ◌>>◌ run_job
redirected os job b cmd_reserve path none = do
  sockfd ← mine (λ o. o.sockfd)
  perform (write sockfd (codes "Error: can't open file\n") ∷ [])
redirected os job b cmd_reserve path (some n) = do
  emit (call (opened (elim path [ none ↦ [] | some w ↦ w ]) (pos n)) ∷ [])
  run_job os (job (pos n)) b cmd_reserve

unfoldable pub ordinary_pipe :
    Os → List (List Bytes) → Bytes → ℕ → ℤ → Bool → ℤ → ℤ → Prog (Unit {0})
unfolding ◌>>=◌ ◌>>◌ look_before redirected run_job open_path
ordinary_pipe os cmd cmd_reserve cmd_num cross_num redir user_in_id user_out_id = do
  b ← look_before user_in_id user_out_id
  o ← mine (λ o. o)
  let job : ℤ → Job = λ fd_redir. record {
    cmd = cmd;
    cmd_num = cmd_num;
    cross_num = cross_num;
    redir = redir;
    fd_redir = fd_redir;
    user_in_id = user_in_id;
    user_out_id = user_out_id;
  }
  if redir
      then (do
        words ← require (get_elem? cmd cmd_num) out_of_bounds
        redirected os job b cmd_reserve (arg0 words) (open_path os o.trace (arg0 words)))
      else run_job os (job (os.garbage o.trace)) b cmd_reserve
