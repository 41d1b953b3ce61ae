-- ===== src/Multi/Locks/Exec.antt =====
-- The discipline in the commands: only the messages and the user pipes touch semaphores.
use np.Prelude.{ℕ, zero, suc, ◌+◌, Bool, List, none, some, ℤ, Option}
use np.Libc.{Bytes}
use np.CrossPipe.{CrossPipe}
use np.Sys.{Os}
use np.Single.Exec.Pipeline.{Job}
use np.Multi.Exec.{
  make_pipe, fork_child, Output, Before, look_before, user_output, choose_output, in_missing,
  out_missing, release_input, store_cross, close_user, must_wait, single_cmd,
}
use np.Multi.Exec.Pipeline.{
  Round, round_output, parent_ends, run_round, run_rounds, run_job, redirected, ordinary_pipe,
}
use np.Multi.Locks.{Held, held, Keeps, calm, any, calm_bind}
use np.Multi.Locks.Talk.{absent-Keeps}
use np.Multi.Locks.UserPipe.{
  user_pipe_at-Keeps, index-Keeps, out_blocked-Keeps, print_user_pipe_msg_handler-Keeps,
  create_user_pipe-Keeps,
}

module _ {Mine : ℕ → ℕ → Type 0} where
  make_pipe-Keeps : {h : Held} (os : Os) → Keeps Mine any h h (make_pipe os)
  unfolding make_pipe
  make_pipe-Keeps os = search calm

  look_before-Keeps :
      {h : Held} (user_in_id user_out_id : ℤ)
      → Keeps Mine any h h (look_before user_in_id user_out_id)
  unfolding look_before
  look_before-Keeps i j = search (calm, index-Keeps, user_pipe_at-Keeps) depth 9

  user_output-Keeps :
      (t : Bool) (os : Os) (u : ℤ) (state : Bool) (out : Output)
      → Keeps Mine any (held t) (held t) (user_output os u state out)
  unfolding user_output
  user_output-Keeps t os u state out =
      search (calm, out_blocked-Keeps, user_pipe_at-Keeps, create_user_pipe-Keeps) depth 9

  choose_output-Keeps :
      (t : Bool) (os : Os) (infor : CrossPipe) (cross_num u : ℤ) (state : Bool) (out : Output)
      → Keeps Mine any (held t) (held t) (choose_output os infor cross_num u state out)
  unfolding choose_output
  choose_output-Keeps t os infor cross_num u state out =
      search (calm, make_pipe-Keeps, user_output-Keeps) depth 9

  in_missing-Keeps : {h : Held} (u fd : ℤ) → Keeps Mine any h h (in_missing u fd)
  unfolding in_missing
  in_missing-Keeps u fd = search (calm, absent-Keeps) depth 9

  out_missing-Keeps : {h : Held} (u : ℤ) (exist : Bool) → Keeps Mine any h h (out_missing u exist)
  unfolding out_missing
  out_missing-Keeps u exist = search (calm, absent-Keeps) depth 9

  release_input-Keeps :
      {h : Held} (infor : CrossPipe) (u fd : ℤ) → Keeps Mine any h h (release_input infor u fd)
  unfolding release_input
  release_input-Keeps infor u fd = search (calm, in_missing-Keeps) depth 9

  store_cross-Keeps :
      {h : Held} (cross_num : ℤ) (out : Output) → Keeps Mine any h h (store_cross cross_num out)
  unfolding store_cross
  store_cross-Keeps cross_num out = search calm depth 9

  close_user-Keeps :
      {h : Held} (u : ℤ) (state : Bool) (out : Output) → Keeps Mine any h h (close_user u state out)
  unfolding close_user
  close_user-Keeps u state out = search (calm, out_missing-Keeps) depth 9

  must_wait-Keeps :
      {h : Held} (cross_num : ℤ) (redir : Bool) (u : ℤ) (state exist : Bool)
      → Keeps Mine any h h (must_wait cross_num redir u state exist)
  unfolding must_wait
  must_wait-Keeps cross_num redir u state exist = search (calm, out_missing-Keeps) depth 9

  fork_child-Keeps :
      {h : Held} (os : Os) (calls : List _) → Keeps Mine any h h (fork_child os calls)
  unfolding fork_child
  fork_child-Keeps os calls = search calm

  ruleset commands = (
    calm, look_before-Keeps, print_user_pipe_msg_handler-Keeps, choose_output-Keeps,
    make_pipe-Keeps, in_missing-Keeps, out_missing-Keeps, release_input-Keeps, store_cross-Keeps,
    close_user-Keeps, must_wait-Keeps, fork_child-Keeps,
  )

  pub single_cmd-Keeps :
      (t : Bool) (os : Os) (cmd : List (List Bytes)) (line : Bytes) (cross_num : ℤ) (redir : Bool)
      (i j : ℤ)
      → Keeps Mine any (held t) (held t) (single_cmd os cmd line cross_num redir i j)
  unfolding single_cmd
  single_cmd-Keeps t os cmd line cross_num redir i j = search commands depth 20 fits 5000

  round_output-Keeps :
      (t : Bool) (os : Os) (job : Job) (infor : CrossPipe) (state : Bool) (i : ℕ) (out : Output)
      → Keeps Mine any (held t) (held t) (round_output os job infor state i out)
  unfolding round_output
  round_output-Keeps t os job infor state i out = search commands depth 9

  parent_ends-Keeps :
      {h : Held} (job : Job) (infor : CrossPipe) (b : Before) (i : ℕ) (out : Output)
      → Keeps Mine any h h (parent_ends job infor b i out)
  unfolding parent_ends
  parent_ends-Keeps job infor b i out = search commands depth 9

  run_round-Keeps :
      (t : Bool) (os : Os) (job : Job) (infor : CrossPipe) (b : Before) (i : ℕ) (r : Round)
      → Keeps Mine any (held t) (held t) (run_round os job infor b i r)
  unfolding run_round
  run_round-Keeps t os job infor b i r =
      search (commands, round_output-Keeps, parent_ends-Keeps) depth 20 fits 5000

  run_rounds-Keeps :
      (t : Bool) (os : Os) (job : Job) (infor : CrossPipe) (b : Before) (left i : ℕ) (r : Round)
      → Keeps Mine any (held t) (held t) (run_rounds os job infor b left i r)
  unfolding run_rounds
  run_rounds-Keeps t os job infor b zero i r = search calm
  run_rounds-Keeps t os job infor b (suc left) i r =
      calm_bind (run_round-Keeps t os job infor b i r)
        (λ r'. run_rounds-Keeps t os job infor b left (i + 1) r')

  run_job-Keeps :
      (t : Bool) (os : Os) (job : Job) (b : Before) (line : Bytes)
      → Keeps Mine any (held t) (held t) (run_job os job b line)
  unfolding run_job
  run_job-Keeps t os job b line = search (commands, run_rounds-Keeps) depth 12

  redirected-Keeps :
      (t : Bool) (os : Os) (job : ℤ → Job) (b : Before) (line : Bytes) (path : Option Bytes)
      (n : Option ℕ)
      → Keeps Mine any (held t) (held t) (redirected os job b line path n)
  unfolding redirected
  redirected-Keeps t os job b line path none = search calm
  redirected-Keeps t os job b line path (some n) = search (calm, run_job-Keeps)

  pub ordinary_pipe-Keeps :
      (t : Bool) (os : Os) (cmd : List (List Bytes)) (line : Bytes) (cmd_num : ℕ) (cross_num : ℤ)
      (redir : Bool) (i j : ℤ)
      → Keeps Mine any (held t) (held t) (ordinary_pipe os cmd line cmd_num cross_num redir i j)
  unfolding ordinary_pipe
  ordinary_pipe-Keeps t os cmd line cmd_num cross_num redir i j =
      search (commands, run_job-Keeps, redirected-Keeps) depth 12
