-- ===== src/Multi/Exec.antt =====
-- Running commands in np_multi_proc: `single_cmd` here, `ordinary_pipe` in a child module. A forked child's
-- calls are computed from the state at its fork; its reads of the shared table are made just before.
pub mod Child
pub mod Pipeline
use np.Prelude.{
  ℕ, Bool, true, false, not, ◌||◌, ◌&&◌, List, [], ◌∷◌, Option, none, some, if◌then◌else◌, ◌==◌,
  get_elem?, ℤ, pos, minus_one, is_neg, nonzero, magnitude, Result, ok, null_pointer, out_of_bounds,
}
use np.Libc.{Bytes}
use np.CrossPipe.{
  CrossPipe, Fds, connect_pipe_to_first_process, update_cross_pipe_fd, find_same_cross_pipe,
  close_cross_pipe_fd,
}
use np.Sys.{Os, Call, close, dup2, pipe, fork, waitpid, stderr_fileno}
use np.Single.Exec.Child.{Steps, ◌⨾◌, of_result, open_redirect, run_program}
use np.Multi.Shared.{Client, set_user_pipe}
use np.Multi.Prog.{
  Own, Prog, ret, ◌>>=◌, ◌>>◌, lift, require, mine, client_at, write_to, modify, emit, perform,
}
use np.Multi.Talk.{absent}
use np.Multi.UserPipe.{
  user_pipe_at, index, out_blocked, print_user_pipe_msg_handler, create_user_pipe,
}
use np.Multi.Exec.Child.{child_input, child_output}

-- `while (pipe(fd) < 0) {}`
unfoldable pub make_pipe : Os → Prog Fds
unfolding ◌>>=◌ ◌>>◌
make_pipe os = do
  tr ← mine (λ o. o.trace)
  emit (pipe (os.read_end tr) (os.write_end tr) ∷ [])
  ret (record { read_end = pos (os.read_end tr); write_end = pos (os.write_end tr) })

-- The parent's side of `fork`: the child's calls go into the trace.
unfoldable pub fork_child : Os → List Call → Prog ℕ
unfolding ◌>>=◌ ◌>>◌
fork_child os calls = do
  tr ← mine (λ o. o.trace)
  emit (fork (os.child_pid tr) calls ∷ [])
  ret (os.child_pid tr)

-- The locals about the output: `pos`, `fd`, `upipe_write_fd` and `upipe_write_exist`.
pub record Output : Type 0 where
  pub pos : ℤ
  pub fd : Fds
  pub upipe_write_fd : ℤ
  pub upipe_write_exist : Bool

-- `user_out_state`, and `upipe_read_fd`, which are read before anything else.
pub record Before : Type 0 where
  pub upipe_read_fd : ℤ
  pub user_out_state : Bool

unfoldable pub look_before : ℤ → ℤ → Prog Before
unfolding ◌>>=◌ user_pipe_at
look_before user_in_id user_out_id = do
  id ← mine (λ o. o.id)
  i ← index user_in_id
  fd ← user_pipe_at id i
  j ← index user_out_id
  c ← client_at j
  ret (record { upipe_read_fd = fd; user_out_state = c.state })

-- The output to another client.
unfoldable pub user_output : Os → ℤ → Bool → Output → Prog Output
unfolding ◌>>=◌ out_blocked create_user_pipe user_pipe_at
user_output os user_out_id user_out_state out = do
  blocked ← out_blocked user_out_id
  if blocked
      then (do
        id ← mine (λ o. o.id)
        fd ← user_pipe_at (magnitude user_out_id) id
        ret (if is_neg fd then out else record out { upipe_write_exist = true }))
      else if user_out_state
      then (do
        fd ← create_user_pipe os (magnitude user_out_id)
        ret (record out { upipe_write_fd = fd }))
      else ret (record out { upipe_write_exist = true })

-- Where the output of the last command goes.
unfoldable pub choose_output : Os → CrossPipe → ℤ → ℤ → Bool → Output → Prog Output
unfolding ◌>>=◌ make_pipe find_same_cross_pipe user_output
choose_output os infor cross_num user_out_id user_out_state out =
    if nonzero cross_num
    then (do
      (p, fd) ← lift (find_same_cross_pipe infor out.fd cross_num)
      if is_neg p
          then (do fd' ← make_pipe os; ret (record out { pos = p; fd = fd' }))
          else ret (record out { pos = p; fd = fd }))
    else if nonzero user_out_id
    then user_output os user_out_id user_out_state out
    else ret out

-- `user_in_id > max_client_num || !client_list[user_in_id].state || upipe_read_fd < 0`
unfoldable pub in_missing : ℤ → ℤ → Prog Bool
unfolding ◌>>=◌ absent
in_missing user_in_id upipe_read_fd =
    if nonzero user_in_id
    then (do missing ← absent user_in_id; ret (missing || is_neg upipe_read_fd))
    else ret true

-- `user_out_id > max_client_num || !client_list[user_out_id].state || upipe_write_exist`
unfoldable pub out_missing : ℤ → Bool → Prog Bool
unfolding ◌>>=◌ absent
out_missing user_out_id upipe_write_exist =
    if nonzero user_out_id
    then (do missing ← absent user_out_id; ret (missing || upipe_write_exist))
    else ret true

-- The parent closes what the first command has taken.
unfoldable pub release_input : CrossPipe → ℤ → ℤ → Prog (Unit {0})
unfolding ◌>>=◌ ◌>>◌ connect_pipe_to_first_process in_missing
release_input infor user_in_id upipe_read_fd =
    if is_neg infor.output_point
    then (do
      missing ← in_missing user_in_id upipe_read_fd
      id ← mine (λ o. o.id)
      if missing then ret tt else (do
        perform (close upipe_read_fd ∷ [])
        write_to (set_user_pipe id (magnitude user_in_id) minus_one)))
    else (do calls ← lift (connect_pipe_to_first_process infor false); perform calls)

-- The parent stores a new numbered pipe.
unfoldable pub store_cross : ℤ → Output → Prog (Unit {0})
unfolding ◌>>=◌ update_cross_pipe_fd
store_cross cross_num out =
    if is_neg out.pos
    then (do
      infor ← mine (λ o. o.infor)
      infor' ← lift (update_cross_pipe_fd infor out.fd cross_num)
      modify (λ o. record o { infor = infor' }))
    else ret tt

-- The parent closes its end of a new FIFO.
unfoldable pub close_user : ℤ → Bool → Output → Prog (Unit {0})
unfolding ◌>>=◌ out_missing
close_user user_out_id user_out_state out = do
  missing ← out_missing user_out_id out.upipe_write_exist
  if not missing && user_out_state then perform (close out.upipe_write_fd ∷ []) else ret tt

-- Does the parent wait for its children?
unfoldable pub must_wait : ℤ → Bool → ℤ → Bool → Bool → Prog Bool
unfolding ◌>>=◌ out_missing
must_wait cross_num redir user_out_id user_out_state exist =
    if nonzero user_out_id
    then (do
      missing ← out_missing user_out_id exist
      if missing
          then ret true
          else (do c ← client_at (magnitude user_out_id); ret (c.state && not user_out_state)))
    else ret (not (nonzero cross_num) && not redir)

-- The messages about `<n` and `>n`, the choice of the output, and the fork; `pos` and the descriptors
-- are uninitialised before.
unfoldable pub single_cmd : Os → List (List Bytes) → Bytes → ℤ → Bool → ℤ → ℤ → Prog (Unit {0})
unfolding ◌>>=◌ ◌>>◌ look_before print_user_pipe_msg_handler choose_output in_missing out_missing
    fork_child release_input store_cross close_user must_wait child_input child_output open_redirect
    run_program of_result
single_cmd os cmd cmd_reserve cross_num redir user_in_id user_out_id = do
  b ← look_before user_in_id user_out_id
  print_user_pipe_msg_handler cmd_reserve user_in_id user_out_id
  o ← mine (λ o. o)
  let junk : ℤ = os.garbage o.trace
  let start : Output = record {
    pos = junk;
    fd = record { read_end = junk; write_end = junk };
    upipe_write_fd = junk;
    upipe_write_exist = false;
  }
  out ← choose_output os o.infor cross_num user_out_id b.user_out_state start
  no_input ← in_missing user_in_id b.upipe_read_fd
  no_output ← out_missing user_out_id out.upipe_write_exist
  args ← require (get_elem? cmd 0) out_of_bounds
  tr ← mine (λ o. o.trace)
  let drop = if o.infor.data_num == 0 then ok [] else close_cross_pipe_fd o.infor out.pos
  let errors = if is_neg cross_num then [] else dup2 o.sockfd stderr_fileno ∷ []
  let steps =
      of_result drop
      ⨾ child_input os tr o.infor o.sockfd user_in_id no_input b.upipe_read_fd
      ⨾ child_output os tr o.sockfd cross_num redir (open_redirect os tr o.sockfd (get_elem? cmd 1))
          user_out_id no_output b.user_out_state out.fd out.upipe_write_fd
      ⨾ (errors, true)
      ⨾ run_program os tr args
  pid ← fork_child os steps.0
  release_input o.infor user_in_id b.upipe_read_fd
  if nonzero cross_num
      then store_cross cross_num out
      else if nonzero user_out_id
      then close_user user_out_id b.user_out_state out
      else ret tt
  waits ← must_wait cross_num redir user_out_id b.user_out_state out.upipe_write_exist
  if waits then emit (waitpid pid ∷ []) else ret tt
