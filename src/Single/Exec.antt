-- ===== src/Single/Exec.antt =====
-- Running commands: `single_cmd` here, `ordinary_pipe` in a child module. A child's calls are
-- computed at its fork from the server's state, which it has a copy of.
pub mod Child
pub mod Pipeline
use np.Prelude.{
  ℕ, ◌+◌, Bool, true, false, not, ◌||◌, List, [], ◌∷◌, Option, none, some, if◌then◌else◌, ◌==◌,
  get_elem?, set, ℤ, pos, negsuc, minus_one, is_neg, nonzero, magnitude, Result, ok, fault,
  null_pointer, out_of_bounds,
}
use np.Libc.{Bytes}
use np.CrossPipe.{
  CrossPipe, Fds, connect_pipe_to_first_process, update_cross_pipe_fd, find_same_cross_pipe,
  close_cross_pipe_fd, close_and_connect_fd,
}
use np.Sys.{
  Os, Call, Event, close, dup2, pipe, fork, waitpid, stdin_fileno, stdout_fileno, stderr_fileno,
}
use np.Single.State.{
  Client, Server, M, ◌>>=◌, ◌>>◌, pure, fail, lift, require, gets, emit, perform, client_at, me,
  put_client, cross_pipe_of,
}
use np.Single.UserPipe.{in_blocked, out_blocked, user_pipe_at, print_user_pipe_msg_handler}
use np.Single.Exec.Child.{
  Steps, ◌⨾◌, of_result, open_redirect, child_input, child_output, run_program, arg0,
}

-- `while (pipe(fd) < 0) {}`
unfoldable pub make_pipe : Os → M Fds
make_pipe os = do
  s ← gets (λ s. s)
  emit (pipe (os.read_end s.trace) (os.write_end s.trace) ∷ [])
  pure (record { read_end = pos (os.read_end s.trace); write_end = pos (os.write_end s.trace) })

-- The parent's side of `fork`: the child's calls go into the trace.
unfoldable pub fork_child : Os → List Call → M ℕ
fork_child os calls = do
  s ← gets (λ s. s)
  emit (fork (os.child_pid s.trace) calls ∷ [])
  pure (os.child_pid s.trace)

-- The tests on a client's number are made only where there is one.
unfoldable pub blocked_if : (ℤ → M Bool) → ℤ → M Bool
blocked_if test u = if nonzero u then test u else pure true

-- The descriptor that `<u` reads, where that is not blocked.
unfoldable pub in_fd : ℤ → Bool → M ℤ
unfolding user_pipe_at
in_fd u true = pure minus_one
in_fd u false = do s ← gets (λ s. s); user_pipe_at s.id (magnitude u)

-- The pipe that the output goes to: position in the table of numbered pipes, and descriptors.
unfoldable pub output_pipe : Os → CrossPipe → ℤ → ℤ → ℤ → Fds → M (ℤ × Fds)
unfolding make_pipe blocked_if out_blocked find_same_cross_pipe
output_pipe os infor cross_num user_out_id p fd =
    if nonzero cross_num
    then (do
      (p', fd') ← lift (find_same_cross_pipe infor fd cross_num)
      if is_neg p' then (do fd'' ← make_pipe os; pure (p', fd'')) else pure (p', fd'))
    else (do
      blocked ← blocked_if out_blocked user_out_id
      if blocked then pure (p, fd) else (do fd'' ← make_pipe os; pure (p, fd'')))

-- The parent closes what the first command has taken.
unfoldable pub release_input : CrossPipe → ℤ → M (Unit {0})
unfolding connect_pipe_to_first_process blocked_if in_blocked in_fd
release_input infor user_in_id =
    if is_neg infor.output_point
    then (do
      blocked ← blocked_if in_blocked user_in_id
      fd ← in_fd user_in_id blocked
      if blocked then pure tt else (do
        s ← gets (λ s. s)
        c ← me
        pipes ← require c.user_pipe null_pointer
        perform (close fd ∷ [])
        put_client s.id
            (record c { user_pipe = some (set pipes (magnitude user_in_id) minus_one) })))
    else (do calls ← lift (connect_pipe_to_first_process infor false); perform calls)

-- The parent stores a new numbered pipe.
unfoldable pub store_cross : CrossPipe → ℤ → Fds → ℤ → M (Unit {0})
unfolding update_cross_pipe_fd
store_cross infor p fd cross_num =
    if is_neg p
    then (do
      s ← gets (λ s. s)
      c ← me
      infor' ← lift (update_cross_pipe_fd infor fd cross_num)
      put_client s.id (record c { cp_infor = some infor' }))
    else pure tt

-- The parent leaves the read end of a pipe for the other client.
unfoldable pub store_user : ℤ → Fds → M (Unit {0})
unfolding blocked_if out_blocked
store_user user_out_id fd = do
  blocked ← blocked_if out_blocked user_out_id
  if blocked then pure tt else (do
    s ← gets (λ s. s)
    c ← client_at (magnitude user_out_id)
    pipes ← require c.user_pipe null_pointer
    perform (close fd.write_end ∷ [])
    put_client (magnitude user_out_id) (record c { user_pipe = some (set pipes s.id fd.read_end) }))

-- The messages about `<n` and `>n` come first.
unfoldable pub announce : Bytes → ℤ → ℤ → M (Unit {0})
unfolding print_user_pipe_msg_handler
announce cmd user_in_id user_out_id = print_user_pipe_msg_handler cmd user_in_id user_out_id

-- `pos` is uninitialised unless there is a numbered pipe.
unfoldable pub single_cmd : Os → List (List Bytes) → Bytes → ℤ → Bool → ℤ → ℤ → M (Unit {0})
unfolding announce output_pipe fork_child blocked_if in_fd release_input store_cross store_user
    child_input child_output open_redirect run_program of_result
single_cmd os cmd cmd_reserve cross_num redir user_in_id user_out_id = do
  c ← me
  infor ← cross_pipe_of c
  announce cmd_reserve user_in_id user_out_id
  s ← gets (λ s. s)
  let junk : ℤ = os.garbage s.trace
  (p, fd) ←
      output_pipe os infor cross_num user_out_id junk (record { read_end = junk; write_end = junk })
  blocked_in ← blocked_if in_blocked user_in_id
  blocked_out ← blocked_if out_blocked user_out_id
  from ← in_fd user_in_id blocked_in
  args ← require (get_elem? cmd 0) out_of_bounds
  t ← gets (λ s. s)
  let drop = if infor.data_num == 0 then ok [] else close_cross_pipe_fd infor p
  let errors = if is_neg cross_num then [] else dup2 c.sockfd stderr_fileno ∷ []
  let steps =
      of_result drop
      ⨾ child_input os t.trace infor c.sockfd user_in_id blocked_in from
      ⨾ child_output os t.trace c.sockfd cross_num redir
          (open_redirect os t.trace c.sockfd (get_elem? cmd 1)) user_out_id blocked_out fd
      ⨾ (errors, true)
      ⨾ run_program os t.trace args
  pid ← fork_child os steps.0
  release_input infor user_in_id
  if nonzero cross_num then store_cross infor p fd cross_num else store_user user_out_id fd
  if nonzero cross_num || redir || nonzero user_out_id then pure tt else emit (waitpid pid ∷ [])
