-- ===== src/Multi/Exec/Child.antt =====
-- What a forked child of np_multi_proc does before `execvp`, where it differs from np_single_proc.
use np.Prelude.{
  Bool, true, List, [], ◌∷◌, ◌++◌, none, some, if◌then◌else◌, ℤ, pos, minus_one, is_neg, nonzero,
}
use np.Libc.{codes}
use np.CrossPipe.{CrossPipe, Fds, connect_pipe_to_first_process, close_and_connect_fd}
use np.Sys.{Os, Trace, Call, opened, close, dup2, stdin_fileno, stdout_fileno, stderr_fileno}
use np.Single.Exec.Child.{Steps, of_result}

-- `dev_null` becomes the descriptor `target`; an `open` that fails is not noticed.
unfoldable pub device : Os → Trace → ℤ → List Call
device os tr target = elim (os.open_null tr) [
  | none ↦ dup2 minus_one target ∷ close minus_one ∷ []
  | some n ↦ opened (codes "/dev/null") (pos n) ∷ dup2 (pos n) target ∷ close (pos n) ∷ []
]

-- Standard input of the first command: a numbered pipe that is due, else `<n`, else the socket.
unfoldable pub child_input : Os → Trace → CrossPipe → ℤ → ℤ → Bool → ℤ → Steps
unfolding device of_result connect_pipe_to_first_process
child_input os tr infor sockfd user_in_id missing upipe_read_fd =
    if is_neg infor.output_point
    then if nonzero user_in_id
      then if missing
        then (device os tr stdin_fileno, true)
        else (dup2 upipe_read_fd stdin_fileno ∷ close upipe_read_fd ∷ [], true)
      else (dup2 sockfd stdin_fileno ∷ [], true)
    else of_result (connect_pipe_to_first_process infor true)

-- Standard output of the last command: a numbered pipe, else `> file` (given as `redirect`), else
-- `>n`, else the socket. A client that was away when the command began gets nothing.
unfoldable pub child_output : Os → Trace → ℤ → ℤ → Bool → Steps → ℤ → Bool → Bool → Fds → ℤ → Steps
unfolding device close_and_connect_fd
child_output os tr sockfd cross_num redir redirect user_out_id missing user_out_state fd
      upipe_write_fd =
    if nonzero cross_num
    then (
      (if is_neg cross_num then dup2 fd.write_end stderr_fileno ∷ [] else [])
          ++ close_and_connect_fd 0 0 1 fd minus_one true,
      true,
    )
    else if redir
    then redirect
    else if nonzero user_out_id
    then if missing
      then (device os tr stdout_fileno, true)
      else if user_out_state
      then (dup2 upipe_write_fd stdout_fileno ∷ close upipe_write_fd ∷ [], true)
      else (device os tr stdout_fileno, true)
    else (dup2 sockfd stdout_fileno ∷ [], true)
