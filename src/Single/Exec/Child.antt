-- ===== src/Single/Exec/Child.antt =====
-- What a child process does between `fork` and `execvp`.
use np.Prelude.{
  ℕ, Bool, true, false, List, [], ◌∷◌, ◌++◌, Option, none, some, if◌then◌else◌, ℤ, pos, minus_one,
  is_neg, nonzero, Result, ok, fault, null_pointer,
}
use np.Libc.{Bytes, codes, strcat_all}
use np.CrossPipe.{CrossPipe, Fds, connect_pipe_to_first_process, close_and_connect_fd}
use np.Sys.{
  Os, Trace, Call, write, close, dup2, opened, exec, exit, crash, stdin_fileno, stdout_fileno,
  stderr_fileno,
}

-- The calls of a part of the child's code, and whether it goes on behind them.
abbrev pub Steps : Type 0
Steps = List Call × Bool

infixr 20 ◌⨾◌
unfoldable pub ◌⨾◌ : Steps → Steps → Steps
(cs, true) ⨾ (ds, b) = (cs ++ ds, b)
(cs, false) ⨾ (ds, b) = (cs, false)

unfoldable pub of_result : Result (List Call) → Steps
of_result (ok cs) = (cs, true)
of_result (fault e) = (crash e ∷ [], false)

abbrev pub max_cmd_len : ℕ
max_cmd_len = 256

abbrev pub open_error : ℤ → Steps
open_error sockfd = (write sockfd (codes "Error: can't open file\n") ∷ exit ∷ [], false)

-- `/dev/null` becomes the descriptor `target`.
unfoldable pub open_device : Os → Trace → ℤ → ℤ → Steps
open_device os tr sockfd target = elim (os.open_null tr) [
  | none ↦ open_error sockfd
  | some n ↦ (opened (codes "/dev/null") (pos n) ∷ dup2 (pos n) target ∷ close (pos n) ∷ [], true)
]

abbrev pub arg0 : List Bytes → Option Bytes
arg0 [] = none
arg0 (a ∷ as') = some a

-- `open` with a null path fails.
unfoldable pub open_path : Os → Trace → Option Bytes → Option ℕ
open_path os tr none = none
open_path os tr (some path) = os.open_file tr path

-- The text of a path, for the trace.
abbrev path_text : Option Bytes → Bytes
path_text none = []
path_text (some path) = path

-- `> file` of a single command: its first word is `cmd[1][0]`.
unfoldable pub open_redirect : Os → Trace → ℤ → Option (List Bytes) → Steps
unfolding open_path
open_redirect os tr sockfd none = (crash null_pointer ∷ [], false)
open_redirect os tr sockfd (some words) = elim (open_path os tr (arg0 words)) [
  | none ↦ open_error sockfd
  | some n ↦ (
    opened (path_text (arg0 words)) (pos n) ∷ dup2 (pos n) stdout_fileno ∷ close (pos n) ∷ [],
    true,
  )
]

-- Standard input of the first command: a numbered pipe that is due, else `<n`, else the socket.
unfoldable pub child_input : Os → Trace → CrossPipe → ℤ → ℤ → Bool → ℤ → Steps
unfolding open_device of_result connect_pipe_to_first_process
child_input os tr infor sockfd user_in_id blocked from =
    if is_neg infor.output_point
    then if nonzero user_in_id
      then if blocked
        then open_device os tr sockfd stdin_fileno
        else (dup2 from stdin_fileno ∷ close from ∷ [], true)
      else (dup2 sockfd stdin_fileno ∷ [], true)
    else of_result (connect_pipe_to_first_process infor true)

-- Standard output of the last command: a numbered pipe, else `> file` (given as `redirect`), else
-- `>n`, else the socket.
unfoldable pub child_output : Os → Trace → ℤ → ℤ → Bool → Steps → ℤ → Bool → Fds → Steps
unfolding open_device close_and_connect_fd
child_output os tr sockfd cross_num redir redirect user_out_id blocked fd =
    let into_pipe = close_and_connect_fd 0 0 1 fd minus_one true in
    if nonzero cross_num
    then (
      (if is_neg cross_num then dup2 fd.write_end stderr_fileno ∷ [] else []) ++ into_pipe,
      true,
    )
    else if redir
    then redirect
    else if nonzero user_out_id
    then if blocked then open_device os tr sockfd stdout_fileno else (into_pipe, true)
    else (dup2 sockfd stdout_fileno ∷ [], true)

-- `print_unknown_cmd`, in an array of 256 bytes.
unfoldable pub print_unknown_cmd : Bytes → Result Bytes
print_unknown_cmd cmd =
    strcat_all max_cmd_len [] (codes "Unknown command: [" ∷ cmd ∷ codes "].\n" ∷ [])

unfoldable pub unknown_calls : Result Bytes → List Call
unknown_calls (ok msg) = write stderr_fileno msg ∷ exit ∷ []
unknown_calls (fault e) = crash e ∷ []

-- `execvp` returns only if it fails; with no program it does, and the message then reads a null pointer.
unfoldable pub run_program : Os → Trace → List Bytes → Steps
unfolding print_unknown_cmd unknown_calls
run_program os tr [] = (crash null_pointer ∷ [], false)
run_program os tr (path ∷ args) = (
  exec path (path ∷ args)
      ∷ (if os.execvp tr path then [] else unknown_calls (print_unknown_cmd path)),
  false,
)
