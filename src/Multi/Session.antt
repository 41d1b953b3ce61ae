-- ===== src/Multi/Session.antt =====
-- The process of one client in np_multi_proc, from login to logout (`main`, `run_shell`), and the
-- process that accepts the clients.
use np.Prelude.{
  ℕ, zero, suc, ◌-◌, Bool, true, false, ◌||◌, List, [], ◌∷◌, Option, none, some, if◌then◌else◌,
  ◌==◌, leb, length, pos, minus_one, out_of_bounds,
}
use np.Libc.{codes, str_eq}
use np.CrossPipe.{initial_cross_pipe_infor, count_down_and_check, close_cross_pipe_fd}
use np.Sys.{Os, SockAddr, write, close, exit, stderr_fileno}
use np.Texts.{Line, max_input_len}
use np.Single.Env.{max_client_num, setenv}
use np.Single.Loop.{before_nul, cut_line, at_eof, prompt}
use np.Multi.Shared.{Shared, login, table}
use np.Multi.Prog.{
  Prog, ret, crash, spin, spawn, ◌>>=◌, ◌>>◌, lift, mine, wait, post, modify, perform,
}
use np.Multi.Users.{take_place, delete_client_infor, change_client_num, lower_min_id}
use np.Multi.Talk.{print_welcome_msg, print_login_msg, print_logout_msg}
use np.Multi.Command.{free_record, string_split, check_cmd}

-- `run_shell` returns: the waiting pipes are closed.
unfoldable pub leave_shell : Prog (Unit {0})
unfolding ◌>>=◌ ◌>>◌ close_cross_pipe_fd free_record
leave_shell = do
  infor ← mine (λ o. o.infor)
  if infor.data_num == 0
      then ret tt
      else (do calls ← lift (close_cross_pipe_fd infor minus_one); perform calls; free_record)

-- A line that is neither empty nor the end of the input; `true` if the client has left.
unfoldable pub run_line : Os → Line → Prog Bool
unfolding ◌>>=◌ ◌>>◌ leave_shell check_cmd string_split
run_line os line = if str_eq line.text (codes "exit") then (do leave_shell; ret true) else (do
  handled ← check_cmd line
  if handled then ret false else (do string_split os line.text; ret false))

-- One round of the loop of `run_shell`. A line that fills the array leaves no NUL, and is taken for a
-- fault.
unfoldable pub shell_round : Os → Prog Bool
unfolding ◌>>=◌ ◌>>◌ leave_shell count_down_and_check cut_line run_line before_nul
shell_round os = do
  sockfd ← mine (λ o. o.sockfd)
  perform (write sockfd prompt ∷ [])
  o ← mine (λ o. o)
  let raw = os.read o.trace sockfd
  let text = before_nul raw
  if leb max_input_len (length raw)
      then crash out_of_bounds
      else if at_eof raw
      then (do leave_shell; ret true)
      else if str_eq text (codes "\r\n") || str_eq text (codes "\n")
      then ret false
      else (do
        modify (λ o. record o { infor = count_down_and_check o.infor })
        run_line os (cut_line raw))

-- The loop, as far as `rounds` go; `true` if the client has left.
unfoldable pub shell_loop : Os → ℕ → Prog Bool
unfolding ◌>>=◌ shell_round
shell_loop os zero = ret false
shell_loop os (suc rounds) = do
  left ← shell_round os
  if left then ret true else shell_loop os rounds

unfoldable pub run_shell : Os → ℕ → Prog Bool
unfolding ◌>>=◌ ◌>>◌ setenv initial_cross_pipe_infor shell_loop
run_shell os rounds = do
  modify (λ o. record o {
    environ = setenv o.environ (codes "PATH") (codes "bin:.") true;
    infor = initial_cross_pipe_infor;
  })
  shell_loop os rounds

-- The logout in `main`.
unfoldable pub log_out : Prog (Unit {0})
unfolding ◌>>=◌ ◌>>◌ delete_client_infor change_client_num lower_min_id print_logout_msg
log_out = do
  modify (λ o. record o { stopped = true })
  wait table
  sockfd ← mine (λ o. o.sockfd)
  perform (close sockfd ∷ [])
  name ← delete_client_infor
  change_client_num (λ n. n - 1)
  lower_min_id
  print_logout_msg name
  post table
  perform (exit ∷ [])

-- The child of `main`, as far as `rounds` of the shell go.
unfoldable pub session : Os → ℕ → ℕ → SockAddr → Prog (Unit {0})
unfolding ◌>>=◌ ◌>>◌ take_place print_welcome_msg print_login_msg run_shell log_out
session os rounds msockfd addr = do
  take_place addr
  perform (close (pos msockfd) ∷ [])
  print_welcome_msg
  print_login_msg
  left ← run_shell os rounds
  if left then log_out else ret tt

-- `connect_state->client_num >= max_client_num`
abbrev pub is_full : Shared → Bool
is_full m = leb max_client_num m.client_num

-- What `main` does with an answer of `accept`; `none` is an error.
unfoldable pub accept_client : Option (ℕ × SockAddr) → Prog (Unit {0})
unfolding ◌>>=◌ ◌>>◌
accept_client none = perform (write stderr_fileno (codes "Error: accept error\n") ∷ [])
accept_client (some (sockfd, addr)) = do
  spawn sockfd addr (ret tt)
  perform (close (pos sockfd) ∷ [])
  wait login
  spin is_full (ret tt)

unfoldable pub main_loop : List (Option (ℕ × SockAddr)) → Prog (Unit {0})
unfolding ◌>>◌ accept_client
main_loop [] = ret tt
main_loop (a ∷ answers) = do accept_client a; main_loop answers
