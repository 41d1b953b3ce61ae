-- ===== src/Single/Loop.antt =====
-- `run_shell`, which serves one line of one client, and the loop of `main`.
pub mod Places
pub mod Leave
pub mod Unique
pub mod Disconnect
use np.Prelude.{
  ℕ, zero, suc, ◌+◌, ◌-◌, Bool, true, false, ◌||◌, not, List, [], ◌∷◌, ◌++◌, Option, none, some,
  if◌then◌else◌, ◌==◌, ltb, leb, length, get_elem?, set, ℤ, pos, negsuc, minus_one, Result, ok,
  fault, null_pointer, out_of_bounds,
}
use np.Prelude
use np.Libc.{Bytes, codes, str_eq}
use np.Libc.Tokens.{is_delim, strtok}
use np.CrossPipe.{CrossPipe, count_down_and_check}
use np.Sys.{Os, write, close, stderr_fileno}
use np.Single.Env.{Environ, max_client_num, set_env, renew_env_var, delete_env_var, initial_env_var}
use np.Sys.{SockAddr}
use np.Single.State.{
  Client, Server, M, ◌>>=◌, ◌>>◌, pure, fail, lift, require, gets, modify, perform, client_at, me,
  put_client, cross_pipe_of,
}
use np.Single.Users.{initial_client_infor, update_client_infor, delete_client_infor}
use np.Texts.{Line, max_input_len}
use np.Single.Talk.{print_welcome_msg, print_login_msg, print_logout_msg}
use np.Single.Command.{check_cmd, string_split}

-- The bytes before the first NUL, and those behind it up to the next.
unfoldable pub before_nul : Bytes → Bytes
before_nul [] = []
before_nul (zero ∷ s) = []
before_nul (suc c ∷ s) = suc c ∷ before_nul s

unfoldable pub behind_nul : Bytes → Bytes
unfolding before_nul
behind_nul [] = []
behind_nul (zero ∷ s) = before_nul s
behind_nul (suc c ∷ s) = behind_nul s

-- The delimiters in front of the first token.
unfoldable pub lead : Bytes → Bytes → Bytes
lead ds [] = []
lead ds (c ∷ s) = let rest = lead ds s in if is_delim ds c then c ∷ rest else []

-- The array `cmd` after `strtok(cmd, "\r\n")`: a NUL stands behind the first token.
unfoldable pub cut_line : Bytes → Line
unfolding before_nul behind_nul lead
cut_line raw =
    let text = before_nul raw in
    elim (strtok (codes "\r\n") text) [
      | none ↦ record { text = text; behind = behind_nul raw }
      | some (token, none) ↦ record { text = text; behind = behind_nul raw }
      | some (token, some rest) ↦ record { text = lead (codes "\r\n") text ++ token; behind = rest }
    ]

unfoldable pub count_down_own : M (Unit {0})
unfolding count_down_and_check
count_down_own = do
  s ← gets (λ s. s)
  c ← me
  infor ← cross_pipe_of c
  put_client s.id (record c { cp_infor = some (count_down_and_check infor) })

-- A line that is neither empty nor the end of the input; `false` is the return value -1.
unfoldable pub run_line : Os → Line → M Bool
unfolding check_cmd string_split
run_line os line = if str_eq line.text (codes "exit") then pure false else (do
  handled ← check_cmd line
  if handled then pure true else (do string_split os line.text; pure true))

-- `(int)cmd[0] == 4`: control-D.
abbrev pub at_eof : Bytes → Bool
at_eof [] = false
at_eof (b ∷ bs) = b == 4

-- The array has `max_input_len` bytes and is cleared before the read. A line that fills it leaves no
-- NUL, and is taken for a fault.
unfoldable pub run_shell : Os → M Bool
run_shell os = do
  s ← gets (λ s. s)
  c ← me
  let raw = os.read s.trace c.sockfd
  let text = before_nul raw
  if leb max_input_len (length raw)
      then fail out_of_bounds
      else if at_eof raw
      then pure false
      else if str_eq text (codes "\r\n") || str_eq text (codes "\n")
      then pure true
      else (do count_down_own; run_line os (cut_line raw))

abbrev pub prompt : Bytes
prompt = codes "% "

-- A connection that `accept` gave, with its descriptor and address.
unfoldable pub log_in : ℕ → SockAddr → M (Unit {0})
unfolding print_welcome_msg set_env update_client_infor print_login_msg
log_in ssockfd addr = do
  modify (λ s. record s { active_fd_set = s.active_fd_set ++ ssockfd ∷ [] })
  print_welcome_msg (pos ssockfd)
  s ← gets (λ s. s)
  (env', environ') ← lift (set_env s.env s.environ (codes "PATH") (codes "bin:.") s.min_id false)
  modify (λ s. record s { env = env'; environ = environ' })
  update_client_infor ssockfd addr
  modify (λ s. record s { client_num = s.client_num + 1 })
  print_login_msg
  perform (write (pos ssockfd) prompt ∷ [])

-- What `accept` answers is an argument; `none` is an error. With every place taken it is not called.
unfoldable pub accept_client : Option (ℕ × SockAddr) → M (Unit {0})
unfolding log_in
accept_client answer = do
  s ← gets (λ s. s)
  if ltb s.client_num max_client_num
      then elim answer [
        | none ↦ perform (write stderr_fileno (codes "Error: accept error\n") ∷ [])
        | some (ssockfd, addr) ↦ log_in ssockfd addr
      ]
      else pure tt

-- `FD_CLR`
unfoldable pub fd_clr : ℕ → List ℕ → List ℕ
fd_clr fd [] = []
fd_clr fd (f ∷ fs) = if fd == f then fd_clr fd fs else f ∷ fd_clr fd fs

-- The client's number is an index, so it is not negative.
abbrev pub as_id : ℤ → M ℕ
as_id (pos n) = pure n
as_id (negsuc n) = fail out_of_bounds

abbrev pub min : ℕ → ℕ → ℕ
min a b = if ltb a b then a else b

-- What `main` does to its own data when client `id` has gone: the place is the next one only if it
-- comes before `min_id`.
unfoldable pub leave_place : ℕ → ℕ → Server → Server
leave_place fd id s = record s {
  min_id = min id s.min_id;
  fd_id_list = set s.fd_id_list fd minus_one;
  client_num = s.client_num - 1;
}

-- The branch of `main` for a client that leaves.
unfoldable pub log_out : ℕ → ℕ → M (Unit {0})
unfolding delete_client_infor print_logout_msg delete_env_var fd_clr leave_place
log_out fd id = do
  perform (close (pos fd) ∷ [])
  modify (λ s. record s { active_fd_set = fd_clr fd s.active_fd_set })
  name ← delete_client_infor
  print_logout_msg name
  s ← gets (λ s. s)
  env' ← lift (delete_env_var s.env s.env_id)
  modify (λ s. leave_place fd id (record s { env = env' }))

-- `if (client.id != env_id)`
unfoldable pub switch_env : ℕ → M (Unit {0})
unfolding renew_env_var
switch_env id = do
  s ← gets (λ s. s)
  if id == s.env_id then pure tt else (do
    environ' ← lift (renew_env_var s.env s.environ id)
    modify (λ s. record s { env_id = id; environ = environ' }))

-- The body of the inner loop of `main`, for a descriptor that can be read.
unfoldable pub serve : Os → ℕ → M (Unit {0})
unfolding switch_env run_shell cut_line count_down_own run_line log_out
serve os fd = do
  s ← gets (λ s. s)
  number ← require (get_elem? s.fd_id_list fd) out_of_bounds
  id ← as_id number
  modify (λ s. record s { id = id })
  switch_env id
  stays ← run_shell os
  if stays then perform (write (pos fd) prompt ∷ []) else log_out fd id

unfoldable pub serve_all : Os → List ℕ → M (Unit {0})
unfolding serve
serve_all os [] = pure tt
serve_all os (fd ∷ fds) = do serve os fd; serve_all os fds

-- What one `select` found: an answer of `accept` if the listening socket can be read, and the
-- other descriptors that can be read, in order.
pub record Ready : Type 0 where
  pub arrival : Option (Option (ℕ × SockAddr))
  pub readable : List ℕ

unfoldable pub main_round : Os → Ready → M (Unit {0})
unfolding accept_client serve_all
main_round os ready = do
  elim ready.arrival [ none ↦ pure tt | some answer ↦ accept_client answer ]
  serve_all os ready.readable

unfoldable pub main_loop : Os → List Ready → M (Unit {0})
unfolding main_round
main_loop os [] = pure tt
main_loop os (r ∷ rs) = do main_round os r; main_loop os rs

-- The state before the first round, with the environment that the process was started with.
unfoldable pub main_start : ℕ → Environ → Result Server
unfolding initial_client_infor initial_env_var
main_start total_fd_num environ = Prelude.◌>>=◌ initial_env_var λ env. ok (
    initial_client_infor
      (record {
        id = 0;
        list = [];
        env = env;
        environ = environ;
        active_fd_set = [];
        fd_id_list = [];
        client_num = 0;
        min_id = 1;
        env_id = 0;
        trace = [];
      })
      total_fd_num)
