-- ===== src/Single/Command.antt =====
-- `string_split`: a command line is cut at its spaces into commands and the marks behind them, and
-- then run; `env_setting`; and `check_cmd`, which takes the lines that are messages out first.
pub mod Parse
pub mod Shape
pub mod Words
mod Tests
use np.Prelude.{
  ℕ, zero, suc, ◌+◌, Bool, true, false, ◌||◌, ◌&&◌, not, List, [], ◌∷◌, ◌++◌, Option, none, some,
  if◌then◌else◌, ◌==◌, ℤ, nonzero, Result, ok, fault, null_pointer, out_of_bounds, double_free,
  get_elem?,
}
use np.Libc.{Bytes, codes, str_eq, strstr}
use np.Libc.Tokens.{strtok}
use np.CrossPipe.{CrossPipe, null, live, freed}
use np.Sys.{Os, write}
use np.Single.Env.{getenv, set_env}
use np.Single.State.{
  Client, Server, M, ◌>>=◌, ◌>>◌, pure, fail, lift, require, gets, modify, perform, client_at, me,
  put_client, cross_pipe_of,
}
use np.Single.Users.{free_record}
use np.Texts.{Line}
use np.Single.Talk.{cmd_who, cmd_name, cmd_tell, cmd_yell}
use np.Single.Exec.{single_cmd}
use np.Single.Exec.Pipeline.{ordinary_pipe}
use np.Single.Exec.Child.{arg0}
use np.Single.Command.Parse.{Parsed, parse}

-- `printenv`: an unset or empty variable prints nothing.
unfoldable pub print_env : Option Bytes → M (Unit {0})
print_env none = pure tt
print_env (some []) = pure tt
print_env (some (c ∷ s)) = do
  cl ← me
  perform (write cl.sockfd (c ∷ s) ∷ write cl.sockfd (codes "\n") ∷ [])

-- The words behind the command's name; a missing one is a null pointer.
unfoldable pub env_setting : List Bytes → M (Unit {0})
unfolding print_env set_env getenv
env_setting cmd = do
  word ← require (get_elem? cmd 0) null_pointer
  name ← require (get_elem? cmd 1) null_pointer
  s ← gets (λ s. s)
  if str_eq word (codes "setenv")
      then (do
        value ← require (get_elem? cmd 2) null_pointer
        (env', environ') ← lift (set_env s.env s.environ name value s.id true)
        modify (λ s. record s { env = env'; environ = environ' }))
      else print_env (getenv s.environ name)

-- A line without ` | `: a built-in, or one command.
unfoldable pub run_single : Os → Parsed → Bytes → M (Unit {0})
unfolding env_setting single_cmd cmd_who cmd_name
run_single os p reserve = do
  words ← require (get_elem? p.cmds 0) out_of_bounds
  word ← require (arg0 words) null_pointer
  if str_eq word (codes "who")
      then cmd_who
      else if str_eq word (codes "name")
      then cmd_name (get_elem? words 1)
      else if str_eq word (codes "setenv") || str_eq word (codes "printenv")
      then env_setting words
      else single_cmd os p.cmds reserve p.cross_num p.redir p.user_in_id p.user_out_id

-- `if (data_num) free(close_fd_record);` at the end: the pointer stays.
unfoldable pub free_at_end : M (Unit {0})
unfolding free_record
free_at_end = do
  c ← me
  infor ← cross_pipe_of c
  if infor.data_num == 0 then pure tt else (do
    free_record infor
    s ← gets (λ s. s)
    put_client s.id (record c { cp_infor = some (record infor { close_fd_record = freed }) }))

unfoldable pub string_split : Os → Bytes → M (Unit {0})
unfolding parse run_single ordinary_pipe free_at_end
string_split os all_cmd = do
  p ← lift (parse all_cmd)
  if p.mode
      then ordinary_pipe os p.cmds all_cmd (if p.redir then p.cmd_num else p.cmd_num + 1)
          p.cross_num p.redir p.user_in_id p.user_out_id
      else run_single os p all_cmd
  free_at_end

-- Is the line a message, and if so, what sending it does.
unfoldable pub check_cmd : Line → M Bool
unfolding cmd_tell cmd_yell
check_cmd line =
    if strstr line.text (codes "tell") || strstr line.text (codes "yell")
    then (do
      (buf, rest) ← require (strtok (codes " ") line.text) null_pointer
      if str_eq buf (codes "tell")
          then (do cmd_tell line; pure true)
          else if str_eq buf (codes "yell")
          then (do cmd_yell line; pure true)
          else pure false)
    else pure false
