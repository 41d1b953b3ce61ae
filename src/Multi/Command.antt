-- ===== src/Multi/Command.antt =====
-- Command lines in np_multi_proc: `check_cmd`, `string_split`, `env_setting`. The analysis of a line is the
-- one of np_single_proc, which has the same code.
use np.Prelude.{
  ◌+◌, Bool, true, false, ◌||◌, List, [], ◌∷◌, Option, none, some, if◌then◌else◌, ◌==◌, get_elem?,
  null_pointer, out_of_bounds, double_free,
}
use np.Libc.{Bytes, codes, str_eq, strstr}
use np.Libc.Tokens.{strtok}
use np.CrossPipe.{Block, null, live, freed}
use np.Sys.{Os, write}
use np.Texts.{Line}
use np.Single.Env.{getenv, setenv}
use np.Single.Exec.Child.{arg0}
use np.Single.Command.Parse.{Parsed, parse}
use np.Multi.Prog.{Prog, ret, crash, ◌>>=◌, ◌>>◌, lift, require, mine, modify, perform}
use np.Multi.Talk.{cmd_who, cmd_name, cmd_tell, cmd_yell}
use np.Multi.Exec.{single_cmd}
use np.Multi.Exec.Pipeline.{ordinary_pipe}

-- `printenv`: an unset variable prints nothing, an empty one an empty line.
unfoldable pub print_env : Option Bytes → Prog (Unit {0})
unfolding ◌>>=◌
print_env none = ret tt
print_env (some output) = do
  sockfd ← mine (λ o. o.sockfd)
  perform (write sockfd output ∷ write sockfd (codes "\n") ∷ [])

-- The words behind the command's name; a missing one is a null pointer.
unfoldable pub env_setting : List Bytes → Prog (Unit {0})
unfolding ◌>>=◌ print_env setenv getenv
env_setting cmd = do
  word ← require (get_elem? cmd 0) null_pointer
  name ← require (get_elem? cmd 1) null_pointer
  if str_eq word (codes "setenv")
      then (do
        value ← require (get_elem? cmd 2) null_pointer
        modify (λ o. record o { environ = setenv o.environ name value true }))
      else (do environ ← mine (λ o. o.environ); print_env (getenv environ name))

-- A line without ` | `: a built-in, or one command.
unfoldable pub run_single : Os → Parsed → Bytes → Prog (Unit {0})
unfolding ◌>>=◌ env_setting single_cmd cmd_who cmd_name
run_single os p reserve = do
  words ← require (get_elem? p.cmds 0) out_of_bounds
  word ← require (arg0 words) null_pointer
  if str_eq word (codes "setenv") || str_eq word (codes "printenv")
      then env_setting words
      else if str_eq word (codes "who")
      then cmd_who
      else if str_eq word (codes "name")
      then cmd_name (get_elem? words 1)
      else single_cmd os p.cmds reserve p.cross_num p.redir p.user_in_id p.user_out_id

-- `free` of the record block; the pointer stays.
unfoldable pub free_block : Block → Prog (Unit {0})
free_block null = ret tt
free_block (live l) = modify (λ o. record o { infor = record o.infor { close_fd_record = freed } })
free_block freed = crash double_free

unfoldable pub free_record : Prog (Unit {0})
unfolding ◌>>=◌ free_block
free_record = do infor ← mine (λ o. o.infor); free_block infor.close_fd_record

unfoldable pub free_at_end : Prog (Unit {0})
unfolding ◌>>=◌ free_record
free_at_end = do infor ← mine (λ o. o.infor); if infor.data_num == 0 then ret tt else free_record

unfoldable pub string_split : Os → Bytes → Prog (Unit {0})
unfolding ◌>>=◌ ◌>>◌ parse run_single ordinary_pipe free_at_end
string_split os all_cmd = do
  p ← lift (parse all_cmd)
  if p.mode
      then ordinary_pipe os p.cmds all_cmd (if p.redir then p.cmd_num else p.cmd_num + 1)
          p.cross_num p.redir p.user_in_id p.user_out_id
      else run_single os p all_cmd
  free_at_end

-- Is the line a message, and if so, what sending it does.
unfoldable pub check_cmd : Line → Prog Bool
unfolding ◌>>=◌ ◌>>◌ cmd_tell cmd_yell
check_cmd line =
    if strstr line.text (codes "tell") || strstr line.text (codes "yell")
    then (do
      (buf, rest) ← require (strtok (codes " ") line.text) null_pointer
      if str_eq buf (codes "tell")
          then (do cmd_tell line; ret true)
          else if str_eq buf (codes "yell")
          then (do cmd_yell line; ret true)
          else ret false)
    else ret false
