-- ===== src/Texts.antt =====
-- The texts of the messages, which np_single_proc.c and np_multi_proc.c build in the same way, each in
-- a `char` array of its own size.
use np.Prelude.{
  ℕ, ◌+◌, Bool, true, false, List, [], ◌∷◌, ◌++◌, Option, none, some, if◌then◌else◌, Result, ok,
  or_fault, ◌>>=◌, null_pointer,
}
use np.Libc.{Bytes, codes, strcat, strcat_all}
use np.Libc.Tokens.{strtok}
use np.Libc.Decimal.{cat_num_to_msg}
use np.Sys.{SockAddr}

-- `max_msg_len*2`
abbrev pub msg_size : ℕ
msg_size = 2048

-- `max_input_len`
abbrev pub max_input_len : ℕ
max_input_len = 15000

-- `inet_ntoa`: the four bytes in decimal.
unfoldable pub inet_ntoa : SockAddr → Result Bytes
inet_ntoa addr = do
  s1 ← cat_num_to_msg 16 [] addr.a
  s2 ← strcat 16 s1 (codes ".")
  s3 ← cat_num_to_msg 16 s2 addr.b
  s4 ← strcat 16 s3 (codes ".")
  s5 ← cat_num_to_msg 16 s4 addr.c
  s6 ← strcat 16 s5 (codes ".")
  cat_num_to_msg 16 s6 addr.d

-- The texts that `print_welcome_msg` joins in an array of 130 bytes.
abbrev pub welcome_lines : List Bytes
welcome_lines =
    codes "****************************************\n"
    ∷ codes "** Welcome to the information server. **\n"
    ∷ codes "****************************************\n"
    ∷ []

-- The text of `print_login_msg`, in an array of 100 bytes.
unfoldable pub login_text : Bytes → SockAddr → Result Bytes
unfolding inet_ntoa
login_text name addr = do
  ip ← inet_ntoa addr
  msg ←
      strcat_all 100 [] (codes "*** User '" ∷ name ∷ codes "' entered from " ∷ ip ∷ codes ":" ∷ [])
  msg' ← cat_num_to_msg 100 msg addr.port
  strcat 100 msg' (codes ". ***\n")

-- The text of `print_logout_msg`, in an array of 50 bytes.
unfoldable pub logout_text : Bytes → Result Bytes
logout_text name = strcat_all 50 [] (codes "*** User '" ∷ name ∷ codes "' left. ***\n" ∷ [])

abbrev pub tab : Bytes
tab = codes "    "

-- `if (client->id == i)`: the caller's line ends in a mark.
unfoldable pub me_mark : Bool → Bytes → Result Bytes
me_mark true msg = strcat_all 3000 msg (tab ∷ codes "<-me" ∷ [])
me_mark false msg = ok msg

abbrev pub who_head : Bytes
who_head = codes "<ID>    <nickname>    <IP:port>    <indicate me>\n"

-- One line of `who`, behind the text so far, in its array of 3000 bytes.
unfoldable pub who_line : Bool → ℕ → Bytes → SockAddr → Bytes → Result Bytes
unfolding inet_ntoa me_mark
who_line is_me i name addr msg = do
  msg1 ← cat_num_to_msg 3000 msg i
  ip ← inet_ntoa addr
  msg2 ← strcat_all 3000 msg1 (tab ∷ name ∷ tab ∷ ip ∷ codes ":" ∷ [])
  msg3 ← cat_num_to_msg 3000 msg2 addr.port
  msg4 ← me_mark is_me msg3
  strcat 3000 msg4 (codes "\n")

-- The text of `cmd_name` for everybody, in an array of 100 bytes.
unfoldable pub named_text : SockAddr → Bytes → Result Bytes
unfolding inet_ntoa
named_text addr name = do
  ip ← inet_ntoa addr
  msg ← strcat_all 100 [] (codes "*** User from " ∷ ip ∷ codes ":" ∷ [])
  msg' ← cat_num_to_msg 100 msg addr.port
  strcat_all 100 msg' (codes " is named '" ∷ name ∷ codes "'. ***\n" ∷ [])

-- The error message of `cmd_name`, in an array of 60 bytes.
unfoldable pub taken_text : Bytes → Result Bytes
taken_text name =
    strcat_all 60 [] (codes "*** User '" ∷ name ∷ codes "' already exists. ***\n" ∷ [])

-- A command line as it lies in its array: the text, and the bytes behind its NUL up to the next.
pub record Line : Type 0 where
  pub text : Bytes
  pub behind : Bytes

-- `*(buf+strlen(buf)) = ' '; buf = strtok(buf, "\r\n");` after the word `word`: the text goes on
-- behind the word, or behind the NUL if the word was the last.
unfoldable pub message_from : Line → Bytes × Option Bytes → Result Bytes
message_from line (word, none) = do
  (buf, rest) ← or_fault (strtok (codes "\r\n") (word ++ codes " " ++ line.behind)) null_pointer
  ok buf
message_from line (word, some rest) = do
  (buf, later) ← or_fault (strtok (codes "\r\n") (word ++ codes " " ++ rest)) null_pointer
  ok buf

-- The error message of `cmd_tell`, in an array of 50 bytes.
unfoldable pub tell_error : ℕ → Result Bytes
tell_error tell_id = do
  m1 ← strcat 50 [] (codes "*** Error: user #")
  m2 ← cat_num_to_msg 50 m1 tell_id
  strcat 50 m2 (codes " does not exist yet. ***\n")

unfoldable pub tell_text : Bytes → Bytes → Result Bytes
tell_text name buf =
    strcat_all msg_size [] (codes "*** " ∷ name ∷ codes " told you ***: " ∷ buf ∷ codes "\n" ∷ [])

unfoldable pub yell_text : Bytes → Bytes → Result Bytes
yell_text name buf =
    strcat_all msg_size [] (codes "*** " ∷ name ∷ codes " yelled ***: " ∷ buf ∷ codes "\n" ∷ [])

-- The array `msg` of `print_user_pipe_msg`.
abbrev pub pipe_msg_len : ℕ
pipe_msg_len = max_input_len + 100

-- `mode > 0`, of client `id` with `name`, to everybody. `received` is `!in_out`.
unfoldable pub pipe_text : Bytes → ℕ → Bytes → ℕ → Bytes → Bool → Result Bytes
pipe_text cmd id name target_id target_name received = do
  msg1 ← strcat_all pipe_msg_len [] (codes "*** " ∷ name ∷ codes " (#" ∷ [])
  msg2 ← cat_num_to_msg pipe_msg_len msg1 id
  msg3 ← strcat_all pipe_msg_len msg2 (
      if received
      then codes ") just received from " ∷ []
      else codes ") just piped '" ∷ cmd ∷ codes "' to " ∷ [])
  msg4 ← strcat_all pipe_msg_len msg3 (target_name ∷ codes " (#" ∷ [])
  msg5 ← cat_num_to_msg pipe_msg_len msg4 target_id
  strcat_all pipe_msg_len msg5
      (if received then codes ") by '" ∷ cmd ∷ codes "' ***\n" ∷ [] else codes ") ***\n" ∷ [])

-- `mode == 0`: the caller is told that the pipe is not there, or is there already.
unfoldable pub pipe_error : ℕ → ℕ → Bool → Result Bytes
pipe_error id target_id received = do
  msg1 ← strcat_all pipe_msg_len [] (codes "*** " ∷ codes "Error: the pipe #" ∷ [])
  msg2 ← cat_num_to_msg pipe_msg_len msg1 (if received then target_id else id)
  msg3 ← strcat pipe_msg_len msg2 (codes "->#")
  msg4 ← cat_num_to_msg pipe_msg_len msg3 (if received then id else target_id)
  strcat pipe_msg_len msg4
      (if received then codes " does not exist yet. ***\n" else codes " already exists. ***\n")

-- `mode < 0`: the caller is told that the other client is not there.
unfoldable pub user_error : ℕ → Result Bytes
user_error target_id = do
  msg1 ← strcat_all pipe_msg_len [] (codes "*** " ∷ codes "Error: user #" ∷ [])
  msg2 ← cat_num_to_msg pipe_msg_len msg1 target_id
  strcat pipe_msg_len msg2 (codes " does not exist yet. ***\n")

-- The modes of `print_user_pipe_msg`: 1, 0 and -1.
pub data Mode : Type 0 where
  works no_pipe no_user : Mode
