-- ===== src/Multi/Talk.antt =====
-- The messages of np_multi_proc. A message for another client goes into its mailbox, which its semaphore
-- guards; a signal then makes the other process write it out (`msg_handler`).
use np.Prelude.{
  ℕ, zero, suc, ◌+◌, Bool, true, false, not, [], ◌∷◌, Option, ◌==◌, if◌then◌else◌, ltb, ℤ, pos,
  negsuc, magnitude, null_pointer, out_of_bounds,
}
use np.Libc.{Bytes, codes, strcpy, strcat, strcat_all, str_eq}
use np.Libc.Tokens.{strtok, strtok_next}
use np.Libc.Decimal.{atoi}
use np.Sys.{write}
use np.Texts.{
  welcome_lines, login_text, logout_text, who_head, who_line, named_text, taken_text, Line,
  message_from, tell_error, tell_text, yell_text,
}
use np.Single.Env.{max_client_num}
use np.Single.Users.{max_name_len}
use np.Multi.Shared.{mail, set_mailbox, set_name}
use np.Multi.Prog.{
  message, Prog, ret, crash, ◌>>=◌, ◌>>◌, lift, require, mine, client_at, write_to, wait, post,
  send, perform,
}

-- The size of a mailbox.
abbrev pub max_msg_len : ℕ
max_msg_len = 1024

unfoldable pub print_welcome_msg : Prog (Unit {0})
unfolding ◌>>=◌
print_welcome_msg = do
  msg ← lift (strcat_all 130 [] welcome_lines)
  sockfd ← mine (λ o. o.sockfd)
  perform (write sockfd msg ∷ [])

-- `if (client_list[i].state)`: the signal goes out with the semaphore still taken, for the other
-- process to give it back; if the client has left it is given back here.
unfoldable pub notify : ℕ → Prog (Unit {0})
unfolding ◌>>=◌
notify i = do
  c ← client_at i
  if c.state then (do c' ← client_at i; send c'.pid message) else post (mail i)

-- A message for another client, in `broadcast` and `cmd_tell`.
unfoldable pub post_mail : ℕ → Bytes → Prog (Unit {0})
unfolding ◌>>=◌ ◌>>◌ notify
post_mail i msg = do
  wait (mail i)
  copy ← lift (strcpy max_msg_len msg)
  write_to (set_mailbox i copy)
  notify i

-- One round of `broadcast`.
unfoldable pub broadcast_to : Bytes → ℕ → Prog (Unit {0})
unfolding ◌>>=◌ post_mail
broadcast_to msg i = do
  c ← client_at i
  o ← mine (λ o. o)
  if c.state
      then (if i == o.id then perform (write o.sockfd msg ∷ []) else post_mail i msg)
      else ret tt

-- The rounds left, from client `i` on.
unfoldable pub broadcast_loop : Bytes → ℕ → ℕ → Prog (Unit {0})
unfolding ◌>>◌ broadcast_to
broadcast_loop msg zero i = ret tt
broadcast_loop msg (suc rounds) i = do broadcast_to msg i; broadcast_loop msg rounds (i + 1)

unfoldable pub broadcast : Bytes → Prog (Unit {0})
unfolding broadcast_loop
broadcast msg = broadcast_loop msg max_client_num 1

-- The handler of `SIGUSR1`.
unfoldable pub msg_handler : Prog (Unit {0})
unfolding ◌>>=◌ ◌>>◌
msg_handler = do
  o ← mine (λ o. o)
  if o.stopped
      then post (mail o.id)
      else (do c ← client_at o.id; perform (write o.sockfd c.mailbox ∷ []); post (mail o.id))

unfoldable pub print_login_msg : Prog (Unit {0})
unfolding ◌>>=◌ login_text broadcast
print_login_msg = do
  id ← mine (λ o. o.id)
  c ← client_at id
  msg ← lift (login_text c.name c.connection_infor)
  broadcast msg

unfoldable pub print_logout_msg : Bytes → Prog (Unit {0})
unfolding ◌>>=◌ logout_text broadcast
print_logout_msg name = do msg ← lift (logout_text name); broadcast msg

unfoldable pub who_loop : ℕ → ℕ → ℕ → Bytes → Prog Bytes
unfolding ◌>>=◌ who_line
who_loop id zero i msg = ret msg
who_loop id (suc rounds) i msg = do
  c ← client_at i
  msg' ←
      if c.state
      then (do c' ← client_at i; lift (who_line (id == i) i c'.name c'.connection_infor msg))
      else ret msg
  who_loop id rounds (i + 1) msg'

unfoldable pub cmd_who : Prog (Unit {0})
unfolding ◌>>=◌ who_loop
cmd_who = do
  head ← lift (strcat 3000 [] who_head)
  o ← mine (λ o. o)
  msg ← who_loop o.id max_client_num 1 head
  perform (write o.sockfd msg ∷ [])

-- Does another client who is there have the name?
unfoldable pub name_taken : ℕ → ℕ → ℕ → Option Bytes → Prog Bool
unfolding ◌>>=◌
name_taken id zero i name = ret false
name_taken id (suc rounds) i name = do
  let later = name_taken id rounds (i + 1) name
  if i == id then later else (do
    c ← client_at i
    if not c.state then later else (do
      n ← require name null_pointer
      c' ← client_at i
      if str_eq n c'.name then ret true else later))

unfoldable pub refuse_name : Bytes → Prog (Unit {0})
unfolding ◌>>=◌ taken_text
refuse_name name = do
  msg ← lift (taken_text name)
  sockfd ← mine (λ o. o.sockfd)
  perform (write sockfd msg ∷ [])

unfoldable pub accept_name : Bytes → Prog (Unit {0})
unfolding ◌>>=◌ ◌>>◌ named_text broadcast
accept_name name = do
  id ← mine (λ o. o.id)
  copy ← lift (strcpy max_name_len name)
  write_to (set_name id copy)
  c ← client_at id
  msg ← lift (named_text c.connection_infor name)
  broadcast msg

unfoldable pub cmd_name : Option Bytes → Prog (Unit {0})
unfolding ◌>>=◌ name_taken refuse_name accept_name
cmd_name name = do
  id ← mine (λ o. o.id)
  taken ← name_taken id max_client_num 1 name
  n ← require name null_pointer
  if taken then refuse_name n else accept_name n

-- `tell_id > max_client_num || !client_list[tell_id].state`
unfoldable pub absent : ℤ → Prog Bool
unfolding ◌>>=◌
absent (negsuc n) = crash out_of_bounds
absent (pos n) = if ltb max_client_num n then ret true else (do c ← client_at n; ret (not c.state))

unfoldable pub refuse_tell : ℕ → Prog (Unit {0})
unfolding ◌>>=◌ tell_error
refuse_tell tell_id = do
  msg ← lift (tell_error tell_id)
  sockfd ← mine (λ o. o.sockfd)
  perform (write sockfd msg ∷ [])

unfoldable pub deliver : Line → Option Bytes → ℕ → Prog (Unit {0})
unfolding ◌>>=◌ message_from tell_text post_mail
deliver line rest tell_id = do
  third ← require (strtok_next (codes " ") rest) null_pointer
  buf ← lift (message_from line third)
  id ← mine (λ o. o.id)
  c ← client_at id
  msg ← lift (tell_text c.name buf)
  post_mail tell_id msg

-- A negative number has faulted before it could be printed.
unfoldable pub cmd_tell : Line → Prog (Unit {0})
unfolding ◌>>=◌ absent refuse_tell deliver
cmd_tell line = do
  (word1, rest1) ← require (strtok (codes " ") line.text) null_pointer
  (word2, rest2) ← require (strtok_next (codes " ") rest1) null_pointer
  tell_id ← lift (atoi word2)
  missing ← absent tell_id
  if missing then refuse_tell (magnitude tell_id) else deliver line rest2 (magnitude tell_id)

unfoldable pub cmd_yell : Line → Prog (Unit {0})
unfolding ◌>>=◌ message_from yell_text broadcast
cmd_yell line = do
  (word1, rest1) ← require (strtok (codes " ") line.text) null_pointer
  second ← require (strtok_next (codes " ") rest1) null_pointer
  buf ← lift (message_from line second)
  id ← mine (λ o. o.id)
  c ← client_at id
  msg ← lift (yell_text c.name buf)
  broadcast msg
