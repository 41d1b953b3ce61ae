-- ===== src/Single/Talk.antt =====
-- What the clients see of one another: the messages at login and logout, `who`, `tell`, `yell`,
-- `name`, and the broadcast under most of these.
pub mod Fits
pub mod Names
use np.Prelude.{
  ℕ, zero, suc, ◌+◌, ◌≡◌, refl, Bool, true, false, not, ◌&&◌, ◌||◌, List, [], ◌∷◌, ◌++◌, Option,
  none, some, ◌==◌, if◌then◌else◌, ltb, get_elem?, set, ℤ, pos, negsuc, Result, ok, fault, or_fault,
  null_pointer, out_of_bounds,
}
use np.Prelude
use np.Libc.{Bytes, codes, strcpy, strcat, strcat_all, str_eq, strstr}
use np.Libc.Tokens.{strtok, strtok_next}
use np.Libc.Decimal.{num_str, cat_num_to_msg, atoi}
use np.Sys.{Call, write}
use np.Texts.{
  welcome_lines, login_text, logout_text, who_head, who_line, named_text, taken_text, Line,
  message_from, tell_error, tell_text, yell_text,
}
use np.Single.Env.{max_client_num}
use np.Sys.{SockAddr}
use np.Single.State.{
  Client, Server, M, ◌>>=◌, ◌>>◌, pure, fail, lift, require, gets, perform, client_at, me,
  put_client,
}
use np.Single.Users.{max_name_len, slots}

unfoldable pub print_welcome_msg : ℤ → M (Unit {0})
print_welcome_msg sockfd = do
  msg ← lift (strcat_all 130 [] welcome_lines)
  perform (write sockfd msg ∷ [])

-- One `write` to each client who is there.
unfoldable pub broadcast_calls : Bytes → List Client → List Call
broadcast_calls msg [] = []
broadcast_calls msg (c ∷ cs) =
    if c.state then write c.sockfd msg ∷ broadcast_calls msg cs else broadcast_calls msg cs

unfoldable pub broadcast : Bytes → M (Unit {0})
unfolding broadcast_calls
broadcast msg = do s ← gets (λ s. s); perform (broadcast_calls msg (slots s.list))

-- The text of `print_login_msg`.
unfoldable pub login_msg : Client → M Bytes
unfolding login_text
login_msg c = lift (login_text c.name c.connection_infor)

unfoldable pub print_login_msg : M (Unit {0})
unfolding login_msg broadcast
print_login_msg = do c ← me; msg ← login_msg c; broadcast msg

unfoldable pub print_logout_msg : Bytes → M (Unit {0})
unfolding logout_text broadcast
print_logout_msg name = do msg ← lift (logout_text name); broadcast msg

-- The lines of `who`, behind the text so far.
unfoldable pub who_loop : ℕ → ℕ → List Client → Bytes → M Bytes
unfolding who_line
who_loop id i [] msg = pure msg
who_loop id i (c ∷ cs) msg = do
  msg' ← if c.state then lift (who_line (id == i) i c.name c.connection_infor msg) else pure msg
  who_loop id (i + 1) cs msg'

unfoldable pub cmd_who : M (Unit {0})
unfolding who_loop
cmd_who = do
  s ← gets (λ s. s)
  head ← lift (strcat 3000 [] who_head)
  msg ← who_loop s.id 1 (slots s.list) head
  c ← me
  perform (write c.sockfd msg ∷ [])

-- Does another client who is there have the name? `id` is the caller; a null name is read by the
-- first comparison.
unfoldable pub name_taken : ℕ → ℕ → List Client → Option Bytes → Result Bool
name_taken id i [] name = ok false
name_taken id i (c ∷ cs) name =
    let later = name_taken id (i + 1) cs name in
    if i == id || not c.state then later else elim name [
      | none ↦ fault null_pointer
      | some n ↦ if str_eq n c.name then ok true else later
    ]

-- The text of `cmd_name` for everybody.
unfoldable pub named_msg : Client → Bytes → M Bytes
unfolding named_text
named_msg c name = lift (named_text c.connection_infor name)

unfoldable pub refuse_name : Client → Bytes → M (Unit {0})
unfolding taken_text
refuse_name c name = do msg ← lift (taken_text name); perform (write c.sockfd msg ∷ [])

unfoldable pub accept_name : ℕ → Client → Bytes → M (Unit {0})
unfolding named_msg broadcast
accept_name id c name = do
  copy ← lift (strcpy max_name_len name)
  put_client id (record c { name = copy })
  msg ← named_msg c name
  broadcast msg

unfoldable pub cmd_name : Option Bytes → M (Unit {0})
unfolding name_taken refuse_name accept_name
cmd_name name = do
  s ← gets (λ s. s)
  taken ← lift (name_taken s.id 1 (slots s.list) name)
  n ← require name null_pointer
  c ← me
  if taken then refuse_name c n else accept_name s.id c n

-- The client `client->list[tell_id]`, where `tell_id` may be any number.
abbrev pub client_number : ℤ → M Client
client_number (pos n) = client_at n
client_number (negsuc n) = fail out_of_bounds

-- The third word and what follows goes to the client `target`.
unfoldable pub deliver : Line → Option Bytes → Client → Client → M (Unit {0})
unfolding message_from tell_text
deliver line rest c target = do
  third ← require (strtok_next (codes " ") rest) null_pointer
  buf ← lift (message_from line third)
  msg ← lift (tell_text c.name buf)
  perform (write target.sockfd msg ∷ [])

unfoldable pub refuse_tell : Client → ℕ → M (Unit {0})
unfolding tell_error
refuse_tell c tell_id = do msg ← lift (tell_error tell_id); perform (write c.sockfd msg ∷ [])

-- A negative number has faulted before it could be printed.
unfoldable pub cmd_tell : Line → M (Unit {0})
unfolding deliver refuse_tell
cmd_tell line = do
  (word1, rest1) ← require (strtok (codes " ") line.text) null_pointer
  (word2, rest2) ← require (strtok_next (codes " ") rest1) null_pointer
  tell_id ← lift (atoi word2)
  target ← client_number tell_id
  c ← me
  if target.state then deliver line rest2 c target else refuse_tell c (Prelude.magnitude tell_id)

unfoldable pub cmd_yell : Line → M (Unit {0})
unfolding message_from yell_text broadcast
cmd_yell line = do
  (word1, rest1) ← require (strtok (codes " ") line.text) null_pointer
  second ← require (strtok_next (codes " ") rest1) null_pointer
  buf ← lift (message_from line second)
  c ← me
  msg ← lift (yell_text c.name buf)
  broadcast msg
