-- ===== src/Multi/UserPipe.antt =====
-- User pipes of np_multi_proc: FIFOs, whose paths go through the mailbox of the client who shall read.
use np.Prelude.{
  ℕ, ◌+◌, Bool, true, false, not, [], ◌∷◌, Option, none, some, if◌then◌else◌, get_elem?, ℤ, pos,
  negsuc, minus_one, is_neg, nonzero, magnitude, ok, out_of_bounds,
}
use np.Libc.{Bytes, codes, strcat}
use np.Libc.Decimal.{cat_num_to_msg}
use np.Sys.{Os, write, opened, mkfifo}
use np.Texts.{pipe_text, pipe_error, user_error, Mode, works, no_pipe, no_user}
use np.Multi.Shared.{fifo, mail, set_mailbox, set_from_id, set_user_pipe, set_fifo_count}
use np.Multi.Prog.{
  user_pipe, Prog, ret, crash, ◌>>=◌, ◌>>◌, lift, require, reads, mine, client_at, write_to, wait,
  post, send, perform,
}
use np.Multi.Talk.{absent, broadcast}

-- `client_list[owner].user_pipe[from]`
unfoldable pub user_pipe_at : ℕ → ℕ → Prog ℤ
unfolding ◌>>=◌
user_pipe_at owner from = do c ← client_at owner; require (get_elem? c.user_pipe from) out_of_bounds

-- A user's number as an index; a negative one is out of bounds.
abbrev pub index : ℤ → Prog ℕ
index (pos n) = ret n
index (negsuc n) = crash out_of_bounds

-- The three-part tests of `print_user_pipe_msg_handler`.
unfoldable pub in_blocked : ℤ → Prog Bool
unfolding ◌>>=◌ absent user_pipe_at
in_blocked u = do
  missing ← absent u
  if missing
      then ret true
      else (do id ← mine (λ o. o.id); fd ← user_pipe_at id (magnitude u); ret (is_neg fd))

unfoldable pub out_blocked : ℤ → Prog Bool
unfolding ◌>>=◌ absent user_pipe_at
out_blocked u = do
  missing ← absent u
  if missing
      then ret true
      else (do id ← mine (λ o. o.id); fd ← user_pipe_at (magnitude u) id; ret (not (is_neg fd)))

unfoldable pub print_user_pipe_msg : Bytes → ℕ → Mode → Bool → Prog (Unit {0})
unfolding ◌>>=◌ pipe_text pipe_error user_error broadcast
print_user_pipe_msg cmd target_id works received = do
  id ← mine (λ o. o.id)
  c ← client_at id
  target ← client_at target_id
  msg ← lift (pipe_text cmd id c.name target_id target.name received)
  broadcast msg
print_user_pipe_msg cmd target_id no_pipe received = do
  o ← mine (λ o. o)
  msg ← lift (pipe_error o.id target_id received)
  perform (write o.sockfd msg ∷ [])
print_user_pipe_msg cmd target_id no_user received = do
  o ← mine (λ o. o)
  msg ← lift (user_error target_id)
  perform (write o.sockfd msg ∷ [])

-- One half of `print_user_pipe_msg_handler`. The test of the client is made twice where the pipe
-- cannot be used.
unfoldable pub pipe_msg_for : Bytes → ℤ → (ℤ → Prog Bool) → Bool → Prog (Unit {0})
unfolding ◌>>=◌ absent print_user_pipe_msg
pipe_msg_for cmd u blocked_by received =
    if nonzero u
    then (do
      blocked ← blocked_by u
      if blocked
          then (do
            missing ← absent u
            print_user_pipe_msg cmd (magnitude u) (if missing then no_user else no_pipe) received)
          else print_user_pipe_msg cmd (magnitude u) works received)
    else ret tt

unfoldable pub print_user_pipe_msg_handler : Bytes → ℤ → ℤ → Prog (Unit {0})
unfolding ◌>>◌ pipe_msg_for in_blocked out_blocked
print_user_pipe_msg_handler cmd user_in_id user_out_id = do
  pipe_msg_for cmd user_in_id in_blocked true
  pipe_msg_for cmd user_out_id out_blocked false

-- The descriptor that `open` gives.
abbrev pub fd_of : Option ℕ → ℤ
fd_of none = minus_one
fd_of (some n) = pos n

-- `open(path, …)` of a FIFO, which returns when the other end is opened.
unfoldable pub open_fifo : Os → Bytes → Prog ℤ
unfolding ◌>>=◌ ◌>>◌
open_fifo os path = do
  tr ← mine (λ o. o.trace)
  perform (elim (os.open_file tr path) [ none ↦ [] | some n ↦ opened path (pos n) ∷ [] ])
  ret (fd_of (os.open_file tr path))

-- A new number for a FIFO: `fifo_infor->count++` and the read behind it.
unfoldable pub next_fifo : Prog ℕ
unfolding ◌>>=◌ ◌>>◌
next_fifo = do
  wait fifo
  n ← reads (λ m. ok m.fifo_count)
  write_to (set_fifo_count (n + 1))
  file_name ← reads (λ m. ok m.fifo_count)
  post fifo
  ret file_name

-- The path goes into the other client's mailbox; the signal goes out with the semaphore still taken.
unfoldable pub hand_over : Os → ℕ → Bytes → Prog ℤ
unfolding ◌>>=◌ ◌>>◌ open_fifo
hand_over os user_out_id path = do
  id ← mine (λ o. o.id)
  wait (mail user_out_id)
  write_to (set_mailbox user_out_id path)
  write_to (set_from_id user_out_id id)
  c ← client_at user_out_id
  if c.state
      then (do c' ← client_at user_out_id; send c'.pid user_pipe; open_fifo os path)
      else (do post (mail user_out_id); ret minus_one)

unfoldable pub create_user_pipe : Os → ℕ → Prog ℤ
unfolding ◌>>=◌ ◌>>◌ next_fifo hand_over
create_user_pipe os user_out_id = do
  file_name ← next_fifo
  dir ← lift (strcat 30 [] (codes "user_pipe/"))
  path ← lift (cat_num_to_msg 30 dir file_name)
  perform (mkfifo path ∷ [])
  hand_over os user_out_id path

-- The handler of `SIGUSR2`.
unfoldable pub user_pipe_handler : Os → Prog (Unit {0})
unfolding ◌>>=◌ ◌>>◌ open_fifo
user_pipe_handler os = do
  o ← mine (λ o. o)
  c ← client_at o.id
  if o.stopped then (do garbage_fd ← open_fifo os c.mailbox; post (mail o.id)) else (do
    fd ← open_fifo os c.mailbox
    write_to (set_user_pipe o.id c.from_id fd)
    post (mail o.id))
