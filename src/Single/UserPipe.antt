-- ===== src/Single/UserPipe.antt =====
-- Pipes between clients: `ls >2` leaves a pipe for client 2, whose `cat <1` reads it. When a pipe
-- can be used, and what is said about it (`print_user_pipe_msg_handler`, `print_user_pipe_msg`).
use np.Prelude.{
  ℕ, Bool, true, false, not, [], ◌∷◌, if◌then◌else◌, ltb, ℤ, pos, negsuc, is_neg, nonzero,
  magnitude, null_pointer, out_of_bounds,
}
use np.Libc.{Bytes}
use np.Sys.{write}
use np.Texts.{pipe_text, pipe_error, user_error, Mode, works, no_pipe, no_user}
use np.Single.Env.{max_client_num}
use np.Single.State.{M, ◌>>=◌, ◌>>◌, pure, fail, lift, require, gets, perform, client_at, me}
use np.Single.Users.{fd_at}
use np.Single.Talk.{broadcast}

-- `u > max_client_num || !client->list[u].state`
unfoldable pub user_missing : ℤ → M Bool
user_missing (negsuc n) = fail out_of_bounds
user_missing (pos n) =
    if ltb max_client_num n then pure true else do c ← client_at n; pure (not c.state)

-- `client->list[owner].user_pipe[from]`
unfoldable pub user_pipe_at : ℕ → ℕ → M ℤ
user_pipe_at owner from = do
  c ← client_at owner
  pipes ← require c.user_pipe null_pointer
  fd_at pipes from

-- The three-part test on `user_in_id`: there is nothing to read from.
unfoldable pub in_blocked : ℤ → M Bool
unfolding user_missing user_pipe_at
in_blocked (negsuc n) = fail out_of_bounds
in_blocked (pos n) = do
  missing ← user_missing (pos n)
  if missing then pure true else do s ← gets (λ s. s); fd ← user_pipe_at s.id n; pure (is_neg fd)

-- The three-part test on `user_out_id`: nothing can be left there.
unfoldable pub out_blocked : ℤ → M Bool
unfolding user_missing user_pipe_at
out_blocked (negsuc n) = fail out_of_bounds
out_blocked (pos n) = do
  missing ← user_missing (pos n)
  if missing
      then pure true
      else do s ← gets (λ s. s); fd ← user_pipe_at n s.id; pure (not (is_neg fd))

-- `mode > 0`: everybody is told.
unfoldable pub tell_pipe : Bytes → ℕ → Bool → M (Unit {0})
unfolding pipe_text broadcast
tell_pipe cmd target_id received = do
  s ← gets (λ s. s)
  c ← me
  target ← client_at target_id
  msg ← lift (pipe_text cmd s.id c.name target_id target.name received)
  broadcast msg

unfoldable pub print_user_pipe_msg : Bytes → ℕ → Mode → Bool → M (Unit {0})
unfolding tell_pipe pipe_error user_error
print_user_pipe_msg cmd target_id works received = tell_pipe cmd target_id received
print_user_pipe_msg cmd target_id no_pipe received = do
  c ← me
  s ← gets (λ s. s)
  msg ← lift (pipe_error s.id target_id received)
  perform (write c.sockfd msg ∷ [])
print_user_pipe_msg cmd target_id no_user received = do
  c ← me
  msg ← lift (user_error target_id)
  perform (write c.sockfd msg ∷ [])

-- One half of `print_user_pipe_msg_handler`, with the test of its direction.
unfoldable pub pipe_msg_for : Bytes → ℤ → (ℤ → M Bool) → Bool → M (Unit {0})
unfolding print_user_pipe_msg user_missing
pipe_msg_for cmd u blocked_by received = if nonzero u then report else pure tt
  where
    report : M (Unit {0})
    report = do
      blocked ← blocked_by u
      missing ← user_missing u
      print_user_pipe_msg cmd (magnitude u)
          (if blocked then (if missing then no_user else no_pipe) else works) received

unfoldable pub print_user_pipe_msg_handler : Bytes → ℤ → ℤ → M (Unit {0})
unfolding pipe_msg_for in_blocked out_blocked
print_user_pipe_msg_handler cmd user_in_id user_out_id = do
  pipe_msg_for cmd user_in_id in_blocked true
  pipe_msg_for cmd user_out_id out_blocked false
