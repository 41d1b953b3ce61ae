-- ===== src/Multi/Locks/UserPipe.antt =====
-- The discipline in the user pipes: the number of a FIFO, and the mailbox that carries its path.
use np.Prelude.{ℕ, refl, Bool, true, false, ℤ, pos, negsuc}
use np.Libc.{Bytes}
use np.Sys.{Os}
use np.Texts.{Mode, works, no_pipe, no_user}
use np.Multi.Shared.{fifo, mail}
use np.Multi.Prog.{Prog}
use np.Multi.UserPipe.{
  user_pipe_at, index, in_blocked, out_blocked, print_user_pipe_msg, pipe_msg_for,
  print_user_pipe_msg_handler, open_fifo, next_fifo, hand_over, create_user_pipe,
}
use np.Multi.Locks.{
  Held, held, Keeps, calm, returns, crashes, any, Keeps->>, Keeps-if, Keeps-mine, Keeps-reads,
  Keeps-client_at, Keeps-wait, Keeps-post, Keeps-send, Keeps-write_to, calm_bind, calm_then,
  entry_then,
}
use np.Multi.Locks.Talk.{absent-Keeps, broadcast-Keeps}

module _ {Mine : ℕ → ℕ → Type 0} where
  pub user_pipe_at-Keeps :
      {h : Held} (owner from : ℕ) → Keeps Mine any h h (user_pipe_at owner from)
  unfolding user_pipe_at
  user_pipe_at-Keeps owner from = search calm

  pub index-Keeps : {h : Held} (u : ℤ) → Keeps Mine any h h (index u)
  index-Keeps (pos n) = returns
  index-Keeps (negsuc n) = crashes

  in_blocked-Keeps : {h : Held} (u : ℤ) → Keeps Mine any h h (in_blocked u)
  unfolding in_blocked
  in_blocked-Keeps u = search (calm, absent-Keeps, user_pipe_at-Keeps) depth 9

  pub out_blocked-Keeps : {h : Held} (u : ℤ) → Keeps Mine any h h (out_blocked u)
  unfolding out_blocked
  out_blocked-Keeps u = search (calm, absent-Keeps, user_pipe_at-Keeps) depth 9

  print_user_pipe_msg-Keeps :
      (t : Bool) (cmd : Bytes) (target_id : ℕ) (mode : Mode) (received : Bool)
      → Keeps Mine any (held t) (held t) (print_user_pipe_msg cmd target_id mode received)
  unfolding print_user_pipe_msg
  print_user_pipe_msg-Keeps t cmd target_id works received = search (calm, broadcast-Keeps) depth 9
  print_user_pipe_msg-Keeps t cmd target_id no_pipe received = search calm
  print_user_pipe_msg-Keeps t cmd target_id no_user received = search calm

  pipe_msg_for-Keeps :
      (t : Bool) (cmd : Bytes) (u : ℤ) (blocked_by : ℤ → Prog Bool) (received : Bool)
      → ((v : ℤ) → Keeps Mine any (held t) (held t) (blocked_by v))
      → Keeps Mine any (held t) (held t) (pipe_msg_for cmd u blocked_by received)
  unfolding pipe_msg_for
  pipe_msg_for-Keeps t cmd u blocked_by received b =
      search (calm, b, absent-Keeps, print_user_pipe_msg-Keeps) depth 9

  pub print_user_pipe_msg_handler-Keeps :
      (t : Bool) (cmd : Bytes) (user_in_id user_out_id : ℤ)
      → Keeps Mine any (held t) (held t) (print_user_pipe_msg_handler cmd user_in_id user_out_id)
  unfolding print_user_pipe_msg_handler
  print_user_pipe_msg_handler-Keeps t cmd user_in_id user_out_id =
      calm_then (pipe_msg_for-Keeps t cmd user_in_id in_blocked true in_blocked-Keeps)
        (pipe_msg_for-Keeps t cmd user_out_id out_blocked false out_blocked-Keeps)

  open_fifo-Keeps : {h : Held} (os : Os) (path : Bytes) → Keeps Mine any h h (open_fifo os path)
  unfolding open_fifo
  open_fifo-Keeps os path = search calm

  -- The counter is read and written with its semaphore held.
  next_fifo-Keeps : (t : Bool) → Keeps Mine any (held t) (held t) next_fifo
  unfolding next_fifo
  next_fifo-Keeps t = Keeps->> (Keeps-wait fifo (refl, refl)) (
      calm_bind (Keeps-reads _) (λ n.
        calm_then (Keeps-write_to _ refl)
          (calm_bind (Keeps-reads _) (λ file_name. Keeps->> (Keeps-post fifo refl) returns))))

  hand_over-Keeps :
      (t : Bool) (os : Os) (user_out_id : ℕ) (path : Bytes)
      → Keeps Mine any (held t) (held t) (hand_over os user_out_id path)
  unfolding hand_over
  hand_over-Keeps t os i path = calm_bind (Keeps-mine _) (λ id.
      Keeps->> (Keeps-wait (mail i) (refl, refl)) (
        calm_then (Keeps-write_to _ refl) (
          calm_then (Keeps-write_to _ refl) (
            calm_bind (Keeps-client_at i) (λ c.
              Keeps-if c.state
                (entry_then i
                  (λ c' b. Keeps->> (Keeps-send {i = i} c'.pid _ refl b) (open_fifo-Keeps os path)))
                (Keeps->> (Keeps-post (mail i) refl) returns))))))

  pub create_user_pipe-Keeps :
      (t : Bool) (os : Os) (user_out_id : ℕ)
      → Keeps Mine any (held t) (held t) (create_user_pipe os user_out_id)
  unfolding create_user_pipe
  create_user_pipe-Keeps t os user_out_id = search (calm, next_fifo-Keeps, hand_over-Keeps) depth 9
