-- ===== src/Multi/Locks/Talk.antt =====
-- The discipline in the messages: `post_mail`, `broadcast` and what is built on them, and `msg_handler`.
use np.Prelude.{ℕ, zero, suc, ◌+◌, refl, Bool, Option, some, ℤ, pos, negsuc}
use np.Libc.{Bytes}
use np.Texts.{Line}
use np.Single.Env.{max_client_num}
use np.Multi.Shared.{mail}
use np.Multi.Talk.{
  print_welcome_msg, notify, post_mail, broadcast_to, broadcast_loop, broadcast, print_login_msg,
  print_logout_msg, who_loop, cmd_who, name_taken, refuse_name, accept_name, cmd_name, absent,
  refuse_tell, deliver, cmd_tell, cmd_yell,
}
use np.Multi.Locks.{
  Held, held, Keeps, calm, any, Keeps->>, Keeps-lift, Keeps-if, Keeps-client_at, Keeps-wait,
  Keeps-post, Keeps-send, Keeps-write_to, calm_bind, calm_then, entry_then,
}

module _ {Mine : ℕ → ℕ → Type 0} where
  pub print_welcome_msg-Keeps : {h : Held} → Keeps Mine any h h print_welcome_msg
  unfolding print_welcome_msg
  print_welcome_msg-Keeps = search calm

  -- The mailbox is given on, with the signal or back.
  notify-Keeps :
      (t : Bool) (i : ℕ) → Keeps Mine any (held t) (record (held t) { mail = some i }) (notify i)
  unfolding notify
  notify-Keeps t i = calm_bind (Keeps-client_at i) (λ c.
      Keeps-if c.state (entry_then i (λ c' b. Keeps-send {i = i} c'.pid _ refl b))
        (Keeps-post (mail i) refl))

  pub post_mail-Keeps :
      (t : Bool) (i : ℕ) (msg : Bytes) → Keeps Mine any (held t) (held t) (post_mail i msg)
  unfolding post_mail
  post_mail-Keeps t i msg =
      Keeps->> (Keeps-wait (mail i) (refl, refl))
        (calm_bind (Keeps-lift _) (λ copy. calm_then (Keeps-write_to _ refl) (notify-Keeps t i)))

  broadcast_to-Keeps :
      (t : Bool) (msg : Bytes) (i : ℕ) → Keeps Mine any (held t) (held t) (broadcast_to msg i)
  unfolding broadcast_to
  broadcast_to-Keeps t msg i = search (calm, post_mail-Keeps)

  broadcast_loop-Keeps :
      (t : Bool) (msg : Bytes) (rounds i : ℕ)
      → Keeps Mine any (held t) (held t) (broadcast_loop msg rounds i)
  unfolding broadcast_loop
  broadcast_loop-Keeps t msg zero i = search calm
  broadcast_loop-Keeps t msg (suc rounds) i =
      calm_then (broadcast_to-Keeps t msg i) (broadcast_loop-Keeps t msg rounds (i + 1))

  pub broadcast-Keeps : (t : Bool) (msg : Bytes) → Keeps Mine any (held t) (held t) (broadcast msg)
  unfolding broadcast
  broadcast-Keeps t msg = broadcast_loop-Keeps t msg max_client_num 1

  pub print_login_msg-Keeps : (t : Bool) → Keeps Mine any (held t) (held t) print_login_msg
  unfolding print_login_msg
  print_login_msg-Keeps t = search (calm, broadcast-Keeps)

  pub print_logout_msg-Keeps :
      (t : Bool) (name : Bytes) → Keeps Mine any (held t) (held t) (print_logout_msg name)
  unfolding print_logout_msg
  print_logout_msg-Keeps t name = search (calm, broadcast-Keeps)

  who_loop-Keeps :
      {h : Held} (id rounds i : ℕ) (msg : Bytes) → Keeps Mine any h h (who_loop id rounds i msg)
  unfolding who_loop
  who_loop-Keeps id zero i msg = search calm
  who_loop-Keeps id (suc rounds) i msg =
      calm_bind (Keeps-client_at i)
        (λ c. calm_bind (search calm) (λ msg'. who_loop-Keeps id rounds (i + 1) msg'))

  pub cmd_who-Keeps : {h : Held} → Keeps Mine any h h cmd_who
  unfolding cmd_who
  cmd_who-Keeps = search (calm, who_loop-Keeps)

  name_taken-Keeps :
      {h : Held} (id rounds i : ℕ) (name : Option Bytes)
      → Keeps Mine any h h (name_taken id rounds i name)
  unfolding name_taken
  name_taken-Keeps id zero i name = search calm
  name_taken-Keeps {h = h} id (suc rounds) i name =
      search (calm, name_taken-Keeps {h = h} id rounds (i + 1) name) depth 9

  accept_name-Keeps :
      (t : Bool) (name : Bytes) → Keeps Mine any (held t) (held t) (accept_name name)
  unfolding accept_name
  accept_name-Keeps t name = search (calm, broadcast-Keeps) depth 9

  pub cmd_name-Keeps :
      (t : Bool) (name : Option Bytes) → Keeps Mine any (held t) (held t) (cmd_name name)
  unfolding cmd_name refuse_name
  cmd_name-Keeps t name = search (calm, name_taken-Keeps, accept_name-Keeps) depth 9

  pub absent-Keeps : {h : Held} (u : ℤ) → Keeps Mine any h h (absent u)
  unfolding absent
  absent-Keeps (negsuc n) = search calm
  absent-Keeps (pos n) = search calm

  deliver-Keeps :
      (t : Bool) (line : Line) (rest : Option Bytes) (tell_id : ℕ)
      → Keeps Mine any (held t) (held t) (deliver line rest tell_id)
  unfolding deliver
  deliver-Keeps t line rest tell_id = search (calm, post_mail-Keeps) depth 9

  pub cmd_tell-Keeps : (t : Bool) (line : Line) → Keeps Mine any (held t) (held t) (cmd_tell line)
  unfolding cmd_tell refuse_tell
  cmd_tell-Keeps t line = search (calm, absent-Keeps, deliver-Keeps) depth 9

  pub cmd_yell-Keeps : (t : Bool) (line : Line) → Keeps Mine any (held t) (held t) (cmd_yell line)
  unfolding cmd_yell
  cmd_yell-Keeps t line = search (calm, broadcast-Keeps) depth 9
