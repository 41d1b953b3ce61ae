-- ===== src/Multi/Locks/Handlers.antt =====
-- The discipline in the handlers of the two signals, and in the process that accepts the clients.
use np.Prelude.{ℤ, ℕ, refl, sym, ap, false, List, [], ◌∷◌, Option, none, some}
use np.Libc.{Bytes}
use np.Sys.{Os, SockAddr, Call}
use np.Multi.Shared.{Store, login, mail}
use np.Multi.Prog.{Own, Prog, mine, perform, emit, modify, write_to, ◌>>=◌, ◌>>◌}
use np.Multi.Talk.{msg_handler}
use np.Multi.UserPipe.{open_fifo, user_pipe_handler}
use np.Multi.Session.{accept_client, main_loop}
use np.Multi.Locks.{
  always, Held, held, World, Needs, stores, any, InWorld, Keeps, returns, looks, owns, spins,
  spawns, Keeps-if, entry_then, Keeps-perform, Keeps-wait, Keeps-post, calm_then,
}

-- The lock of its own mailbox alone.
abbrev pub own_mail : ℕ → Held
own_mail id = record (held false) { mail = some id }

module _ {Mine : ℕ → ℕ → Type 0} where
  -- What comes behind a look at the process's own data, a call of the system, or the opening of a FIFO.
  mine_then :
      {B : Type 0} {w : World} {h' h : Held} {f : Own → Prog B}
      → ((o : Own) → InWorld w o → Keeps Mine w h' h (f o))
      → Keeps Mine w h' h (mine (λ o. o) >>= f)
  unfolding mine ◌>>=◌
  mine_then k = looks (λ m o q v. k o q)

  perform_then :
      {B : Type 0} {id : ℕ} {h' h : Held} {q : Prog B} (cs : List Call)
      → Keeps Mine (always id) h' h q
      → Keeps Mine (always id) h' h (perform cs >> q)
  unfolding perform emit modify ◌>>◌ ◌>>=◌
  perform_then cs k = owns (λ o e. e) k

  open_fifo_then :
      {B : Type 0} {id : ℕ} {h' h : Held} {f : ℤ → Prog B} (os : Os) (path : Bytes)
      → ((fd : ℤ) → Keeps Mine (always id) h' h (f fd))
      → Keeps Mine (always id) h' h (open_fifo os path >>= f)
  unfolding open_fifo mine perform emit modify ◌>>◌ ◌>>=◌
  open_fifo_then os path k = looks (λ m o q v. owns (λ o e. e) (k _))

  write_then :
      {B : Type 0} {w : World} {h' h : Held} {q : Prog B} (s : Store)
      → Needs Mine h s
      → Keeps Mine w h' h q
      → Keeps Mine w h' h (write_to s >> q)
  unfolding write_to ◌>>◌ ◌>>=◌
  write_then s n k = stores n k

  -- The handler of `SIGUSR1`, run in the process of client `id` for a signal that brings the mailbox of
  -- `id` along, keeps the discipline, and holds nothing where it returns.
  pub msg_handler-Keeps : (id : ℕ) → Keeps Mine (always id) (held false) (own_mail id) msg_handler
  unfolding msg_handler
  msg_handler-Keeps id = mine_then (λ o q.
      Keeps-if o.stopped (Keeps-post (mail o.id) (ap some (sym q)))
        (entry_then o.id (λ c b. perform_then _ (Keeps-post (mail o.id) (ap some (sym q))))))

  -- The handler of `SIGUSR2` does the same.
  pub user_pipe_handler-Keeps :
      (os : Os) (id : ℕ) → Keeps Mine (always id) (held false) (own_mail id) (user_pipe_handler os)
  unfolding user_pipe_handler
  user_pipe_handler-Keeps os id = mine_then (λ o q. entry_then o.id (λ c b.
      Keeps-if o.stopped
        (open_fifo_then os c.mailbox (λ fd. Keeps-post (mail o.id) (ap some (sym q))))
        (open_fifo_then os c.mailbox
          (λ fd. write_then _ tt (Keeps-post (mail o.id) (ap some (sym q)))))))

  accept_client-Keeps :
      (a : Option (ℕ × SockAddr)) → Keeps Mine any (held false) (held false) (accept_client a)
  unfolding accept_client
  accept_client-Keeps none = Keeps-perform _
  accept_client-Keeps (some (sockfd, addr)) =
      calm_then (spawns returns)
        (calm_then (Keeps-perform _) (calm_then (Keeps-wait login refl) (spins refl returns)))

  -- The process that accepts the clients waits only for the semaphore of a login, and holds none.
  pub main_loop-Keeps :
      (answers : List (Option (ℕ × SockAddr)))
      → Keeps Mine any (held false) (held false) (main_loop answers)
  unfolding main_loop
  main_loop-Keeps [] = returns
  main_loop-Keeps (a ∷ answers) = calm_then (accept_client-Keeps a) (main_loop-Keeps answers)
