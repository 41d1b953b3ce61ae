-- ===== src/Multi/Among/Handlers.antt =====
-- The handlers of the two signals, among processes that write as they like.
use np.Prelude.{
  ℕ, suc, ◌≡◌, refl, ap, ◌∙◌, out_of_bounds, Bool, true, false, List, [], ◌∷◌, ◌++◌, Option, none,
  some, pos, ok, get_elem?, if◌then◌else◌,
}
use np.Libc.{Bytes}
use np.Sys.{Os, Call, write, opened}
use np.Single.State.{as_events}
use np.Multi.Shared.{Client, Shared, mail, set_user_pipe}
use np.Multi.Prog.{
  Own, Prog, ◌>>=◌, ◌>>◌, mine, client_at, require, write_to, post, perform, emit, modify,
}
use np.Multi.Talk.{msg_handler}
use np.Multi.UserPipe.{fd_of, open_fifo, user_pipe_handler}
use np.Multi.Among.{writes, posts, among}

-- A look at an entry, with what comes behind.
client_at-among :
    {B : Type 0} (seen : ℕ → Shared) (o : Own) (i : ℕ) (c : Client) (f : Client → Prog B)
    → get_elem? (seen 0).client_list i ≡ some c
    → among seen o (client_at i >>= f) ≡ among (λ n. seen (suc n)) o (f c)
unfolding among client_at require ◌>>=◌
client_at-among seen o i c f e =
    ap (λ x. among (λ n. seen (suc n)) o (require x out_of_bounds >>= f)) e

-- The process has made these calls.
abbrev pub calling : List Call → Own → Own
calling cs o = record o { trace = o.trace ++ as_events cs }

-- The handler of `SIGUSR1`, in a process whose entry is `c` when the handler reads it, whatever the shared
-- memory is otherwise and at any other moment: the only thing it does to what the processes share is to
-- give the mailbox of its client back, once. If the client has stopped it makes no call, and otherwise
-- it writes the mailbox to the client's socket.
pub msg_handler_lem :
    (seen : ℕ → Shared) (o : Own) (c : Client)
    → get_elem? (seen 1).client_list o.id ≡ some c
    → among seen o msg_handler ≡ (
      posts (mail o.id) ∷ [],
      ok (if o.stopped then o else calling (write o.sockfd c.mailbox ∷ []) o),
    )
unfolding msg_handler among mine post perform emit modify ◌>>=◌ ◌>>◌
msg_handler_lem seen o c e = by_state o.stopped
  where
    by_state :
        (b : Bool)
        → among
            (λ n. seen (suc n))
            o
            (if b then post (mail o.id) else (do
              c ← client_at o.id
              perform (write o.sockfd c.mailbox ∷ [])
              post (mail o.id)))
          ≡ (
            posts (mail o.id) ∷ [],
            ok (if b then o else calling (write o.sockfd c.mailbox ∷ []) o),
          )
    by_state true = refl
    by_state false = client_at-among (λ n. seen (suc n)) o o.id c _ e

-- The calls of an open of a FIFO.
abbrev pub open_calls : Bytes → Option ℕ → List Call
open_calls path opened_fd = elim opened_fd [ none ↦ [] | some n ↦ opened path (pos n) ∷ [] ]

-- The handler of `SIGUSR2`, in a process whose entry is `c` when the handler reads it, whatever the shared
-- memory is otherwise and at any other moment: it opens the FIFO that the mailbox names, notes the
-- descriptor as the pipe from the sender unless the client has stopped, and gives the mailbox of its client
-- back, once. It does nothing else to what the processes share.
pub user_pipe_handler_lem :
    (seen : ℕ → Shared) (os : Os) (o : Own) (c : Client)
    → get_elem? (seen 1).client_list o.id ≡ some c
    → among seen o (user_pipe_handler os) ≡ (
      (if o.stopped
          then posts (mail o.id) ∷ []
          else writes (set_user_pipe o.id c.from_id (fd_of (os.open_file o.trace c.mailbox)))
            ∷ posts (mail o.id)
            ∷ []),
      ok (calling (open_calls c.mailbox (os.open_file o.trace c.mailbox)) o),
    )
unfolding user_pipe_handler open_fifo among mine write_to post perform emit modify ◌>>=◌ ◌>>◌
user_pipe_handler_lem seen os o c e =
    client_at-among (λ n. seen (suc n)) o o.id c _ e ∙ by_state o.stopped
  where
    by_state :
        (b : Bool)
        → among
            (λ n. seen (suc (suc n)))
            o
            (if b then (do garbage_fd ← open_fifo os c.mailbox; post (mail o.id)) else (do
              fd ← open_fifo os c.mailbox
              write_to (set_user_pipe o.id c.from_id fd)
              post (mail o.id)))
          ≡ (
            (if b
                then posts (mail o.id) ∷ []
                else writes (set_user_pipe o.id c.from_id (fd_of (os.open_file o.trace c.mailbox)))
                  ∷ posts (mail o.id)
                  ∷ []),
            ok (calling (open_calls c.mailbox (os.open_file o.trace c.mailbox)) o),
          )
    by_state true = refl
    by_state false = refl
