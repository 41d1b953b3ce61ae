-- ===== src/Multi/Tests.antt =====
-- The theorems on np_multi_proc at small inputs.
use np.Prelude.{
  ℕ, zero, suc, ◌+◌, ◌*◌, ◌≡◌, refl, true, false, List, [], ◌∷◌, Option, some, arith, pos, length,
  replicate, null_pointer, ok,
}
use np.Libc.{codes}
use np.CrossPipe.{initial_cross_pipe_infor}
use np.Sys.{Os, SockAddr, write}
use np.Single.State.{as_events}
use np.Multi.Shared.{
  Client, Shared, table, mail, no_client, create_shared_mem, sem_value, set_sem, set_client_num,
  set_user_pipe,
}
use np.Multi.Prog.{Own, ◌>>=◌, ◌>>◌, wait, reads, lift, modify, write_to, message}
use np.Multi.System.{here, next, step_spawn, step_main, run_wait, run_look, run_own}
use np.Multi.Users.{take_place, change_client_num}
use np.Multi.Session.{session, accept_client, main_loop, shell_round}
use np.Multi.Talk.{msg_handler, post_mail, broadcast}
use np.Multi.UserPipe.{user_pipe_handler}
use np.Multi.Alone.{returned, faulted, blocked, alone}
use np.Multi.Alone.Entry.{with_entry}
use np.Multi.Alone.Mailbox.{posted, post_mail_lem, post_mail-msg_handler}
use np.Multi.Alone.Rounds.{IsFree, heard, written}
use np.Multi.Alone.Broadcast.{broadcast_lem, broadcast-blocked}
use np.Multi.Alone.Disconnect.{shell_round-disconnected}
use np.Multi.Locks.{Keeps, held, any}
use np.Multi.Among.{posts, writes, among}
use np.Multi.Among.Handlers.{calling, open_calls, msg_handler_lem, user_pipe_handler_lem}
use np.Multi.Locks.Session.{session-Keeps}
use np.Multi.Locks.Race.{no_race}

-- A system in which no client types anything.
abbrev silent : Os
silent = record {
  read_end = λ tr. 100 + 2 * length tr;
  write_end = λ tr. 101 + 2 * length tr;
  child_pid = λ tr. 5000 + length tr;
  open_file = λ tr path. some 90;
  open_null = λ tr. some 91;
  read = λ tr fd. [];
  execvp = λ tr path. true;
  garbage = λ tr. pos 77;
}

abbrev local_host : SockAddr
local_host = record { a = 127; b = 0; c = 0; d = 1; port = 40000 }

-- One client comes.
abbrev one_answer : List (Option (ℕ × SockAddr))
one_answer = some (5, local_host) ∷ []

-- The process of the client.
abbrev client_pid : ℕ
client_pid = 100

-- It is about to count its client.
no_race_example : (client_pid ≡ client_pid) × (false ≡ false)
unfolding main_loop accept_client session take_place change_client_num create_shared_mem sem_value
    set_sem ◌>>=◌ ◌>>◌ wait reads lift modify write_to
no_race_example =
    no_race {os = silent} {rounds = 8} {msockfd = 3} 50 [] one_answer
      (next
        (next
          (next
            (next (next here (step_spawn 50 client_pid refl refl refl refl))
              (step_main client_pid refl refl (run_wait {n = 0} refl)))
            (step_main client_pid refl refl run_look))
          (step_main client_pid refl refl run_own))
        (step_main client_pid refl refl run_look))
      client_pid client_pid false false (set_client_num 1) (set_client_num 1) _ _ table refl refl
      refl refl

-- Client `i` is served by process `5000 + i`.
abbrev ServedBy : ℕ → ℕ → Type 0
ServedBy q i = q ≡ 5000 + i

session-Keeps_example : Keeps ServedBy any (held false) (held false) (session silent 8 3 local_host)
session-Keeps_example = session-Keeps {Mine = ServedBy} silent 8 3 local_host

-- The client of process `pid`.
abbrev present : ℕ → Client
present pid = record no_client { pid = pid; state = true; name = codes "(no name)" }

abbrev others : List Client
others = replicate 28 no_client

-- The clients 1 and 2 are there.
abbrev two_users : Shared
two_users = record {
  client_list = no_client ∷ (present 101 ∷ present 102 ∷ others);
  client_num = 2;
  min_id = 3;
  lock = 0;
  lock2 = 1;
  fifo_count = 0;
  fifo_lock = 1;
}

-- The process of client `id`.
abbrev process : ℕ → Own
process id = record {
  pid = 100 + id;
  id = id;
  sockfd = pos 4;
  stopped = false;
  environ = [];
  infor = initial_cross_pipe_infor;
  trace = [];
}

-- Client 2 has a message.
abbrev has_mail : Client
has_mail = record (present 102) { mailbox = codes "hi\n"; lock = 0 }

abbrev with_mail : Shared
with_mail = record two_users { client_list = no_client ∷ (present 101 ∷ has_mail ∷ others) }

msg_handler_lem_example :
    among (λ n. with_mail) (process 2) msg_handler
    ≡ (posts (mail 2) ∷ [], ok (calling (write (pos 4) (codes "hi\n") ∷ []) (process 2)))
msg_handler_lem_example = msg_handler_lem (λ n. with_mail) (process 2) has_mail refl

user_pipe_handler_lem_example : among (λ n. with_mail) (process 2) (user_pipe_handler silent) ≡ (
  writes (set_user_pipe 2 0 (pos 90)) ∷ posts (mail 2) ∷ [],
  ok (calling (open_calls (codes "hi\n") (some 90)) (process 2)),
)
user_pipe_handler_lem_example =
    user_pipe_handler_lem (λ n. with_mail) silent (process 2) has_mail refl

post_mail_lem_example :
    alone (post_mail 2 (codes "hi\n")) two_users (process 1) []
    ≡ posted 2 (present 102) (codes "hi\n") two_users (process 1) []
post_mail_lem_example = post_mail_lem 2 (present 102) (codes "hi\n") two_users (process 1) [] refl

post_mail-msg_handler_example :
    (alone (post_mail 2 (codes "hi\n")) two_users (process 1) []
      ≡ returned tt
          (with_entry 2 (record (present 102) { mailbox = codes "hi\n"; lock = 0 }) two_users)
          (process 1)
          ((102, message) ∷ []))
    × (alone msg_handler
          (with_entry 2 (record (present 102) { mailbox = codes "hi\n"; lock = 0 }) two_users)
          (process 2)
          []
        ≡ returned tt
            (with_entry 2 (record (present 102) { mailbox = codes "hi\n" }) two_users)
            (record (process 2) { trace = as_events (write (pos 4) (codes "hi\n") ∷ []) })
            [])
post_mail-msg_handler_example =
    post_mail-msg_handler (present 102) (codes "hi\n") two_users (process 1) (process 2) [] refl
      (omega arith) (omega arith) refl refl

others-IsFree : (me i n : ℕ) → IsFree me i (replicate n no_client)
others-IsFree me i zero = tt
others-IsFree me i (suc n) = (λ h. omega arith, others-IsFree me (i + 1) n)

broadcast_lem_example :
    alone (broadcast (codes "hi\n")) two_users (process 1) []
    ≡ returned tt
        (record two_users {
          client_list = no_client ∷ heard 1 1 (codes "hi\n") (present 101 ∷ present 102 ∷ others);
        })
        (written 1 1 (present 101 ∷ present 102 ∷ others) (codes "hi\n") (process 1))
        ((102, message) ∷ [])
broadcast_lem_example =
    broadcast_lem two_users (codes "hi\n") (process 1) [] no_client
      (present 101 ∷ present 102 ∷ others) (omega arith) refl refl
      (λ h. omega arith, (λ h. omega arith, others-IsFree 1 3 28))

-- The process of client 2 has met a fault after a message had come.
abbrev dead_user : Client
dead_user = record (present 102) { lock = 0 }

broadcast-blocked_example :
    alone
      (broadcast (codes "hi\n"))
      (record two_users { client_list = no_client ∷ (present 101 ∷ dead_user ∷ others) })
      (process 1)
      []
    ≡ blocked (mail 2)
broadcast-blocked_example =
    broadcast-blocked
      (record two_users { client_list = no_client ∷ (present 101 ∷ dead_user ∷ others) })
      (codes "hi\n") (process 1) [] no_client dead_user (present 101 ∷ []) others (omega arith) refl
      refl (λ h. omega arith, tt) refl refl

shell_round-disconnected_example :
    alone (shell_round silent) two_users (process 1) [] ≡ faulted null_pointer
shell_round-disconnected_example = shell_round-disconnected silent two_users (process 1) [] refl
