-- ===== src/Multi/Prog.antt =====
-- The code of a process as a program whose steps are the accesses to what it shares with the others: one
-- expression that reads shared memory, one write to it, one operation on a semaphore, one signal.
use np.Prelude.{
  ℕ, Bool, List, ◌++◌, Option, none, some, ℤ, Result, ok, fault, Fault, get_elem?, out_of_bounds,
}
use np.CrossPipe.{CrossPipe}
use np.Sys.{Call, Event, Trace, SockAddr}
use np.Single.Env.{Environ}
use np.Single.State.{as_events}
use np.Multi.Shared.{Client, Shared, Sem, Store}

-- What a process has for itself: its pid, its globals `id`, `sockfd` and `stopped`, its environment, the `infor`
-- of `run_shell`, and the calls it has made.
pub record Own : Type 0 where
  pub pid : ℕ
  pub id : ℕ
  pub sockfd : ℤ
  pub stopped : Bool
  pub environ : Environ
  pub infor : CrossPipe
  pub trace : Trace

-- `SIGUSR1` and `SIGUSR2`.
pub data Signal : Type 0 where
  message user_pipe : Signal

pub data Prog (A : Type 0) : Type 0 where
  ret : A → Prog A
  crash : Fault → Prog A
  -- an expression that reads shared memory and the process's own data
  look : (Shared → Own → Prog A) → Prog A
  -- a change of the process's own data, calls of the system included
  own : (Own → Own) → Prog A → Prog A
  store : Store → Prog A → Prog A
  sem_wait : Sem → Prog A → Prog A
  sem_post : Sem → Prog A → Prog A
  kill : ℕ → Signal → Prog A → Prog A
  -- `while (…) {}`: goes on when the test is false
  spin : (Shared → Bool) → Prog A → Prog A
  -- `fork` of a client's process, with the descriptor and the address that `accept` gave
  spawn : ℕ → SockAddr → Prog A → Prog A

infixl 5 ◌>>=◌ ◌>>◌
unfoldable pub ◌>>=◌ : {A B : Type 0} → Prog A → (A → Prog B) → Prog B
ret a >>= f = f a
crash e >>= f = crash e
look k >>= f = look (λ m o. k m o >>= f)
own g p >>= f = own g (p >>= f)
store w p >>= f = store w (p >>= f)
sem_wait l p >>= f = sem_wait l (p >>= f)
sem_post l p >>= f = sem_post l (p >>= f)
kill q sig p >>= f = kill q sig (p >>= f)
spin b p >>= f = spin b (p >>= f)
spawn fd a p >>= f = spawn fd a (p >>= f)

unfoldable pub ◌>>◌ : {B : Type 0} → Prog (Unit {0}) → Prog B → Prog B
unfolding ◌>>=◌
m >> k = m >>= λ _. k

unfoldable pub lift : {A : Type 0} → Result A → Prog A
lift (ok a) = ret a
lift (fault e) = crash e

unfoldable pub require : {A : Type 0} → Option A → Fault → Prog A
require none e = crash e
require (some a) e = ret a

-- Reads of shared memory, and of the process's own data.
unfoldable pub reads : {A : Type 0} → (Shared → Result A) → Prog A
unfolding lift
reads f = look λ m o. lift (f m)

unfoldable pub mine : {A : Type 0} → (Own → A) → Prog A
mine f = look λ m o. ret (f o)

-- `client_list[i].…`
unfoldable pub client_at : ℕ → Prog Client
unfolding require
client_at i = look λ m o. require (get_elem? m.client_list i) out_of_bounds

unfoldable pub write_to : Store → Prog (Unit {0})
write_to w = store w (ret tt)

unfoldable pub wait : Sem → Prog (Unit {0})
wait l = sem_wait l (ret tt)

unfoldable pub post : Sem → Prog (Unit {0})
post l = sem_post l (ret tt)

unfoldable pub send : ℕ → Signal → Prog (Unit {0})
send q sig = kill q sig (ret tt)

unfoldable pub modify : (Own → Own) → Prog (Unit {0})
modify f = own f (ret tt)

unfoldable pub emit : List Event → Prog (Unit {0})
unfolding modify
emit es = modify (λ o. record o { trace = o.trace ++ es })

unfoldable pub perform : List Call → Prog (Unit {0})
unfolding emit
perform cs = emit (as_events cs)
