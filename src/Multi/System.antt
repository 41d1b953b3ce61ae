-- ===== src/Multi/System.antt =====
-- All processes of np_multi_proc over the shared memory, in any order of their steps.
use np.Prelude.{
  ℕ, suc, ◌≡◌, Bool, true, false, List, [], Option, none, some, if◌then◌else◌, ◌==◌, pos, ok,
}
use np.Sys.{Os, SockAddr}
use np.CrossPipe.{initial_cross_pipe_infor}
use np.Single.Env.{Environ}
use np.Multi.Shared.{Shared, Sem, Store, perform_store, sem_value, set_sem, create_shared_mem}
use np.Multi.Prog.{
  Own, Signal, message, user_pipe, Prog, ret, look, own, store, sem_wait, sem_post, kill, spin,
  spawn,
}
use np.Multi.Talk.{msg_handler}
use np.Multi.UserPipe.{user_pipe_handler}
use np.Multi.Session.{session, main_loop}

-- A process: its own data, its program, the handler that interrupts it, if one runs, and the signals
-- that wait for it. A handler is not interrupted by the other one.
pub record Proc : Type 0 where
  pub own : Own
  pub main : Prog (Unit {0})
  pub handler : Option (Prog (Unit {0}))
  pub message_waits : Bool
  pub pipe_waits : Bool

-- The processes by their pids.
pub record System : Type 0 where
  pub shared : Shared
  pub procs : ℕ → Option Proc

abbrev pub update : (ℕ → Option Proc) → ℕ → Option Proc → ℕ → Option Proc
update procs p x q = if q == p then x else procs q

-- A signal that waits already is not counted twice.
abbrev pub wake : Signal → Proc → Proc
wake message pr = record pr { message_waits = true }
wake user_pipe pr = record pr { pipe_waits = true }

-- A signal to a process that is no longer there is lost.
abbrev pub signal : (ℕ → Option Proc) → ℕ → Signal → ℕ → Option Proc
signal procs q sig = update procs q (elim (procs q) [ none ↦ none | some pr ↦ some (wake sig pr) ])

-- One step of a program that changes no other process.
pub data Run (m : Shared) (o : Own)
    : Prog (Unit {0}) → Shared → Own → Prog (Unit {0}) → Type 0 where
  run_look : {k : Shared → Own → Prog (Unit {0})} → Run m o (look k) m o (k m o)
  run_own : {f : Own → Own} {p : Prog (Unit {0})} → Run m o (own f p) m (f o) p
  run_store :
      {w : Store} {p : Prog (Unit {0})} {m' : Shared}
      → perform_store w m ≡ ok m'
      → Run m o (store w p) m' o p
  run_wait :
      {l : Sem} {p : Prog (Unit {0})} {n : ℕ}
      → sem_value l m ≡ some (suc n)
      → Run m o (sem_wait l p) (set_sem l n m) o p
  run_post :
      {l : Sem} {p : Prog (Unit {0})} {n : ℕ}
      → sem_value l m ≡ some n
      → Run m o (sem_post l p) (set_sem l (suc n) m) o p
  run_spin : {b : Shared → Bool} {p : Prog (Unit {0})} → b m ≡ false → Run m o (spin b p) m o p

-- A new process of a client, with the descriptors of its parent.
abbrev pub child : Os → ℕ → ℕ → ℕ → ℕ → SockAddr → Proc → Proc
child os rounds msockfd pid fd addr pr = record {
  own = record pr.own { pid = pid; sockfd = pos fd };
  main = session os rounds msockfd addr;
  handler = none;
  message_waits = false;
  pipe_waits = false;
}

-- One step of the system. A process may end at any time: it has run to its end, or met a fault, or a
-- signal such as `SIGPIPE` has killed it.
pub data Step (os : Os) (rounds msockfd : ℕ) (s : System) : System → Type 0 where
  step_main :
      (p : ℕ) {pr : Proc} {m : Shared} {o : Own} {k : Prog (Unit {0})}
      → s.procs p ≡ some pr
      → pr.handler ≡ none
      → Run s.shared pr.own pr.main m o k
      → Step os rounds msockfd s
          (record { shared = m; procs = update s.procs p (some (record pr { own = o; main = k })) })
  step_handler :
      (p : ℕ) {pr : Proc} {m : Shared} {o : Own} {h k : Prog (Unit {0})}
      → s.procs p ≡ some pr
      → pr.handler ≡ some h
      → Run s.shared pr.own h m o k
      → Step os rounds msockfd s (record {
        shared = m;
        procs = update s.procs p (some (record pr { own = o; handler = some k }));
      })
  handler_ends :
      (p : ℕ) {pr : Proc}
      → s.procs p ≡ some pr
      → pr.handler ≡ some (ret tt)
      → Step os rounds msockfd s
          (record s { procs = update s.procs p (some (record pr { handler = none })) })
  message_comes :
      (p : ℕ) {pr : Proc}
      → s.procs p ≡ some pr
      → pr.handler ≡ none
      → pr.message_waits ≡ true
      → Step os rounds msockfd s (record s {
        procs =
            update s.procs p
              (some (record pr { handler = some msg_handler; message_waits = false }));
      })
  pipe_comes :
      (p : ℕ) {pr : Proc}
      → s.procs p ≡ some pr
      → pr.handler ≡ none
      → pr.pipe_waits ≡ true
      → Step os rounds msockfd s (record s {
        procs =
            update s.procs p
              (some (record pr { handler = some (user_pipe_handler os); pipe_waits = false }));
      })
  step_kill :
      (p : ℕ) {pr : Proc} {q : ℕ} {sig : Signal} {k : Prog (Unit {0})}
      → s.procs p ≡ some pr
      → pr.handler ≡ none
      → pr.main ≡ kill q sig k
      → Step os rounds msockfd s
          (record s { procs = signal (update s.procs p (some (record pr { main = k }))) q sig })
  step_spawn :
      (p c : ℕ) {pr : Proc} {fd : ℕ} {addr : SockAddr} {k : Prog (Unit {0})}
      → s.procs p ≡ some pr
      → pr.handler ≡ none
      → pr.main ≡ spawn fd addr k
      → s.procs c ≡ none
      → Step os rounds msockfd s (record s {
        procs =
            update
              (update s.procs p (some (record pr { main = k })))
              c
              (some (child os rounds msockfd c fd addr pr));
      })
  ends : (p : ℕ) → Step os rounds msockfd s (record s { procs = update s.procs p none })

-- The process `root` has made the shared memory and begins to accept clients.
abbrev pub init : ℕ → Environ → List (Option (ℕ × SockAddr)) → System
init root environ answers = record {
  shared = create_shared_mem root;
  procs =
      update (λ p. none) root
        (some (record {
          own = record {
            pid = root;
            id = 0;
            sockfd = pos 0;
            stopped = false;
            environ = environ;
            infor = initial_cross_pipe_infor;
            trace = [];
          };
          main = main_loop answers;
          handler = none;
          message_waits = false;
          pipe_waits = false;
        }));
}

pub data Reach (os : Os) (rounds msockfd : ℕ) (s : System) : System → Type 0 where
  here : Reach os rounds msockfd s s
  next :
      {t u : System}
      → Reach os rounds msockfd s t
      → Step os rounds msockfd t u
      → Reach os rounds msockfd s u
