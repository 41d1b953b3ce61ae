-- ===== src/Multi/Locks/Invariant.antt =====
-- Every step of the system keeps what `IsGuarded` says of all threads, and mailboxes have one holder each.
use np.Prelude.{
  ℕ, zero, suc, ◌≢◌, ◌≤◌, get_elem?, replicate, ◌≡◌, refl, ap, subst, false, Option, some, arith,
  ◌==◌, Bool-cases, inl, inr, List,
}
use np.Sys.{Os, SockAddr}
use np.Single.Env.{Environ}
use np.Single.Env.{max_client_num}
use np.Multi.Shared.{Client, no_client, create_shared_mem}
use np.Multi.Locks.Numbered.{IsNumbered, IsNamed, Moved}
use np.Multi.Locks.Moved.{
  moves_main, moves_handler, moves_begin, moves_end, moves_kill, moves_ends, moves_spawn,
}
use np.Multi.Talk.{msg_handler}
use np.Multi.UserPipe.{user_pipe_handler}
use np.Multi.System.{
  Proc, System, Step, step_main, step_handler, handler_ends, message_comes, pipe_comes, step_kill,
  step_spawn, ends, init, Reach, here, next,
}
use np.Multi.Locks.{held, any}
use np.Multi.Locks.Handlers.{own_mail, msg_handler-Keeps, user_pipe_handler-Keeps, main_loop-Keeps}
use np.Multi.Locks.Entries.{Sees, lock_in, lock_of}
use np.Multi.Locks.Mails.{Slot, in_main, in_handler, with_message, with_pipe, Has, HasMail, Holder}
use np.Multi.Locks.Holders.{Holding, some-eq, MailsAlone}
use np.Multi.Locks.Waiting.{message_before, pipe_before}
use np.Multi.Locks.Guarded.{Local, IsGuarded}

client-eq : {c d : Client} → some c ≡ some d → c ≡ d
client-eq h = cc

Step-Moved :
    {os : Os} {rounds msockfd : ℕ} {Mine : ℕ → ℕ → Type 0} {s t : System} (g : Holding)
    → Step os rounds msockfd s t
    → IsGuarded Mine s g
    → IsNumbered Mine s
    → Moved Mine s t g
Step-Moved {s = s} g (step_main p e idle run) v n = moves_main s g v n p e idle run
Step-Moved {s = s} g (step_handler p e running run) v n = moves_handler s g v n p e running run
Step-Moved {s = s} g (handler_ends p e running) v n = moves_end s g v n p e running
Step-Moved {Mine = Mine} {s = s} g (message_comes p {pr} e idle waits) v n =
    moves_begin s g v n p pr (record pr { handler = some msg_handler; message_waits = false })
      msg_handler with_message e idle refl refl refl (λ i m. (pr, e, waits, m)) slots
      (msg_handler-Keeps pr.own.id)
  where
    slots :
        (i : ℕ) (a : Slot)
        → a ≢ in_handler
        → Has Mine p
            (g p false)
            (own_mail pr.own.id)
            (some (record pr { handler = some msg_handler; message_waits = false }))
            i
            a
        → HasMail Mine g s.procs i (p, a) × (a ≢ with_message)
    slots i in_main ne h = (h, λ d. absurd (cc))
    slots i in_handler ne h = absurd (ne refl)
    slots i with_message ne (pr', it, w, m) =
        absurd (cc (ap (λ (y : Proc). y.message_waits) (some-eq it), w))
    slots i with_pipe ne h = (
      pipe_before Mine g s.procs p pr _ (g p false) (own_mail pr.own.id) i e refl h,
      λ d. absurd (cc),
    )
Step-Moved {os = os} {Mine = Mine} {s = s} g (pipe_comes p {pr} e idle waits) v n =
    moves_begin s g v n p pr
      (record pr { handler = some (user_pipe_handler os); pipe_waits = false })
      (user_pipe_handler os) with_pipe e idle refl refl refl (λ i m. (pr, e, waits, m)) slots
      (user_pipe_handler-Keeps os pr.own.id)
  where
    slots :
        (i : ℕ) (a : Slot)
        → a ≢ in_handler
        → Has Mine p
            (g p false)
            (own_mail pr.own.id)
            (some (record pr { handler = some (user_pipe_handler os); pipe_waits = false }))
            i
            a
        → HasMail Mine g s.procs i (p, a) × (a ≢ with_pipe)
    slots i in_main ne h = (h, λ d. absurd (cc))
    slots i in_handler ne h = absurd (ne refl)
    slots i with_pipe ne (pr', it, w, m) =
        absurd (cc (ap (λ (y : Proc). y.pipe_waits) (some-eq it), w))
    slots i with_message ne h = (
      message_before Mine g s.procs p pr _ (g p false) (own_mail pr.own.id) i e refl h,
      λ d. absurd (cc),
    )
Step-Moved {s = s} g (step_kill p e idle act) v n = moves_kill s g v n p e act
Step-Moved {os = os} {rounds = rounds} {msockfd = msockfd} {s = s} g
      (step_spawn p c e idle act fresh) v n =
    moves_spawn s g v n os rounds msockfd p c e act
Step-Moved {s = s} g (ends p) v n = moves_ends s g v n p

no_client_or_none :
    (k i : ℕ) (c : Client) → get_elem? (replicate k no_client) i ≡ some c → c ≡ no_client
no_client_or_none zero i c h = absurd (cc)
no_client_or_none (suc k) zero c h = cc
no_client_or_none (suc k) (suc i) c h = no_client_or_none k i c h

-- At the start the pids of the entries are 0, but for entry 0, which is of the process `root`.
init-Sees : (Mine : ℕ → ℕ → Type 0) (root : ℕ) → Mine root 0 → Sees Mine (create_shared_mem root)
unfolding create_shared_mem
init-Sees Mine root m zero c h = inr (subst (λ (x : Client). Mine x.pid 0) (client-eq h) m)
init-Sees Mine root m (suc i) c h =
    inl (ap (λ (x : Client). x.pid) (no_client_or_none max_client_num i c h))

pub init-IsGuarded :
    (Mine : ℕ → ℕ → Type 0) (root : ℕ) (environ : Environ) (answers : List (Option (ℕ × SockAddr)))
    → Mine root 0
    → IsGuarded Mine (init root environ answers) (λ p b. held false)
unfolding create_shared_mem
init-IsGuarded Mine root environ answers mine = record {
  each = λ p pr e. elim (Bool-cases (p == root)) [
    | inl t ↦
        subst (λ x. Local Mine x (held false) (held false)) (some-eq (rw t at e))
          (record {
            main_ok = (any, tt, main_loop-Keeps answers);
            handler_ok = λ k f. absurd (cc);
            quiet = λ f. refl;
          })
    | inr t ↦ absurd (cc (rw t at e))
  ];
  idle = λ p e b. refl;
  table_ok = record {
    few = omega arith;
    taken = λ p b h. absurd (cc);
    unique = λ p q b c h k. absurd (cc);
  };
  fifo_ok = record {
    few = omega arith;
    taken = λ p b h. absurd (cc);
    unique = λ p q b c h k. absurd (cc);
  };
  sees = init-Sees Mine root mine;
}

fresh_lock_in : (k i : ℕ) → lock_in (replicate k no_client) i ≤ 1
fresh_lock_in zero i = omega arith
fresh_lock_in (suc k) zero = omega arith
fresh_lock_in (suc k) (suc i) = fresh_lock_in k i

fresh_lock : (root i : ℕ) → lock_of i (create_shared_mem root) ≤ 1
unfolding create_shared_mem
fresh_lock root zero = omega arith
fresh_lock root (suc i) = fresh_lock_in max_client_num i

pub init-MailsAlone :
    (Mine : ℕ → ℕ → Type 0) (root : ℕ) (environ : Environ) (answers : List (Option (ℕ × SockAddr)))
    → MailsAlone Mine (λ p b. held false) (init root environ answers).procs (create_shared_mem root)
unfolding create_shared_mem
init-MailsAlone Mine root environ answers i ne = record {
  few = fresh_lock root i;
  taken = λ y h. absurd (nobody y h);
  unique = λ y z h k. absurd (nobody y h);
}
  where
    nobody :
        (y : Holder) → HasMail Mine (λ p b. held false) (init root environ answers).procs i y → ⊥
    nobody (p, in_main) h = cc
    nobody (p, in_handler) h = cc
    nobody (p, with_message) (pr, it, w, m) = elim (Bool-cases (p == root)) [
      | inl t ↦ cc (ap (λ (y : Proc). y.message_waits) (some-eq (rw t at it)), w)
      | inr t ↦ absurd (cc (rw t at it))
    ]
    nobody (p, with_pipe) (pr, it, w, m) = elim (Bool-cases (p == root)) [
      | inl t ↦ cc (ap (λ (y : Proc). y.pipe_waits) (some-eq (rw t at it)), w)
      | inr t ↦ absurd (cc (rw t at it))
    ]

-- A predicate at every state of a run.
pub Throughout :
    {os : Os} {rounds msockfd : ℕ} {s t : System} (P : System → Type 0)
    → Reach os rounds msockfd s t
    → Type 0
Throughout {s = s} P here = P s
Throughout P (next {u = u} r st) = Throughout P r × P u

Throughout-last :
    {os : Os} {rounds msockfd : ℕ} {s t : System} (P : System → Type 0)
    (r : Reach os rounds msockfd s t)
    → Throughout P r
    → P t
unfolding Throughout
Throughout-last P here n = n
Throughout-last P (next r st) (before, n) = n

pub Throughout-all :
    {os : Os} {rounds msockfd : ℕ} {s t : System} (P : System → Type 0)
    → ((u : System) → P u)
    → (r : Reach os rounds msockfd s t) → Throughout P r
unfolding Throughout
Throughout-all {s = s} P f here = f s
Throughout-all P f (next {u = u} r st) = (Throughout-all P f r, f u)

pub Throughout-map :
    {os : Os} {rounds msockfd : ℕ} {s t : System} {P Q : System → Type 0}
    → ((u : System) → P u → Q u)
    → (r : Reach os rounds msockfd s t) → Throughout P r
    → Throughout Q r
unfolding Throughout
Throughout-map {s = s} f here n = f s n
Throughout-map f (next {u = u} r st) (before, n) = (Throughout-map f r before, f u n)

pub Reach-Moved :
    {os : Os} {rounds msockfd : ℕ} {Mine : ℕ → ℕ → Type 0} {s t : System} (g : Holding)
    → IsGuarded Mine s g
    → (r : Reach os rounds msockfd s t) → Throughout (IsNumbered Mine) r
    → (g' : Holding) × IsGuarded Mine t g'
unfolding Throughout
Reach-Moved g v here n = (g, v)
Reach-Moved {Mine = Mine} g v (next {t = t} r st) (before, n) =
    let (g', v') = Reach-Moved g v r before in
    let moved = Step-Moved g' st v' (Throughout-last _ r before) in (moved.then_held, moved.guarded)

-- The mailboxes have one holder each, in a run of which each state says who the processes are.
pub Reach-MailsAlone :
    {os : Os} {rounds msockfd : ℕ} {Mine : ℕ → ℕ → Type 0} {s t : System} (g : Holding)
    → IsGuarded Mine s g
    → MailsAlone Mine g s.procs s.shared
    → (r : Reach os rounds msockfd s t) → Throughout (IsNumbered Mine) r
    → Throughout (IsNamed Mine) r
    → (g' : Holding) × IsGuarded Mine t g' × MailsAlone Mine g' t.procs t.shared
unfolding Throughout
Reach-MailsAlone g v a here n d = (g, v, a)
Reach-MailsAlone {Mine = Mine} g v a (next {t = t} r st) (before, n) (named, d) =
    let (g', v', a') = Reach-MailsAlone g v a r before named in
    let moved = Step-Moved g' st v' (Throughout-last _ r before) in
    (moved.then_held, moved.guarded, moved.mails_go (Throughout-last _ r named) a')
