-- ===== src/Multi/Locks.antt =====
-- Which semaphores a process holds, and what it may do with them: a discipline on programs that is
-- read off the program, whatever the other processes write meanwhile.
pub mod Talk
pub mod UserPipe
pub mod Exec
pub mod Handlers
pub mod Exclusive
pub mod Entries
pub mod Mails
pub mod Holders
pub mod Waiting
pub mod Step
pub mod Guarded
pub mod Numbered
pub mod Moved
pub mod Invariant
pub mod Race
pub mod Session
use np.Prelude.{
  ℕ, ◌≡◌, ◌⊎◌, ◌≢◌, refl, sym, subst, Bool, true, false, Option, none, some, if◌then◌else◌, Result,
  ok, fault, Fault, List, get_elem?, out_of_bounds,
}
use np.Multi.Shared.{
  Client, Shared, Sem, login, table, fifo, mail, Store, set_pid, set_state, set_name, set_mailbox,
  set_from_id, set_user_pipe, set_connection, set_client_num, set_min_id, set_fifo_count,
}
use np.Sys.{SockAddr, Call, Event}
use np.Multi.Prog.{
  Own, Prog, ret, crash, look, own, store, sem_wait, sem_post, kill, spin, spawn, ◌>>=◌, ◌>>◌, lift,
  require, reads, mine, client_at, modify, write_to, perform, emit, wait, post, send, Signal,
}

-- `connect_state->lock2`, `fifo_infor->lock`, and one of the mailboxes.
pub record Held : Type 0 where
  pub table : Bool
  pub fifo : Bool
  pub mail : Option ℕ

-- At most the lock of the table is held.
abbrev pub held : Bool → Held
held t = record { table = t; fifo = false; mail = none }

-- The process `q` is of client `i`, or nobody's: `Mine q i` says that a process is one of client `i`.
abbrev pub Belongs : (ℕ → ℕ → Type 0) → ℕ → ℕ → Type 0
Belongs Mine q i = (q ≡ 0) ⊎ (Mine q i)

-- What must be held for a write, and a pid goes to the entry of its client.
abbrev pub Needs : (ℕ → ℕ → Type 0) → Held → Store → Type 0
Needs Mine h (set_pid i q) = (h.table ≡ true) × Belongs Mine q i
Needs Mine h (set_state i b) = h.table ≡ true
Needs Mine h (set_name i n) = Unit
Needs Mine h (set_mailbox i t) = h.mail ≡ some i
Needs Mine h (set_from_id i j) = h.mail ≡ some i
Needs Mine h (set_user_pipe i j fd) = Unit
Needs Mine h (set_connection i a) = h.table ≡ true
Needs Mine h (set_client_num n) = h.table ≡ true
Needs Mine h (set_min_id n) = h.table ≡ true
Needs Mine h (set_fifo_count n) = h.fifo ≡ true

-- May a semaphore be waited for? The table comes first, and mailboxes last; `login` only with none held.
abbrev pub MayWait : Held → Sem → Type 0
MayWait h login = h ≡ held false
MayWait h table = h ≡ held false
MayWait h fifo = (h.fifo ≡ false) × (h.mail ≡ none)
MayWait h (mail i) = (h.fifo ≡ false) × (h.mail ≡ none)

abbrev pub with_sem : Held → Sem → Held
with_sem h login = h
with_sem h table = record h { table = true }
with_sem h fifo = record h { fifo = true }
with_sem h (mail i) = record h { mail = some i }

-- A semaphore is given back only by who holds it; `login` is held by nobody.
abbrev pub MayPost : Held → Sem → Type 0
MayPost h login = Unit
MayPost h table = h.table ≡ true
MayPost h fifo = h.fifo ≡ true
MayPost h (mail i) = h.mail ≡ some i

abbrev pub without_sem : Held → Sem → Held
without_sem h login = h
without_sem h table = record h { table = false }
without_sem h fifo = record h { fifo = false }
without_sem h (mail i) = record h { mail = none }

-- What is known of a process's own data: nothing, or the number of its client, at present or for good.
pub data World : Type 0 where
  any : World
  is : ℕ → World
  always : ℕ → World

abbrev pub InWorld : World → Own → Type 0
InWorld any o = Unit
InWorld (is i) o = o.id ≡ i
InWorld (always i) o = o.id ≡ i

-- May a program go on without it?
abbrev pub MayForget : World → Type 0
MayForget any = Unit
MayForget (is i) = Unit
MayForget (always i) = ⊥

-- What every process may rely on: an entry has the pid of a process of its client, the process that looks
-- is one of the client whose number it has, if it has one, and `min_id` is the place of a client.
pub record Known (Mine : ℕ → ℕ → Type 0) (m : Shared) (o : Own) : Type 0 where
  pub entries : (i : ℕ) (c : Client) → get_elem? m.client_list i ≡ some c → Belongs Mine c.pid i
  pub self : (o.id ≡ 0) ⊎ (Mine o.pid o.id)
  pub min : (q : ℕ) → m.min_id ≡ 0 → Mine q 0

-- The program keeps the discipline from `h` on, and holds `h'` where it returns. A signal takes the
-- mailbox along, to a process of the client whose mailbox it is.
pub data Keeps (Mine : ℕ → ℕ → Type 0) {A : Type 0} : World → Held → Held → Prog A → Type 0 where
  returns : {w : World} {h : Held} {a : A} → Keeps Mine w h h (ret a)
  crashes : {w : World} {h' h : Held} {e : Fault} → Keeps Mine w h' h (crash e)
  looks :
      {w : World} {h' h : Held} {k : Shared → Own → Prog A}
      → ((m : Shared) (o : Own) → InWorld w o → Known Mine m o → Keeps Mine w h' h (k m o))
      → Keeps Mine w h' h (look k)
  owns :
      {w : World} {h' h : Held} {f : Own → Own} {p : Prog A}
      → ((o : Own) → InWorld w o → InWorld w (f o))
      → Keeps Mine w h' h p
      → Keeps Mine w h' h (own f p)
  -- the process takes the number `i`
  names :
      {i : ℕ} {h' h : Held} {f : Own → Own} {p : Prog A}
      → ((o : Own) → (f o).id ≡ i)
      → Keeps Mine (is i) h' h p
      → Keeps Mine any h' h (own f p)
  forgets : {i : ℕ} {h' h : Held} {p : Prog A} → Keeps Mine any h' h p → Keeps Mine (is i) h' h p
  stores :
      {w : World} {h' h : Held} {s : Store} {p : Prog A}
      → Needs Mine h s
      → Keeps Mine w h' h p
      → Keeps Mine w h' h (store s p)
  waits :
      {w : World} {h' h : Held} {l : Sem} {p : Prog A}
      → MayWait h l
      → Keeps Mine w h' (with_sem h l) p
      → Keeps Mine w h' h (sem_wait l p)
  posts :
      {w : World} {h' h : Held} {l : Sem} {p : Prog A}
      → MayPost h l
      → Keeps Mine w h' (without_sem h l) p
      → Keeps Mine w h' h (sem_post l p)
  kills :
      {w : World} {h' h : Held} {q i : ℕ} {sig : Signal} {p : Prog A}
      → h.mail ≡ some i
      → Belongs Mine q i
      → Keeps Mine w h' (record h { mail = none }) p
      → Keeps Mine w h' h (kill q sig p)
  spins :
      {w : World} {h' h : Held} {b : Shared → Bool} {p : Prog A}
      → h ≡ held false
      → Keeps Mine w h' h p
      → Keeps Mine w h' h (spin b p)
  spawns :
      {w : World} {h' h : Held} {fd : ℕ} {a : SockAddr} {p : Prog A}
      → Keeps Mine w h' h p
      → Keeps Mine w h' h (spawn fd a p)

module _ {Mine : ℕ → ℕ → Type 0} where
  -- What keeps the discipline without knowing the number, does so with it.
  any-in :
      {A : Type 0} (w : World) {h' h : Held} {p : Prog A}
      → MayForget w
      → Keeps Mine any h' h p
      → Keeps Mine w h' h p
  any-in any f k = k
  any-in (is i) f k = forgets k
  any-in (always i) f k = elim f [ ]

  bind_in :
      {A B : Type 0} {w : World} {h'' h' h : Held} {p : Prog A} {f : A → Prog B}
      → MayForget w
      → Keeps Mine w h' h p
      → ((a : A) → Keeps Mine any h'' h' (f a))
      → Keeps Mine w h'' h (p >>= f)
  unfolding ◌>>=◌
  bind_in {w = w} c (returns {a = a}) l = any-in w c (l a)
  bind_in c crashes l = crashes
  bind_in c (looks k) l = looks (λ m o q v. bind_in c (k m o q v) l)
  bind_in c (owns q k) l = owns q (bind_in c k l)
  bind_in c (names q k) l = names q (bind_in tt k l)
  bind_in c (forgets k) l = forgets (bind_in tt k l)
  bind_in c (stores q k) l = stores q (bind_in c k l)
  bind_in c (waits q k) l = waits q (bind_in c k l)
  bind_in c (posts q k) l = posts q (bind_in c k l)
  bind_in c (kills q b k) l = kills q b (bind_in c k l)
  bind_in c (spins q k) l = spins q (bind_in c k l)
  bind_in c (spawns k) l = spawns (bind_in c k l)

  -- Programs one behind the other.
  pub Keeps->>= :
      {A B : Type 0} {h'' h' h : Held} {p : Prog A} {f : A → Prog B}
      → Keeps Mine any h' h p
      → ((a : A) → Keeps Mine any h'' h' (f a))
      → Keeps Mine any h'' h (p >>= f)
  Keeps->>= k l = bind_in tt k l

  pub Keeps->> :
      {B : Type 0} {h'' h' h : Held} {p : Prog (Unit {0})} {q : Prog B}
      → Keeps Mine any h' h p
      → Keeps Mine any h'' h' q
      → Keeps Mine any h'' h (p >> q)
  unfolding ◌>>◌
  Keeps->> k l = Keeps->>= k (λ _. l)

  -- The same where the first holds at its end what it held at its start.
  pub calm_bind :
      {A B : Type 0} {h'' h : Held} {p : Prog A} {f : A → Prog B}
      → Keeps Mine any h h p
      → ((a : A) → Keeps Mine any h'' h (f a))
      → Keeps Mine any h'' h (p >>= f)
  calm_bind k l = Keeps->>= k l

  pub calm_then :
      {B : Type 0} {h'' h : Held} {p : Prog (Unit {0})} {q : Prog B}
      → Keeps Mine any h h p
      → Keeps Mine any h'' h q
      → Keeps Mine any h'' h (p >> q)
  calm_then k l = Keeps->> k l

  pub Keeps-lift : {A : Type 0} {w : World} {h : Held} (r : Result A) → Keeps Mine w h h (lift r)
  unfolding lift
  Keeps-lift (ok a) = returns
  Keeps-lift (fault e) = crashes

  pub Keeps-require :
      {A : Type 0} {w : World} {h : Held} (r : Option A) (e : Fault)
      → Keeps Mine w h h (require r e)
  unfolding require
  Keeps-require none e = crashes
  Keeps-require (some a) e = returns

  pub Keeps-if :
      {A : Type 0} {w : World} {h h' : Held} (b : Bool) {p q : Prog A}
      → Keeps Mine w h' h p
      → Keeps Mine w h' h q
      → Keeps Mine w h' h (if b then p else q)
  Keeps-if true k l = k
  Keeps-if false k l = l

  pub Keeps-reads :
      {A : Type 0} {w : World} {h : Held} (f : Shared → Result A) → Keeps Mine w h h (reads f)
  unfolding reads
  Keeps-reads f = looks (λ m o q v. Keeps-lift (f m))

  pub Keeps-mine : {A : Type 0} {w : World} {h : Held} (f : Own → A) → Keeps Mine w h h (mine f)
  unfolding mine
  Keeps-mine f = looks (λ m o q v. returns)

  pub Keeps-client_at : {w : World} {h : Held} (i : ℕ) → Keeps Mine w h h (client_at i)
  unfolding client_at
  Keeps-client_at i = looks (λ m o q v. Keeps-require (get_elem? m.client_list i) out_of_bounds)

  -- What comes behind a look at an entry, whose pid is that of a process of its client.
  pub entry_then :
      {B : Type 0} {w : World} {h' h : Held} {f : Client → Prog B} (i : ℕ)
      → ((c : Client) → Belongs Mine c.pid i → Keeps Mine w h' h (f c))
      → Keeps Mine w h' h (client_at i >>= f)
  unfolding client_at require ◌>>=◌
  entry_then {B} {w} {h'} {h} {f} i k =
      looks (λ m o q v. found (get_elem? m.client_list i) (v.entries i))
    where
      found :
          (x : Option Client)
          → ((c : Client) → x ≡ some c → Belongs Mine c.pid i)
          → Keeps Mine w h' h (require x out_of_bounds >>= f)
      found none v = crashes
      found (some c) v = k c (v c refl)

  pub Keeps-modify : {h : Held} (f : Own → Own) → Keeps Mine any h h (modify f)
  unfolding modify
  Keeps-modify f = owns (λ o q. tt) returns

  pub Keeps-write_to :
      {w : World} {h : Held} (s : Store) → Needs Mine h s → Keeps Mine w h h (write_to s)
  unfolding write_to
  Keeps-write_to s n = stores n returns

  pub Keeps-emit : {h : Held} (es : List Event) → Keeps Mine any h h (emit es)
  unfolding emit
  Keeps-emit es = Keeps-modify _

  pub Keeps-perform : {h : Held} (cs : List Call) → Keeps Mine any h h (perform cs)
  unfolding perform
  Keeps-perform cs = Keeps-emit _

  pub Keeps-wait :
      {w : World} {h : Held} (l : Sem) → MayWait h l → Keeps Mine w (with_sem h l) h (wait l)
  unfolding wait
  Keeps-wait l n = waits n returns

  pub Keeps-post :
      {w : World} {h : Held} (l : Sem) → MayPost h l → Keeps Mine w (without_sem h l) h (post l)
  unfolding post
  Keeps-post l n = posts n returns

  pub Keeps-send :
      {w : World} {h : Held} {i : ℕ} (q : ℕ) (sig : Signal)
      → h.mail ≡ some i
      → Belongs Mine q i
      → Keeps Mine w (record h { mail = none }) h (send q sig)
  unfolding send
  Keeps-send q sig n b = kills n b returns

ruleset calm = (
  calm_bind, calm_then, Keeps-lift, Keeps-require, Keeps-if, Keeps-reads, Keeps-mine,
  Keeps-client_at, Keeps-modify, Keeps-write_to, Keeps-emit, Keeps-perform, returns, crashes,
)
