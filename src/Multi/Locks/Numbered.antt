-- ===== src/Multi/Locks/Numbered.antt =====
-- What a state says of its processes, what a program that keeps the discipline has at each action, and what
-- a step of the system comes to.
use np.Prelude.{ℕ, ◌⊎◌, ◌≡◌, refl, ◌∙◌, false, none, some}
use np.Sys.{SockAddr}
use np.Multi.Shared.{Store}
use np.Multi.Prog.{Own, Signal, Prog, ret, store, kill, spawn}
use np.Multi.System.{Proc, System}
use np.Multi.Locks.{
  Held, held, Needs, Belongs, World, any, is, always, InWorld, Known, Keeps, returns, stores, kills,
  spawns, forgets,
}
use np.Multi.Locks.Holders.{Holding, MailsAlone}
use np.Multi.Locks.Guarded.{Follows, IsGuarded}

-- What the system says of a state: who each process is, and that `min_id` is the place of a client.
pub record IsNumbered (Mine : ℕ → ℕ → Type 0) (s : System) : Type 0 where
  pub selves :
      (p : ℕ) (pr : Proc) → s.procs p ≡ some pr → (pr.own.id ≡ 0) ⊎ Mine pr.own.pid pr.own.id
  pub places : (q : ℕ) → s.shared.min_id ≡ 0 → Mine q 0

-- What a program that sends a signal to `q` has, and goes on with.
abbrev pub Sends : (ℕ → ℕ → Type 0) → Held → Own → ℕ → Prog (Unit {0}) → Type 0
Sends Mine h o q k =
    (i : ℕ) × (h.mail ≡ some i) × Belongs Mine q i × Follows Mine (record h { mail = none }) o k

-- A process knows its pid, no process has the pid 0, and a process is one of at most one client.
pub record IsNamed (Mine : ℕ → ℕ → Type 0) (s : System) : Type 0 where
  pub nobody : s.procs 0 ≡ none
  pub pids : (p : ℕ) (pr : Proc) → s.procs p ≡ some pr → pr.own.pid ≡ p
  pub only : (q i j : ℕ) → Mine q i → Mine q j → i ≡ j

-- What a step of the system comes to.
pub record Moved (Mine : ℕ → ℕ → Type 0) (s t : System) (g : Holding) : Type 0 where
  pub then_held : Holding
  pub guarded : IsGuarded Mine t then_held
  pub mails_go :
      IsNamed Mine s
      → MailsAlone Mine g s.procs s.shared
      → MailsAlone Mine then_held t.procs t.shared

module _ {Mine : ℕ → ℕ → Type 0} where
  pub Keeps-ret : {w : World} {h' h : Held} {a : Unit {0}} → Keeps Mine w h' h (ret a) → h ≡ h'
  Keeps-ret returns = refl
  Keeps-ret (forgets k) = Keeps-ret k

  pub Keeps-kill :
      (o : Own) {w : World} {h : Held} {q : ℕ} {sig : Signal} {k : Prog (Unit {0})}
      → InWorld w o
      → Keeps Mine w (held false) h (kill q sig k)
      → Sends Mine h o q k
  Keeps-kill o {w} v (kills {i = i} n b k) = (i, n, b, (w, v, k))
  Keeps-kill o v (forgets k) = Keeps-kill o tt k

  pub Keeps-spawn :
      (o : Own) {w : World} {h : Held} {fd : ℕ} {addr : SockAddr} {k : Prog (Unit {0})}
      → InWorld w o
      → Keeps Mine w (held false) h (spawn fd addr k)
      → Follows Mine h o k
  Keeps-spawn o {w} v (spawns k) = (w, v, k)
  Keeps-spawn o v (forgets k) = Keeps-spawn o tt k

  pub Keeps-store :
      {w : World} {h' h : Held} {s : Store} {k : Prog (Unit {0})}
      → Keeps Mine w h' h (store s k)
      → Needs Mine h s
  Keeps-store (stores n k) = n
  Keeps-store (forgets k) = Keeps-store k

  -- The number of the process stays.
  pub still :
      {h : Held} {o o' : Own} {k : Prog (Unit {0})}
      → Follows Mine h o k
      → o'.id ≡ o.id
      → Follows Mine h o' k
  still (any, q, k) e = (any, tt, k)
  still (is i, q, k) e = (is i, e ∙ q, k)
  still (always i, q, k) e = (always i, e ∙ q, k)

  -- What a process may rely on in a state.
  pub known :
      (s : System) (g : Holding) (p : ℕ) (pr : Proc)
      → IsGuarded Mine s g
      → IsNumbered Mine s
      → s.procs p ≡ some pr
      → Known Mine s.shared pr.own
  known s g p pr v n e = record { entries = v.sees; self = n.selves p pr e; min = n.places }

pub some_eq : {i j : ℕ} → some i ≡ some j → i ≡ j
some_eq h = cc

pub program-eq : {k l : Prog (Unit {0})} → some k ≡ some l → k ≡ l
program-eq h = cc
