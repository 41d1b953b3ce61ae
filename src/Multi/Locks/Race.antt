-- ===== src/Multi/Locks/Race.antt =====
-- No two threads of the system write the same guarded data at once.
use np.Prelude.{
  ℕ, ap, sym, ◌∙◌, ◌≢◌, inl, inr, ◌⊎◌, ◌≡◌, refl, subst, Bool, true, false, Option, none, some,
  List,
}
use np.Sys.{Os, SockAddr}
use np.Single.Env.{Environ}
use np.Multi.Shared.{
  Sem, login, table, fifo, mail, Store, set_pid, set_state, set_name, set_mailbox, set_from_id,
  set_user_pipe, set_connection, set_client_num, set_min_id, set_fifo_count,
}
use np.Multi.Prog.{Prog, store}
use np.Multi.System.{Proc, System, init, Reach}
use np.Multi.Locks.{Held, held, Needs, Keeps}
use np.Multi.Locks.Mails.{Slot, in_main, in_handler, Holder, HasMail}
use np.Multi.Locks.Holders.{Holding}
use np.Multi.Locks.Guarded.{IsGuarded}
use np.Multi.Locks.Numbered.{IsNumbered, IsNamed, Keeps-store, program-eq}
use np.Multi.Locks.Invariant.{
  Throughout, Throughout-all, Throughout-map, init-IsGuarded, init-MailsAlone, Reach-Moved,
  Reach-MailsAlone,
}

sem_eq : {l k : Sem} → some l ≡ some k → l ≡ k
sem_eq h = cc

-- The program that a process runs, or the handler in it.
abbrev pub thread : System → ℕ → Bool → Option (Prog (Unit {0}))
thread s p b = elim (s.procs p) [
  | none ↦ none
  | some pr ↦ elim b [ true ↦ pr.handler | false ↦ some pr.main ]
]

-- What guards a write: the table of clients with its counters, or the counter of FIFOs.
abbrev pub guard : Store → Option Sem
guard (set_pid i p) = some table
guard (set_state i x) = some table
guard (set_name i n) = none
guard (set_mailbox i t) = none
guard (set_from_id i j) = none
guard (set_user_pipe i j fd) = none
guard (set_connection i a) = some table
guard (set_client_num n) = some table
guard (set_min_id n) = some table
guard (set_fifo_count n) = some fifo

-- Is the semaphore held?
abbrev holds : Sem → Held → Bool
holds table h = h.table
holds fifo h = h.fifo
holds _ h = false

Needs-holds :
    (Mine : ℕ → ℕ → Type 0) (w : Store) (l : Sem) (h : Held)
    → guard w ≡ some l
    → Needs Mine h w
    → holds l h ≡ true
Needs-holds Mine (set_pid i p) l h e n = subst (λ x. holds x h ≡ true) (sem_eq e) n.0
Needs-holds Mine (set_state i p) l h e n = subst (λ x. holds x h ≡ true) (sem_eq e) n
Needs-holds Mine (set_connection i p) l h e n = subst (λ x. holds x h ≡ true) (sem_eq e) n
Needs-holds Mine (set_client_num i) l h e n = subst (λ x. holds x h ≡ true) (sem_eq e) n
Needs-holds Mine (set_min_id i) l h e n = subst (λ x. holds x h ≡ true) (sem_eq e) n
Needs-holds Mine (set_fifo_count i) l h e n = subst (λ x. holds x h ≡ true) (sem_eq e) n
Needs-holds Mine (set_name i p) l h e n = absurd (cc)
Needs-holds Mine (set_mailbox i p) l h e n = absurd (cc)
Needs-holds Mine (set_from_id i p) l h e n = absurd (cc)
Needs-holds Mine (set_user_pipe i j p) l h e n = absurd (cc)

-- A thread that is about to write has what the write needs.
writer-Needs :
    {Mine : ℕ → ℕ → Type 0} (s : System) (g : Holding) (p : ℕ) (b : Bool) (w : Store)
    (k : Prog (Unit {0}))
    → IsGuarded Mine s g
    → thread s p b ≡ some (store w k)
    → Needs Mine (g p b) w
writer-Needs {Mine} s g p b w k v e = look_up (s.procs p) refl b e
  where
    look_up :
        (x : Option Proc)
        → s.procs p ≡ x
        → (b : Bool)
        → elim x [ none ↦ none | some pr ↦ elim b [ true ↦ pr.handler | false ↦ some pr.main ] ]
          ≡ some (store w k)
        → Needs Mine (g p b) w
    look_up none f b h = absurd (cc)
    look_up (some pr) f false h =
        let (world, q, keeps_it) = (v.each p pr f).main_ok in
        Keeps-store (subst (Keeps Mine world (held false) (g p false)) (program-eq h) keeps_it)
    look_up (some pr) f true h =
        let (id, is_id, keeps_it) = (v.each p pr f).handler_ok (store w k) h in Keeps-store keeps_it

-- Any process may be one of any client.
abbrev Anyone : ℕ → ℕ → Type 0
Anyone q i = Unit {0}

-- In every state that the system can reach, in any order of the steps of its processes and whatever the
-- system calls answer, two threads (programs and handlers) that are both about to write data with the
-- same guard are one and the same. The guards are those of the table of clients with `client_num` and
-- `min_id`, and of the counter of FIFOs.
pub no_race :
    {os : Os} {rounds msockfd : ℕ} {s : System} (root : ℕ) (environ : Environ)
    (answers : List (Option (ℕ × SockAddr)))
    → Reach os rounds msockfd (init root environ answers) s
    → (p q : ℕ) (b c : Bool) (w v : Store) (k k' : Prog (Unit {0})) (l : Sem)
    → thread s p b ≡ some (store w k)
    → thread s q c ≡ some (store v k')
    → guard w ≡ some l
    → guard v ≡ some l
    → (p ≡ q) × (b ≡ c)
no_race {s = s} root environ answers r p q b c w v k k' l e f m n =
    let (g, inv) = Reach-Moved _ (init-IsGuarded Anyone root environ answers tt) r (
      Throughout-all (IsNumbered Anyone)
        (λ u. record { selves = λ p pr e. inr tt; places = λ q e. tt }) r) in
    by_guard l g inv (Needs-holds Anyone w l _ m (writer-Needs s g p b w k inv e))
      (Needs-holds Anyone v l _ n (writer-Needs s g q c v k' inv f))
  where
    by_guard :
        (l : Sem) (g : Holding)
        → IsGuarded Anyone s g
        → holds l (g p b) ≡ true
        → holds l (g q c) ≡ true
        → (p ≡ q) × (b ≡ c)
    by_guard table g inv h h' = inv.table_ok.unique p q b c h h'
    by_guard fifo g inv h h' = inv.fifo_ok.unique p q b c h h'
    by_guard login g inv h h' = absurd (cc)
    by_guard (mail i) g inv h h' = absurd (cc)

-- The system's answers name the processes: each process knows its pid, none has the pid 0, the client
-- number of a process is that of its pid in `number`, and there is a place for the next client.
pub record IsIdentified (number : ℕ → ℕ) (s : System) : Type 0 where
  pub nobody : s.procs 0 ≡ none
  pub pids : (p : ℕ) (pr : Proc) → s.procs p ≡ some pr → pr.own.pid ≡ p
  pub numbers : (p : ℕ) (pr : Proc) → s.procs p ≡ some pr → (pr.own.id ≡ 0) ⊎ (number p ≡ pr.own.id)
  pub place : s.shared.min_id ≢ 0

abbrev OfNumber : (ℕ → ℕ) → ℕ → ℕ → Type 0
OfNumber number q i = number q ≡ i

IsIdentified-IsNumbered :
    (number : ℕ → ℕ) (s : System) → IsIdentified number s → IsNumbered (OfNumber number) s
IsIdentified-IsNumbered number s d = record {
  selves = λ p pr e. elim (d.numbers p pr e) [
    | inl z ↦ inl z
    | inr n ↦ inr (ap number (d.pids p pr e) ∙ n)
  ];
  places = λ q e. absurd (d.place e);
}

IsIdentified-IsNamed :
    (number : ℕ → ℕ) (s : System) → IsIdentified number s → IsNamed (OfNumber number) s
IsIdentified-IsNamed number s d = record {
  nobody = d.nobody;
  pids = d.pids;
  only = λ q i j a b. sym a ∙ b;
}

-- The mailbox that a write changes.
abbrev pub mailbox_of : Store → Option ℕ
mailbox_of (set_mailbox i t) = some i
mailbox_of (set_from_id i j) = some i
mailbox_of _ = none

some_eq : {i j : ℕ} → some i ≡ some j → i ≡ j
some_eq h = cc

Needs-mail :
    (Mine : ℕ → ℕ → Type 0) (w : Store) (i : ℕ) (h : Held)
    → mailbox_of w ≡ some i
    → Needs Mine h w
    → h.mail ≡ some i
Needs-mail Mine (set_mailbox j t) i h e n = n ∙ e
Needs-mail Mine (set_from_id j k) i h e n = n ∙ e
Needs-mail Mine (set_pid j p) i h e n = absurd (cc)
Needs-mail Mine (set_state j p) i h e n = absurd (cc)
Needs-mail Mine (set_name j p) i h e n = absurd (cc)
Needs-mail Mine (set_connection j p) i h e n = absurd (cc)
Needs-mail Mine (set_client_num j) i h e n = absurd (cc)
Needs-mail Mine (set_min_id j) i h e n = absurd (cc)
Needs-mail Mine (set_fifo_count j) i h e n = absurd (cc)
Needs-mail Mine (set_user_pipe j k p) i h e n = absurd (cc)

-- The slot of a thread.
abbrev slot : Bool → Slot
slot true = in_handler
slot false = in_main

slot-eq : (b c : Bool) → slot b ≡ slot c → b ≡ c
slot-eq true true h = refl
slot-eq false false h = refl
slot-eq true false h = cc
slot-eq false true h = cc

thread_has :
    (Mine : ℕ → ℕ → Type 0) (g : Holding) (procs : ℕ → Option Proc) (i p : ℕ) (b : Bool)
    → (g p b).mail ≡ some i
    → HasMail Mine g procs i (p, slot b)
thread_has Mine g procs i p true h = h
thread_has Mine g procs i p false h = h

-- When the processes are identified throughout a run, two threads that are both about to write the
-- mailbox of a client, its text or its sender, are one and the same.
pub no_mail_race :
    {os : Os} {rounds msockfd : ℕ} {s : System} (root : ℕ) (environ : Environ)
    (answers : List (Option (ℕ × SockAddr))) (number : ℕ → ℕ)
    (r : Reach os rounds msockfd (init root environ answers) s)
    → number root ≡ 0
    → Throughout (IsIdentified number) r
    → (p q : ℕ) (b c : Bool) (w v : Store) (k k' : Prog (Unit {0})) (i : ℕ) → i ≢ 0
    → thread s p b ≡ some (store w k)
    → thread s q c ≡ some (store v k')
    → mailbox_of w ≡ some i
    → mailbox_of v ≡ some i
    → (p ≡ q) × (b ≡ c)
no_mail_race {s = s} root environ answers number r none_yet d p q b c w v k k' i ne e f m n =
    let (g, inv, alone) =
      Reach-MailsAlone _ (init-IsGuarded (OfNumber number) root environ answers none_yet)
        (init-MailsAlone (OfNumber number) root environ answers) r
        (Throughout-map (IsIdentified-IsNumbered number) r d)
        (Throughout-map (IsIdentified-IsNamed number) r d) in
    let here =
      thread_has (OfNumber number) g s.procs i p b
        (Needs-mail (OfNumber number) w i _ m (writer-Needs s g p b w k inv e)) in
    let there =
      thread_has (OfNumber number) g s.procs i q c
        (Needs-mail (OfNumber number) v i _ n (writer-Needs s g q c v k' inv f)) in
    let eq = (alone i ne).unique (p, slot b) (q, slot c) here there in
    (ap (λ (y : Holder). y.0) eq, slot-eq b c (ap (λ (y : Holder). y.1) eq))
