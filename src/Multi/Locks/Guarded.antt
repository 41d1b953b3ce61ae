-- ===== src/Multi/Locks/Guarded.antt =====
-- What all threads hold: an invariant of the system of all processes, and how a change of one process
-- keeps it.
use np.Prelude.{
  ℕ, ◌≡◌, refl, sym, subst, Bool, true, false, Option, none, some, arith, ◌==◌, Bool-cases, inl,
  inr,
}
use np.Multi.Shared.{Shared}
use np.Multi.Prog.{Own, Signal, message, user_pipe, Prog}
use np.Multi.System.{Proc, System, update, signal, wake}
use np.Multi.Locks.{Held, held, World, always, InWorld, Keeps}
use np.Multi.Locks.Entries.{Sees}
use np.Multi.Locks.Holders.{Holding, both, some-eq}
use np.Multi.Locks.Exclusive.{IsExclusive, put, shrink, Moves-IsExclusive}
use np.Multi.Locks.Step.{Both}

-- A program that keeps the discipline in a process, whatever is known of the number of the process.
abbrev pub Follows : (ℕ → ℕ → Type 0) → Held → Own → Prog (Unit {0}) → Type 0
Follows Mine h o k = (w : World) × InWorld w o × Keeps Mine w (held false) h k

-- A handler that keeps it, with the number of the process.
abbrev pub Handles : (ℕ → ℕ → Type 0) → Held → Own → Prog (Unit {0}) → Type 0
Handles Mine h o k = (i : ℕ) × (o.id ≡ i) × Keeps Mine (always i) (held false) h k

-- A process whose program holds `h0` and whose handler holds `h1`; while a handler runs the program waits.
pub record Local (Mine : ℕ → ℕ → Type 0) (pr : Proc) (h0 h1 : Held) : Type 0 where
  pub main_ok : Follows Mine h0 pr.own pr.main
  pub handler_ok : (k : Prog (Unit {0})) → pr.handler ≡ some k → Handles Mine h1 pr.own k
  pub quiet : pr.handler ≡ none → h1 ≡ held false

abbrev pub tables : Holding → ℕ → Bool → Bool
tables g p b = (g p b).table

abbrev pub fifos : Holding → ℕ → Bool → Bool
fifos g p b = (g p b).fifo

pub record IsGuarded (Mine : ℕ → ℕ → Type 0) (s : System) (g : Holding) : Type 0 where
  pub each : (p : ℕ) (pr : Proc) → s.procs p ≡ some pr → Local Mine pr (g p false) (g p true)
  pub idle : (p : ℕ) → s.procs p ≡ none → (b : Bool) → g p b ≡ held false
  pub table_ok : IsExclusive (tables g) s.shared.lock2
  pub fifo_ok : IsExclusive (fifos g) s.shared.fifo_lock
  pub sees : Sees Mine s.shared

module _ (proj : Held → Bool) (g : Holding) (p : ℕ) where
  main-put :
      (h0 : Held) (q : ℕ) (c : Bool)
      → proj (both g p h0 (g p true) q c) ≡ true
      → put (λ q c. proj (g q c)) p false (proj h0) q c ≡ true
  main-put h0 q true h = elim (Bool-cases (q == p)) [
    | inl t ↦ rw t (subst (λ x. proj (g x true) ≡ true) (ground arith) (rw t at h))
    | inr t ↦ rw t (rw t at h)
  ]
  main-put h0 q false h = elim (Bool-cases (q == p)) [
    | inl t ↦ rw t (rw t at h)
    | inr t ↦ rw t (rw t at h)
  ]

  handler-put :
      (h1 : Held) (q : ℕ) (c : Bool)
      → proj (both g p (g p false) h1 q c) ≡ true
      → put (λ q c. proj (g q c)) p true (proj h1) q c ≡ true
  handler-put h1 q true h = elim (Bool-cases (q == p)) [
    | inl t ↦ rw t (rw t at h)
    | inr t ↦ rw t (rw t at h)
  ]
  handler-put h1 q false h = elim (Bool-cases (q == p)) [
    | inl t ↦ rw t (subst (λ x. proj (g x false) ≡ true) (ground arith) (rw t at h))
    | inr t ↦ rw t (rw t at h)
  ]

  -- Threads that then hold nothing.
  free-sub :
      (q : ℕ) (c : Bool)
      → proj (held false) ≡ false
      → proj (both g p (held false) (held false) q c) ≡ true
      → proj (g q c) ≡ true
  free-sub q true n h = elim (Bool-cases (q == p)) [ inl t ↦ cc (rw t at h) | inr t ↦ rw t at h ]
  free-sub q false n h = elim (Bool-cases (q == p)) [ inl t ↦ cc (rw t at h) | inr t ↦ rw t at h ]

-- One process changes, to `x`, and its threads then hold `h0` and `h1`.
IsGuarded-update :
    {Mine : ℕ → ℕ → Type 0} (s : System) (g : Holding) (p : ℕ) (x : Option Proc) (h0 h1 : Held)
    (m : Shared)
    → IsGuarded Mine s g
    → ((pr : Proc) → x ≡ some pr → Local Mine pr h0 h1)
    → (x ≡ none → (h0 ≡ held false) × (h1 ≡ held false))
    → IsExclusive (tables (both g p h0 h1)) m.lock2
    → IsExclusive (fifos (both g p h0 h1)) m.fifo_lock
    → Sees Mine m
    → IsGuarded Mine (record { shared = m; procs = update s.procs p x }) (both g p h0 h1)
IsGuarded-update {Mine} s g p x h0 h1 m v local gone a b sees = record {
  each = each';
  idle = idle';
  table_ok = a;
  fifo_ok = b;
  sees = sees;
}
  where
    each' :
        (q : ℕ) (pr : Proc)
        → update s.procs p x q ≡ some pr
        → Local Mine pr (both g p h0 h1 q false) (both g p h0 h1 q true)
    each' q pr e = elim (Bool-cases (q == p)) [
      | inl t ↦ rw t (local pr (rw t at e))
      | inr t ↦ rw t (v.each q pr (rw t at e))
    ]

    idle' : (q : ℕ) → update s.procs p x q ≡ none → (c : Bool) → both g p h0 h1 q c ≡ held false
    idle' q e true = elim (Bool-cases (q == p)) [
      | inl t ↦ rw t (gone (rw t at e)).1
      | inr t ↦ rw t (v.idle q (rw t at e) true)
    ]
    idle' q e false = elim (Bool-cases (q == p)) [
      | inl t ↦ rw t (gone (rw t at e)).0
      | inr t ↦ rw t (v.idle q (rw t at e) false)
    ]

-- Its main program moves on.
pub IsGuarded-main :
    {Mine : ℕ → ℕ → Type 0} (s : System) (g : Holding) (p : ℕ) (pr pr' : Proc) (h0 : Held)
    (m : Shared)
    → IsGuarded Mine s g
    → s.procs p ≡ some pr
    → Local Mine pr' h0 (g p true)
    → Both (g p false) h0 s.shared m
    → Sees Mine m
    → IsGuarded Mine
        (record { shared = m; procs = update s.procs p (some pr') })
        (both g p h0 (g p true))
IsGuarded-main {Mine} s g p pr pr' h0 m v e l (a, b) sees =
    IsGuarded-update s g p (some pr') h0 (g p true) m v
      (λ q f. subst (λ x. Local Mine x h0 (g p true)) (some-eq f) l) (λ f. absurd (cc))
      (shrink (main-put (λ h. h.table) g p h0) (Moves-IsExclusive p false a v.table_ok))
      (shrink (main-put (λ h. h.fifo) g p h0) (Moves-IsExclusive p false b v.fifo_ok)) sees

-- Its handler begins, moves on or ends.
pub IsGuarded-handler :
    {Mine : ℕ → ℕ → Type 0} (s : System) (g : Holding) (p : ℕ) (pr pr' : Proc) (h1 : Held)
    (m : Shared)
    → IsGuarded Mine s g
    → s.procs p ≡ some pr
    → Local Mine pr' (g p false) h1
    → Both (g p true) h1 s.shared m
    → Sees Mine m
    → IsGuarded Mine
        (record { shared = m; procs = update s.procs p (some pr') })
        (both g p (g p false) h1)
IsGuarded-handler {Mine} s g p pr pr' h1 m v e l (a, b) sees =
    IsGuarded-update s g p (some pr') (g p false) h1 m v
      (λ q f. subst (λ x. Local Mine x (g p false) h1) (some-eq f) l) (λ f. absurd (cc))
      (shrink (handler-put (λ h. h.table) g p h1) (Moves-IsExclusive p true a v.table_ok))
      (shrink (handler-put (λ h. h.fifo) g p h1) (Moves-IsExclusive p true b v.fifo_ok)) sees

-- It takes no part in holding: a new process, or one that ends.
pub IsGuarded-free :
    {Mine : ℕ → ℕ → Type 0} (s : System) (g : Holding) (p : ℕ) (x : Option Proc)
    → IsGuarded Mine s g
    → ((pr : Proc) → x ≡ some pr → Local Mine pr (held false) (held false))
    → IsGuarded Mine (record s { procs = update s.procs p x }) (both g p (held false) (held false))
IsGuarded-free {Mine} s g p x v l =
    IsGuarded-update s g p x (held false) (held false) s.shared v l (λ e. (refl, refl))
      (shrink (λ q c h. free-sub (λ h. h.table) g p q c refl h) v.table_ok)
      (shrink (λ q c h. free-sub (λ h. h.fifo) g p q c refl h) v.fifo_ok) v.sees

Local-wake :
    {Mine : ℕ → ℕ → Type 0} (pr : Proc) (sig : Signal) {h0 h1 : Held}
    → Local Mine pr h0 h1
    → Local Mine (wake sig pr) h0 h1
Local-wake pr message l = record { main_ok = l.main_ok; handler_ok = l.handler_ok; quiet = l.quiet }
Local-wake pr user_pipe l = record {
  main_ok = l.main_ok;
  handler_ok = l.handler_ok;
  quiet = l.quiet;
}

-- A signal changes what no thread holds.
pub IsGuarded-signal :
    {Mine : ℕ → ℕ → Type 0} (m : Shared) (procs : ℕ → Option Proc) (g : Holding) (q : ℕ)
    (sig : Signal)
    → IsGuarded Mine (record { shared = m; procs = procs }) g
    → IsGuarded Mine (record { shared = m; procs = signal procs q sig }) g
IsGuarded-signal {Mine} m procs g q sig v = record {
  each = each';
  idle = idle';
  table_ok = v.table_ok;
  fifo_ok = v.fifo_ok;
  sees = v.sees;
}
  where
    woken :
        (x : Option Proc) (pr : Proc)
        → procs q ≡ x
        → elim x [ none ↦ none | some pr' ↦ some (wake sig pr') ] ≡ some pr
        → Local Mine pr (g q false) (g q true)
    woken none pr e f = absurd (cc)
    woken (some pr') pr e f =
        subst (λ x. Local Mine x (g q false) (g q true)) (some-eq f)
          (Local-wake pr' sig (v.each q pr' e))

    asleep :
        (x : Option Proc)
        → elim x [ none ↦ none | some pr' ↦ some (wake sig pr') ] ≡ none
        → x ≡ none
    asleep none f = refl
    asleep (some pr) f = absurd (cc)

    each' :
        (r : ℕ) (pr : Proc) → signal procs q sig r ≡ some pr → Local Mine pr (g r false) (g r true)
    each' r pr e = elim (Bool-cases (r == q)) [
      | inl t ↦
          let r_q : r ≡ q = ground arith in
          subst (λ x. Local Mine pr (g x false) (g x true)) (sym r_q)
            (woken (procs q) pr refl (rw t at e))
      | inr t ↦ v.each r pr (rw t at e)
    ]

    idle' : (r : ℕ) → signal procs q sig r ≡ none → (b : Bool) → g r b ≡ held false
    idle' r e b = elim (Bool-cases (r == q)) [
      | inl t ↦
          let r_q : r ≡ q = ground arith in
          subst (λ x. g x b ≡ held false) (sym r_q) (v.idle q (asleep (procs q) (rw t at e)) b)
      | inr t ↦ v.idle r (rw t at e) b
    ]
