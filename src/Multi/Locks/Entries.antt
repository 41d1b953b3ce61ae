-- ===== src/Multi/Locks/Entries.antt =====
-- The pids and the semaphores of the entries of the table, and what a write or a semaphore changes of them.
use np.Prelude.{
  ℕ, ◌≡◌, ◌≢◌, refl, sym, ap, ◌∙◌, subst, Option, none, some, List, get_elem?, set, get_elem?-lt,
  get_elem?-set_self, get_elem?-set_ne, inl, inr, ◌⊎◌, ok, or_fault, >>=-eq-ok, ok-injective,
  out_of_bounds, arith, Bool-cases, ◌==◌,
}
use np.Multi.Shared.{
  Client, Shared, Sem, login, table, fifo, mail, Store, set_pid, set_state, set_name, set_mailbox,
  set_from_id, set_user_pipe, set_connection, set_client_num, set_min_id, set_fifo_count, edit,
  perform_store, sem_value, set_sem,
}
use np.Multi.Locks.{Held, Needs, Belongs}

-- The value of the semaphore of an entry; 0 where there is none.
abbrev lock_value : Option Client → ℕ
lock_value none = 0
lock_value (some c) = c.lock

abbrev pub lock_in : List Client → ℕ → ℕ
lock_in l i = lock_value (get_elem? l i)

abbrev pub lock_of : ℕ → Shared → ℕ
lock_of i m = lock_in m.client_list i

-- Each entry has the pid of a process of its client.
abbrev pub Sees : (ℕ → ℕ → Type 0) → Shared → Type 0
Sees Mine m = (i : ℕ) (c : Client) → get_elem? m.client_list i ≡ some c → Belongs Mine c.pid i

some_eq : {i j : ℕ} → some i ≡ some j → i ≡ j
some_eq h = cc

eq_or_ne : (i j : ℕ) → (i ≡ j) ⊎ (i ≢ j)
eq_or_ne i j = elim (Bool-cases (i == j)) [
  | inl t ↦ inl (ground arith)
  | inr t ↦ inr (ground arith)
]

module _ (l : List Client) (i : ℕ) (c new : Client) where
  set-Sees :
      (Mine : ℕ → ℕ → Type 0)
      → get_elem? l i ≡ some c
      → ((j : ℕ) (d : Client) → get_elem? l j ≡ some d → Belongs Mine d.pid j)
      → Belongs Mine new.pid i
      → (j : ℕ) (d : Client) → get_elem? (set l i new) j ≡ some d
      → Belongs Mine d.pid j
  set-Sees Mine e all this j d h = elim (eq_or_ne i j) [
    | inl same ↦
        let there : get_elem? (set l i new) i ≡ some d =
          subst (λ x. get_elem? (set l i new) x ≡ some d) (sym same) h in
        let is_new : new ≡ d = cc (get_elem?-set_self l i new (get_elem?-lt l i e), there) in
        subst (λ (x : Client). Belongs Mine x.pid j) is_new
          (subst (λ x. Belongs Mine new.pid x) same this)
    | inr other ↦ all j d (sym (get_elem?-set_ne l i j new other) ∙ h)
  ]

  set-lock_same :
      get_elem? l i ≡ some c → new.lock ≡ c.lock → (j : ℕ) → lock_in (set l i new) j ≡ lock_in l j
  set-lock_same e same j = elim (eq_or_ne i j) [
    | inl here ↦
        subst (λ x. lock_in (set l i new) x ≡ lock_in l x) here
          (ap lock_value (get_elem?-set_self l i new (get_elem?-lt l i e))
            ∙ same
            ∙ sym (ap lock_value e))
    | inr other ↦ ap lock_value (get_elem?-set_ne l i j new other)
  ]

  set-lock_here : get_elem? l i ≡ some c → lock_in (set l i new) i ≡ new.lock
  set-lock_here e = ap lock_value (get_elem?-set_self l i new (get_elem?-lt l i e))

  set-lock_other : (j : ℕ) → i ≢ j → lock_in (set l i new) j ≡ lock_in l j
  set-lock_other j other = ap lock_value (get_elem?-set_ne l i j new other)

-- What a write keeps of the entries.
abbrev Kept : (ℕ → ℕ → Type 0) → Shared → Shared → Type 0
Kept Mine m m' = (Sees Mine m → Sees Mine m') × ((j : ℕ) → lock_of j m' ≡ lock_of j m)

edit-Kept :
    (Mine : ℕ → ℕ → Type 0) (i : ℕ) (f : Client → Client) (m m' : Shared)
    → ((c : Client) → Belongs Mine c.pid i → Belongs Mine (f c).pid i)
    → ((c : Client) → (f c).lock ≡ c.lock)
    → edit i f m ≡ ok m'
    → Kept Mine m m'
unfolding edit
edit-Kept Mine i f m m' pids locks h =
    let (c, found, done) = >>=-eq-ok (or_fault (get_elem? m.client_list i) out_of_bounds) _ h in
    let e : get_elem? m.client_list i ≡ some c = found_at (get_elem? m.client_list i) c found in
    subst (Kept Mine m) (ok-injective done) (
      (λ all. set-Sees m.client_list i c (f c) Mine e all (pids c (all i c e))),
      set-lock_same m.client_list i c (f c) e (locks c),
    )
  where
    found_at : (x : Option Client) (c : Client) → or_fault x out_of_bounds ≡ ok c → x ≡ some c
    found_at none c h = cc
    found_at (some d) c h = ap some (ok-injective h)

pub store-Kept :
    (Mine : ℕ → ℕ → Type 0) (h : Held) (w : Store) (m m' : Shared)
    → Needs Mine h w
    → perform_store w m ≡ ok m'
    → Kept Mine m m'
unfolding perform_store
store-Kept Mine h (set_pid i x) m m' n e = edit-Kept Mine i _ m m' (λ c b. n.1) (λ c. refl) e
store-Kept Mine h (set_state i x) m m' n e = edit-Kept Mine i _ m m' (λ c b. b) (λ c. refl) e
store-Kept Mine h (set_name i x) m m' n e = edit-Kept Mine i _ m m' (λ c b. b) (λ c. refl) e
store-Kept Mine h (set_mailbox i x) m m' n e = edit-Kept Mine i _ m m' (λ c b. b) (λ c. refl) e
store-Kept Mine h (set_from_id i x) m m' n e = edit-Kept Mine i _ m m' (λ c b. b) (λ c. refl) e
store-Kept Mine h (set_user_pipe i j x) m m' n e =
    let (c, a, b) = >>=-eq-ok (or_fault (get_elem? m.client_list i) out_of_bounds) _ e in
    let (old, d, f) = >>=-eq-ok (or_fault (get_elem? c.user_pipe j) out_of_bounds) _ b in
    edit-Kept Mine i _ m m' (λ c b. b) (λ c. refl) f
store-Kept Mine h (set_connection i x) m m' n e = edit-Kept Mine i _ m m' (λ c b. b) (λ c. refl) e
store-Kept Mine h (set_client_num x) m m' n e =
    subst (Kept Mine m) (ok-injective e) ((λ all. all), (λ j. refl))
store-Kept Mine h (set_min_id x) m m' n e =
    subst (Kept Mine m) (ok-injective e) ((λ all. all), (λ j. refl))
store-Kept Mine h (set_fifo_count x) m m' n e =
    subst (Kept Mine m) (ok-injective e) ((λ all. all), (λ j. refl))

-- A semaphore changes no pid.
pub set_sem-Sees :
    (Mine : ℕ → ℕ → Type 0) (l : Sem) (n : ℕ) (m : Shared) → Sees Mine m → Sees Mine (set_sem l n m)
unfolding set_sem
set_sem-Sees Mine login n m all = all
set_sem-Sees Mine table n m all = all
set_sem-Sees Mine fifo n m all = all
set_sem-Sees Mine (mail i) n m all = at_entry (get_elem? m.client_list i) refl
  where
    at_entry :
        (x : Option Client)
        → get_elem? m.client_list i ≡ x
        → Sees Mine (elim x [
          | none ↦ m
          | some c ↦ record m { client_list = set m.client_list i (record c { lock = n }) }
        ])
    at_entry none e = all
    at_entry (some c) e = set-Sees m.client_list i c (record c { lock = n }) Mine e all (all i c e)

abbrev after_mail : ℕ → ℕ → Shared → Option Client → Shared
after_mail i n m x = elim x [
  | none ↦ m
  | some c ↦ record m { client_list = set m.client_list i (record c { lock = n }) }
]

-- The semaphore of an entry, when it has a value `v`, then has the value `n`; the others keep theirs.
pub mail-lock :
    (i n v : ℕ) (m : Shared)
    → sem_value (mail i) m ≡ some v
    → (lock_of i m ≡ v)
      × ((lock_of i (set_sem (mail i) n m) ≡ n)
          × ((j : ℕ) → i ≢ j → lock_of j (set_sem (mail i) n m) ≡ lock_of j m))
unfolding sem_value set_sem
mail-lock i n v m h = at_entry (get_elem? m.client_list i) refl h
  where
    at_entry :
        (x : Option Client)
        → get_elem? m.client_list i ≡ x
        → elim x [ none ↦ none | some c ↦ some c.lock ] ≡ some v
        → (lock_of i m ≡ v)
          × ((lock_of i (after_mail i n m x) ≡ n)
              × ((j : ℕ) → i ≢ j → lock_of j (after_mail i n m x) ≡ lock_of j m))
    at_entry none e f = absurd (cc)
    at_entry (some c) e f = (
      ap lock_value e ∙ some_eq f,
      (
        set-lock_here m.client_list i c (record c { lock = n }) e,
        set-lock_other m.client_list i c (record c { lock = n }),
      ),
    )
