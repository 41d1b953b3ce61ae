-- ===== src/Multi/Locks/Holders.antt =====
-- Who holds a mailbox after a change of one process.
use np.Prelude.{
  ℕ, ◌≡◌, ◌≢◌, sym, ap, ◌∙◌, subst, ◌⊎◌, inl, inr, Bool, Option, some, ◌==◌, if◌then◌else◌, arith,
  Bool-cases,
}
use np.Multi.Shared.{Shared}
use np.Multi.System.{Proc, update}
use np.Multi.Locks.{Held}
use np.Multi.Locks.Entries.{lock_of}
use np.Multi.Locks.Mails.{Alone, Slot, Has, Holder, HasMail}

-- What every thread holds.
abbrev pub Holding : Type 0
Holding = ℕ → Bool → Held

-- The threads of process `p` hold `h0` and `h1`.
abbrev pub both : Holding → ℕ → Held → Held → Holding
both g p h0 h1 q c = if q == p then (if c then h1 else h0) else g q c

-- The mailboxes of the clients are held by one holder each. Entry 0 is nobody's.
abbrev pub MailsAlone : (ℕ → ℕ → Type 0) → Holding → (ℕ → Option Proc) → Shared → Type 0
MailsAlone Mine g procs m = (i : ℕ) → i ≢ 0 → Alone (HasMail Mine g procs i) (lock_of i m)

pub same_or_not : (q p : ℕ) → (q ≡ p) ⊎ (q ≢ p)
same_or_not q p = elim (Bool-cases (q == p)) [
  | inl t ↦ inl (ground arith)
  | inr t ↦ inr (ground arith)
]

pub some-eq : {x y : Proc} → some x ≡ some y → x ≡ y
some-eq h = cc

module _ (Mine : ℕ → ℕ → Type 0) (g : Holding) (procs : ℕ → Option Proc) (p : ℕ) (h0 h1 : Held)
    (x : Option Proc) (i : ℕ) where
  -- The holder is another process, and held it before, or it is a slot of `p`.
  pub at_process :
      (q : ℕ) (a : Slot)
      → HasMail Mine (both g p h0 h1) (update procs p x) i (q, a)
      → ((q ≢ p) × HasMail Mine g procs i (q, a)) ⊎ ((q ≡ p) × Has Mine p h0 h1 x i a)
  at_process q a h = elim (Bool-cases (q == p)) [
    | inl t ↦
        let q_p : q ≡ p = ground arith in
        inr (q_p, subst (λ r. Has Mine r h0 h1 x i a) q_p (rw t at h))
    | inr t ↦ inl ((ground arith), (rw t at h))
  ]

  -- The slots of `p` decide.
  pub by_slots :
      (b c : Slot) {N : Type 0}
      → ((a : Slot)
          → Has Mine p h0 h1 x i a
          → (HasMail Mine g procs i (p, a) × (a ≢ b)) ⊎ ((a ≡ c) × N))
      → (y : Holder) → HasMail Mine (both g p h0 h1) (update procs p x) i y
      → (HasMail Mine g procs i y × (y ≢ (p, b))) ⊎ ((y ≡ (p, c)) × N)
  by_slots b c slots (q, a) h = elim (at_process q a h) [
    | inl (ne, was) ↦ inl (was, λ e. ne (ap (λ (y : Holder). y.0) e))
    | inr (q_p, now) ↦ elim (slots a now) [
      | inl (was, ne) ↦ inl (
        subst (λ r. HasMail Mine g procs i (r, a)) (sym q_p) was,
        λ e. ne (ap (λ (y : Holder). y.1) e),
      )
      | inr (here, n) ↦ inr (ap (λ r. (r, a)) q_p ∙ ap (λ d. (p, d)) here, n)
    ]
  ]

  -- `p` then holds no more than before.
  pub no_more :
      ((a : Slot) → Has Mine p h0 h1 x i a → HasMail Mine g procs i (p, a))
      → (y : Holder) → HasMail Mine (both g p h0 h1) (update procs p x) i y
      → HasMail Mine g procs i y
  no_more slots (q, a) h = elim (at_process q a h) [
    | inl (ne, was) ↦ was
    | inr (q_p, now) ↦ subst (λ r. HasMail Mine g procs i (r, a)) (sym q_p) (slots a now)
  ]
