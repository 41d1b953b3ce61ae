-- ===== src/Multi/Locks/Mails.antt =====
-- Who holds the mailbox of a client: a thread, or a signal that waits for its process.
use np.Prelude.{
  ℕ, suc, ◌≤◌, ◌≡◌, ◌≢◌, refl, sym, ap, ◌∙◌, subst, ◌⊎◌, inl, inr, Bool, true, false, Option, none,
  some, ◌==◌, arith, Bool-cases,
}
use np.Multi.Shared.{Shared, Sem, login, table, fifo, mail, sem_value, set_sem}
use np.Multi.System.{Proc}
use np.Multi.Locks.{Held, MayPost, MayWait, with_sem, without_sem}
use np.Multi.Locks.Entries.{lock_of, mail-lock}

-- At most one holds it, and then its value is 0.
pub record Alone {I : Type 0} (H : I → Type 0) (value : ℕ) : Type 0 where
  pub few : value ≤ 1
  pub taken : (x : I) → H x → value ≡ 0
  pub unique : (x y : I) → H x → H y → x ≡ y

module _ {I : Type 0} {H H' : I → Type 0} {v v' : ℕ} where
  pub Alone-fewer : ((x : I) → H' x → H x) → v' ≡ v → Alone H v → Alone H' v'
  Alone-fewer sub same a = record {
    few = omega (arith, a.few);
    taken = λ x h. same ∙ a.taken x (sub x h);
    unique = λ x y h k. a.unique x y (sub x h) (sub y k);
  }

  pub Alone-takes :
      (b : I) → ((x : I) → H' x → H x ⊎ (x ≡ b)) → v ≡ suc v' → Alone H v → Alone H' v'
  Alone-takes b new dec a = record {
    few = omega (arith, a.few);
    taken = λ x h. omega (arith, a.few, dec);
    unique = λ x y h k. only x h ∙ sym (only y k);
  }
    where
      only : (x : I) → H' x → x ≡ b
      only x h = elim (new x h) [ inl old ↦ absurd (omega (arith, dec, a.taken x old)) | inr e ↦ e ]

  pub Alone-gives :
      (b : I) → H b → ((x : I) → H' x → H x × (x ≢ b)) → v' ≡ suc v → Alone H v → Alone H' v'
  Alone-gives b here old inc a = record {
    few = omega (arith, inc, a.taken b here);
    taken = λ x h. absurd (nobody x h);
    unique = λ x y h k. absurd (nobody x h);
  }
    where
      nobody : (x : I) → H' x → ⊥
      nobody x h = let (was, other) = old x h in other (a.unique x b was here)

  -- From one holder to another.
  pub Alone-passes :
      (b c : I)
      → H b
      → ((x : I) → H' x → (H x × (x ≢ b)) ⊎ (x ≡ c))
      → v' ≡ v
      → Alone H v
      → Alone H' v'
  Alone-passes b c here new same a = record {
    few = omega (arith, a.few);
    taken = λ x h. same ∙ a.taken b here;
    unique = λ x y h k. only x h ∙ sym (only y k);
  }
    where
      only : (x : I) → H' x → x ≡ c
      only x h = elim (new x h) [
        | inl (was, other) ↦ absurd (other (a.unique x b was here))
        | inr e ↦ e
      ]

-- The program of a process, the handler in it, and the two signals that may wait for it.
pub data Slot : Type 0 where
  in_main in_handler with_message with_pipe : Slot

-- Which mailbox a slot of process `p` holds, when its threads hold `h0` and `h1`.
abbrev pub Has : (ℕ → ℕ → Type 0) → ℕ → Held → Held → Option Proc → ℕ → Slot → Type 0
Has Mine p h0 h1 x i in_main = h0.mail ≡ some i
Has Mine p h0 h1 x i in_handler = h1.mail ≡ some i
Has Mine p h0 h1 x i with_message =
    (pr : Proc) × (x ≡ some pr) × (pr.message_waits ≡ true) × (Mine p i)
Has Mine p h0 h1 x i with_pipe = (pr : Proc) × (x ≡ some pr) × (pr.pipe_waits ≡ true) × (Mine p i)

abbrev pub Holder : Type 0
Holder = ℕ × Slot

-- Who holds the mailbox of client `i`.
abbrev pub HasMail : (ℕ → ℕ → Type 0) → (ℕ → Bool → Held) → (ℕ → Option Proc) → ℕ → Holder → Type 0
HasMail Mine g procs i (p, slot) = Has Mine p (g p false) (g p true) (procs p) i slot

-- What a step of a thread does to the mailboxes.
pub data MailMoves (h h' : Held) (m m' : Shared) : Type 0 where
  keeps : h'.mail ≡ h.mail → ((i : ℕ) → lock_of i m' ≡ lock_of i m) → MailMoves h h' m m'
  takes_mail :
      (j : ℕ)
      → h'.mail ≡ some j
      → lock_of j m ≡ suc (lock_of j m')
      → ((i : ℕ) → j ≢ i → lock_of i m' ≡ lock_of i m)
      → h.mail ≡ none
      → MailMoves h h' m m'
  gives_mail :
      (j : ℕ)
      → h.mail ≡ some j
      → h'.mail ≡ none
      → lock_of j m' ≡ suc (lock_of j m)
      → ((i : ℕ) → j ≢ i → lock_of i m' ≡ lock_of i m)
      → MailMoves h h' m m'

some_eq : {i j : ℕ} → some i ≡ some j → i ≡ j
some_eq h = cc

not_some : {i : ℕ} → none ≡ some i → ⊥
not_some h = absurd (cc)

eq_or_ne : (i j : ℕ) → (i ≡ j) ⊎ (i ≢ j)
eq_or_ne i j = elim (Bool-cases (i == j)) [
  | inl t ↦ inl (ground arith)
  | inr t ↦ inr (ground arith)
]

-- A thread, the holder `b`, moves; the others hold what they held.
pub MailMoves-Alone :
    {H H' : Holder → Type 0} {h h' : Held} {m m' : Shared} (i : ℕ) (b : Holder)
    → MailMoves h h' m m'
    → (h.mail ≡ some i → H b)
    → ((x : Holder) → H' x → (H x × (x ≢ b)) ⊎ ((x ≡ b) × (h'.mail ≡ some i)))
    → Alone H (lock_of i m)
    → Alone H' (lock_of i m')
MailMoves-Alone {H = H} i b (keeps same locks) has new a =
    Alone-fewer
      (λ x k. elim (new x k) [
        | inl (was, other) ↦ was
        | inr (e, now) ↦ subst H (sym e) (has (sym same ∙ now))
      ])
      (locks i) a
MailMoves-Alone {h = h} {h' = h'} {m = m} {m' = m'} i b (takes_mail j now dec others free) has new
      a =
    elim (eq_or_ne j i) [
      | inl e ↦
          Alone-takes b
            (λ x k. elim (new x k) [ inl (was, other) ↦ inl was | inr (here, n) ↦ inr here ])
            (subst (λ x. lock_of x m ≡ suc (lock_of x m')) e dec) a
      | inr ne ↦
          Alone-fewer
            (λ x k. elim (new x k) [
              | inl (was, other) ↦ was
              | inr (here, n) ↦ absurd (ne (some_eq (sym now ∙ n)))
            ])
            (others i ne) a
    ]
MailMoves-Alone {h = h} {h' = h'} {m = m} {m' = m'} i b (gives_mail j was none_now inc others) has
      new a =
    elim (eq_or_ne j i) [
      | inl e ↦
          Alone-gives b (has (was ∙ ap some e))
            (λ x k. elim (new x k) [
              | inl both ↦ both
              | inr (here, n) ↦ absurd (not_some (sym none_now ∙ n))
            ])
            (subst (λ x. lock_of x m' ≡ suc (lock_of x m)) e inc) a
      | inr ne ↦
          Alone-fewer
            (λ x k. elim (new x k) [
              | inl (was', other) ↦ was'
              | inr (here, n) ↦ absurd (not_some (sym none_now ∙ n))
            ])
            (others i ne) a
    ]

-- A wait, a post, and anything else.
pub wait-MailMoves :
    (l : Sem) (n : ℕ) (m : Shared) (h : Held)
    → sem_value l m ≡ some (suc n)
    → MayWait h l
    → MailMoves h (with_sem h l) m (set_sem l n m)
unfolding set_sem
wait-MailMoves login n m h e w = keeps refl (λ i. refl)
wait-MailMoves table n m h e w = keeps refl (λ i. refl)
wait-MailMoves fifo n m h e w = keeps refl (λ i. refl)
wait-MailMoves (mail j) n m h e w =
    let (was, (now, others)) = mail-lock j n (suc n) m e in
    takes_mail j refl (was ∙ ap suc (sym now)) others (w.1)

pub post-MailMoves :
    (l : Sem) (n : ℕ) (m : Shared) (h : Held)
    → sem_value l m ≡ some n
    → MayPost h l
    → MailMoves h (without_sem h l) m (set_sem l (suc n) m)
unfolding set_sem
post-MailMoves login n m h e p = keeps refl (λ i. refl)
post-MailMoves table n m h e p = keeps refl (λ i. refl)
post-MailMoves fifo n m h e p = keeps refl (λ i. refl)
post-MailMoves (mail j) n m h e p =
    let (was, (now, others)) = mail-lock j (suc n) n m e in
    gives_mail j p refl (now ∙ ap suc (sym was)) others
