-- ===== src/Multi/Alone/Entry.antt =====
-- The steps of a program on the entry of one client, with no other process moving.
use np.Prelude.{
  ℕ, zero, suc, ◌≡◌, refl, ap, ◌∙◌, Bool, true, false, ◌∷◌, none, some, if◌then◌else◌, ok, fault,
  Fault, buffer_overflow, out_of_bounds, get_elem?, set, set-set, get_elem?-set_self, get_elem?-lt,
  length, ltb,
}
use mathlib.Core.Path.{fun_ext}
use np.Libc.{Bytes, strcpy}
use np.Multi.Shared.{Client, Shared, mail, perform_store, sem_value, set_sem, edit, set_mailbox}
use np.Multi.Prog.{Own, message, Prog, ◌>>=◌, lift, require, client_at, write_to, wait, post, send}
use np.Multi.Alone.{Sent, returned, faulted, blocked, alone}

-- One entry of the table is replaced.
abbrev pub with_entry : ℕ → Client → Shared → Shared
with_entry i c m = record m { client_list = set m.client_list i c }

pub with_entry-with_entry :
    (m : Shared) (i : ℕ) (d e : Client) → with_entry i e (with_entry i d m) ≡ with_entry i e m
with_entry-with_entry m i d e = ap (λ l. record m { client_list = l }) (set-set m.client_list i d e)

-- The steps on the entry `c` of client `i`.
module _ (i : ℕ) (c : Client) (m : Shared) (h : get_elem? m.client_list i ≡ some c) (o : Own)
    (sent : Sent) where
  pub entry-with_entry : (d : Client) → get_elem? (with_entry i d m).client_list i ≡ some d
  entry-with_entry d = get_elem?-set_self m.client_list i d (get_elem?-lt m.client_list i h)

  pub alone-client_at :
      {A : Type 0} (f : Client → Prog A) → alone (client_at i >>= f) m o sent ≡ alone (f c) m o sent
  unfolding alone ◌>>=◌ client_at require
  alone-client_at f = ap (λ x. alone (require x out_of_bounds >>= f) m o sent) h

  sem_value-mail : sem_value (mail i) m ≡ some c.lock
  unfolding sem_value
  sem_value-mail = rw (sem_value, h) refl

  set_sem-mail : (n : ℕ) → set_sem (mail i) n m ≡ with_entry i (record c { lock = n }) m
  unfolding set_sem
  set_sem-mail n = rw (set_sem, h) refl

  set_mailbox-entry :
      (t : Bytes)
      → perform_store (set_mailbox i t) m ≡ ok (with_entry i (record c { mailbox = t }) m)
  unfolding perform_store edit
  set_mailbox-entry t = rw (edit, h) refl

  pub alone-wait :
      {A : Type 0} (f : Unit {0} → Prog A)
      → alone (wait (mail i) >>= f) m o sent ≡ elim c.lock [
        | zero ↦ blocked (mail i)
        | suc n ↦ alone (f tt) (with_entry i (record c { lock = n }) m) o sent
      ]
  unfolding alone ◌>>=◌ wait
  alone-wait f =
      ap
        (λ v. elim v [
          | none ↦ faulted Fault.out_of_bounds
          | some n ↦ elim n [
            | zero ↦ blocked (mail i)
            | suc k ↦ alone (f tt) (set_sem (mail i) k m) o sent
          ]
        ])
        sem_value-mail
      ∙ ap
          (λ (g : ℕ → Shared). elim c.lock [
            | zero ↦ blocked (mail i)
            | suc k ↦ alone (f tt) (g k) o sent
          ])
          (fun_ext set_sem-mail)

  pub alone-post :
      alone (post (mail i)) m o sent
      ≡ returned tt (with_entry i (record c { lock = suc c.lock }) m) o sent
  unfolding alone post
  alone-post =
      ap
        (λ v. elim v [
          | none ↦ faulted Fault.out_of_bounds
          | some n ↦ returned tt (set_sem (mail i) (suc n) m) o sent
        ])
        sem_value-mail
      ∙ ap (λ x. returned tt x o sent) (set_sem-mail (suc c.lock))

  pub alone-set_mailbox :
      {A : Type 0} (t : Bytes) (f : Unit {0} → Prog A)
      → alone (write_to (set_mailbox i t) >>= f) m o sent
        ≡ alone (f tt) (with_entry i (record c { mailbox = t }) m) o sent
  unfolding alone ◌>>=◌ write_to
  alone-set_mailbox t f =
      ap (λ r. elim r [ fault e ↦ faulted e | ok m' ↦ alone (f tt) m' o sent ])
        (set_mailbox-entry t)

pub alone-send :
    (q : ℕ) (m : Shared) (o : Own) (sent : Sent)
    → alone (send q message) m o sent ≡ returned tt m o ((q, message) ∷ sent)
unfolding alone send
alone-send q m o sent = refl

pub alone-strcpy :
    {A : Type 0} (cap : ℕ) (msg : Bytes) (f : Bytes → Prog A) (m : Shared) (o : Own) (sent : Sent)
    → alone (lift (strcpy cap msg) >>= f) m o sent
      ≡ (if ltb (length msg) cap then alone (f msg) m o sent else faulted buffer_overflow)
unfolding alone ◌>>=◌ lift strcpy
alone-strcpy cap msg f m o sent = by_test (ltb (length msg) cap)
  where
    by_test :
        (b : Bool)
        → alone (lift (if b then ok msg else fault buffer_overflow) >>= f) m o sent
          ≡ (if b then alone (f msg) m o sent else faulted buffer_overflow)
    by_test true = refl
    by_test false = refl
