-- ===== src/Multi/Locks/Step.antt =====
-- One step of a program that keeps the discipline, and what it does to the semaphores of the table and
-- of the counter of FIFOs.
use np.Prelude.{
  ℕ, suc, ◌≡◌, refl, false, some, arith, get_elem?, ok, or_fault, >>=-eq-ok, out_of_bounds,
}
use np.Multi.Shared.{
  Client, Shared, Sem, login, table, fifo, mail, Store, set_pid, set_state, set_name, set_mailbox,
  set_from_id, set_user_pipe, set_connection, set_client_num, set_min_id, set_fifo_count, edit,
  perform_store, sem_value, set_sem,
}
use np.Multi.Prog.{Own, Prog}
use np.Multi.System.{Run, run_look, run_own, run_store, run_wait, run_post, run_spin}
use np.Multi.Locks.{
  Held, held, with_sem, MayPost, without_sem, World, is, always, InWorld, Known, Keeps, looks, owns,
  names, forgets, stores, waits, posts, spins,
}
use np.Multi.Locks.Entries.{Sees, store-Kept, set_sem-Sees}
use np.Multi.Locks.Mails.{MailMoves, keeps, wait-MailMoves, post-MailMoves}
use np.Multi.Locks.Exclusive.{Moves, same, takes, gives}

edit-locks :
    (i : ℕ) (f : Client → Client) (m m' : Shared)
    → edit i f m ≡ ok m'
    → (m'.lock2 ≡ m.lock2) × (m'.fifo_lock ≡ m.fifo_lock)
unfolding edit
edit-locks i f m m' h = ground arith

-- A write to shared memory leaves the semaphores as they are.
store-locks :
    (w : Store) (m m' : Shared)
    → perform_store w m ≡ ok m'
    → (m'.lock2 ≡ m.lock2) × (m'.fifo_lock ≡ m.fifo_lock)
unfolding perform_store
store-locks (set_pid i x) m m' h = edit-locks i _ m m' h
store-locks (set_state i x) m m' h = edit-locks i _ m m' h
store-locks (set_name i x) m m' h = edit-locks i _ m m' h
store-locks (set_mailbox i x) m m' h = edit-locks i _ m m' h
store-locks (set_from_id i x) m m' h = edit-locks i _ m m' h
store-locks (set_user_pipe i j x) m m' h =
    let (c, a, b) = >>=-eq-ok (or_fault (get_elem? m.client_list i) out_of_bounds) _ h in
    let (old, d, e) = >>=-eq-ok (or_fault (get_elem? c.user_pipe j) out_of_bounds) _ b in
    edit-locks i _ m m' e
store-locks (set_connection i x) m m' h = edit-locks i _ m m' h
store-locks (set_client_num n) m m' h = ground arith
store-locks (set_min_id n) m m' h = ground arith
store-locks (set_fifo_count n) m m' h = ground arith

mail-locks :
    (i n : ℕ) (m : Shared)
    → ((set_sem (mail i) n m).lock2 ≡ m.lock2) × ((set_sem (mail i) n m).fifo_lock ≡ m.fifo_lock)
unfolding set_sem
mail-locks i n m = ground arith

-- What a step does to the two semaphores, for a thread that held `h` and then holds `h'`.
abbrev pub Both : Held → Held → Shared → Shared → Type 0
Both h h' m m' =
    Moves h.table h'.table m.lock2 m'.lock2 × Moves h.fifo h'.fifo m.fifo_lock m'.fifo_lock

wait-Both :
    (l : Sem) (n : ℕ) (m : Shared) (h : Held)
    → sem_value l m ≡ some (suc n)
    → Both h (with_sem h l) m (set_sem l n m)
unfolding sem_value set_sem
wait-Both login n m h e = (same refl refl, same refl refl)
wait-Both table n m h e = (takes refl (ground arith), same refl refl)
wait-Both fifo n m h e = (same refl refl, takes refl (ground arith))
wait-Both (mail i) n m h e = (same refl (mail-locks i n m).0, same refl (mail-locks i n m).1)

post-Both :
    (l : Sem) (n : ℕ) (m : Shared) (h : Held)
    → sem_value l m ≡ some n
    → MayPost h l
    → Both h (without_sem h l) m (set_sem l (suc n) m)
unfolding sem_value set_sem
post-Both login n m h e q = (same refl refl, same refl refl)
post-Both table n m h e q = (gives q refl (ground arith), same refl refl)
post-Both fifo n m h e q = (same refl refl, gives q refl (ground arith))
post-Both (mail i) n m h e q =
    (same refl (mail-locks i (suc n) m).0, same refl (mail-locks i (suc n) m).1)

-- What a step of a thread comes to: its program and what it then holds, what is known of the process's
-- number, the semaphores, and the entries.
pub record Stepped (Mine : ℕ → ℕ → Type 0) (m m' : Shared) (o' : Own) (k' : Prog (Unit {0}))
    (h : Held) : Type 0 where
  pub then_holds : Held
  pub world : World
  pub keeps_on : Keeps Mine world (held false) then_holds k'
  pub in_world : InWorld world o'
  pub both_locks : Both h then_holds m m'
  pub mails : MailMoves h then_holds m m'
  pub sees : Sees Mine m → Sees Mine m'

-- A step of a program that keeps the discipline leads to one that does.
pub Run-Keeps :
    {Mine : ℕ → ℕ → Type 0} {m m' : Shared} {o o' : Own} {k k' : Prog (Unit {0})} {w : World}
    {h : Held}
    → Run m o k m' o' k'
    → InWorld w o
    → Known Mine m o
    → Keeps Mine w (held false) h k
    → Stepped Mine m m' o' k' h
Run-Keeps {m = m} {o = o} {w = w} {h = h} run_look q v (looks k) = record {
  then_holds = h;
  world = w;
  keeps_on = k m o q v;
  in_world = q;
  both_locks = (same refl refl, same refl refl);
  mails = keeps refl (λ i. refl);
  sees = λ s. s;
}
Run-Keeps {o = o} {w = w} {h = h} run_own q v (owns f k) = record {
  then_holds = h;
  world = w;
  keeps_on = k;
  in_world = f o q;
  both_locks = (same refl refl, same refl refl);
  mails = keeps refl (λ i. refl);
  sees = λ s. s;
}
Run-Keeps {o = o} {h = h} run_own q v (names {i = i} f k) = record {
  then_holds = h;
  world = is i;
  keeps_on = k;
  in_world = f o;
  both_locks = (same refl refl, same refl refl);
  mails = keeps refl (λ i. refl);
  sees = λ s. s;
}
Run-Keeps {Mine} {m = m} {m' = m'} {w = w} {h = h} (run_store {w = s} e) q v (stores n k) =
    let (a, b) = store-locks s m m' e in
    let (sees', locks') = store-Kept Mine h s m m' n e in
    record {
      then_holds = h;
      world = w;
      keeps_on = k;
      in_world = q;
      both_locks = (same refl a, same refl b);
      mails = keeps refl locks';
      sees = sees';
    }
Run-Keeps {Mine} {m = m} {w = w} {h = h} (run_wait {l = l} {n = n} e) q v (waits r k) = record {
  then_holds = with_sem h l;
  world = w;
  keeps_on = k;
  in_world = q;
  both_locks = wait-Both l n m h e;
  mails = wait-MailMoves l n m h e r;
  sees = set_sem-Sees Mine l n m;
}
Run-Keeps {Mine} {m = m} {w = w} {h = h} (run_post {l = l} {n = n} e) q v (posts r k) = record {
  then_holds = without_sem h l;
  world = w;
  keeps_on = k;
  in_world = q;
  both_locks = post-Both l n m h e r;
  mails = post-MailMoves l n m h e r;
  sees = set_sem-Sees Mine l (suc n) m;
}
Run-Keeps {w = w} {h = h} (run_spin e) q v (spins r k) = record {
  then_holds = h;
  world = w;
  keeps_on = k;
  in_world = q;
  both_locks = (same refl refl, same refl refl);
  mails = keeps refl (λ i. refl);
  sees = λ s. s;
}
Run-Keeps run_look q v (forgets k) = Run-Keeps run_look tt v k
Run-Keeps run_own q v (forgets k) = Run-Keeps run_own tt v k
Run-Keeps (run_store e) q v (forgets k) = Run-Keeps (run_store e) tt v k
Run-Keeps (run_wait e) q v (forgets k) = Run-Keeps (run_wait e) tt v k
Run-Keeps (run_post e) q v (forgets k) = Run-Keeps (run_post e) tt v k
Run-Keeps (run_spin e) q v (forgets k) = Run-Keeps (run_spin e) tt v k

-- Who knows its number for good does not forget it.
pub Run-always :
    {Mine : ℕ → ℕ → Type 0} {m m' : Shared} {o o' : Own} {k k' : Prog (Unit {0})} {i : ℕ} {h : Held}
    (r : Run m o k m' o' k') (q : o.id ≡ i) (v : Known Mine m o)
    (keeps_it : Keeps Mine (always i) (held false) h k)
    → (Run-Keeps r q v keeps_it).world ≡ always i
unfolding Run-Keeps
Run-always run_look q v (looks k) = refl
Run-always run_own q v (owns f k) = refl
Run-always (run_store e) q v (stores n k) = refl
Run-always (run_wait e) q v (waits r k) = refl
Run-always (run_post e) q v (posts r k) = refl
Run-always (run_spin e) q v (spins r k) = refl
