-- ===== src/Multi/Locks/Moved.antt =====
-- What each kind of step does to what all threads hold, and to the mailboxes.
use np.Prelude.{ℕ, ◌⊎◌, ◌≢◌, ◌≡◌, refl, sym, ap, ◌∙◌, subst, true, false, none, some, inl, inr}
use np.Sys.{Os, SockAddr}
use np.Multi.Shared.{Shared}
use np.Multi.Prog.{Own, Signal, Prog, ret, kill, spawn}
use np.Multi.System.{Proc, System, Run, update, signal, child}
use np.Multi.Locks.{Held, held, any, always, InWorld, Keeps}
use np.Multi.Locks.Handlers.{own_mail}
use np.Multi.Locks.Session.{session-Keeps}
use np.Multi.Locks.Exclusive.{same}
use np.Multi.Locks.Step.{Run-Keeps, Run-always}
use np.Multi.Locks.Mails.{keeps, Slot, in_main, in_handler, with_message, with_pipe, Has, HasMail}
use np.Multi.Locks.Holders.{Holding, both, some-eq}
use np.Multi.Locks.Waiting.{
  main-MailsAlone, handler-MailsAlone, free-MailsAlone, begin-MailsAlone, without_mail,
  kill-MailsAlone,
}
use np.Multi.Locks.Guarded.{
  Follows, Local, IsGuarded, IsGuarded-main, IsGuarded-handler, IsGuarded-free, IsGuarded-signal,
}
use np.Multi.Locks.Numbered.{
  IsNumbered, IsNamed, Moved, Keeps-ret, Keeps-kill, Keeps-spawn, known, still, some_eq, program-eq,
}

module _ {Mine : ℕ → ℕ → Type 0} (s : System) (g : Holding) (v : IsGuarded Mine s g)
    (n : IsNumbered Mine s) where
  pub moves_main :
      (p : ℕ) {pr : Proc} {m : Shared} {o : Own} {k : Prog (Unit {0})}
      → s.procs p ≡ some pr
      → pr.handler ≡ none
      → Run s.shared pr.own pr.main m o k
      → Moved Mine s
          (record { shared = m; procs = update s.procs p (some (record pr { own = o; main = k })) })
          g
  moves_main p {pr} {m} {o} {k} e idle run =
      let l = v.each p pr e in
      let (w, in_w, k0) = l.main_ok in
      let r = Run-Keeps run in_w (known s g p pr v n e) k0 in
      record {
        then_held = both g p r.then_holds (g p true);
        guarded =
            IsGuarded-main s g p pr (record pr { own = o; main = k }) r.then_holds m v e
              (record {
                main_ok = (r.world, r.in_world, r.keeps_on);
                handler_ok = λ k' f. absurd (cc);
                quiet = l.quiet;
              })
              r.both_locks (r.sees v.sees);
        mails_go = λ named mails.
            main-MailsAlone Mine g s.procs p pr (record pr { own = o; main = k }) r.then_holds
              s.shared m e (record { same_message = refl; same_pipe = refl }) r.mails mails;
      }

  pub moves_handler :
      (p : ℕ) {pr : Proc} {m : Shared} {o : Own} {h k : Prog (Unit {0})}
      → s.procs p ≡ some pr
      → pr.handler ≡ some h
      → Run s.shared pr.own h m o k
      → Moved Mine s
          (record {
            shared = m;
            procs = update s.procs p (some (record pr { own = o; handler = some k }));
          })
          g
  moves_handler p {pr} {m} {o} {h} {k} e running run =
      let l = v.each p pr e in
      let (id, is_id, k0) = l.handler_ok h running in
      let stays = Run-always run is_id (known s g p pr v n e) k0 in
      let r = Run-Keeps run is_id (known s g p pr v n e) k0 in
      let now_id : o.id ≡ id = subst (λ w. InWorld w o) stays r.in_world in
      record {
        then_held = both g p (g p false) r.then_holds;
        guarded =
            IsGuarded-handler s g p pr (record pr { own = o; handler = some k }) r.then_holds m v e
              (record {
                main_ok = still l.main_ok (now_id ∙ sym is_id);
                handler_ok = λ k' f. (
                  id,
                  now_id,
                  subst (Keeps Mine (always id) (held false) r.then_holds) (program-eq f)
                      (subst (λ w. Keeps Mine w (held false) r.then_holds k) stays r.keeps_on),
                );
                quiet = λ f. absurd (cc);
              })
              r.both_locks (r.sees v.sees);
        mails_go = λ named mails.
            handler-MailsAlone Mine g s.procs p pr (record pr { own = o; handler = some k })
              r.then_holds s.shared m e (record { same_message = refl; same_pipe = refl }) r.mails
              mails;
      }

  -- A handler begins, with the mailbox that the signal in the slot `b` has brought.
  pub moves_begin :
      (p : ℕ) (pr pr' : Proc) (k : Prog (Unit {0})) (b : Slot)
      → s.procs p ≡ some pr
      → pr.handler ≡ none
      → pr'.main ≡ pr.main
      → pr'.handler ≡ some k
      → pr'.own ≡ pr.own
      → ((i : ℕ) → Mine p i → HasMail Mine g s.procs i (p, b))
      → ((i : ℕ) (a : Slot)
          → a ≢ in_handler
          → Has Mine p (g p false) (own_mail pr.own.id) (some pr') i a
          → HasMail Mine g s.procs i (p, a) × (a ≢ b))
      → Keeps Mine (always pr.own.id) (held false) (own_mail pr.own.id) k
      → Moved Mine s (record s { procs = update s.procs p (some pr') }) g
  moves_begin p pr pr' k b e idle main_same new own_same waits slots keeps_it =
      let l = v.each p pr e in
      let quiet : g p true ≡ held false = l.quiet idle in
      record {
        then_held = both g p (g p false) (own_mail pr.own.id);
        guarded =
            IsGuarded-handler s g p pr pr' (own_mail pr.own.id) s.shared v e
              (record {
                main_ok =
                    subst (Follows Mine (g p false) pr'.own) (sym main_same)
                      (subst (λ o. Follows Mine (g p false) o pr.main) (sym own_same) l.main_ok);
                handler_ok = λ k' f. (
                  pr.own.id,
                  ap (λ (o : Own). o.id) own_same,
                  subst (Keeps Mine (always pr.own.id) (held false) (own_mail pr.own.id))
                      (program-eq (sym new ∙ f)) keeps_it,
                );
                quiet = λ f. absurd (cc);
              })
              (
                same (sym (ap (λ (h : Held). h.table) quiet)) refl,
                same (sym (ap (λ (h : Held). h.fifo) quiet)) refl,
              )
              v.sees;
        mails_go = λ named mails.
            begin-MailsAlone Mine g s.procs p pr.own.id pr' s.shared b
              (self_at named (n.selves p pr e)) waits all_slots mails;
      }
    where
      self_at :
          IsNamed Mine s
          → (pr.own.id ≡ 0) ⊎ Mine pr.own.pid pr.own.id
          → (pr.own.id ≡ 0) ⊎ Mine p pr.own.id
      self_at named (inl z) = inl z
      self_at named (inr a) = inr (subst (λ x. Mine x pr.own.id) (named.pids p pr e) a)

      all_slots :
          (i : ℕ) (a : Slot)
          → Has Mine p (g p false) (own_mail pr.own.id) (some pr') i a
          → (HasMail Mine g s.procs i (p, a) × (a ≢ b)) ⊎ ((a ≡ in_handler) × (pr.own.id ≡ i))
      all_slots i in_main h = inl (slots i in_main (λ d. absurd (cc)) h)
      all_slots i in_handler h = inr (refl, some_eq h)
      all_slots i with_message h = inl (slots i with_message (λ d. absurd (cc)) h)
      all_slots i with_pipe h = inl (slots i with_pipe (λ d. absurd (cc)) h)

  pub moves_end :
      (p : ℕ) {pr : Proc}
      → s.procs p ≡ some pr
      → pr.handler ≡ some (ret tt)
      → Moved Mine s (record s { procs = update s.procs p (some (record pr { handler = none })) }) g
  moves_end p {pr} e running =
      let l = v.each p pr e in
      let (id, is_id, k) = l.handler_ok (ret tt) running in
      record {
        then_held = both g p (g p false) (g p true);
        guarded =
            IsGuarded-handler s g p pr (record pr { handler = none }) (g p true) s.shared v e
              (record {
                main_ok = l.main_ok;
                handler_ok = λ k' f. absurd (cc);
                quiet = λ f. Keeps-ret k;
              })
              (same refl refl, same refl refl) v.sees;
        mails_go = λ named mails.
            handler-MailsAlone Mine g s.procs p pr (record pr { handler = none }) (g p true)
              s.shared s.shared e (record { same_message = refl; same_pipe = refl })
              (keeps refl (λ i. refl)) mails;
      }

  -- The main program goes on with `k`, holding what it held.
  pub moves_on :
      (p : ℕ) {pr : Proc} {k : Prog (Unit {0})} (h0 : Held)
      → s.procs p ≡ some pr
      → Follows Mine h0 pr.own k
      → h0.table ≡ (g p false).table
      → h0.fifo ≡ (g p false).fifo
      → IsGuarded Mine
          (record s { procs = update s.procs p (some (record pr { main = k })) })
          (both g p h0 (g p true))
  moves_on p {pr} {k} h0 e f t i =
      let l = v.each p pr e in
      IsGuarded-main s g p pr (record pr { main = k }) h0 s.shared v e
        (record { main_ok = f; handler_ok = l.handler_ok; quiet = l.quiet })
        (same t refl, same i refl) v.sees

  pub moves_kill :
      (p : ℕ) {pr : Proc} {q : ℕ} {sig : Signal} {k : Prog (Unit {0})}
      → s.procs p ≡ some pr
      → pr.main ≡ kill q sig k
      → Moved Mine s
          (record s { procs = signal (update s.procs p (some (record pr { main = k }))) q sig })
          g
  moves_kill p {pr} {q} {sig} {k} e act =
      let l = v.each p pr e in
      let (w, in_w, k0) = l.main_ok in
      let (j, mine, to, f) =
        Keeps-kill pr.own in_w (subst (Keeps Mine w (held false) (g p false)) act k0) in
      record {
        then_held = without_mail g p;
        guarded =
            IsGuarded-signal s.shared (update s.procs p (some (record pr { main = k }))) _ q sig
              (moves_on p (record (g p false) { mail = none }) e f refl refl);
        mails_go = λ named mails.
            kill-MailsAlone Mine g s.procs p q j sig pr (record pr { main = k }) s.shared e
              (record { same_message = refl; same_pipe = refl }) named.nobody mine to named.only
              mails;
      }

  pub moves_ends : (p : ℕ) → Moved Mine s (record s { procs = update s.procs p none }) g
  moves_ends p = record {
    then_held = both g p (held false) (held false);
    guarded = IsGuarded-free s g p none v (λ pr f. absurd (cc));
    mails_go =
        λ named mails. free-MailsAlone Mine g s.procs p none s.shared (λ pr f. absurd (cc)) mails;
  }

  pub moves_spawn :
      (os : Os) (rounds msockfd : ℕ) (p c : ℕ) {pr : Proc} {fd : ℕ} {addr : SockAddr}
      {k : Prog (Unit {0})}
      → s.procs p ≡ some pr
      → pr.main ≡ spawn fd addr k
      → Moved Mine s
          (record s {
            procs =
                update
                  (update s.procs p (some (record pr { main = k })))
                  c
                  (some (child os rounds msockfd c fd addr pr));
          })
          g
  moves_spawn os rounds msockfd p c {pr} {fd} {addr} {k} e act =
      let l = v.each p pr e in
      let (w, in_w, k0) = l.main_ok in
      let f = Keeps-spawn pr.own in_w (subst (Keeps Mine w (held false) (g p false)) act k0) in
      record {
        then_held = both (both g p (g p false) (g p true)) c (held false) (held false);
        guarded =
            IsGuarded-free (record s { procs = update s.procs p (some (record pr { main = k })) }) _
              c (some (child os rounds msockfd c fd addr pr)) (moves_on p (g p false) e f refl refl)
              (λ pr' f.
                subst (λ x. Local Mine x (held false) (held false)) (some-eq f)
                  (record {
                    main_ok = (any, tt, session-Keeps os rounds msockfd addr);
                    handler_ok = λ k' f'. absurd (cc);
                    quiet = λ f'. refl;
                  }));
        mails_go = λ named mails.
            free-MailsAlone Mine (both g p (g p false) (g p true))
              (update s.procs p (some (record pr { main = k }))) c
              (some (child os rounds msockfd c fd addr pr)) s.shared
              (λ pr' f. (
                sym (ap (λ (y : Proc). y.message_waits) (some-eq f)),
                sym (ap (λ (y : Proc). y.pipe_waits) (some-eq f)),
              ))
              (main-MailsAlone Mine g s.procs p pr (record pr { main = k }) (g p false) s.shared
                s.shared e (record { same_message = refl; same_pipe = refl })
                (keeps refl (λ i. refl)) mails);
      }
