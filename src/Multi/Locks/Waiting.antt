-- ===== src/Multi/Locks/Waiting.antt =====
-- The mailboxes have one holder each, whatever a process does: its program or its handler moves, it begins
-- or ends, a handler begins with the mailbox that a signal has brought, or a signal takes a mailbox along.
use np.Prelude.{
  ℕ, ◌≡◌, ◌≢◌, refl, sym, ap, ◌∙◌, subst, ◌⊎◌, inl, inr, Bool, true, false, Option, none, some,
  ◌==◌, if◌then◌else◌, arith, Bool-cases,
}
use np.Multi.Shared.{Shared}
use np.Multi.Prog.{Signal, message, user_pipe}
use np.Multi.System.{Proc, update, wake, signal}
use np.Multi.Locks.{Held, held, Belongs}
use np.Multi.Locks.Handlers.{own_mail}
use np.Multi.Locks.Mails.{
  Alone-fewer, Alone-passes, Slot, in_main, in_handler, with_message, with_pipe, Has, Holder,
  HasMail, MailMoves, MailMoves-Alone,
}
use np.Multi.Locks.Holders.{Holding, both, MailsAlone, same_or_not, some-eq, by_slots, no_more}

-- The same signals wait for both.
pub record SameSignals (pr pr' : Proc) : Type 0 where
  pub same_message : pr'.message_waits ≡ pr.message_waits
  pub same_pipe : pr'.pipe_waits ≡ pr.pipe_waits

module _ (Mine : ℕ → ℕ → Type 0) (g : Holding) (procs : ℕ → Option Proc) (p : ℕ)
    (pr pr' : Proc) where
  pub message_before :
      (h0 h1 : Held) (i : ℕ)
      → procs p ≡ some pr
      → pr'.message_waits ≡ pr.message_waits
      → Has Mine p h0 h1 (some pr') i with_message
      → HasMail Mine g procs i (p, with_message)
  message_before h0 h1 i e same (pr'', is, waits, n) =
      (pr, e, sym same ∙ ap (λ (y : Proc). y.message_waits) (some-eq is) ∙ waits, n)

  pub pipe_before :
      (h0 h1 : Held) (i : ℕ)
      → procs p ≡ some pr
      → pr'.pipe_waits ≡ pr.pipe_waits
      → Has Mine p h0 h1 (some pr') i with_pipe
      → HasMail Mine g procs i (p, with_pipe)
  pipe_before h0 h1 i e same (pr'', is, waits, n) =
      (pr, e, sym same ∙ ap (λ (y : Proc). y.pipe_waits) (some-eq is) ∙ waits, n)

  pub main-MailsAlone :
      (h0 : Held) (m m' : Shared)
      → procs p ≡ some pr
      → SameSignals pr pr'
      → MailMoves (g p false) h0 m m'
      → MailsAlone Mine g procs m
      → MailsAlone Mine (both g p h0 (g p true)) (update procs p (some pr')) m'
  main-MailsAlone h0 m m' e same moves all i ne =
      MailMoves-Alone i (p, in_main) moves (λ h. h)
        (by_slots Mine g procs p h0 (g p true) (some pr') i in_main in_main slots) (all i ne)
    where
      slots :
          (a : Slot)
          → Has Mine p h0 (g p true) (some pr') i a
          → (HasMail Mine g procs i (p, a) × (a ≢ in_main)) ⊎ ((a ≡ in_main) × (h0.mail ≡ some i))
      slots in_main h = inr (refl, h)
      slots in_handler h = inl (h, λ d. absurd (cc))
      slots with_message h =
          inl (message_before h0 (g p true) i e same.same_message h, λ d. absurd (cc))
      slots with_pipe h = inl (pipe_before h0 (g p true) i e same.same_pipe h, λ d. absurd (cc))

  pub handler-MailsAlone :
      (h1 : Held) (m m' : Shared)
      → procs p ≡ some pr
      → SameSignals pr pr'
      → MailMoves (g p true) h1 m m'
      → MailsAlone Mine g procs m
      → MailsAlone Mine (both g p (g p false) h1) (update procs p (some pr')) m'
  handler-MailsAlone h1 m m' e same moves all i ne =
      MailMoves-Alone i (p, in_handler) moves (λ h. h)
        (by_slots Mine g procs p (g p false) h1 (some pr') i in_handler in_handler slots) (all i ne)
    where
      slots :
          (a : Slot)
          → Has Mine p (g p false) h1 (some pr') i a
          → (HasMail Mine g procs i (p, a) × (a ≢ in_handler))
            ⊎ ((a ≡ in_handler) × (h1.mail ≡ some i))
      slots in_main h = inl (h, λ d. absurd (cc))
      slots in_handler h = inr (refl, h)
      slots with_message h =
          inl (message_before (g p false) h1 i e same.same_message h, λ d. absurd (cc))
      slots with_pipe h = inl (pipe_before (g p false) h1 i e same.same_pipe h, λ d. absurd (cc))

-- A process that holds nothing and for which no signal waits, or none.
pub free-MailsAlone :
    (Mine : ℕ → ℕ → Type 0) (g : Holding) (procs : ℕ → Option Proc) (p : ℕ) (x : Option Proc)
    (m : Shared)
    → ((pr : Proc) → x ≡ some pr → (pr.message_waits ≡ false) × (pr.pipe_waits ≡ false))
    → MailsAlone Mine g procs m
    → MailsAlone Mine (both g p (held false) (held false)) (update procs p x) m
free-MailsAlone Mine g procs p x m quiet all i ne =
    Alone-fewer (no_more Mine g procs p (held false) (held false) x i slots) refl (all i ne)
  where
    slots : (a : Slot) → Has Mine p (held false) (held false) x i a → HasMail Mine g procs i (p, a)
    slots in_main h = absurd (cc)
    slots in_handler h = absurd (cc)
    slots with_message (pr, e, waits, n) = absurd (cc ((quiet pr e).0, waits))
    slots with_pipe (pr, e, waits, n) = absurd (cc ((quiet pr e).1, waits))

-- A handler begins: the mailbox goes from the slot `b` of the signal to the handler.
pub begin-MailsAlone :
    (Mine : ℕ → ℕ → Type 0) (g : Holding) (procs : ℕ → Option Proc) (p id : ℕ) (pr' : Proc)
    (m : Shared) (b : Slot)
    → (id ≡ 0) ⊎ (Mine p id)
    → ((i : ℕ) → Mine p i → HasMail Mine g procs i (p, b))
    → ((i : ℕ) (a : Slot)
        → Has Mine p (g p false) (own_mail id) (some pr') i a
        → (HasMail Mine g procs i (p, a) × (a ≢ b)) ⊎ ((a ≡ in_handler) × (id ≡ i)))
    → MailsAlone Mine g procs m
    → MailsAlone Mine (both g p (g p false) (own_mail id)) (update procs p (some pr')) m
begin-MailsAlone Mine g procs p id pr' m b self waits slots all i ne = elim (same_or_not id i) [
  | inl e ↦
      Alone-passes (p, b) (p, in_handler) (waits i (mine e self))
        (λ y h.
          elim (by_slots Mine g procs p (g p false) (own_mail id) (some pr') i b in_handler
            (slots i) y h) [ inl was ↦ inl was | inr (here, n) ↦ inr here ])
        refl (all i ne)
  | inr other ↦
      Alone-fewer
        (no_more Mine g procs p (g p false) (own_mail id) (some pr') i
          (λ a h. elim (slots i a h) [ inl (was, n) ↦ was | inr (here, e) ↦ absurd (other e) ]))
        refl (all i ne)
]
  where
    mine : id ≡ i → (id ≡ 0) ⊎ (Mine p id) → Mine p i
    mine e (inl none_yet) = absurd (ne (sym e ∙ none_yet))
    mine e (inr n) = subst (λ x. Mine p x) e n

-- The slot of a signal that waits.
abbrev pub slot_of : Signal → Slot
slot_of message = with_message
slot_of user_pipe = with_pipe

-- After a signal to `q` a mailbox is held as before, or by that signal.
module _ (Mine : ℕ → ℕ → Type 0) (g : Holding) (procs : ℕ → Option Proc) (q i : ℕ) where
  abbrev Signalled : Signal → Holder → Type 0
  Signalled sig y =
      HasMail Mine g procs i y ⊎ ((y ≡ (q, slot_of sig)) × (Mine q i) × (procs q ≢ none))

  woken :
      (sig : Signal) (a : Slot) (x : Option Proc)
      → procs q ≡ x
      → Has Mine q
          (g q false)
          (g q true)
          (elim x [ none ↦ none | some pr ↦ some (wake sig pr) ])
          i
          a
      → Signalled sig (q, a)
  woken sig in_main x e h = inl h
  woken sig in_handler x e h = inl h
  woken sig with_message none e (pr, is, waits, n) = absurd (cc)
  woken sig with_pipe none e (pr, is, waits, n) = absurd (cc)
  woken message with_message (some pr0) e (pr, is, waits, n) = inr (refl, n, λ f. absurd (cc))
  woken message with_pipe (some pr0) e (pr, is, waits, n) =
      inl (pr0, e, ap (λ (y : Proc). y.pipe_waits) (some-eq is) ∙ waits, n)
  woken user_pipe with_pipe (some pr0) e (pr, is, waits, n) = inr (refl, n, λ f. absurd (cc))
  woken user_pipe with_message (some pr0) e (pr, is, waits, n) =
      inl (pr0, e, ap (λ (y : Proc). y.message_waits) (some-eq is) ∙ waits, n)

  after_signal :
      (sig : Signal) (r : ℕ) (a : Slot)
      → HasMail Mine g (signal procs q sig) i (r, a)
      → Signalled sig (r, a)
  after_signal sig r a h = elim (Bool-cases (r == q)) [
    | inl t ↦
        let r_q : r ≡ q = ground arith in
        subst (λ x. Signalled sig (x, a)) (sym r_q)
          (woken sig a (procs q) refl (
            subst
              (λ x.
                Has Mine x (g x false) (g x true)
                  (elim (procs q) [ none ↦ none | some pr ↦ some (wake sig pr) ]) i a)
              r_q (rw t at h)))
    | inr t ↦ inl (rw t at h)
  ]

-- The program of `p` then holds no mailbox.
abbrev pub without_mail : Holding → ℕ → Holding
without_mail g p = both g p (record (g p false) { mail = none }) (g p true)

-- A signal takes the mailbox along, to a process of its client.
pub kill-MailsAlone :
    (Mine : ℕ → ℕ → Type 0) (g : Holding) (procs : ℕ → Option Proc) (p q j : ℕ) (sig : Signal)
    (pr pr' : Proc) (m : Shared)
    → procs p ≡ some pr
    → SameSignals pr pr'
    → procs 0 ≡ none
    → (g p false).mail ≡ some j
    → Belongs Mine q j
    → ((q i j : ℕ) → Mine q i → Mine q j → i ≡ j)
    → MailsAlone Mine g procs m
    → MailsAlone Mine (without_mail g p) (signal (update procs p (some pr')) q sig) m
kill-MailsAlone Mine g procs p q j sig pr pr' m e same nobody mine to only all i ne =
    elim (same_or_not j i) [
      | inl j_i ↦
          Alone-passes (p, in_main) (q, slot_of sig) (mine ∙ ap some j_i)
            (λ (r, a) h.
              elim (after_signal Mine (without_mail g p) (update procs p (some pr')) q i sig r a
                h) [ inl was ↦ inl (before (r, a) was) | inr (here, n, there) ↦ inr here ])
            refl (all i ne)
      | inr other ↦
          Alone-fewer
            (λ (r, a) h.
              elim (after_signal Mine (without_mail g p) (update procs p (some pr')) q i sig r a
                h) [
                  | inl was ↦ (before (r, a) was).0
                  | inr (here, n, there) ↦ absurd (to_other to other n there)
                ])
            refl (all i ne)
    ]
  where
    slots :
        (a : Slot)
        → Has Mine p (record (g p false) { mail = none }) (g p true) (some pr') i a
        → (HasMail Mine g procs i (p, a) × (a ≢ in_main)) ⊎ ((a ≡ in_main) × ⊥)
    slots in_main h = absurd (cc)
    slots in_handler h = inl (h, λ d. absurd (cc))
    slots with_message h = inl (
      message_before Mine g procs p pr pr' (record (g p false) { mail = none }) (g p true) i e
          same.same_message h,
      λ d. absurd (cc),
    )
    slots with_pipe h = inl (
      pipe_before Mine g procs p pr pr' (record (g p false) { mail = none }) (g p true) i e
          same.same_pipe h,
      λ d. absurd (cc),
    )

    before :
        (y : Holder)
        → HasMail Mine (without_mail g p) (update procs p (some pr')) i y
        → HasMail Mine g procs i y × (y ≢ (p, in_main))
    before y h =
        elim (by_slots Mine g procs p (record (g p false) { mail = none }) (g p true) (some pr') i
          in_main in_main slots y h) [ inl was ↦ was | inr (here, bad) ↦ absurd bad ]

    nobody_yet : (b : Bool) → (0 == p) ≡ b → (if b then some pr' else procs 0) ≡ none
    nobody_yet true t =
        let zero_p : 0 ≡ p = ground arith in
        absurd (cc (e, subst (λ x. procs x ≡ none) zero_p nobody))
    nobody_yet false t = nobody

    to_other : Belongs Mine q j → j ≢ i → Mine q i → (update procs p (some pr')) q ≢ none → ⊥
    to_other (inl z) other n there =
        there (subst (λ x. (update procs p (some pr')) x ≡ none) (sym z) (nobody_yet (0 == p) refl))
    to_other (inr n') other n there = other (only q j i n' n)
