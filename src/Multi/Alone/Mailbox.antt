-- ===== src/Multi/Alone/Mailbox.antt =====
-- The mailbox of a client: what `post_mail` and then the handler of the signal do with it.
use np.Prelude.{
  ℕ, zero, suc, ◌-◌, ◌<◌, ◌≡◌, refl, ap, ◌∙◌, Bool, true, false, [], ◌∷◌, ◌++◌, some, if◌then◌else◌,
  buffer_overflow, get_elem?, length, ltb, arith,
}
use np.Libc.{Bytes, strcpy}
use np.Sys.{write}
use np.Single.State.{as_events}
use np.Multi.Shared.{Client, Shared, mail, set_mailbox}
use np.Multi.Prog.{
  Own, message, ◌>>=◌, ◌>>◌, lift, mine, client_at, write_to, post, send, perform, emit, modify,
}
use np.Multi.Talk.{post_mail, notify, msg_handler, max_msg_len}
use np.Multi.Alone.{Sent, Outcome, returned, faulted, blocked, alone}
use np.Multi.Alone.Entry.{
  with_entry-with_entry, entry-with_entry, alone-client_at, alone-wait, alone-post,
  alone-set_mailbox, alone-send, alone-strcpy, with_entry,
}

-- What `post_mail` comes to, for the client `c` with the number `i`.
abbrev pub posted : ℕ → Client → Bytes → Shared → Own → Sent → Outcome (Unit {0})
posted i c msg m o sent = elim c.lock [
  | zero ↦ blocked (mail i)
  | suc n ↦
      if ltb (length msg) max_msg_len
      then (if c.state
          then returned tt (with_entry i (record c { mailbox = msg; lock = n }) m) o
              ((c.pid, message) ∷ sent)
          else returned tt (with_entry i (record c { mailbox = msg; lock = suc n }) m) o sent)
      else faulted buffer_overflow
]

notify_lem :
    (i : ℕ) (c : Client) (m : Shared) (o : Own) (sent : Sent)
    → get_elem? m.client_list i ≡ some c
    → alone (notify i) m o sent ≡ (
        if c.state
        then returned tt m o ((c.pid, message) ∷ sent)
        else returned tt (with_entry i (record c { lock = suc c.lock }) m) o sent)
unfolding notify
notify_lem i c m o sent h = alone-client_at i c m h o sent _ ∙ by_state c.state
  where
    by_state :
        (b : Bool)
        → alone (if b then (do c' ← client_at i; send c'.pid message) else post (mail i)) m o sent
          ≡ (if b
              then returned tt m o ((c.pid, message) ∷ sent)
              else returned tt (with_entry i (record c { lock = suc c.lock }) m) o sent)
    by_state true = alone-client_at i c m h o sent _ ∙ alone-send c.pid m o sent
    by_state false = alone-post i c m h o sent

-- A process that writes a message for the client `i` stops where it waits if the mailbox is taken.
-- Otherwise it overflows the mailbox if the message has 1024 bytes or more; else the mailbox holds the
-- message, and if the client is there it stays taken and the client's process gets the one signal; if
-- the client has left meanwhile, the mailbox is free again and nobody gets a signal.
pub post_mail_lem :
    (i : ℕ) (c : Client) (msg : Bytes) (m : Shared) (o : Own) (sent : Sent)
    → get_elem? m.client_list i ≡ some c
    → alone (post_mail i msg) m o sent ≡ posted i c msg m o sent
unfolding post_mail
post_mail_lem i c msg m o sent h = alone-wait i c m h o sent _ ∙ by_lock c.lock
  where
    filled :
        (n : ℕ)
        → alone
            (write_to (set_mailbox i msg) >> notify i)
            (with_entry i (record c { lock = n }) m)
            o
            sent
          ≡ (if c.state
              then returned tt
                  (with_entry i (record c { mailbox = msg; lock = n }) m)
                  o
                  ((c.pid, message) ∷ sent)
              else returned tt (with_entry i (record c { mailbox = msg; lock = suc n }) m) o sent)
    filled n =
        let c1 = record c { lock = n } in
        let c2 = record c1 { mailbox = msg } in
        alone-set_mailbox i c1 (with_entry i c1 m) (entry-with_entry i c m h o sent c1) o sent msg _
        ∙ ap (λ x. alone (notify i) x o sent) (with_entry-with_entry m i c1 c2)
        ∙ notify_lem i c2 (with_entry i c2 m) o sent (entry-with_entry i c m h o sent c2)
        ∙ ap
            (λ x.
              if c.state
              then returned tt (with_entry i c2 m) o ((c.pid, message) ∷ sent)
              else returned tt x o sent)
            (with_entry-with_entry m i c2 (record c2 { lock = suc n }))

    by_lock :
        (l : ℕ)
        → elim l [
          | zero ↦ blocked (mail i)
          | suc n ↦
              alone
                (lift (strcpy max_msg_len msg) >>= λ copy.
                  write_to (set_mailbox i copy) >> notify i)
                (with_entry i (record c { lock = n }) m)
                o
                sent
        ]
          ≡ elim l [
            | zero ↦ blocked (mail i)
            | suc n ↦
                if ltb (length msg) max_msg_len
                then (if c.state
                    then returned tt
                        (with_entry i (record c { mailbox = msg; lock = n }) m)
                        o
                        ((c.pid, message) ∷ sent)
                    else returned tt
                        (with_entry i (record c { mailbox = msg; lock = suc n }) m)
                        o
                        sent)
                else faulted buffer_overflow
          ]
    by_lock zero = refl
    by_lock (suc n) =
        alone-strcpy max_msg_len msg _ _ o sent
        ∙ ap (λ x. if ltb (length msg) max_msg_len then x else faulted buffer_overflow) (filled n)

pub posted-taken :
    (i : ℕ) (c : Client) (msg : Bytes) (m : Shared) (o : Own) (sent : Sent)
    → c.lock ≡ 0
    → posted i c msg m o sent ≡ blocked (mail i)
posted-taken i c msg m o sent taken = rw taken refl

-- If there is room, the client is there and the mailbox is free, the message arrives.
pub posted-there :
    (i : ℕ) (c : Client) (msg : Bytes) (m : Shared) (o : Own) (sent : Sent)
    → 0 < c.lock
    → length msg < max_msg_len
    → c.state ≡ true
    → posted i c msg m o sent
      ≡ returned tt
          (with_entry i (record c { mailbox = msg; lock = c.lock - 1 }) m)
          o
          ((c.pid, message) ∷ sent)
posted-there i c msg m o sent free room there =
    by_cases c.lock (ltb (length msg) max_msg_len) c.state free (ground arith) there
  where
    by_cases :
        (l : ℕ) (b s : Bool)
        → 0 < l
        → b ≡ true
        → s ≡ true
        → elim l [
          | zero ↦ blocked (mail i)
          | suc n ↦
              if b
              then (if s
                  then returned tt
                      (with_entry i (record c { mailbox = msg; lock = n }) m)
                      o
                      ((c.pid, message) ∷ sent)
                  else returned tt
                      (with_entry i (record c { mailbox = msg; lock = suc n }) m)
                      o
                      sent)
              else faulted buffer_overflow
        ]
          ≡ returned tt
              (with_entry i (record c { mailbox = msg; lock = l - 1 }) m)
              o
              ((c.pid, message) ∷ sent)
    by_cases zero b s free room there = absurd (omega arith)
    by_cases (suc n) true true free room there =
        ap
          (λ k.
            returned tt (with_entry i (record c { mailbox = msg; lock = k }) m) o
              ((c.pid, message) ∷ sent))
          (omega arith)
    by_cases (suc n) true false free room there = absurd (cc)
    by_cases (suc n) false s free room there = absurd (cc)

msg_handler-running :
    (c : Client) (m : Shared) (o : Own) (sent : Sent)
    → get_elem? m.client_list o.id ≡ some c
    → o.stopped ≡ false
    → alone msg_handler m o sent
      ≡ returned tt
          (with_entry o.id (record c { lock = suc c.lock }) m)
          (record o { trace = o.trace ++ as_events (write o.sockfd c.mailbox ∷ []) })
          sent
unfolding msg_handler alone ◌>>=◌ ◌>>◌ mine perform emit modify
msg_handler-running c m o sent h goes_on = by_test o.stopped goes_on
  where
    by_test :
        (b : Bool)
        → b ≡ false
        → alone
            (if b then post (mail o.id) else (do
              c ← client_at o.id
              perform (write o.sockfd c.mailbox ∷ [])
              post (mail o.id)))
            m
            o
            sent
          ≡ returned tt
              (with_entry o.id (record c { lock = suc c.lock }) m)
              (record o { trace = o.trace ++ as_events (write o.sockfd c.mailbox ∷ []) })
              sent
    by_test true e = absurd (cc)
    by_test false e = alone-client_at o.id c m h o sent _ ∙ alone-post o.id c m h _ sent

-- A message of less than 1024 bytes for a client who is there, has a free mailbox and is not leaving:
-- with no other process moving, the process `o` that writes it returns with one signal sent; the handler
-- of that signal, in the process `p` of the client, then writes the message and nothing else to the
-- client, and leaves the mailbox as free as it was before.
pub post_mail-msg_handler :
    (c : Client) (msg : Bytes) (m : Shared) (o p : Own) (sent : Sent)
    → get_elem? m.client_list p.id ≡ some c
    → 0 < c.lock
    → length msg < max_msg_len
    → c.state ≡ true
    → p.stopped ≡ false
    → (alone (post_mail p.id msg) m o sent
        ≡ returned tt
            (with_entry p.id (record c { mailbox = msg; lock = c.lock - 1 }) m)
            o
            ((c.pid, message) ∷ sent))
      × (alone msg_handler (with_entry p.id (record c { mailbox = msg; lock = c.lock - 1 }) m) p []
          ≡ returned tt
              (with_entry p.id (record c { mailbox = msg }) m)
              (record p { trace = p.trace ++ as_events (write p.sockfd msg ∷ []) })
              [])
post_mail-msg_handler c msg m o p sent h free room there goes_on =
    let c1 = record c { mailbox = msg; lock = c.lock - 1 } in
    let back = with_entry-with_entry m p.id c1 (record c1 { lock = suc c1.lock }) in
    let same_lock : suc (c.lock - 1) ≡ c.lock = omega arith in
    (
      post_mail_lem p.id c msg m o sent h ∙ posted-there p.id c msg m o sent free room there,
      msg_handler-running c1 (with_entry p.id c1 m) p [] (entry-with_entry p.id c m h p [] c1)
            goes_on
          ∙ ap
              (λ x.
                returned tt x (record p { trace = p.trace ++ as_events (write p.sockfd msg ∷ []) })
                  [])
              (back ∙ ap (λ l. with_entry p.id (record c { mailbox = msg; lock = l }) m) same_lock),
    )
