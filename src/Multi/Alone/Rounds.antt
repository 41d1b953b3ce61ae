-- ===== src/Multi/Alone/Rounds.antt =====
-- The rounds of `broadcast` in np_multi_proc, with no other process moving.
use np.Prelude.{
  ℕ, suc, ◌+◌, ◌-◌, ◌<◌, ◌≡◌, refl, sym, ap, ◌∙◌, Bool, true, false, not, ◌&&◌, List, [], ◌∷◌, ◌++◌,
  some, if◌then◌else◌, ◌==◌, length, get_elem?, get_elem?-middle, set-middle, append_assoc,
  length-append, arith,
}
use np.Libc.{Bytes}
use np.Sys.{write}
use np.Single.State.{as_events}
use np.Multi.Shared.{Client, Shared, mail}
use np.Multi.Prog.{Own, message, ret, ◌>>=◌, ◌>>◌, mine, perform, emit, modify}
use np.Multi.Talk.{post_mail, broadcast_to, broadcast_loop, max_msg_len}
use np.Multi.Alone.{Sent, returned, blocked, alone, then_alone, alone->>=}
use np.Multi.Alone.Entry.{alone-client_at}
use np.Multi.Alone.Mailbox.{post_mail_lem, posted, posted-there, posted-taken}

-- Is the client `c` with the number `i` there, and another than `me`?
abbrev pub is_other : ℕ → ℕ → Client → Bool
is_other me i c = c.state && not (i == me)

-- The clients from number `i` on who have a message to get have free mailboxes.
abbrev pub IsFree : ℕ → ℕ → List Client → Type 0
IsFree me i [] = Unit
IsFree me i (c ∷ cs) = (is_other me i c ≡ true → 0 < c.lock) × IsFree me (i + 1) cs

-- Each of them finds `msg` in the mailbox, which is taken once more; the entries of the others stay.
abbrev pub heard : ℕ → ℕ → Bytes → List Client → List Client
heard me i msg [] = []
heard me i msg (c ∷ cs) =
    (if is_other me i c then record c { mailbox = msg; lock = c.lock - 1 } else c)
    ∷ heard me (i + 1) msg cs

-- Each of them gets one signal.
abbrev pub notices : ℕ → ℕ → List Client → Sent → Sent
notices me i [] sent = sent
notices me i (c ∷ cs) sent =
    notices me (i + 1) cs (if is_other me i c then (c.pid, message) ∷ sent else sent)

-- The client `me` gets the message by a write, if there.
abbrev pub written : ℕ → ℕ → List Client → Bytes → Own → Own
written me i [] msg o = o
written me i (c ∷ cs) msg o = written me (i + 1) cs msg (
    if c.state && (i == me)
    then record o { trace = o.trace ++ as_events (write o.sockfd msg ∷ []) }
    else o)

broadcast_to_lem :
    (i : ℕ) (c : Client) (msg : Bytes) (m : Shared) (o : Own) (sent : Sent)
    → get_elem? m.client_list i ≡ some c
    → alone (broadcast_to msg i) m o sent ≡ (
        if c.state
        then (if i == o.id
            then returned tt m
                (record o { trace = o.trace ++ as_events (write o.sockfd msg ∷ []) })
                sent
            else posted i c msg m o sent)
        else returned tt m o sent)
unfolding broadcast_to alone mine ◌>>=◌ perform emit modify
broadcast_to_lem i c msg m o sent h =
    alone-client_at i c m h o sent _ ∙ by_state c.state (i == o.id)
  where
    by_state :
        (s me : Bool)
        → alone
            (if s
              then (if me then perform (write o.sockfd msg ∷ []) else post_mail i msg)
              else ret tt)
            m
            o
            sent
          ≡ (if s
              then (if me
                  then returned tt m
                      (record o { trace = o.trace ++ as_events (write o.sockfd msg ∷ []) })
                      sent
                  else posted i c msg m o sent)
              else returned tt m o sent)
    by_state false me = refl
    by_state true true = refl
    by_state true false = post_mail_lem i c msg m o sent h

-- One round for each of the clients, and `n` more.
abbrev pub rounds : List Client → ℕ → ℕ
rounds [] n = n
rounds (c ∷ cs) n = suc (rounds cs n)

pub rounds-length : (cs : List Client) (n : ℕ) → rounds cs n ≡ length cs + n
rounds-length [] n = omega arith
rounds-length (c ∷ cs) n = omega (arith, rounds-length cs n)

longer : (xs : List Client) (c : Client) (i : ℕ) → i ≡ length xs → i + 1 ≡ length (xs ++ (c ∷ []))
longer xs c i place = omega (arith, length-append xs (c ∷ []))

same_id : (me : ℕ) (b : Bool) (o p : Own) → o.id ≡ me → p.id ≡ o.id → (if b then p else o).id ≡ me
same_id me true o p h e = e ∙ h
same_id me false o p h e = h

module _ (m : Shared) (msg : Bytes) (room : length msg < max_msg_len) (me : ℕ) where
  -- The shared memory with another table.
  abbrev pub with_table : List Client → Shared
  with_table l = record m { client_list = l }

  one_round :
      (xs : List Client) (c : Client) (cs : List Client) (o : Own) (sent : Sent)
      → o.id ≡ me
      → (is_other me (length xs) c ≡ true → 0 < c.lock)
      → alone (broadcast_to msg (length xs)) (with_table (xs ++ (c ∷ cs))) o sent
        ≡ returned tt
            (with_table (
              xs
              ++ ((if is_other me (length xs) c
                    then record c { mailbox = msg; lock = c.lock - 1 }
                    else c)
                  ∷ cs)))
            (if c.state && (length xs == me)
              then record o { trace = o.trace ++ as_events (write o.sockfd msg ∷ []) }
              else o)
            (if is_other me (length xs) c then (c.pid, message) ∷ sent else sent)
  one_round xs c cs o sent own free =
      broadcast_to_lem (length xs) c msg (with_table (xs ++ (c ∷ cs))) o sent
        (get_elem?-middle xs c cs)
      ∙ ap
          (λ j.
            if c.state
            then (if length xs == j
                then returned tt (with_table (xs ++ (c ∷ cs)))
                    (record o { trace = o.trace ++ as_events (write o.sockfd msg ∷ []) }) sent
                else posted (length xs) c msg (with_table (xs ++ (c ∷ cs))) o sent)
            else returned tt (with_table (xs ++ (c ∷ cs))) o sent)
          own
      ∙ by_case c.state (length xs == me) refl free
    where
      by_case :
          (s mine : Bool)
          → c.state ≡ s
          → ((s && not mine) ≡ true → 0 < c.lock)
          → (if s
              then (if mine
                  then returned tt
                      (with_table (xs ++ (c ∷ cs)))
                      (record o { trace = o.trace ++ as_events (write o.sockfd msg ∷ []) })
                      sent
                  else posted (length xs) c msg (with_table (xs ++ (c ∷ cs))) o sent)
              else returned tt (with_table (xs ++ (c ∷ cs))) o sent)
            ≡ returned tt
                (with_table (
                  xs
                  ++ ((if s && not mine then record c { mailbox = msg; lock = c.lock - 1 } else c)
                      ∷ cs)))
                (if s && mine
                  then record o { trace = o.trace ++ as_events (write o.sockfd msg ∷ []) }
                  else o)
                (if s && not mine then (c.pid, message) ∷ sent else sent)
      by_case false mine there free = refl
      by_case true true there free = refl
      by_case true false there free =
          posted-there (length xs) c msg _ o sent (free refl) room there
          ∙ ap (λ l. returned tt (with_table l) o ((c.pid, message) ∷ sent)) (set-middle xs c _ cs)

  round_at :
      (xs : List Client) (c : Client) (cs l : List Client) (i : ℕ) (o : Own) (sent : Sent)
      → l ≡ xs ++ (c ∷ cs)
      → i ≡ length xs
      → o.id ≡ me
      → (is_other me i c ≡ true → 0 < c.lock)
      → alone (broadcast_to msg i) (with_table l) o sent
        ≡ returned tt
            (with_table (
              xs
              ++ ((if is_other me i c then record c { mailbox = msg; lock = c.lock - 1 } else c)
                  ∷ cs)))
            (if c.state && (i == me)
              then record o { trace = o.trace ++ as_events (write o.sockfd msg ∷ []) }
              else o)
            (if is_other me i c then (c.pid, message) ∷ sent else sent)
  round_at xs c cs l i o sent e place own free =
      rw (e, place) (one_round xs c cs o sent own (λ h. free (rw place h)))

  -- The rounds for the clients of `cs`, with `n` more to come for those behind them.
  pub all_rounds :
      (xs cs rest l : List Client) (n i j : ℕ) (o : Own) (sent : Sent)
      → l ≡ xs ++ (cs ++ rest)
      → i ≡ length xs
      → j ≡ length cs + i
      → o.id ≡ me
      → IsFree me i cs
      → alone (broadcast_loop msg (rounds cs n) i) (with_table l) o sent
        ≡ alone
            (broadcast_loop msg n j)
            (with_table (xs ++ (heard me i msg cs ++ rest)))
            (written me i cs msg o)
            (notices me i cs sent)
  unfolding broadcast_loop alone ◌>>◌
  all_rounds xs [] rest l n i j o sent e place last own free =
      rw (e, last)
        (ap (λ k. alone (broadcast_loop msg n k) (with_table (xs ++ rest)) o sent) (omega arith))
  all_rounds xs (c ∷ cs) rest l n i j o sent e place last own (first, others) =
      alone->>= (broadcast_to msg i) _ (with_table l) o sent
      ∙ ap (λ x. then_alone x (λ _. broadcast_loop msg (rounds cs n) (i + 1)))
          (round_at xs c (cs ++ rest) l i o sent e place own first)
      ∙ all_rounds (xs ++ (_ ∷ [])) cs rest _ n (i + 1) j _ _
          (sym (append_assoc xs (_ ∷ []) (cs ++ rest))) (longer xs _ i place) (omega arith)
          (same_id me _ o _ own refl) others
      ∙ ap
          (λ t.
            alone (broadcast_loop msg n j) (with_table t) (written me i (c ∷ cs) msg o)
              (notices me i (c ∷ cs) sent))
          (append_assoc xs (_ ∷ []) _)

  pub stuck_round :
      (xs : List Client) (d : Client) (ds : List Client) (n i : ℕ) (o : Own) (sent : Sent)
      → i ≡ length xs
      → o.id ≡ me
      → is_other me i d ≡ true
      → d.lock ≡ 0
      → alone (broadcast_loop msg (suc n) i) (with_table (xs ++ (d ∷ ds))) o sent ≡ blocked (mail i)
  unfolding broadcast_loop alone ◌>>◌
  stuck_round xs d ds n i o sent place own there stuck =
      let entry : get_elem? (xs ++ (d ∷ ds)) i ≡ some d = rw place (get_elem?-middle xs d ds) in
      alone->>= (broadcast_to msg i) _ (with_table (xs ++ (d ∷ ds))) o sent
      ∙ ap (λ x. then_alone x (λ _. broadcast_loop msg n (i + 1)))
          (broadcast_to_lem i d msg (with_table (xs ++ (d ∷ ds))) o sent entry
            ∙ by_case d.state (i == o.id) (rw own there))
    where
      by_case :
          (s mine : Bool)
          → (s && not mine) ≡ true
          → (if s
              then (if mine
                  then returned tt
                      (with_table (xs ++ (d ∷ ds)))
                      (record o { trace = o.trace ++ as_events (write o.sockfd msg ∷ []) })
                      sent
                  else posted i d msg (with_table (xs ++ (d ∷ ds))) o sent)
              else returned tt (with_table (xs ++ (d ∷ ds))) o sent)
            ≡ blocked (mail i)
      by_case true false h = posted-taken i d msg _ o sent stuck
      by_case true true h = absurd (cc)
      by_case false mine h = absurd (cc)

pub length-heard :
    (me i : ℕ) (msg : Bytes) (cs : List Client) → length (heard me i msg cs) ≡ length cs
length-heard me i msg [] = refl
length-heard me i msg (c ∷ cs) = ap suc (length-heard me (i + 1) msg cs)

pub written-id :
    (me i : ℕ) (cs : List Client) (msg : Bytes) (o : Own)
    → o.id ≡ me
    → (written me i cs msg o).id ≡ me
written-id me i [] msg o own = own
written-id me i (c ∷ cs) msg o own = written-id me (i + 1) cs msg _ (same_id me _ o _ own refl)
