-- ===== src/Multi/Alone/Broadcast.antt =====
-- `broadcast` in np_multi_proc reaches every client who is there.
use np.Prelude.{
  suc, ◌+◌, ◌<◌, ◌≡◌, refl, ap, ◌∙◌, true, List, [], ◌∷◌, ◌++◌, length, append-nil, length-append,
  arith,
}
use np.Libc.{Bytes}
use np.Single.Env.{max_client_num}
use np.Multi.Shared.{Client, Shared, mail}
use np.Multi.Prog.{Own}
use np.Multi.Talk.{broadcast, broadcast_loop, max_msg_len}
use np.Multi.Alone.{Sent, returned, blocked, alone}
use np.Multi.Alone.Rounds.{
  is_other, IsFree, heard, notices, written, rounds, rounds-length, all_rounds, stuck_round,
  length-heard, written-id,
}

-- In a table with the 30 places of clients behind entry 0, when each client who is there and is not the
-- sender has a free mailbox, `broadcast` of a message of less than 1024 bytes, with no other process
-- moving, returns: each of these clients has the message in the mailbox, which is taken, and gets one
-- signal, in the order of their numbers; the sender, if there, gets it by one write; nothing else of
-- the shared memory and of the sender's own data changes.
pub broadcast_lem :
    (m : Shared) (msg : Bytes) (o : Own) (sent : Sent) (c : Client) (cs : List Client)
    → length msg < max_msg_len
    → m.client_list ≡ c ∷ cs
    → length cs ≡ max_client_num
    → IsFree o.id 1 cs
    → alone (broadcast msg) m o sent
      ≡ returned tt
          (record m { client_list = c ∷ heard o.id 1 msg cs })
          (written o.id 1 cs msg o)
          (notices o.id 1 cs sent)
unfolding broadcast broadcast_loop alone
broadcast_lem m msg o sent c cs room table places free =
    let all : max_client_num ≡ rounds cs 0 = omega (arith, rounds-length cs 0) in
    ap (λ n. alone (broadcast_loop msg n 1) m o sent) all
    ∙ all_rounds m msg room o.id (c ∷ []) cs [] m.client_list 0 1 _ o sent
        (rw (append-nil cs) table) refl refl refl free
    ∙ ap
        (λ l.
          returned tt (record m { client_list = c ∷ l }) (written o.id 1 cs msg o)
            (notices o.id 1 cs sent))
        (append-nil (heard o.id 1 msg cs))

-- When a client `d` who is there and is not the sender has a mailbox that is taken, and those with a
-- smaller number have free ones, `broadcast` of a message of less than 1024 bytes waits for that
-- mailbox, with no other process moving.
pub broadcast-blocked :
    (m : Shared) (msg : Bytes) (o : Own) (sent : Sent) (c d : Client) (cs ds : List Client)
    → length msg < max_msg_len
    → m.client_list ≡ c ∷ (cs ++ (d ∷ ds))
    → length (cs ++ (d ∷ ds)) ≡ max_client_num
    → IsFree o.id 1 cs
    → is_other o.id (length cs + 1) d ≡ true
    → d.lock ≡ 0
    → alone (broadcast msg) m o sent ≡ blocked (mail (length cs + 1))
unfolding broadcast
broadcast-blocked m msg o sent c d cs ds room table places free there stuck =
    let all : max_client_num ≡ rounds cs (suc (length ds)) =
      omega (arith, rounds-length cs (suc (length ds)), length-append cs (d ∷ ds)) in
    ap (λ n. alone (broadcast_loop msg n 1) m o sent) all
    ∙ all_rounds m msg room o.id (c ∷ []) cs (d ∷ ds) m.client_list (suc (length ds)) 1 _ o sent
        table refl refl refl free
    ∙ stuck_round m msg room o.id (c ∷ heard o.id 1 msg cs) d ds (length ds) (length cs + 1) _ _
        (omega (arith, length-heard o.id 1 msg cs)) (written-id o.id 1 cs msg o refl) there stuck
