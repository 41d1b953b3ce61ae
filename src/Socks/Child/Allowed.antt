-- ===== src/Socks/Child/Allowed.antt =====
-- Nothing is relayed for a request that the firewall refuses.
use np.Prelude.{
  ℕ, ◌≡◌, refl, sym, ap, ◌∙◌, subst, true, List, [], ◌∷◌, Option, if◌then◌else◌, ◌==◌, Bool-cases,
  inl, inr, ok, or_fault, >>=-eq-ok, ok-injective, exception,
}
use np.Libc.{Bytes}
use np.Socks.Request.{Host, byte_at, get_dest_port, get_dest_ip}
use np.Socks.Firewall.{Rule, check_dest_ip}
use np.Socks.Session.{connect, listen, reply, reject_reply, bind_reply, do_read}
use np.Socks.Relay.{Relay}
use np.Socks.Relay.Order.{
  BothInOrder, BothQuiet, start_connect-quiet, both-start_connect, Step-BothQuiet, Step-BothInOrder,
}
use np.Socks.Child.{
  Child, waiting, finished, refusing, listening, relaying, new_relay, op_connect_start,
  op_bind_start, connect_operation, bind_operation, open_new_port, reply_to_client, begin_actions,
  begin_action, handle_request, ChildStep, request_fails, request_read, refused, replied, accepted,
  accept_fails, replied_late, relayed, Run, at_start, on,
}

-- The two directions of a client that begins.
Clean : Relay → Type 0
Clean s = BothQuiet s × BothInOrder s

op_connect_start-Clean : (n : ℕ) → Clean (op_connect_start n new_relay)
unfolding Clean op_connect_start new_relay
op_connect_start-Clean n =
    (start_connect-quiet n new_relay refl refl, both-start_connect n new_relay (refl, refl))

op_bind_start-Clean : Clean (op_bind_start new_relay)
unfolding Clean op_bind_start new_relay
op_bind_start-Clean = ((refl, refl), (refl, refl))

-- The firewall allows the request.
abbrev pub IsAllowed : Host → List Rule → Bytes → Type 0
IsAllowed host rules socks4_request =
    (dest_ip : Bytes) × (operation : ℕ) × (get_dest_ip host socks4_request ≡ ok dest_ip)
    × (byte_at socks4_request 1 ≡ ok operation)
    × (check_dest_ip operation dest_ip rules ≡ true)

module _ (host : Host) (resolve : Bytes → Bytes → Option ℕ) (rules : List Rule)
    (socks4_request : Bytes) where
  -- A client that listens or relays has been allowed to, and its bytes are in order.
  abbrev Good : Child → Type 0
  Good waiting = Unit
  Good finished = Unit
  Good (refusing answer) = Unit
  Good (listening answer) = IsAllowed host rules socks4_request
  Good (relaying answer s) = IsAllowed host rules socks4_request × Clean s

  -- What is begun for a request that is allowed.
  begin_connect :
      (dest_ip dest_port : Bytes) (t : Child)
      → IsAllowed host rules socks4_request
      → begin_actions resolve (connect dest_ip dest_port ∷ []) waiting ≡ ok t
      → Good t
  unfolding begin_actions connect_operation
  begin_connect dest_ip dest_port t allowed h =
      let (s, first, last) =
        >>=-eq-ok (begin_action resolve (connect dest_ip dest_port) waiting) _ h in
      let (n, known, begun') = >>=-eq-ok (or_fault (resolve dest_ip dest_port) exception) _ first in
      subst Good (ok-injective begun' ∙ ok-injective last) (allowed, op_connect_start-Clean n)

  begin_bind :
      (answer : Bytes) (t : Child)
      → IsAllowed host rules socks4_request
      → begin_actions resolve (listen ∷ reply answer ∷ []) waiting ≡ ok t
      → Good t
  unfolding begin_actions open_new_port reply_to_client
  begin_bind answer t allowed h = subst Good (ok-injective h) allowed

  begin_refusal :
      (answer : Bytes) (t : Child)
      → begin_actions resolve (reply answer ∷ []) waiting ≡ ok t
      → Good t
  unfolding begin_actions reply_to_client
  begin_refusal answer t h = subst Good (ok-injective h) tt

  -- The actions of the handler, in the three cases.
  begin_all :
      (dest_ip dest_port answer refusal : Bytes) (operation : ℕ) (t : Child)
      → get_dest_ip host socks4_request ≡ ok dest_ip
      → byte_at socks4_request 1 ≡ ok operation
      → begin_actions resolve
          (if check_dest_ip operation dest_ip rules
            then if operation == 1
              then connect dest_ip dest_port ∷ []
              else listen ∷ reply answer ∷ []
            else reply refusal ∷ [])
          waiting
        ≡ ok t
      → Good t
  begin_all dest_ip dest_port answer refusal operation t ip op h =
      elim (Bool-cases (check_dest_ip operation dest_ip rules)) [
        | inl passes ↦
            let allowed : IsAllowed host rules socks4_request =
              (dest_ip, operation, ip, op, passes) in
            elim (Bool-cases (operation == 1)) [
              | inl one ↦
                  begin_connect dest_ip dest_port t allowed (sym (rw (passes, one) refl) ∙ h)
              | inr other ↦ begin_bind answer t allowed (sym (rw (passes, other) refl) ∙ h)
            ]
        | inr fails ↦ begin_refusal refusal t (sym (rw fails refl) ∙ h)
      ]

  request-Good : (t : Child) → handle_request host resolve rules socks4_request ≡ ok t → Good t
  unfolding handle_request do_read
  request-Good t h =
      let (actions, read, began) = >>=-eq-ok (do_read host rules socks4_request) _ h in
      let (dest_port, e1, read1) = >>=-eq-ok (get_dest_port host socks4_request) _ read in
      let (dest_ip, e2, read2) = >>=-eq-ok (get_dest_ip host socks4_request) _ read1 in
      let (operation, e3, read3) = >>=-eq-ok (byte_at socks4_request 1) _ read2 in
      begin_all dest_ip dest_port (bind_reply host.local_port) reject_reply operation t e2 e3
        (ap (λ l. begin_actions resolve l waiting) (ok-injective read3) ∙ began)

  ChildStep-Good : {s t : Child} → ChildStep host resolve rules socks4_request s t → Good s → Good t
  unfolding bind_operation Clean
  ChildStep-Good request_fails g = tt
  ChildStep-Good (request_read {t} h) g = request-Good t h
  ChildStep-Good (refused answer) g = tt
  ChildStep-Good (replied answer) g = g
  ChildStep-Good (accepted answer) g = (g, op_bind_start-Clean)
  ChildStep-Good (accept_fails answer) g = tt
  ChildStep-Good (replied_late answer s) g = g
  ChildStep-Good (relayed answer step) (allowed, (quiet, order)) =
      (allowed, (Step-BothQuiet step quiet, Step-BothInOrder step quiet order))

  Run-Good : {s : Child} → Run host resolve rules socks4_request s → Good s
  Run-Good at_start = tt
  Run-Good (on r step) = ChildStep-Good step (Run-Good r)

  -- However the operations of a client's process end, and in any order: if it relays, the firewall allows
  -- the operation and the destination that are read from the request, and each direction is in order.
  pub Run-IsAllowed :
      (answer : Option Bytes) (s : Relay)
      → Run host resolve rules socks4_request (relaying answer s)
      → IsAllowed host rules socks4_request × BothInOrder s
  unfolding Clean
  Run-IsAllowed answer s r = let (allowed, (quiet, order)) = Run-Good r in (allowed, order)
