-- ===== src/Web/Console/Proxied.antt =====
-- A client that goes through the proxy waits for its answer.
use np.Prelude.{
  ℕ, zero, suc, ◌-◌, Result, ok, ok-injective, >>=-eq-ok, ◌≡◌, refl, sym, subst, ◌⊎◌, Bool, true,
  false, not, [], Option, none, some, if◌then◌else◌, ◌==◌, get_elem?, Bool-cases, inl, inr, arith,
}
use np.Libc.{Bytes}
use np.Web.Request.{make_socks4a_request}
use np.Web.Console.Input.{File}
use np.Web.Console.{
  Client, Operation, idle, connecting, awaiting_reply, reading, requesting, writing, stop,
  start_connect, start_read, send_socks4a_request, new_client, proxied_client, handle_connect,
  handle_send_socks4a, handle_receive_socks4, over, Step, connect_ends, request_ends, reply_ends,
  read_ends, written_all, write_lost, Reach, here, next,
}

-- An answer of the proxy with code 90 has come in the run.
pub Accepted : {s t : Client} → Reach s t → Type 0
Accepted here = ⊥
Accepted (next r (connect_ends is_open ec op e)) = Accepted r
Accepted (next r (request_ends ec op)) = Accepted r
Accepted (next r (reply_ends none op)) = Accepted r
Accepted (next r (reply_ends (some reply) op)) = Accepted r ⊎ (get_elem? reply 1 ≡ some 90)
Accepted (next r (read_ends bytes op e)) = Accepted r
Accepted (next r (written_all op)) = Accepted r
Accepted (next r (write_lost d d' op)) = Accepted r

-- Neither a read nor a command.
abbrev Silent : Operation → Type 0
Silent idle = Unit
Silent connecting = Unit
Silent awaiting_reply = Unit
Silent reading = ⊥
Silent (requesting d) = Unit
Silent (writing n) = ⊥

-- Nothing has been read, shown or sent yet.
record Before (s : Client) : Type 0 where
  proxied : s.connect_proxy ≡ true
  got : s.got ≡ []
  page : s.page ≡ []
  sent : s.sent ≡ 0
  silent : Silent s.operation

Before-operation :
    (op : Operation) (s : Client) → Silent op → Before s → Before (record s { operation = op })
Before-operation op s q b = record {
  proxied = b.proxied;
  got = b.got;
  page = b.page;
  sent = b.sent;
  silent = q;
}

Before-stop : (s : Client) → Before s → Before (stop (over s))
unfolding stop
Before-stop s b = record {
  proxied = b.proxied;
  got = b.got;
  page = b.page;
  sent = b.sent;
  silent = tt;
}

Before-if : (b : Bool) {s t : Client} → Before s → Before t → Before (if b then s else t)
Before-if true x y = x
Before-if false x y = y

Before-start_connect : (n : ℕ) (s : Client) → Before s → Before (start_connect n (over s))
unfolding start_connect stop
Before-start_connect zero s b = record {
  proxied = b.proxied;
  got = b.got;
  page = b.page;
  sent = b.sent;
  silent = tt;
}
Before-start_connect (suc n) s b = record {
  proxied = b.proxied;
  got = b.got;
  page = b.page;
  sent = b.sent;
  silent = tt;
}

-- The same of a callback that may fault.
abbrev OkBefore : Result Client → Type 0
OkBefore r = (t : Client) → r ≡ ok t → Before t

OkBefore-if :
    (b : Bool) (r r' : Result Client) → OkBefore r → OkBefore r' → OkBefore (if b then r else r')
OkBefore-if true r r' x y = x
OkBefore-if false r r' x y = y

OkBefore-ok : {s : Client} → Before s → OkBefore (ok s)
OkBefore-ok b t e = subst Before (ok-injective e) b

OkBefore-request : (s : Client) → Before s → OkBefore (send_socks4a_request (over s))
unfolding send_socks4a_request
OkBefore-request s b t e =
    let (request, made, done) =
      >>=-eq-ok (make_socks4a_request s.proxy_dest_port s.proxy_dest_domain_name) _ e in
    subst Before (ok-injective done) (Before-operation (requesting request) s tt b)

Before-handle_connect :
    (is_open ec : Bool) (s : Client) → Before s → OkBefore (handle_connect is_open ec (over s))
unfolding handle_connect
Before-handle_connect is_open ec s b =
    let again = OkBefore-ok (Before-start_connect (s.endpoints - 1) s b) in
    let asks : OkBefore
        (if s.connect_proxy then send_socks4a_request (over s) else ok (start_read (over s))) =
      subst (λ x. OkBefore (if x then send_socks4a_request (over s) else ok (start_read (over s))))
        (sym b.proxied) (OkBefore-request s b) in
    OkBefore-if s.stopped _ _ (OkBefore-ok (Before-operation idle s tt b))
      (OkBefore-if (not is_open) _ _ again (OkBefore-if ec _ _ again asks))

Before-handle_send_socks4a :
    (ec : Bool) (s : Client) → Before s → Before (handle_send_socks4a ec (over s))
unfolding handle_send_socks4a
Before-handle_send_socks4a ec s b =
    Before-if s.stopped (Before-operation idle s tt b)
      (Before-if ec (Before-stop s b) (Before-operation awaiting_reply s tt b))

Before-none : (s : Client) → Before s → Before (handle_receive_socks4 none (over s))
unfolding handle_receive_socks4
Before-none s b = Before-if s.stopped (Before-operation idle s tt b) (Before-stop s b)

Before-some :
    (reply : Bytes) (s : Client)
    → Before s
    → (get_elem? reply 1 ≡ some 90) ⊎ Before (handle_receive_socks4 (some reply) (over s))
unfolding handle_receive_socks4 start_read
Before-some reply s b = by_code (get_elem? reply 1)
  where
    by_code :
        (code : Option ℕ)
        → (code ≡ some 90)
          ⊎ Before (elim code [
            | none ↦ if s.stopped then over s else stop (over s)
            | some c ↦
                if s.stopped then over s else if c == 90 then start_read (over s) else stop (over s)
          ])
    by_code none = inr (Before-if s.stopped (Before-operation idle s tt b) (Before-stop s b))
    by_code (some c) = elim (Bool-cases (c == 90)) [
      | inl t ↦ inl (ground arith)
      | inr t ↦ inr (rw t (Before-if s.stopped (Before-operation idle s tt b) (Before-stop s b)))
    ]

-- What a step does, once the answer has come or before.
or_before : {A : Type 0} {s t : Client} → (Before s → Before t) → A ⊎ Before s → A ⊎ Before t
or_before f (inl a) = inl a
or_before f (inr b) = inr (f b)

or_answer :
    {A B : Type 0} {s t : Client} → (Before s → B ⊎ Before t) → A ⊎ Before s → (A ⊎ B) ⊎ Before t
or_answer f (inl a) = inl (inl a)
or_answer f (inr b) = elim (f b) [ inl c ↦ inl (inr c) | inr d ↦ inr d ]

loud : {s t : Client} {op : Operation} → s.operation ≡ op → (Silent op → ⊥) → Before s → Before t
loud e no_op b = absurd (no_op (subst Silent e b.silent))

Step-Before :
    {s t u : Client} (r : Reach s t) (step : Step t u)
    → Accepted r ⊎ Before t
    → Accepted (next r step) ⊎ Before u
unfolding Accepted
Step-Before {t = t} r (connect_ends is_open ec op e) h =
    or_before (λ b. Before-handle_connect is_open ec t b _ e) h
Step-Before {t = t} r (request_ends ec op) h = or_before (Before-handle_send_socks4a ec t) h
Step-Before {t = t} r (reply_ends none op) h = or_before (Before-none t) h
Step-Before {t = t} r (reply_ends (some reply) op) h = or_answer (Before-some reply t) h
Step-Before {t = t} r (read_ends bytes op e) h = or_before (loud {s = t} op (λ q. q)) h
Step-Before {t = t} r (written_all op) h = or_before (loud {s = t} op (λ q. q)) h
Step-Before {t = t} r (write_lost d d' op) h = or_before (loud {s = t} op (λ q. q)) h

Reach-Before : {s t : Client} (r : Reach s t) → Before s → Accepted r ⊎ Before t
unfolding Accepted
Reach-Before here b = inr b
Reach-Before (next r step) b = Step-Before r step (Reach-Before r b)

-- A client that begins for a server behind the proxy, with any number of endpoints: however its operations
-- end, as long as no answer of the proxy with code 90 has come it has read nothing of the server, put
-- nothing into the page and sent no command.
pub Reach-Accepted :
    (host port html_id : Bytes) (file : File) (endpoints : ℕ) {t : Client}
    (r : Reach (start_connect endpoints (proxied_client host port html_id file)) t)
    → Accepted r ⊎ ((t.got ≡ []) × ((t.page ≡ []) × (t.sent ≡ 0)))
unfolding proxied_client new_client
Reach-Accepted host port html_id file endpoints r =
    let start : Before (proxied_client host port html_id file) = record {
      proxied = refl;
      got = refl;
      page = refl;
      sent = refl;
      silent = tt;
    } in
    elim (Reach-Before r
      (Before-start_connect endpoints (proxied_client host port html_id file) start)) [
        | inl a ↦ inl a
        | inr b ↦ inr (b.got, (b.page, b.sent))
      ]
