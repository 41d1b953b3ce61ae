-- ===== src/Web/Console/Steps.antt =====
-- The steps of a client keep it where its talk is.
use np.Prelude.{
  ℕ, zero, suc, ◌+◌, ◌-◌, arith, Result, >>=-eq-ok, ◌≡◌, refl, sym, ap, ◌∙◌, subst, Bool, true,
  false, not, Option, none, some, if◌then◌else◌, ◌==◌, get_elem?, ok, ok-injective, Bool-cases, inl,
  inr,
}
use np.Libc.{Bytes}
use np.Web.Request.{make_socks4a_request}
use np.Web.Console.Input.{File}
use np.Web.Console.{
  Client, Operation, idle, connecting, awaiting_reply, reading, requesting, writing, stop,
  start_connect, start_read, send_socks4a_request, new_client, proxied_client, handle_connect,
  handle_send_socks4a, handle_receive_socks4, handle_read, handle_write, over, written, Step,
  connect_ends, request_ends, reply_ends, read_ends, written_all, write_lost, Reach, here, next,
}
use np.Web.Console.Replies.{IsTalk, Pending, begin_talk, talk, take_output-eq-ok}
use np.Web.Console.Answered.{IsTalk-answered}

zero_right : (n : ℕ) → n + 0 ≡ n
zero_right n = omega arith

add_assoc : (a b c : ℕ) → (a + b) + c ≡ a + (b + c)
add_assoc a b c = omega arith

-- No write of a command.
abbrev Calm : Operation → Type 0
Calm (writing d) = ⊥
Calm (requesting d) = Unit
Calm idle = Unit
Calm connecting = Unit
Calm awaiting_reply = Unit
Calm reading = Unit

-- A callback changes nothing but the state of the connection, begins no command, and does not undo a
-- stop.
record Moves (s t : Client) : Type 0 where
  html_id : t.html_id ≡ s.html_id
  file : t.file ≡ s.file
  page : t.page ≡ s.page
  got : t.got ≡ s.got
  sent : t.sent ≡ s.sent
  stopped : t.stopped ≡ false → s.stopped ≡ false
  calm : Calm t.operation

Moves-operation : (op : Operation) (s : Client) → Calm op → Moves s (record s { operation = op })
Moves-operation op s c = record {
  html_id = refl;
  file = refl;
  page = refl;
  got = refl;
  sent = refl;
  stopped = λ h. h;
  calm = c;
}

Moves-stop : (s : Client) → Moves s (stop (over s))
unfolding stop
Moves-stop s = record {
  html_id = refl;
  file = refl;
  page = refl;
  got = refl;
  sent = refl;
  stopped = λ h. cc;
  calm = tt;
}

Moves-if : (b : Bool) {s t u : Client} → Moves s t → Moves s u → Moves s (if b then t else u)
Moves-if true m n = m
Moves-if false m n = n

start_connect-Moves : (n : ℕ) (s : Client) → Moves s (start_connect n (over s))
unfolding start_connect stop
start_connect-Moves zero s = record {
  html_id = refl;
  file = refl;
  page = refl;
  got = refl;
  sent = refl;
  stopped = λ h. cc;
  calm = tt;
}
start_connect-Moves (suc n) s = record {
  html_id = refl;
  file = refl;
  page = refl;
  got = refl;
  sent = refl;
  stopped = λ h. h;
  calm = tt;
}

-- The same of a callback that may fault.
abbrev OkMoves : Client → Result Client → Type 0
OkMoves s r = (t : Client) → r ≡ ok t → Moves s t

OkMoves-ok : {s t : Client} → Moves s t → OkMoves s (ok t)
OkMoves-ok {s} m u e = subst (Moves s) (ok-injective e) m

OkMoves-if :
    (b : Bool) (s : Client) (r r' : Result Client)
    → OkMoves s r
    → OkMoves s r'
    → OkMoves s (if b then r else r')
OkMoves-if true s r r' m n = m
OkMoves-if false s r r' m n = n

send_socks4a_request-OkMoves : (s : Client) → OkMoves s (send_socks4a_request (over s))
unfolding send_socks4a_request
send_socks4a_request-OkMoves s t e =
    let (request, made, done) =
      >>=-eq-ok (make_socks4a_request s.proxy_dest_port s.proxy_dest_domain_name) _ e in
    subst (Moves s) (ok-injective done) (Moves-operation (requesting request) s tt)

handle_connect-Moves :
    (is_open ec : Bool) (s : Client) → OkMoves s (handle_connect is_open ec (over s))
unfolding handle_connect start_read
handle_connect-Moves is_open ec s =
    OkMoves-if s.stopped s _ _ (OkMoves-ok (Moves-operation idle s tt)) (
      OkMoves-if (not is_open) s _ _ (OkMoves-ok (start_connect-Moves (s.endpoints - 1) s)) (
        OkMoves-if ec s _ _ (OkMoves-ok (start_connect-Moves (s.endpoints - 1) s)) (
          OkMoves-if s.connect_proxy s _ _ (send_socks4a_request-OkMoves s)
            (OkMoves-ok (Moves-operation reading s tt)))))

handle_send_socks4a-Moves : (ec : Bool) (s : Client) → Moves s (handle_send_socks4a ec (over s))
unfolding handle_send_socks4a
handle_send_socks4a-Moves ec s =
    Moves-if s.stopped (Moves-operation idle s tt)
      (Moves-if ec (Moves-stop s) (Moves-operation awaiting_reply s tt))

handle_receive_socks4-Moves :
    (reply : Option Bytes) (s : Client) → Moves s (handle_receive_socks4 reply (over s))
unfolding handle_receive_socks4 start_read
handle_receive_socks4-Moves none s = Moves-if s.stopped (Moves-operation idle s tt) (Moves-stop s)
handle_receive_socks4-Moves (some reply) s = by_code (get_elem? reply 1)
  where
    by_code :
        (code : Option ℕ)
        → Moves s (elim code [
          | none ↦ if s.stopped then over s else stop (over s)
          | some c ↦
              if s.stopped then over s else if c == 90 then start_read (over s) else stop (over s)
        ])
    by_code none = Moves-if s.stopped (Moves-operation idle s tt) (Moves-stop s)
    by_code (some c) =
        Moves-if s.stopped (Moves-operation idle s tt)
          (Moves-if (c == 90) (Moves-operation reading s tt) (Moves-stop s))

handle_write-Moves : (ec : Bool) (s : Client) → Moves s (handle_write ec (over s))
unfolding handle_write start_read
handle_write-Moves ec s =
    Moves-if s.stopped (Moves-operation idle s tt)
      (Moves-if ec (Moves-stop s) (Moves-operation reading s tt))

Pending-Calm :
    (op : Operation) (stopped : Bool) (later : ℕ)
    → Calm op
    → (stopped ≡ false → later ≡ 0)
    → Pending op stopped later
Pending-Calm (writing d) stopped later c h = elim c [ ]
Pending-Calm (requesting d) stopped later c h = h
Pending-Calm idle stopped later c h = h
Pending-Calm connecting stopped later c h = h
Pending-Calm awaiting_reply stopped later c h = h
Pending-Calm reading stopped later c h = h

eq_nil-Pending :
    (op : Operation) (stopped : Bool) (later : ℕ)
    → Calm op
    → Pending op stopped later
    → stopped ≡ false
    → later ≡ 0
eq_nil-Pending (writing d) stopped later c h = elim c [ ]
eq_nil-Pending (requesting d) stopped later c h = h
eq_nil-Pending idle stopped later c h = h
eq_nil-Pending connecting stopped later c h = h
eq_nil-Pending awaiting_reply stopped later c h = h
eq_nil-Pending reading stopped later c h = h

IsTalk-Moves :
    (html_id : Bytes) (file : File) (s t : Client)
    → Calm s.operation
    → Moves s t
    → IsTalk html_id file s
    → IsTalk html_id file t
unfolding IsTalk
IsTalk-Moves html_id file s t calm m (i, (f, (p, (later, all, rest)))) =
    let same = ap (talk html_id (begin_talk file)) m.got in
    (
      m.html_id ∙ i,
      (
        m.file ∙ f ∙ ap (λ k. k.file) (sym same),
        (
          m.page ∙ p ∙ ap (λ k. k.page) (sym same),
          (
            later,
            ap (λ l. l + later) m.sent ∙ all ∙ ap (λ k. k.sent) (sym same),
            Pending-Calm t.operation t.stopped later m.calm
                (λ h. eq_nil-Pending s.operation s.stopped later calm rest (m.stopped h)),
          ),
        ),
      ),
    )

Calm-operation : (op : Operation) (s : Client) → s.operation ≡ op → Calm op → Calm s.operation
Calm-operation op s e c = subst Calm (sym e) c

-- A write of `d` that has ended after `d'`, a part of it.
IsTalk-written :
    (html_id : Bytes) (file : File) (s : Client) (d later : ℕ) (stopped : Bool)
    → s.operation ≡ writing (d + later)
    → (stopped ≡ false → later ≡ 0)
    → IsTalk html_id file s
    → IsTalk html_id file (record (written d s) { stopped = stopped })
unfolding IsTalk
IsTalk-written html_id file s d later stopped op none_left (i, (f, (p, (all_left, all, rest)))) =
    let same : all_left ≡ d + later = subst (λ o. Pending o s.stopped all_left) op rest in
    (
      i,
      (
        f,
        (p, (later, add_assoc s.sent d later ∙ ap (λ l. s.sent + l) (sym same) ∙ all, none_left)),
      ),
    )

IsTalk-lost :
    (html_id : Bytes) (file : File) (s : Client) (d d' : ℕ)
    → s.operation ≡ writing (d + d')
    → IsTalk html_id file s
    → IsTalk html_id file (handle_write true (written d s))
unfolding handle_write stop
IsTalk-lost html_id file s d d' op k = elim (Bool-cases s.stopped) [
  | inl h ↦
      let same : record (written d s) { stopped = true } ≡ handle_write true (written d s) =
        rw h refl in
      subst (IsTalk html_id file) same (IsTalk-written html_id file s d d' true op (λ e. cc) k)
  | inr h ↦
      let same : record (written d s) { stopped = true } ≡ handle_write true (written d s) =
        rw h refl in
      subst (IsTalk html_id file) same (IsTalk-written html_id file s d d' true op (λ e. cc) k)
]

IsTalk-read :
    (html_id : Bytes) (file : File) (bytes : Option Bytes) (s t : Client)
    → s.operation ≡ reading
    → handle_read bytes (over s) ≡ ok t
    → IsTalk html_id file s
    → IsTalk html_id file t
unfolding handle_read
IsTalk-read html_id file none s t op e k =
    let calm = Calm-operation reading s op tt in
    elim (Bool-cases s.stopped) [
      | inl h ↦
          let same : over s ≡ t = ok-injective (sym (rw h refl) ∙ e) in
          subst (IsTalk html_id file) same
            (IsTalk-Moves html_id file s (over s) calm (Moves-operation idle s tt) k)
      | inr h ↦
          let same : stop (over s) ≡ t = ok-injective (sym (rw h refl) ∙ e) in
          subst (IsTalk html_id file) same
            (IsTalk-Moves html_id file s (stop (over s)) calm (Moves-stop s) k)
    ]
IsTalk-read html_id file (some bytes) s t op e k = elim (Bool-cases s.stopped) [
  | inl h ↦
      let same : over s ≡ t = ok-injective (sym (rw h refl) ∙ e) in
      subst (IsTalk html_id file) same (
        IsTalk-Moves html_id file s (over s) (Calm-operation reading s op tt)
          (Moves-operation idle s tt) k)
  | inr h ↦
      let (text, same) = take_output-eq-ok bytes (over s) t h (sym (rw h refl) ∙ e) in
      subst (IsTalk html_id file) same (IsTalk-answered html_id text file s h op k)
]

Step-IsTalk :
    (html_id : Bytes) (file : File) {s t : Client}
    → Step s t
    → IsTalk html_id file s
    → IsTalk html_id file t
Step-IsTalk html_id file {s} (connect_ends is_open ec {t} op e) k =
    IsTalk-Moves html_id file s _ (Calm-operation connecting s op tt)
      (handle_connect-Moves is_open ec s t e) k
Step-IsTalk html_id file {s} (request_ends ec {d} op) k =
    IsTalk-Moves html_id file s _ (Calm-operation (requesting d) s op tt)
      (handle_send_socks4a-Moves ec s) k
Step-IsTalk html_id file {s} (reply_ends reply op) k =
    IsTalk-Moves html_id file s _ (Calm-operation awaiting_reply s op tt)
      (handle_receive_socks4-Moves reply s) k
Step-IsTalk html_id file {s} (read_ends bytes {t} op e) k =
    IsTalk-read html_id file bytes s t op e k
Step-IsTalk html_id file {s} (written_all {n = d} op) k =
    IsTalk-Moves html_id file (written d s) _ tt (handle_write-Moves false (written d s)) (
      IsTalk-written html_id file s d 0 s.stopped (op ∙ ap writing (sym (zero_right d))) (λ h. refl)
        k)
Step-IsTalk html_id file {s} (write_lost d d' op) k = IsTalk-lost html_id file s d d' op k

Reach-IsTalk :
    (html_id : Bytes) (file : File) {s t : Client}
    → IsTalk html_id file s
    → Reach s t
    → IsTalk html_id file t
Reach-IsTalk html_id file k here = k
Reach-IsTalk html_id file k (next r step) =
    Step-IsTalk html_id file step (Reach-IsTalk html_id file k r)

-- A client that begins is at the beginning of its talk.
new_client-IsTalk : (html_id : Bytes) (file : File) → IsTalk html_id file (new_client html_id file)
unfolding IsTalk talk new_client
new_client-IsTalk html_id file = (refl, (refl, (refl, (0, refl, λ h. refl))))

proxied_client-IsTalk :
    (host port html_id : Bytes) (file : File)
    → IsTalk html_id file (proxied_client host port html_id file)
unfolding IsTalk talk proxied_client
proxied_client-IsTalk host port html_id file = (refl, (refl, (refl, (0, refl, λ h. refl))))

-- For a server, or for a host and a port behind the proxy.
abbrev pub beginning : Option (Bytes × Bytes) → Bytes → File → Client
beginning none html_id file = new_client html_id file
beginning (some (host, port)) html_id file = proxied_client host port html_id file

-- A client for a server, or for one behind the proxy, with any number of endpoints: however its operations
-- end, its page and its file are those of the talk about the texts that it has read, in which each text is
-- shown as HTML, and each one with a `%` takes the next line of the file and shows it as a command. It has
-- sent as many bytes as these commands have with a line end each, but for what the write under way has
-- left, or one that has failed; which bytes they are is not said.
pub Reach-start :
    (proxy_dest : Option (Bytes × Bytes)) (html_id : Bytes) (file : File) (endpoints : ℕ)
    {t : Client}
    → Reach (start_connect endpoints (beginning proxy_dest html_id file)) t
    → IsTalk html_id file t
unfolding new_client proxied_client
Reach-start proxy_dest html_id file endpoints r = Reach-IsTalk html_id file (begun proxy_dest) r
  where
    begun :
        (d : Option (Bytes × Bytes))
        → IsTalk html_id file (start_connect endpoints (beginning d html_id file))
    begun none =
        IsTalk-Moves html_id file (new_client html_id file) _ tt
          (start_connect-Moves endpoints (new_client html_id file)) (new_client-IsTalk html_id file)
    begun (some (host, port)) =
        IsTalk-Moves html_id file (proxied_client host port html_id file) _ tt
          (start_connect-Moves endpoints (proxied_client host port html_id file))
          (proxied_client-IsTalk host port html_id file)
