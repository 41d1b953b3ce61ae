-- ===== src/Socks/Child.antt =====
-- The process of one client of the proxy: `session` of socks_server.cpp up to the relay, and the relay.
pub mod Allowed
use np.Prelude.{
  ℕ, ◌≡◌, false, List, [], ◌∷◌, Option, none, some, Result, ok, fault, or_fault, ◌>>=◌, exception,
}
use np.Libc.{Bytes}
use np.Socks.Request.{Host}
use np.Socks.Firewall.{Rule}
use np.Socks.Session.{Action, connect, listen, reply, do_read}
use np.Socks.Relay.{Flow, Relay, Operation, idle, over, start_connect, reply_source, Step}

-- The first read is under way; the answer 91 is written; a new port is listened on, and the answer 90 with
-- it is written or has been (`none`); a `client` relays, perhaps before that answer has been written; or
-- nothing is left to do.
pub data Child : Type 0 where
  waiting finished : Child
  refusing : Bytes → Child
  listening : Option Bytes → Child
  relaying : Option Bytes → Relay → Child

-- A direction that nothing has gone.
unfoldable pub no_flow : Flow
no_flow = record { operation = idle; got = []; put = [] }

-- The constructors of `client`.
unfoldable pub new_relay : Relay
unfolding no_flow
new_relay = record {
  stopped = false;
  endpoints = 0;
  beginning = over;
  up = no_flow;
  down = no_flow;
}

unfoldable pub op_connect_start : ℕ → Relay → Relay
unfolding start_connect
op_connect_start endpoints s = start_connect endpoints s

unfoldable pub op_bind_start : Relay → Relay
unfolding reply_source
op_bind_start s = reply_source s

-- For a number of endpoints.
unfoldable pub connect_operation : ℕ → Child
unfolding op_connect_start new_relay
connect_operation endpoints = relaying none (op_connect_start endpoints new_relay)

-- The answer that may still be written.
unfoldable pub bind_operation : Option Bytes → Child
unfolding op_bind_start new_relay
bind_operation answer = relaying answer (op_bind_start new_relay)

unfoldable pub open_new_port : Child
open_new_port = listening none

unfoldable pub reply_to_client : Bytes → Child → Child
reply_to_client socks4_reply (listening answer) = listening (some socks4_reply)
reply_to_client socks4_reply (relaying answer s) = relaying (some socks4_reply) s
reply_to_client socks4_reply waiting = refusing socks4_reply
reply_to_client socks4_reply finished = refusing socks4_reply
reply_to_client socks4_reply (refusing answer) = refusing socks4_reply

-- What the handler of the read begins. `resolve` is the resolver for an address and a port, which throws
-- an exception if it finds nothing.
unfoldable pub begin_action : (Bytes → Bytes → Option ℕ) → Action → Child → Result Child
unfolding connect_operation open_new_port reply_to_client
begin_action resolve (connect dest_ip dest_port) s = do
  endpoints ← or_fault (resolve dest_ip dest_port) exception
  ok (connect_operation endpoints)
begin_action resolve listen s = ok open_new_port
begin_action resolve (reply socks4_reply) s = ok (reply_to_client socks4_reply s)

unfoldable pub begin_actions : (Bytes → Bytes → Option ℕ) → List Action → Child → Result Child
unfolding begin_action
begin_actions resolve [] s = ok s
begin_actions resolve (a ∷ actions) s = do
  t ← begin_action resolve a s
  begin_actions resolve actions t

-- The handler of the first read, on the buffer that the read leaves.
unfoldable pub handle_request : Host → (Bytes → Bytes → Option ℕ) → List Rule → Bytes → Result Child
unfolding do_read begin_actions
handle_request host resolve rules socks4_request = do
  actions ← do_read host rules socks4_request
  begin_actions resolve actions waiting

-- The operations end in any order, with or without an error; `socks4_request` is the buffer that the
-- first read leaves.
module _ (host : Host) (resolve : Bytes → Bytes → Option ℕ) (rules : List Rule)
    (socks4_request : Bytes) where
  pub data ChildStep : Child → Child → Type 0 where
    request_fails : ChildStep waiting finished
    request_read :
        {t : Child} → handle_request host resolve rules socks4_request ≡ ok t → ChildStep waiting t
    refused : (answer : Bytes) → ChildStep (refusing answer) finished
    replied : (answer : Bytes) → ChildStep (listening (some answer)) (listening none)
    accepted : (answer : Option Bytes) → ChildStep (listening answer) (bind_operation answer)
    accept_fails : (answer : Option Bytes) → ChildStep (listening answer) finished
    replied_late :
        (answer : Bytes) (s : Relay) → ChildStep (relaying (some answer) s) (relaying none s)
    relayed :
        (answer : Option Bytes) {s t : Relay}
        → Step s t
        → ChildStep (relaying answer s) (relaying answer t)

  pub data Run : Child → Type 0 where
    at_start : Run waiting
    on : {s t : Child} → Run s → ChildStep s t → Run t
