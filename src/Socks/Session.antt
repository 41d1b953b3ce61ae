-- ===== src/Socks/Session.antt =====
-- `session` of socks_server.cpp: what is done with a request.
use np.Prelude.{
  ℕ, ◌+◌, ◌*◌, ◌/◌, ◌%◌, ◌<◌, ◌≡◌, ◌≢◌, refl, ap, false, ◌&&◌, List, [], ◌∷◌, ◌++◌, some,
  if◌then◌else◌, ◌==◌, Result, ok, ◌>>=◌, All, arith, append-nil,
}
use mathlib.Core.List.{map}
use np.Libc.{Bytes}
use np.Socks.Request.{
  Host, Endpoint, byte_at, get_dest_port, get_dest_ip, get_domain_name, first_v4, dotted,
  read_domain_name_lem,
}
use np.Socks.Firewall.{
  Rule, check_dest_ip, IsField, FieldRule, written, IsRule, fields, allowed, check_dest_ip_lem,
  check_dest_ip-empty,
}

-- `connect_operation`, `open_new_port` and `reply_to_client`, by what they begin.
pub data Action : Type 0 where
  connect : Bytes → Bytes → Action
  listen : Action
  reply : Bytes → Action

-- `socks4_reply`, cleared by `start`, for a new port. The array has unsigned bytes.
unfoldable pub bind_reply : ℕ → Bytes
bind_reply port = 0 ∷ 90 ∷ port / 256 % 256 ∷ port % 256 ∷ 0 ∷ 0 ∷ 0 ∷ 0 ∷ []

abbrev pub reject_reply : Bytes
reject_reply = 0 ∷ 91 ∷ 0 ∷ 0 ∷ 0 ∷ 0 ∷ 0 ∷ 0 ∷ []

-- The handler of a read without an error; `socks4_request` is the whole buffer.
unfoldable pub do_read : Host → List Rule → Bytes → Result (List Action)
unfolding byte_at get_dest_port get_dest_ip check_dest_ip bind_reply
do_read host rules socks4_request = do
  dest_port ← get_dest_port host socks4_request
  dest_ip ← get_dest_ip host socks4_request
  operation ← byte_at socks4_request 1
  ok (
      if check_dest_ip operation dest_ip rules
      then if operation == 1
        then connect dest_ip dest_port ∷ []
        else listen ∷ reply (bind_reply host.local_port) ∷ []
      else reply reject_reply ∷ [])

dotted-fields :
    (host : Host) (a b c d : ℕ)
    → dotted host a b c d
      ≡ host.to_string a ++ fields (host.to_string b ∷ host.to_string c ∷ host.to_string d ∷ [])
dotted-fields host a b c d = rw (append-nil (host.to_string d)) refl

first_v4-none : (es : List Endpoint) → All (λ e. e.is_v4 ≡ false) es → first_v4 es ≡ []
unfolding first_v4
first_v4-none [] h = refl
first_v4-none (e ∷ es) (v6, h) = rw v6 (first_v4-none es h)

-- A request with an address, whose first three bytes are not all zero, is carried out just if a rule
-- for the operation allows the address field by field, and is refused with code 91 otherwise: CONNECT
-- goes to the address and the port of the request, BIND listens and answers 90 with the new port. The
-- decimal texts of the bytes are not empty and have no dots or stars, nor have the fields of the rules.
pub do_read_lem :
    (host : Host) (rules : List FieldRule) (version operation high low a b c d : ℕ) (rest : Bytes)
    → ((n : ℕ) → IsField (host.to_string n))
    → All IsRule rules
    → (a == 0 && b == 0 && c == 0) ≡ false
    → do_read host (map written rules) (version ∷ operation ∷ high ∷ low ∷ a ∷ b ∷ c ∷ d ∷ rest)
      ≡ ok (
          if allowed operation
            (host.to_string a)
            (host.to_string b ∷ host.to_string c ∷ host.to_string d ∷ [])
            rules
          then if operation == 1
            then connect (dotted host a b c d) (host.to_string (high * 256 + low)) ∷ []
            else listen ∷ reply (bind_reply host.local_port) ∷ []
          else reply reject_reply ∷ [])
unfolding do_read get_dest_port get_dest_ip byte_at
do_read_lem host rules version operation high low a b c d rest plain hr address =
    rw
      (
        address,
        dotted-fields host a b c d,
        check_dest_ip_lem operation (host.to_string a)
            (host.to_string b ∷ host.to_string c ∷ host.to_string d ∷ []) rules (plain a)
            (plain b, (plain c, (plain d, tt))) hr,
      )
      refl

-- A SOCKS4A request for a name that the resolver knows, but with no IPv4 address, is refused with code
-- 91, whatever the operation, if no rule has an empty text. The user's name and the domain name have no
-- NULs.
pub do_read-no_v4 :
    (host : Host) (rules : List Rule) (version operation high low d : ℕ) (user domain rest : Bytes)
    (endpoints : List Endpoint)
    → All (λ x. (x == 0) ≡ false) user
    → All (λ x. (x == 0) ≡ false) domain
    → host.resolve domain ≡ some endpoints
    → All (λ e. e.is_v4 ≡ false) endpoints
    → All (λ r. r.ip ≢ []) rules
    → do_read host rules
        (version ∷ operation ∷ high ∷ low ∷ 0 ∷ 0 ∷ 0 ∷ d ∷ user ++ (0 ∷ (domain ++ (0 ∷ rest))))
      ≡ ok (reply reject_reply ∷ [])
unfolding do_read get_dest_port get_dest_ip get_domain_name byte_at
do_read-no_v4 host rules version operation high low d user domain rest endpoints hu hd known no_v4
      full =
    rw
      (
        read_domain_name_lem version operation high low 0 0 0 d user domain rest hu hd,
        known,
        first_v4-none endpoints no_v4,
        check_dest_ip-empty operation rules full,
      )
      refl

-- The port in the answer to a BIND is the one that the server listens on: its bytes, read as the port of
-- a request, give the text of the port, for every port of 16 bits.
get_dest_port-bind_reply :
    (host : Host) (port : ℕ)
    → port < 65536
    → get_dest_port host (bind_reply port) ≡ ok (host.to_string port)
unfolding get_dest_port bind_reply byte_at
get_dest_port-bind_reply host port h = ap (λ n. ok (host.to_string n)) (omega arith)
