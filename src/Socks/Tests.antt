-- ===== src/Socks/Tests.antt =====
-- The theorems on the proxy at small inputs.
use np.Prelude.{ℕ, ◌≡◌, refl, false, [], ◌∷◌, ◌++◌, Option, none, some, true, ok, arith, ◌+◌, All}
use mathlib.Core.List.{map}
use np.Libc.{Bytes, codes, str_eq}
use np.Socks.Request.{Host, dotted}
use np.Socks.Firewall.{
  FieldRule, IsRule, IsField, written, fields, allowed, check_dest_ip, check_dest_ip_lem, same_type,
}
use np.Socks.Relay.{
  Flow, Relay, connecting, over, idle, reading, writing, handle_connect, handle_reply_to_source,
  start_read, handle_source_read, connect_ends, reply_ends, source_read,
}
use np.Socks.Relay.Order.{BothInOrder}
use np.Socks.Session.{do_read, connect, reply, reject_reply, do_read_lem, do_read-no_v4}
use np.Socks.Child.{
  relaying, connect_operation, handle_request, Run, at_start, on, request_read, relayed,
}
use np.Socks.Child.Allowed.{IsAllowed, Run-IsAllowed}

-- A host on which a number is written with one byte, and every name has an IPv6 address only.
abbrev letters : Host
letters = record {
  to_string = λ n. (1000 + n) ∷ [];
  resolve = λ name. some (record { is_v4 = false; address = codes "::1" } ∷ []);
  local_port = 40000;
}

letters-IsField : (n : ℕ) → IsField (letters.to_string n)
letters-IsField n = ((λ h. absurd (cc)), ((ground arith, ground arith), tt))

-- `permit c 140.*`, with the fields as this host writes them.
abbrev rule : FieldRule
rule = record { op_type = b'c'; first = some (1140 ∷ []); others = none ∷ none ∷ none ∷ [] }

rule-IsRule : All IsRule (rule ∷ [])
rule-IsRule = ((letters-IsField 140, (tt, (tt, (tt, tt)))), tt)

check_dest_ip_lem_example :
    check_dest_ip 1 ((1140 ∷ []) ++ fields ((1113 ∷ []) ∷ [])) (map written (rule ∷ []))
    ≡ allowed 1 (1140 ∷ []) ((1113 ∷ []) ∷ []) (rule ∷ [])
check_dest_ip_lem_example =
    check_dest_ip_lem 1 (1140 ∷ []) ((1113 ∷ []) ∷ []) (rule ∷ []) (letters-IsField 140)
      (letters-IsField 113, tt) rule-IsRule

do_read_lem_example :
    do_read letters (map written (rule ∷ [])) (4 ∷ 1 ∷ 0 ∷ 80 ∷ 140 ∷ 113 ∷ 1 ∷ 2 ∷ 0 ∷ [])
    ≡ ok (connect (dotted letters 140 113 1 2) (1080 ∷ []) ∷ [])
unfolding same_type str_eq
do_read_lem_example =
    do_read_lem letters (rule ∷ []) 4 1 0 80 140 113 1 2 (0 ∷ []) letters-IsField rule-IsRule refl

do_read-no_v4_example :
    do_read letters
      (map written (rule ∷ []))
      (4 ∷ 1 ∷ 0 ∷ 80 ∷ 0 ∷ 0 ∷ 0 ∷ 1 ∷ codes "u" ++ (0 ∷ (codes "nctu" ++ (0 ∷ []))))
    ≡ ok (reply reject_reply ∷ [])
do_read-no_v4_example =
    do_read-no_v4 letters (map written (rule ∷ [])) 4 1 0 80 1 (codes "u") (codes "nctu") []
      (record { is_v4 = false; address = codes "::1" } ∷ []) (refl, tt)
      (refl, (refl, (refl, (refl, tt)))) refl (refl, tt) ((λ h. absurd (cc)), tt)

-- The request is allowed, the proxy connects and answers, then the source sends `hi`.
abbrev request : Bytes
request = 4 ∷ 1 ∷ 0 ∷ 80 ∷ 140 ∷ 113 ∷ 1 ∷ 2 ∷ 0 ∷ []

abbrev one_endpoint : Bytes → Bytes → Option ℕ
one_endpoint address port = some 1

abbrev quiet : Flow
quiet = record { operation = idle; got = []; put = [] }

abbrev begun : Relay
begun = record { stopped = false; endpoints = 1; beginning = connecting; up = quiet; down = quiet }

abbrev sending : Relay
sending = record begun {
  beginning = over;
  up = record { operation = writing (codes "hi"); got = codes "hi"; put = [] };
  down = record quiet { operation = reading };
}

hi_sent : Run letters one_endpoint (map written (rule ∷ [])) request (relaying none sending)
unfolding handle_request do_read same_type str_eq connect_operation handle_connect
    handle_reply_to_source start_read handle_source_read
hi_sent =
    on
      (on
        (on (on at_start (request_read {t = relaying none begun} refl))
          (relayed none (connect_ends true false refl)))
        (relayed none (reply_ends false refl)))
      (relayed none (source_read (codes "hi") refl))

Run-IsAllowed_example : IsAllowed letters (map written (rule ∷ [])) request × BothInOrder sending
Run-IsAllowed_example =
    Run-IsAllowed letters one_endpoint (map written (rule ∷ [])) request none sending hi_sent
