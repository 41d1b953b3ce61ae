-- ===== src/Single/Talk/Fits.antt =====
-- The sizes of the messages, and of the arrays they are built in; what everybody is told of a logout.
use np.Prelude.{
  ℕ, ◌+◌, ◌^◌, ◌≤◌, ◌<◌, ◌≡◌, refl, ap, ◌∙◌, if◌then◌else◌, List, Bool-cases, inl, inr, [], ◌∷◌,
  ◌++◌, arith, length, length-append, ok, append-nil,
}
use mathlib.Core.List.{flat_map}
use np.Libc.{Bytes, codes, strcat}
use np.Libc.Buffers.{join, total, strcat_lem, strcat_all_lem, length-join}
use np.Libc.Decimal.{cat_num_to_msg}
use np.Libc.Decimal.Print.{cat_num_to_msg_lem}
use np.Sys.{SockAddr, Call, write}
use np.Single.State.{Client, Server, as_events}
use np.Single.Users.{slots}
use np.Texts.{inet_ntoa, login_text, named_text, logout_text}
use np.Single.Talk.{login_msg, named_msg, print_logout_msg, broadcast, broadcast_calls}

-- An IPv4 address and a port.
pub record IsAddr (addr : SockAddr) : Type 0 where
  pub a_byte : addr.a < 256
  pub b_byte : addr.b < 256
  pub c_byte : addr.c < 256
  pub d_byte : addr.d < 256
  pub port_word : addr.port < 2 ^ 16

-- One number of an address and the dot behind it.
dotted :
    (msg : Bytes) (n : ℕ)
    → n < 256
    → length msg ≤ 8
    → (msg' : Bytes) × (cat_num_to_msg 16 msg n ≡ ok msg')
      × (strcat 16 msg' (codes ".") ≡ ok (msg' ++ codes "."))
      × (length (msg' ++ codes ".") ≤ length msg + 4)
dotted msg n h fits =
    let (ds, e, dec) =
      cat_num_to_msg_lem 16 msg n 3 (omega arith) (omega arith) (omega arith) (omega arith) in
    (
      msg ++ ds,
      e,
      strcat_lem 16 (msg ++ ds) (codes ".") (omega (arith, length-append msg ds, dec.short)),
      omega (arith, length-append msg ds, length-append (msg ++ ds) (codes "."), dec.short),
    )

-- An address takes at most 15 bytes.
pub inet_ntoa_lem :
    (addr : SockAddr) → IsAddr addr → (ip : Bytes) × (inet_ntoa addr ≡ ok ip) × (length ip ≤ 15)
unfolding inet_ntoa
inet_ntoa_lem addr v =
    let (m1, e1, f1, l1) = dotted [] addr.a v.a_byte (omega arith) in
    let (m2, e2, f2, l2) = dotted (m1 ++ codes ".") addr.b v.b_byte (omega arith) in
    let (m3, e3, f3, l3) = dotted (m2 ++ codes ".") addr.c v.c_byte (omega arith) in
    let (ds, e, dec) =
      cat_num_to_msg_lem 16 (m3 ++ codes ".") addr.d 3 (omega (arith, v.d_byte)) (omega arith)
        (omega arith) (omega arith) in
    (
      (m3 ++ codes ".") ++ ds,
      rw (e1, f1, e2, f2, e3, f3) e,
      omega (arith, length-append (m3 ++ codes ".") ds, dec.short),
    )

-- A client whose name fits its array, at an IPv4 address.
pub record IsNamed (c : Client) : Type 0 where
  pub name_fits : length c.name < 20
  pub addr_ok : IsAddr c.connection_infor

-- The texts in front of the address, the address and its port: at most 26 bytes behind them.
with_port :
    (cap : ℕ) (msg : Bytes) (port : ℕ)
    → port < 2 ^ 16
    → length msg + 5 < cap
    → (ds : Bytes) × (cat_num_to_msg cap msg port ≡ ok (msg ++ ds))
      × (length (msg ++ ds) ≤ length msg + 5)
with_port cap msg port h room =
    let (ds, e, dec) =
      cat_num_to_msg_lem cap msg port 5 (omega arith) (omega arith) (omega arith) (omega arith) in
    (ds, e, omega (arith, length-append msg ds, dec.short))

-- The message of a login fits its array of 100 bytes, for a name of fewer than 20 bytes and any IPv4
-- address and port.
pub login_msg_fits :
    (c : Client) (s : Server)
    → IsNamed c
    → (msg : Bytes) × (login_msg c s ≡ ok (msg, s)) × (length msg < 100)
unfolding login_msg login_text
login_msg_fits c s v =
    let (ip, e, l) = inet_ntoa_lem c.connection_infor v.addr_ok in
    let parts = codes "*** User '" ∷ c.name ∷ codes "' entered from " ∷ ip ∷ codes ":" ∷ [] in
    let fits : total parts ≤ 60 = omega (arith, v.name_fits) in
    let (ds, f, m) =
      with_port 100 (join parts) c.connection_infor.port v.addr_ok.port_word
        (omega (arith, length-join parts)) in
    (
      (join parts ++ ds) ++ codes ". ***\n",
      rw
          (
            e,
            strcat_all_lem 100 [] parts (omega arith),
            f,
            strcat_lem 100 (join parts ++ ds) (codes ". ***\n") (omega (arith, length-join parts)),
          )
          refl,
      omega (arith, length-append (join parts ++ ds) (codes ". ***\n"), length-join parts),
    )

-- The message of a new name of fewer than 20 bytes fits its array of 100 bytes, for any IPv4 address
-- and port.
pub named_msg_fits :
    (c : Client) (name : Bytes) (s : Server)
    → IsAddr c.connection_infor
    → length name < 20
    → (msg : Bytes) × (named_msg c name s ≡ ok (msg, s)) × (length msg < 100)
unfolding named_msg named_text
named_msg_fits c name s v short =
    let (ip, e, l) = inet_ntoa_lem c.connection_infor v in
    let parts = codes "*** User from " ∷ ip ∷ codes ":" ∷ [] in
    let fits : total parts ≤ 30 = omega arith in
    let (ds, f, m) =
      with_port 100 (join parts) c.connection_infor.port v.port_word
        (omega (arith, length-join parts)) in
    let rest = codes " is named '" ∷ name ∷ codes "'. ***\n" ∷ [] in
    let fits' : total rest ≤ 38 = omega arith in
    (
      (join parts ++ ds) ++ join rest,
      rw
          (
            e,
            strcat_all_lem 100 [] parts (omega arith),
            f,
            strcat_all_lem 100 (join parts ++ ds) rest (omega (arith, length-join parts)),
          )
          refl,
      omega (
        arith,
        length-append (join parts ++ ds) (join rest),
        length-join parts,
        length-join rest,
      ),
    )

abbrev pub heard_by_all : Bytes → List Client → List Call
heard_by_all msg clients =
    flat_map (λ (c : Client). if c.state then write c.sockfd msg ∷ [] else []) clients

broadcast_calls_lem :
    (msg : Bytes) (clients : List Client) → broadcast_calls msg clients ≡ heard_by_all msg clients
unfolding broadcast_calls flat_map
broadcast_calls_lem msg [] = refl
broadcast_calls_lem msg (c ∷ cs) = elim (Bool-cases c.state) [
  | inl t ↦ rw t (ap (λ l. write c.sockfd msg ∷ l) (broadcast_calls_lem msg cs))
  | inr t ↦ rw t (broadcast_calls_lem msg cs)
]

-- The message of a logout fits its array of 50 bytes if the name has fewer than 20 bytes: the server then
-- writes `*** User '<name>' left. ***` once to each client of the table who is there, in the order of
-- their numbers, to nobody else, and changes nothing else.
pub print_logout_msg_lem :
    (name : Bytes) (s : Server)
    → length name < 20
    → print_logout_msg name s
      ≡ ok (
        tt,
        record s {
          trace =
              s.trace
              ++ as_events (
                  heard_by_all
                    (codes "*** User '" ++ (name ++ codes "' left. ***\n"))
                    (slots s.list));
        },
      )
unfolding print_logout_msg logout_text broadcast
print_logout_msg_lem name s short =
    rw (strcat_all_lem 50 [] (codes "*** User '" ∷ name ∷ codes "' left. ***\n" ∷ []) (omega arith))
      (ap
          (λ t. ok (
            tt,
            record s {
              trace =
                  s.trace
                  ++ as_events (broadcast_calls (codes "*** User '" ++ (name ++ t)) (slots s.list));
            },
          ))
          (append-nil (codes "' left. ***\n"))
        ∙ ap (λ cs. ok (tt, record s { trace = s.trace ++ as_events cs }))
            (broadcast_calls_lem (codes "*** User '" ++ (name ++ codes "' left. ***\n"))
              (slots s.list)))
