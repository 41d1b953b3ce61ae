-- ===== src/Web/Query.antt =====
-- `client_infor` and `parse_query_string` of console.cpp, in the batch system and for the proxy.
pub mod Form
pub mod Proxy
use np.Prelude.{
  ℕ, zero, suc, ◌≡◌, refl, Bool, true, false, List, [], ◌∷◌, Option, none, some, if◌then◌else◌,
  ◌==◌, ltb, length, get_elem?, Result, ok, fault, or_fault, ◌>>=◌, null_pointer, out_of_bounds,
}
use np.Libc.{Bytes, codes, strcpy, strcat_all}
use np.Libc.Tokens.{tokens}

pub record ClientInfor : Type 0 where
  pub host : Bytes
  pub port : Bytes
  pub file_name : Bytes
  pub html_id : Bytes

abbrev pub html_ids : List Bytes
html_ids = codes "s0" ∷ codes "s1" ∷ codes "s2" ∷ codes "s3" ∷ codes "s4" ∷ []

-- `strchr(buf, '=')+1`
unfoldable pub behind_equals : Bytes → Option Bytes
behind_equals [] = none
behind_equals (b ∷ s) = let later = behind_equals s in if b == b'=' then some s else later

-- The value of the token `buf`, the first of those that are left; no token is the null pointer, and so
-- is `pos` in a token without `=`.
unfoldable pub value : List Bytes → Result Bytes
unfolding behind_equals
value [] = fault null_pointer
value (buf ∷ rest) = or_fault (behind_equals buf) null_pointer

-- `buf = strtok(NULL, "&")`
abbrev pub next : List Bytes → List Bytes
next [] = []
next (buf ∷ rest) = rest

-- One client, whose host is in the token `buf`, for the place `count`; the fields of the place are empty
-- before. Both `list` and `html_id` have five places.
unfoldable pub read_client : ℕ → List Bytes → Result (ClientInfor × List Bytes)
unfolding value strcpy strcat_all
read_client count buf = do
  id ← or_fault (get_elem? html_ids count) out_of_bounds
  host_value ← value buf
  host ← strcpy 100 host_value
  port_value ← value (next buf)
  port ← strcpy 10 port_value
  file_value ← value (next (next buf))
  file_name ← strcat_all 20 [] (codes "test_case/" ∷ file_value ∷ [])
  html_id ← strcpy 5 id
  ok (
    record { host = host; port = port; file_name = file_name; html_id = html_id },
    next (next (next buf)),
  )

-- `while (buf)`, by rounds: the clients that the rounds store from the place `count` on, and the tokens
-- that they leave.
unfoldable pub parse_loop : ℕ → ℕ → List Bytes → Result (List ClientInfor × List Bytes)
unfolding value read_client
parse_loop zero count buf = ok ([], buf)
parse_loop (suc rounds) count [] = ok ([], [])
parse_loop (suc rounds) count (b ∷ buf) = elim (value (b ∷ buf)) [
  | fault e ↦ fault e
  | ok [] ↦ parse_loop rounds count (next (next buf))
  | ok (c ∷ host) ↦ do
    (infor, left) ← read_client count (b ∷ buf)
    (list, end) ← parse_loop rounds (suc count) left
    ok (infor ∷ list, end)
]

-- Of the batch system. The number of clients is the length of the list; without the variable
-- QUERY_STRING, `strtok` gets a null pointer. Each round takes a token at least.
unfoldable pub parse_query_string : Option Bytes → Result (List ClientInfor × List Bytes)
unfolding tokens parse_loop
parse_query_string none = fault null_pointer
parse_query_string (some query_string) =
    let buf = tokens (codes "&") query_string in parse_loop (length buf) 0 buf

pub record SocksServerInfor : Type 0 where
  pub host : Bytes
  pub port : Bytes
  pub connect_proxy : Bool

abbrev pub no_server : SocksServerInfor
no_server = record { host = []; port = []; connect_proxy = false }

-- The host and the port of the proxy are in two tokens.
unfoldable pub read_server : List Bytes → Result SocksServerInfor
unfolding value strcpy
read_server buf = do
  host_value ← value buf
  host ← strcpy 100 host_value
  port_value ← value (next buf)
  port ← strcpy 10 port_value
  ok (record { host = host; port = port; connect_proxy = true })

-- The loop of the console for the proxy: `count` is the number of the triple, from 1; the triples from
-- the sixth on are pairs, for the proxy.
unfoldable pub parse_proxy_loop :
    ℕ
    → ℕ
    → ℕ
    → SocksServerInfor
    → List Bytes
    → Result (List ClientInfor × SocksServerInfor × List Bytes)
unfolding value read_client read_server
parse_proxy_loop zero session_count count server buf = ok ([], server, buf)
parse_proxy_loop (suc rounds) session_count count server [] = ok ([], server, [])
parse_proxy_loop (suc rounds) session_count count server (b ∷ buf) = elim (ltb count 6) [
  | true ↦ elim (value (b ∷ buf)) [
    | fault e ↦ fault e
    | ok [] ↦ parse_proxy_loop rounds session_count (suc count) server (next (next buf))
    | ok (c ∷ host) ↦ do
      (infor, left) ← read_client session_count (b ∷ buf)
      (list, server', end) ← parse_proxy_loop rounds (suc session_count) (suc count) server left
      ok (infor ∷ list, server', end)
  ]
  | false ↦ elim (value (b ∷ buf)) [
    | fault e ↦ fault e
    | ok [] ↦ parse_proxy_loop rounds session_count count server (next buf)
    | ok (c ∷ host) ↦ do
      server' ← read_server (b ∷ buf)
      parse_proxy_loop rounds session_count count server' (next buf)
  ]
]

-- Of the console for the proxy.
unfoldable pub parse_proxy_query :
    Option Bytes → Result (List ClientInfor × SocksServerInfor × List Bytes)
unfolding tokens parse_proxy_loop
parse_proxy_query none = fault null_pointer
parse_proxy_query (some query_string) =
    let buf = tokens (codes "&") query_string in parse_proxy_loop (length buf) 0 1 no_server buf
