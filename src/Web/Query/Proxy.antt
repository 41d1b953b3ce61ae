-- ===== src/Web/Query/Proxy.antt =====
-- The query string of the panel for the proxy: five rows, then the proxy's host and port.
use np.Prelude.{
  ℕ, zero, suc, ◌+◌, ◌≤◌, ◌<◌, ◌≡◌, refl, sym, ap, ◌∙◌, subst, List, [], ◌∷◌, ◌++◌, some,
  if◌then◌else◌, ltb, length, length-append, inl, inr, true, Result, ok, ◌>>=◌, All, All-append,
  arith,
}
use np.Libc.{Bytes}
use np.Libc.Buffers.{strcpy_lem}
use np.Libc.Tokens.{separated, IsToken, tokens-separated}
use np.Web.Query.{
  ClientInfor, SocksServerInfor, no_server, value, read_server, parse_proxy_loop, parse_proxy_query,
}
use np.Web.Query.Form.{
  Row, field, fields, IsField, IsRow, Fits, is_empty, chosen, clients, client_of, chosen-skip,
  chosen-take, text_cases, value-field, read_client_lem, field-IsToken, fields-IsToken,
  length-fields,
}

abbrev pub pair : Bytes × Bytes → Bytes × Bytes → List Bytes
pair host port = field host ∷ field port ∷ []

-- What the browser sends.
abbrev pub proxy_query : List Row → Bytes × Bytes → Bytes × Bytes → Bytes
proxy_query rows host port = separated b'&' (fields rows ++ pair host port)

-- The proxy that the two fields name; without a host there is none.
abbrev pub named_server : Bytes → Bytes → SocksServerInfor
named_server host port =
    if is_empty host then no_server else record { host = host; port = port; connect_proxy = true }

abbrev Answer : Type 0
Answer = List ClientInfor × SocksServerInfor × List Bytes

add_client : ClientInfor → Result Answer → Result Answer
add_client infor end = do (list, server, left) ← end; ok (infor ∷ list, server, left)

-- A row in front of other tokens.
host-in_front :
    (r : Row) (rows : List Row) (rest : List Bytes) (host : Bytes)
    → IsRow r
    → r.host.1 ≡ host
    → value (fields (r ∷ rows) ++ rest) ≡ ok host
host-in_front r rows rest host h e = value-field r.host _ (h.0) ∙ ap ok e

skip_row :
    (rounds sessions count : ℕ) (server : SocksServerInfor) (r : Row) (rows : List Row)
    (rest : List Bytes)
    → IsRow r
    → r.host.1 ≡ []
    → count < 6
    → parse_proxy_loop (suc rounds) sessions count server (fields (r ∷ rows) ++ rest)
      ≡ parse_proxy_loop rounds sessions (suc count) server (fields rows ++ rest)
unfolding parse_proxy_loop
skip_row rounds sessions count server r rows rest h e less =
    let five : ltb count 6 ≡ true = ground arith in
    rw (five, parse_proxy_loop, host-in_front r rows rest [] h e) refl

take_row :
    (rounds sessions count : ℕ) (server : SocksServerInfor) (r : Row) (rows : List Row)
    (rest : List Bytes) (c : ℕ) (host : Bytes)
    → IsRow r
    → Fits r
    → r.host.1 ≡ c ∷ host
    → count < 6
    → sessions < 5
    → parse_proxy_loop (suc rounds) sessions count server (fields (r ∷ rows) ++ rest)
      ≡ add_client
          (client_of sessions r)
          (parse_proxy_loop rounds (suc sessions) (suc count) server (fields rows ++ rest))
unfolding parse_proxy_loop add_client
take_row rounds sessions count server r rows rest c host h fits e less room =
    let five : ltb count 6 ≡ true = ground arith in
    rw
      (
        five,
        parse_proxy_loop,
        host-in_front r rows rest (c ∷ host) h e,
        read_client_lem sessions r (fields rows ++ rest) h fits room,
      )
      refl

read_server_lem :
    (host port : Bytes × Bytes)
    → IsField host
    → IsField port
    → length host.1 < 100
    → length port.1 < 10
    → read_server (pair host port)
      ≡ ok (record { host = host.1; port = port.1; connect_proxy = true })
unfolding read_server
read_server_lem host port h h' fits fits' =
    rw
      (
        value-field host (field port ∷ []) h,
        strcpy_lem 100 (host.1) fits,
        value-field port [] h',
        strcpy_lem 10 (port.1) fits',
      )
      refl

read_pair :
    (rounds sessions : ℕ) (host port : Bytes × Bytes)
    → IsField host
    → IsField port
    → length host.1 < 100
    → length port.1 < 10
    → parse_proxy_loop (suc (suc rounds)) sessions 6 no_server (pair host port)
      ≡ ok ([], named_server (host.1) (port.1), [])
unfolding parse_proxy_loop
read_pair rounds sessions host port h h' fits fits' = elim (text_cases (host.1)) [
  | inl e ↦
      let empty = value-field host (field port ∷ []) h ∙ ap ok e in
      let none_named : named_server (host.1) (port.1) ≡ no_server = rw (ap is_empty e) refl in
      rw (empty, parse_proxy_loop) (ap (λ server. ok ([], server, [])) (sym none_named))
  | inr (c, t, e) ↦
      let filled = value-field host (field port ∷ []) h ∙ ap ok e in
      let one_named : named_server (host.1) (port.1)
          ≡ record { host = host.1; port = port.1; connect_proxy = true } =
        rw (ap is_empty e) refl in
      rw (filled, parse_proxy_loop, read_server_lem host port h h' fits fits')
        (ap (λ server. ok ([], server, [])) (sym one_named))
]

module _ (host port : Bytes × Bytes) where
  abbrev outcome : ℕ → List Row → Result Answer
  outcome sessions rows = ok (clients sessions rows, named_server (host.1) (port.1), [])

  parse_proxy_loop_lem :
      (rounds sessions count : ℕ) (rows : List Row)
      → All IsRow rows
      → All Fits (chosen rows)
      → IsField host
      → IsField port
      → length host.1 < 100
      → length port.1 < 10
      → length rows + 2 ≤ rounds
      → count + length rows ≡ 6
      → sessions < count
      → parse_proxy_loop rounds sessions count no_server (fields rows ++ pair host port)
        ≡ outcome sessions (chosen rows)
  parse_proxy_loop_lem zero sessions count rows h fits hh hp lh lp le six less =
      absurd (omega arith)
  parse_proxy_loop_lem (suc zero) sessions count rows h fits hh hp lh lp le six less =
      absurd (omega arith)
  parse_proxy_loop_lem (suc (suc rounds)) sessions count [] h fits hh hp lh lp le six less =
      let last : count ≡ 6 = omega arith in
      rw last (unfold chosen clients in read_pair rounds sessions host port hh hp lh lp)
  parse_proxy_loop_lem (suc (suc rounds)) sessions count (r ∷ rows) (hr, h) fits hh hp lh lp le six
        less =
      elim (text_cases (r.host.1)) [
        | inl e ↦
            let same = chosen-skip r rows e in
            skip_row (suc rounds) sessions count no_server r rows (pair host port) hr e
              (omega arith)
            ∙ parse_proxy_loop_lem (suc rounds) sessions (suc count) rows h
                (subst (All Fits) same fits) hh hp lh lp (omega arith) (omega arith) (omega arith)
            ∙ ap (outcome sessions) (sym same)
        | inr (c, t, e) ↦
            let same = chosen-take r rows c t e in
            let both : All Fits (r ∷ chosen rows) = subst (All Fits) same fits in
            let infor = client_of sessions r in
            take_row (suc rounds) sessions count no_server r rows (pair host port) c t hr (both.0) e
              (omega arith) (omega arith)
            ∙ ap (add_client infor) (
                parse_proxy_loop_lem (suc rounds) (suc sessions) (suc count) rows h (both.1) hh hp
                  lh lp (omega arith) (omega arith) (omega arith))
            ∙ sym (unfold add_client clients in ap (outcome sessions) same)
      ]

-- The query string of the proxy's panel, of five rows and the two fields of the proxy, with names and
-- values as in a form and values that fit their arrays: `parse_query_string` stores exactly the rows
-- with a host, in order, under the ids s0, s1, …, and the proxy if its host is not empty, and leaves no
-- token.
pub parse_proxy_query_lem :
    (rows : List Row) (host port : Bytes × Bytes)
    → length rows ≡ 5
    → All IsRow rows
    → All Fits (chosen rows)
    → IsField host
    → IsField port
    → length host.1 < 100
    → length port.1 < 10
    → parse_proxy_query (some (proxy_query rows host port))
      ≡ ok (clients 0 (chosen rows), named_server (host.1) (port.1), [])
unfolding parse_proxy_query
parse_proxy_query_lem rows host port five h fits hh hp lh lp =
    let toks = fields rows ++ pair host port in
    let tokens_of : All (IsToken b'&') toks =
      All-append _ (fields rows) (pair host port) (fields-IsToken rows h)
        (field-IsToken host hh, (field-IsToken port hp, tt)) in
    let enough : length rows + 2 ≤ length toks =
      omega (arith, length-fields rows, length-append (fields rows) (pair host port)) in
    ap (λ buf. parse_proxy_loop (length buf) 0 1 no_server buf)
      (tokens-separated b'&' toks tokens_of)
    ∙ parse_proxy_loop_lem host port _ 0 1 rows h fits hh hp lh lp enough (omega arith)
        (omega arith)
