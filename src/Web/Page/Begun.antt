-- ===== src/Web/Page/Begun.antt =====
-- The page of a form, and the clients that begin.
use np.Prelude.{
  ℕ, suc, ◌≤◌, ◌<◌, ◌≡◌, refl, ap, ◌∙◌, true, List, [], ◌∷◌, some, leb, length, Result, ok, All,
  arith,
}
use np.Libc.{Bytes, strcpy}
use np.Web.Query.{ClientInfor, SocksServerInfor, parse_query_string, parse_proxy_query}
use np.Web.Query.Form.{
  Row, IsField, IsRow, Fits, chosen, clients, client_of, query, parse_query_string_lem, is_empty,
}
use np.Web.Query.Proxy.{proxy_query, named_server, parse_proxy_query_lem}
use np.Web.Console.{Client, start, start_proxy, start_connect, new_client, proxied_client}
use np.Web.Page.{
  set_html_format, Site, start_own, start_proxied, start_all, with_page, own_address,
  server_address, batch_main, proxy_main,
}

-- The clients of some rows from a place on, each with the id of its place, its file, and the endpoints
-- that the resolver has for its address: for the server of the row itself, or, behind the proxy, with the
-- host and the port of its row as the ones to ask the proxy for.
unfoldable pub begun : Site → (Row → ℕ) → ℕ → List Row → List Client
unfolding client_of
begun site endpoints count [] = []
begun site endpoints count (r ∷ rows) =
    start_connect (endpoints r)
      (new_client (client_of count r).html_id (site.open_file (client_of count r).file_name))
    ∷ begun site endpoints (suc count) rows

unfoldable pub begun_behind : Site → ℕ → ℕ → List Row → List Client
unfolding client_of
begun_behind site endpoints count [] = []
begun_behind site endpoints count (r ∷ rows) =
    start_connect endpoints (
      proxied_client r.host.1 r.port.1 (client_of count r).html_id
        (site.open_file (client_of count r).file_name))
    ∷ begun_behind site endpoints (suc count) rows

start_all-own :
    (site : Site) (endpoints : Row → ℕ) (count : ℕ) (rows : List Row)
    → All (λ r. ℕ → site.resolve r.host.1 r.port.1 ≡ some (endpoints r)) rows
    → start_all site start_own own_address (clients count rows)
      ≡ ok (begun site endpoints count rows)
unfolding start_all start_own clients begun start client_of strcpy
start_all-own site endpoints count [] h = refl
start_all-own site endpoints count (r ∷ rows) (known, h) =
    rw (known count, start_all-own site endpoints (suc count) rows h) refl

start_all-proxied :
    (site : Site) (server : SocksServerInfor) (endpoints count : ℕ) (rows : List Row)
    → site.resolve server.host server.port ≡ some endpoints
    → start_all site start_proxied (server_address server) (clients count rows)
      ≡ ok (begun_behind site endpoints count rows)
unfolding start_all start_proxied clients begun_behind start_proxy client_of strcpy
start_all-proxied site server endpoints count [] h = refl
start_all-proxied site server endpoints count (r ∷ rows) h =
    rw (h, start_all-proxied site server endpoints (suc count) rows h) refl

with_page_lem :
    (start_clients : List ClientInfor → Result (List Client)) (rows : List Row) (cs : List Client)
    → 0 < length rows
    → start_clients (clients 0 rows) ≡ ok cs
    → with_page start_clients (clients 0 rows) ≡ ok (set_html_format (clients 0 rows), cs)
unfolding with_page clients
with_page_lem start_clients [] cs some_row h = absurd (omega arith)
with_page_lem start_clients (r ∷ rows) cs some_row h = rw h refl

-- A form with one to five rows that have a host, as in `parse_query_string_lem`, whose addresses the
-- resolver knows: the console prints the page of these rows, and begins a client for each, in order, with
-- the endpoints of its address, its file, and the id of its cell in the page.
pub batch_main_lem :
    (site : Site) (rows : List Row) (endpoints : Row → ℕ)
    → All IsRow rows
    → All Fits (chosen rows)
    → 0 < length (chosen rows)
    → length (chosen rows) ≤ 5
    → All (λ r. ℕ → site.resolve r.host.1 r.port.1 ≡ some (endpoints r)) (chosen rows)
    → batch_main site (some (query rows))
      ≡ ok (set_html_format (clients 0 (chosen rows)), begun site endpoints 0 (chosen rows))
unfolding batch_main
batch_main_lem site rows endpoints h fits some_row five known =
    let few : leb (length (chosen rows)) 5 ≡ true = ground arith in
    let parsed : parse_query_string (some (query rows)) ≡ ok (clients 0 (chosen rows), []) =
      parse_query_string_lem rows h fits ∙ rw few refl in
    rw parsed (
      with_page_lem (start_all site start_own own_address) (chosen rows) _ some_row
        (start_all-own site endpoints 0 (chosen rows) known))

-- A form of the proxy's panel with one to five rows that have a host, as in `parse_proxy_query_lem`, and
-- with a proxy whose address the resolver knows: the console prints the page of these rows, and begins a
-- client for each, in order, with the endpoints of the proxy, its file and the id of its cell, that is to
-- ask the proxy for the host and the port of its row.
pub proxy_main_lem :
    (site : Site) (rows : List Row) (host port : Bytes × Bytes) (endpoints c : ℕ) (name : Bytes)
    → length rows ≡ 5
    → All IsRow rows
    → All Fits (chosen rows)
    → 0 < length (chosen rows)
    → IsField host
    → IsField port
    → host.1 ≡ c ∷ name
    → length host.1 < 100
    → length port.1 < 10
    → site.resolve host.1 port.1 ≡ some endpoints
    → proxy_main site (some (proxy_query rows host port))
      ≡ ok (set_html_format (clients 0 (chosen rows)), begun_behind site endpoints 0 (chosen rows))
unfolding proxy_main
proxy_main_lem site rows host port endpoints c name five h fits some_row hh hp filled lh lp known =
    let server : SocksServerInfor = record { host = host.1; port = port.1; connect_proxy = true } in
    let there : named_server (host.1) (port.1) ≡ server = rw (ap is_empty filled) refl in
    let parsed : parse_proxy_query (some (proxy_query rows host port))
        ≡ ok (clients 0 (chosen rows), server, []) =
      parse_proxy_query_lem rows host port five h fits hh hp lh lp
      ∙ ap (λ s. ok (clients 0 (chosen rows), s, [])) there in
    rw parsed (
      with_page_lem (start_all site start_proxied (server_address server)) (chosen rows) _ some_row
        (start_all-proxied site server endpoints 0 (chosen rows) known))
