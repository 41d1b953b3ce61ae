-- ===== src/Web/Page.antt =====
-- `set_html_format` and `main` of console.cpp, in the batch system and for the proxy.
pub mod Begun
use np.Prelude.{
  ℕ, ◌≡◌, Bool, true, false, List, [], ◌∷◌, ◌++◌, Option, none, some, if◌then◌else◌, Result, ok,
  fault, or_fault, ◌>>=◌, exception,
}
use mathlib.Core.List.{map}
use np.Libc.{Bytes, codes}
use np.Web.Query.{ClientInfor, SocksServerInfor, parse_query_string, parse_proxy_query}
use np.Web.Console.Input.{File}
use np.Web.Console.{Client, start, start_proxy}

-- The texts in front of the first loop, between the loops, and behind the second.
unfoldable page_top : List Bytes
page_top =
    codes "Content-type: text/html\r\n\r\n"
    ∷ codes "<!DOCTYPE html>\n"
    ∷ codes "<html lang=\"en\">\n"
    ∷ codes "  <head>\n"
    ∷ codes "    <meta charset=\"UTF-8\" />\n"
    ∷ codes "    <title>NP Project 3 Sample Console</title>\n"
    ∷ codes "    <link\n"
    ∷ codes "      rel=\"stylesheet\"\n"
    ∷ codes
        "      href=\"https://cdn.jsdelivr.net/npm/bootstrap@4.5.3/dist/css/bootstrap.min.css\"\n"
    ∷ codes
        "      integrity=\"sha384-TX8t27EcRE3e/ihU7zmQxVncDAy5uIKz4rEkgIXeMed4M0jlfIDPvg6uqKI2xXr2\"\n"
    ∷ codes "      crossorigin=\"anonymous\"\n"
    ∷ codes "    />\n"
    ∷ codes "    <link\n"
    ∷ codes "      href=\"https://fonts.googleapis.com/css?family=Source+Code+Pro\"\n"
    ∷ codes "      rel=\"stylesheet\"\n"
    ∷ codes "    />\n"
    ∷ codes "    <link\n"
    ∷ codes "      rel=\"icon\"\n"
    ∷ codes "      type=\"image/png\"\n"
    ∷ codes
        "      href=\"https://cdn0.iconfinder.com/data/icons/small-n-flat/24/678068-terminal-512.png\"\n"
    ∷ codes "    />\n"
    ∷ codes "    <style>\n"
    ∷ codes "      * {\n"
    ∷ codes "        font-family: 'Source Code Pro', monospace;\n"
    ∷ codes "        font-size: 1rem !important;\n"
    ∷ codes "      }\n"
    ∷ codes "     body {\n"
    ∷ codes "       background-color: #212529;\n"
    ∷ codes "     }\n"
    ∷ codes "     pre {\n"
    ∷ codes "       color: #cccccc;\n"
    ∷ codes "     }\n"
    ∷ codes "     cmd {\n"
    ∷ codes "       color: #01b468;\n"
    ∷ codes "      }\n"
    ∷ codes "    </style>\n"
    ∷ codes "  </head>\n"
    ∷ codes "  <body>\n"
    ∷ codes "    <table class=\"table table-dark table-bordered\">\n"
    ∷ codes "      <thead>\n"
    ∷ codes "        <tr>\n"
    ∷ []

unfoldable page_middle : List Bytes
page_middle =
    codes "        </tr>\n"
    ∷ codes "      </thead>\n"
    ∷ codes "      <tbody>\n"
    ∷ codes "        <tr>\n"
    ∷ []

unfoldable page_bottom : List Bytes
page_bottom =
    codes "        </tr>\n"
    ∷ codes "      </tbody>\n"
    ∷ codes "    </table>\n"
    ∷ codes "  </body>\n"
    ∷ codes "</html>\n"
    ∷ []

-- What the two loops print for a client.
unfoldable head_cell : ClientInfor → Bytes
head_cell c =
    codes "          <th scope=\"col\">" ++ (c.host ++ (codes ":" ++ (c.port ++ codes "</th>\n")))

unfoldable body_cell : ClientInfor → Bytes
body_cell c =
    codes "          <td><pre id=\"" ++ (c.html_id ++ codes "\" class=\"mb-0\"></pre></td>\n")

-- The texts in the order in which they are printed.
unfoldable pub set_html_format : List ClientInfor → List Bytes
unfolding page_top page_middle page_bottom head_cell body_cell
set_html_format list =
    page_top ++ (map head_cell list ++ (page_middle ++ (map body_cell list ++ page_bottom)))

-- The files, and the resolver: the number of endpoints of a host and a port, or an exception.
pub record Site : Type 0 where
  pub open_file : Bytes → File
  pub resolve : Bytes → Bytes → Option ℕ

-- How a client begins: `start`, or `start_proxy` with the host and the port of its row.
unfoldable pub start_own : ClientInfor → File → ℕ → Result Client
unfolding start
start_own c file endpoints = start c.html_id file endpoints

unfoldable pub start_proxied : ClientInfor → File → ℕ → Result Client
unfolding start_proxy
start_proxied c file endpoints = start_proxy c.host c.port c.html_id file endpoints

-- The loop that starts the clients, each with the endpoints of an address.
unfoldable pub start_all :
    Site
    → (ClientInfor → File → ℕ → Result Client)
    → (ClientInfor → Bytes × Bytes)
    → List ClientInfor
    → Result (List Client)
start_all site start_one address [] = ok []
start_all site start_one address (c ∷ list) = do
  let (host, port) = address c
  endpoints ← or_fault (site.resolve host port) exception
  client ← start_one c (site.open_file c.file_name) endpoints
  later ← start_all site start_one address list
  ok (client ∷ later)

-- The page and the clients; without a session nothing is printed. An exception ends the program with a
-- message, behind the page.
unfoldable pub with_page :
    (List ClientInfor → Result (List Client)) → List ClientInfor → Result (List Bytes × List Client)
unfolding set_html_format
with_page start_clients [] = ok ([], [])
with_page start_clients (c ∷ list) = do
  clients ← start_clients (c ∷ list)
  ok (set_html_format (c ∷ list), clients)

abbrev pub own_address : ClientInfor → Bytes × Bytes
own_address c = (c.host, c.port)

abbrev pub server_address : SocksServerInfor → ClientInfor → Bytes × Bytes
server_address server c = (server.host, server.port)

-- `main` of the batch system, up to `io_context.run`.
unfoldable pub batch_main : Site → Option Bytes → Result (List Bytes × List Client)
unfolding parse_query_string start_own start_all with_page
batch_main site query_string = do
  (list, left) ← parse_query_string query_string
  with_page (start_all site start_own own_address) list

-- `main` of the proxy's console.
unfoldable pub proxy_main : Site → Option Bytes → Result (List Bytes × List Client)
unfolding parse_proxy_query start_own start_proxied start_all with_page
proxy_main site query_string = do
  (list, server, left) ← parse_proxy_query query_string
  with_page
      (if server.connect_proxy
        then start_all site start_proxied (server_address server)
        else start_all site start_own own_address)
      list
