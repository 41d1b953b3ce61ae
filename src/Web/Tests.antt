-- ===== src/Web/Tests.antt =====
-- The theorems on the web side at small inputs.
use np.Prelude.{
  ◌⊎◌, ℕ, ◌+◌, pos, ◌≡◌, refl, true, false, none, List, [], ◌∷◌, ◌++◌, some, if◌then◌else◌, ok,
  fault, or_fault, ◌>>=◌, leb, length, All, arith, out_of_bounds, exception, null_pointer,
}
use mathlib.Core.List.{flat_map}
use np.Libc.{Bytes, codes}
use np.Libc.Tokens.{is_delim, Lacks, strtok}
use np.Single.Env.{Environ, getenv}
use np.Web.Html.{html_of, html_byte, html_of_lem}
use np.Web.Query.{parse_query_string}
use np.Web.Query.Form.{Row, query, IsRow, Fits, chosen, clients, parse_query_string_lem}
use np.Web.Query.Proxy.{proxy_query}
use np.Web.Console.{
  Client, reading, writing, script, start_connect, new_client, proxied_client, handle_connect,
  handle_read, handle_write, connect_ends, read_ends, written_all, Reach, here, next,
}
use np.Web.Console.Input.{File}
use np.Web.Console.Replies.{IsTalk}
use np.Web.Console.Steps.{Reach-start}
use np.Web.Console.Proxied.{Accepted, Reach-Accepted}
use np.Web.Console.{
  request_ends, reply_ends, handle_send_socks4a, handle_receive_socks4, send_socks4a_request,
}
use np.Web.Page.{Site, set_html_format, batch_main, proxy_main}
use np.Web.Page.Begun.{begun, begun_behind, batch_main_lem, proxy_main_lem}
use np.Socks.Request.{Host}
use np.Socks.Session.{connect, reply, reject_reply, do_read}
use np.Socks.Request.{first_v4}
use np.Socks.Firewall.{check_dest_ip}
use np.Web.Request.{stoi, make_socks4a_request, do_read-make_socks4a_request}
use np.Web.Http.{IsSplit, Ends, serve_request}
use np.Web.Http.Answer
use np.Web.Http.Answer.{
  Request, IsRequest, line, read_variables, written_variables, serve_request_lem,
  serve_request-no_query,
}

html_of_lem_example : html_of (codes "a<b'\n") ≡ some (flat_map html_byte (codes "a<b'\n"))
html_of_lem_example = html_of_lem (codes "a<b'\n")

-- `h0=ab&p0=7&f0=t1&h1=&p1=&f1=`
abbrev row0 : Row
row0 = record {
  host = (codes "h0", codes "ab");
  port = (codes "p0", codes "7");
  file = (codes "f0", codes "t1");
}

abbrev row1 : Row
row1 = record { host = (codes "h1", []); port = (codes "p1", []); file = (codes "f1", []) }

row0-IsRow : IsRow row0
row0-IsRow = ground arith

row1-IsRow : IsRow row1
row1-IsRow = ground arith

chosen-Fits : All Fits (chosen (row0 ∷ row1 ∷ []))
unfolding chosen
chosen-Fits = ground arith

parse_query_string_lem_example : parse_query_string (some (query (row0 ∷ row1 ∷ []))) ≡ (
    if leb (length (chosen (row0 ∷ row1 ∷ []))) 5
    then ok (clients 0 (chosen (row0 ∷ row1 ∷ [])), [])
    else fault out_of_bounds)
parse_query_string_lem_example =
    parse_query_string_lem (row0 ∷ row1 ∷ []) (row0-IsRow, (row1-IsRow, tt)) chosen-Fits

-- Every name has one endpoint, and every file holds one command.
abbrev one_command : File
one_command = record { good = true; left = codes "ls\r\n" }

abbrev site : Site
site = record { open_file = λ name. one_command; resolve = λ host port. some 1 }

one_chosen : length (chosen (row0 ∷ row1 ∷ [])) ≡ 1
unfolding chosen
one_chosen = refl

batch_main_lem_example :
    batch_main site (some (query (row0 ∷ row1 ∷ [])))
    ≡ ok (
      set_html_format (clients 0 (chosen (row0 ∷ row1 ∷ []))),
      begun site (λ r. 1) 0 (chosen (row0 ∷ row1 ∷ [])),
    )
unfolding chosen
batch_main_lem_example =
    batch_main_lem site (row0 ∷ row1 ∷ []) (λ r. 1) (row0-IsRow, (row1-IsRow, tt)) chosen-Fits
      (omega (arith, one_chosen)) (omega (arith, one_chosen)) ((λ n. refl), tt)

abbrev five_rows : List Row
five_rows = row0 ∷ row1 ∷ row1 ∷ row1 ∷ row1 ∷ []

five_rows-Fits : All Fits (chosen five_rows)
unfolding chosen
five_rows-Fits = ground arith

one_of_five : length (chosen five_rows) ≡ 1
unfolding chosen
one_of_five = refl

proxy_main_lem_example :
    proxy_main site (some (proxy_query five_rows (codes "sh", codes "p") (codes "sp", codes "9")))
    ≡ ok (set_html_format (clients 0 (chosen five_rows)), begun_behind site 1 0 (chosen five_rows))
proxy_main_lem_example =
    proxy_main_lem site five_rows (codes "sh", codes "p") (codes "sp", codes "9") 1 b'p' [] refl
      (row0-IsRow, (row1-IsRow, (row1-IsRow, (row1-IsRow, (row1-IsRow, tt))))) five_rows-Fits
      (omega (arith, one_of_five)) (ground arith) (ground arith) refl (omega arith) (omega arith)
      refl

-- A client that has read a prompt and written a command.
abbrev prompted : Client
prompted = record (new_client (codes "s0") one_command) {
  file = record { good = true; left = [] };
  endpoints = 1;
  operation = writing 3;
  page =
      script (codes "s0") (codes "% ") ∷ script (codes "s0") (codes "<cmd>ls&NewLine;</cmd>") ∷ [];
  got = codes "% " ∷ [];
}

abbrev served : Client
served = record prompted { operation = reading; sent = 3 }

run_to_prompt : Reach (start_connect 1 (new_client (codes "s0") one_command)) prompted
unfolding start_connect new_client handle_connect handle_read script strtok
run_to_prompt =
    next (next here (connect_ends true false refl refl)) (read_ends (some (codes "% ")) refl refl)

run_to_answer : Reach (start_connect 1 (new_client (codes "s0") one_command)) served
unfolding new_client handle_write
run_to_answer = next run_to_prompt (written_all refl)

Reach-start_example : IsTalk (codes "s0") one_command served
Reach-start_example = Reach-start none (codes "s0") one_command 1 run_to_answer

-- A client that has had the answer of the proxy.
abbrev granted : Client
granted = record (proxied_client (codes "h") (codes "80") (codes "s0") one_command) {
  endpoints = 1;
  operation = reading;
}

run_to_grant :
    Reach
      (start_connect 1 (proxied_client (codes "h") (codes "80") (codes "s0") one_command))
      granted
unfolding start_connect proxied_client new_client handle_connect send_socks4a_request
    make_socks4a_request stoi handle_send_socks4a handle_receive_socks4
run_to_grant =
    next (next (next here (connect_ends true false refl refl)) (request_ends false refl))
      (reply_ends (some (0 ∷ 90 ∷ [])) refl)

Reach-Accepted_example :
    Accepted run_to_grant ⊎ ((granted.got ≡ []) × ((granted.page ≡ []) × (granted.sent ≡ 0)))
Reach-Accepted_example =
    Reach-Accepted (codes "h") (codes "80") (codes "s0") one_command 1 run_to_grant

-- A `split` as in the documentation.
abbrev in_front : ℕ → List Bytes → List Bytes
in_front c [] = (c ∷ []) ∷ []
in_front c (t ∷ ts) = (c ∷ t) ∷ ts

abbrev split_at_blanks : Bytes → List Bytes
split_at_blanks [] = [] ∷ []
split_at_blanks (c ∷ s) =
    let rest = split_at_blanks s in if is_delim (codes " \n") c then [] ∷ rest else in_front c rest

split_at_end : (t : Bytes) → Lacks (codes " \n") t → split_at_blanks t ≡ t ∷ []
split_at_end [] h = refl
split_at_end (c ∷ t) (n, h) = rw (n, split_at_end t h) refl

split_at_delim :
    (t : Bytes) (d : ℕ) (s : Bytes)
    → Lacks (codes " \n") t
    → is_delim (codes " \n") d ≡ true
    → split_at_blanks (t ++ (d ∷ s)) ≡ t ∷ split_at_blanks s
split_at_delim [] d s h e = rw e refl
split_at_delim (c ∷ t) d s (n, h) e = rw (n, split_at_delim t d s h e) refl

split_at_blanks-IsSplit : IsSplit split_at_blanks
split_at_blanks-IsSplit = record { at_end = split_at_end; at_delim = split_at_delim }

-- `GET /a?b H` and a header; a line that names no program.
abbrev get_a : Request
get_a = record {
  method = codes "GET";
  target = codes "/a?b";
  protocol = codes "H\r";
  header = codes "Host:";
  host = codes "x\r";
  rest = codes "\r\n";
}

abbrev get_icon : Request
get_icon = record get_a { target = codes "/i" }

abbrev ends : Ends
ends = record {
  server_addr = codes "10.0.0.1";
  server_port = codes "80";
  remote_addr = codes "10.0.0.2";
  remote_port = codes "4000";
}

get_a-IsRequest : IsRequest get_a
get_a-IsRequest = record {
  method = ground arith;
  target = ground arith;
  protocol = ground arith;
  header = ground arith;
  host = ground arith;
  no_nul = ground arith;
}

get_icon-IsRequest : IsRequest get_icon
get_icon-IsRequest = record {
  method = ground arith;
  target = ground arith;
  protocol = ground arith;
  header = ground arith;
  host = ground arith;
  no_nul = ground arith;
}

get_a-Fits : Answer.Fits get_a ends
get_a-Fits = record {
  request = omega arith;
  request_uri = omega arith;
  server_addr = omega arith;
  server_port = omega arith;
  remote_addr = omega arith;
  remote_port = omega arith;
}

get_icon-Fits : Answer.Fits get_icon ends
get_icon-Fits = record {
  request = omega arith;
  request_uri = omega arith;
  server_addr = omega arith;
  server_port = omega arith;
  remote_addr = omega arith;
  remote_port = omega arith;
}

-- Meanwhile another connection's request is read.
abbrev another_read : Environ → Environ
another_read environ = (codes "REQUEST_METHOD", codes "PUT") ∷ environ

serve_request_lem_example :
    (between : Environ) × (environ' : Environ) × (serve_request split_at_blanks ends another_read
        (line get_a)
        []
      ≡ ok (environ', codes "./a"))
    × ((name : Bytes) → getenv between name ≡ getenv (read_variables get_a []) name)
    × ((name : Bytes)
        → getenv environ' name
          ≡ getenv (written_variables (codes "b") ends (another_read between)) name)
serve_request_lem_example =
    serve_request_lem split_at_blanks split_at_blanks-IsSplit get_a (codes "/a") (codes "b") ends
      another_read [] get_a-IsRequest get_a-Fits refl (ground arith) (ground arith) (omega arith)

serve_request-no_query_example :
    serve_request split_at_blanks ends another_read (line get_icon) [] ≡ fault null_pointer
serve_request-no_query_example =
    serve_request-no_query split_at_blanks split_at_blanks-IsSplit get_icon ends another_read []
      get_icon-IsRequest get_icon-Fits (ground arith) (omega arith)

-- A host that knows every name under one address, and writes a number with one byte.
abbrev known_host : Host
known_host = record {
  to_string = λ n. (1000 + n) ∷ [];
  resolve = λ name. some (record { is_v4 = true; address = codes "1.2.3.4" } ∷ []);
  local_port = 40000;
}

eighty : stoi (codes "80") ≡ ok (pos 80)
unfolding stoi
eighty = refl

do_read-make_socks4a_request_example :
    (do
      request ← make_socks4a_request (codes "80") (codes "nctu")
      do_read known_host [] (request ++ (codes "x" ++ (0 ∷ []))))
    ≡ (do
      endpoints ← or_fault (known_host.resolve (codes "nctu" ++ codes "x")) exception
      let dest_ip = first_v4 endpoints
      ok (
          if check_dest_ip 1 dest_ip []
          then connect dest_ip (known_host.to_string 80) ∷ []
          else reply reject_reply ∷ []))
do_read-make_socks4a_request_example =
    do_read-make_socks4a_request known_host [] (codes "80") (codes "nctu") (codes "x") [] 80 eighty
      (omega arith) (omega arith) (ground arith) (ground arith)
