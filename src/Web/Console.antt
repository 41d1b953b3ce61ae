-- ===== src/Web/Console.antt =====
-- `client` of console.cpp, in the batch system and for the proxy: one connection of the page. Each
-- callback is a function on the state; an operation of Boost.Asio that is under way ends in the callback
-- it was given.
pub mod Input
pub mod Replies
pub mod Answered
pub mod Steps
pub mod Proxied
use np.Prelude.{
  ℕ, zero, suc, ◌+◌, ◌-◌, ◌≡◌, length, Bool, true, false, not, ◌||◌, List, [], ◌∷◌, ◌++◌, Option,
  none, some, if◌then◌else◌, ◌==◌, get_elem?, Result, ok, fault, or_fault, ◌>>=◌, out_of_bounds,
}
use np.Libc.{Bytes, codes, strcpy, strcat}
use np.Web.Buffer.{text_of}
use np.Web.Html.{html_of}
use np.Web.Request.{make_socks4a_request}
use np.Web.Console.Input.{File, getline, max_input_len, command}

-- Nothing, `async_connect`, the write of the proxy's request, the read of its answer, a read of the
-- server's output, or the write of a command. The request is a member of the object. A command is a local
-- array, which is gone when the write goes on: of that write there is only the number of its bytes, and
-- which bytes go out is left open.
pub data Operation : Type 0 where
  idle connecting awaiting_reply reading : Operation
  requesting : Bytes → Operation
  writing : ℕ → Operation

-- The members; the endpoints from `endpoint_iter` on; the operation under way; and what has been seen
-- outside: the scripts printed into the page, the texts of the reads that were given to `handle_read`, and
-- how many bytes the writes of commands have sent.
pub record Client : Type 0 where
  pub stopped : Bool
  pub connect_proxy : Bool
  pub proxy_dest_domain_name : Bytes
  pub proxy_dest_port : Bytes
  pub html_id : Bytes
  pub file : File
  pub endpoints : ℕ
  pub operation : Operation
  pub page : List Bytes
  pub got : List Bytes
  pub sent : ℕ

unfoldable pub stop : Client → Client
stop s = record s { stopped = true }

unfoldable pub start_connect : ℕ → Client → Client
unfolding stop
start_connect zero s = stop (record s { endpoints = 0 })
start_connect (suc n) s = record s { endpoints = suc n; operation = connecting }

unfoldable pub start_read : Client → Client
start_read s = record s { operation = reading }

unfoldable pub send_socks4a_request : Client → Result Client
unfolding make_socks4a_request
send_socks4a_request s = do
  socks4a_request ← make_socks4a_request s.proxy_dest_port s.proxy_dest_domain_name
  ok (record s { operation = requesting socks4a_request })

-- `socket_.is_open()` and `ec` as the system gives them.
unfoldable pub handle_connect : Bool → Bool → Client → Result Client
unfolding start_connect send_socks4a_request start_read
handle_connect is_open ec s =
    if s.stopped
    then ok s
    else if not is_open
    then ok (start_connect (s.endpoints - 1) s)
    else if ec
    then ok (start_connect (s.endpoints - 1) s)
    else if s.connect_proxy
    then send_socks4a_request s
    else ok (start_read s)

unfoldable pub handle_send_socks4a : Bool → Client → Client
unfolding stop
handle_send_socks4a ec s =
    if s.stopped then s else if ec then stop s else record s { operation = awaiting_reply }

-- The answer, `none` for an error: `socks4_reply` was all zeros.
unfoldable pub handle_receive_socks4 : Option Bytes → Client → Client
unfolding stop start_read
handle_receive_socks4 none s = if s.stopped then s else stop s
handle_receive_socks4 (some socks4_reply) s = elim (get_elem? socks4_reply 1) [
  | none ↦ if s.stopped then s else stop s
  | some code ↦ if s.stopped then s else if code == 90 then start_read s else stop s
]

-- `<script>document.getElementById('…').innerHTML += '…';</script>` and the end of the line
unfoldable pub script : Bytes → Bytes → Bytes
script html_id text =
    codes "<script>document.getElementById('"
    ++ (html_id ++ (codes "').innerHTML += '" ++ (text ++ (codes "';</script>" ++ (b'\n' ∷ [])))))

unfoldable pub print_output : Bytes → Client → Result Client
unfolding html_of script
print_output output s = do
  buf ← or_fault (html_of output) out_of_bounds
  ok (record s { page = s.page ++ (script s.html_id buf ∷ []) })

-- What is around a command in the page.
unfoldable pub cmd_text : Bytes → Bytes
cmd_text buf = codes "<cmd>" ++ (buf ++ codes "&NewLine;</cmd>")

unfoldable pub print_command : Bytes → Client → Result Client
unfolding strcpy script cmd_text
print_command cmd s = do
  buf ← strcpy max_input_len cmd
  ok (record s { page = s.page ++ (script s.html_id (cmd_text buf) ∷ []) })

-- The next line of the file, shown and written to the server with a line end.
unfoldable pub send_command : Client → Result Client
unfolding getline command print_command strcat
send_command s = do
  let (line, file) = getline s.file
  let cmd = command line
  printed ← print_command cmd (record s { file = file })
  buffer ← strcat max_input_len cmd (codes "\n")
  ok (record printed { operation = writing (length buffer) })

unfoldable pub start_write : Client → Result Client
unfolding send_command
start_write s = if s.stopped then ok s else send_command s

-- `strchr(data_, '%')` as a condition
unfoldable pub has_percent : Bytes → Bool
has_percent [] = false
has_percent (b ∷ s) = b == b'%' || has_percent s

-- A read without an error.
unfoldable pub take_output : Bytes → Client → Result Client
unfolding text_of print_output has_percent start_write start_read
take_output bytes s = do
  data_ ← text_of bytes
  printed ← print_output data_ (record s { got = s.got ++ (data_ ∷ []) })
  if has_percent data_ then start_write printed else ok (start_read printed)

-- `none` is an error.
unfoldable pub handle_read : Option Bytes → Client → Result Client
unfolding stop take_output
handle_read none s = if s.stopped then ok s else ok (stop s)
handle_read (some bytes) s = if s.stopped then ok s else take_output bytes s

unfoldable pub handle_write : Bool → Client → Client
unfolding stop start_read
handle_write ec s = if s.stopped then s else if ec then stop s else start_read s

-- A new object, with the page's id and the file opened.
unfoldable pub new_client : Bytes → File → Client
new_client html_id file = record {
  stopped = false;
  connect_proxy = false;
  proxy_dest_domain_name = [];
  proxy_dest_port = [];
  html_id = html_id;
  file = file;
  endpoints = 0;
  operation = idle;
  page = [];
  got = [];
  sent = 0;
}

-- For a server: the file is opened, and there is a number of endpoints; the array `html_id` has five
-- bytes.
unfoldable pub start : Bytes → File → ℕ → Result Client
unfolding strcpy start_connect new_client
start h_id file endpoints = do
  html_id ← strcpy 5 h_id
  ok (start_connect endpoints (new_client html_id file))

-- A client that is to reach a host and a port through the proxy.
unfoldable pub proxied_client : Bytes → Bytes → Bytes → File → Client
unfolding new_client
proxied_client host port html_id file = record (new_client html_id file) {
  connect_proxy = true;
  proxy_dest_domain_name = host;
  proxy_dest_port = port;
}

-- For a server behind the proxy, whose endpoints these are.
unfoldable pub start_proxy : Bytes → Bytes → Bytes → File → ℕ → Result Client
unfolding strcpy start_connect proxied_client
start_proxy host port h_id file endpoints = do
  html_id ← strcpy 5 h_id
  ok (start_connect endpoints (proxied_client host port html_id file))

-- The operation is over; a write may end in an error after some of its bytes.
abbrev pub over : Client → Client
over s = record s { operation = idle }

abbrev pub written : ℕ → Client → Client
written n s = record s { operation = idle; sent = s.sent + n }

pub data Step (s : Client) : Client → Type 0 where
  connect_ends :
      (is_open ec : Bool) {t : Client}
      → s.operation ≡ connecting
      → handle_connect is_open ec (over s) ≡ ok t
      → Step s t
  request_ends :
      (ec : Bool) {d : Bytes}
      → s.operation ≡ requesting d
      → Step s (handle_send_socks4a ec (over s))
  reply_ends :
      (reply : Option Bytes)
      → s.operation ≡ awaiting_reply
      → Step s (handle_receive_socks4 reply (over s))
  read_ends :
      (bytes : Option Bytes) {t : Client}
      → s.operation ≡ reading
      → handle_read bytes (over s) ≡ ok t
      → Step s t
  written_all : {n : ℕ} → s.operation ≡ writing n → Step s (handle_write false (written n s))
  write_lost :
      (n n' : ℕ) → s.operation ≡ writing (n + n') → Step s (handle_write true (written n s))

pub data Reach (s : Client) : Client → Type 0 where
  here : Reach s s
  next : {t u : Client} → Reach s t → Step t u → Reach s u
