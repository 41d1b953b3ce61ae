-- ===== src/Web/Http.antt =====
-- `session` of http_server.cpp: from a request to the environment and the program that answers it.
pub mod Answer
use np.Prelude.{
  ℕ, ◌≡◌, true, false, List, [], ◌∷◌, ◌++◌, Option, none, some, get_elem?, Result, ok, fault,
  or_fault, ◌>>=◌, null_pointer, out_of_bounds, All,
}
use np.Libc.{Bytes, codes, strcpy, strcat}
use np.Libc.Tokens.{strtok, strtok_next, is_delim, Lacks}
use np.Single.Env.{Environ, setenv}
use np.Web.Buffer.{text_of}

-- `boost::split` with `is_any_of(" \n")`, as its documentation has it: each delimiter ends a piece, also
-- an empty one.
pub record IsSplit (split : Bytes → List Bytes) : Type 0 where
  pub at_end : (t : Bytes) → Lacks (codes " \n") t → split t ≡ t ∷ []
  pub at_delim :
      (t : Bytes) (d : ℕ) (s : Bytes)
      → Lacks (codes " \n") t
      → is_delim (codes " \n") d ≡ true
      → split (t ++ (d ∷ s)) ≡ t ∷ split s

-- The two ends of the connection, as texts: the addresses from `to_string`, the ports from `sprintf`.
pub record Ends : Type 0 where
  pub server_addr : Bytes
  pub server_port : Bytes
  pub remote_addr : Bytes
  pub remote_port : Bytes

-- `http_env[i]`
unfoldable pub http_env_at : List Bytes → ℕ → Result Bytes
http_env_at http_env i = or_fault (get_elem? http_env i) out_of_bounds

-- The handler of a read without an error: the environment of the server, and REQUEST_URI.
unfoldable pub do_read : (Bytes → List Bytes) → Bytes → Environ → Result (Environ × Bytes)
unfolding text_of http_env_at setenv strcpy
do_read split request environ = do
  http_request ← text_of request
  method ← http_env_at (split http_request) 0
  let environ1 = setenv environ (codes "REQUEST_METHOD") method true
  uri ← http_env_at (split http_request) 1
  let environ2 = setenv environ1 (codes "REQUEST_URI") uri true
  request_uri ← strcpy 1000 uri
  protocol ← http_env_at (split http_request) 2
  let environ3 = setenv environ2 (codes "SERVER_PROTOCOL") protocol true
  host ← http_env_at (split http_request) 4
  let environ4 = setenv environ3 (codes "HTTP_HOST") host true
  ok (environ4, request_uri)

-- The handler of the write of the status without an error, up to `fork`: the environment, which the
-- child has a copy of, and `exec_file`.
unfoldable pub do_write : Ends → Bytes → Environ → Result (Environ × Bytes)
unfolding strcpy strcat strtok strtok_next setenv
do_write ends request_uri environ = do
  server_addr ← strcpy 100 ends.server_addr
  server_port ← strcpy 10 ends.server_port
  remote_addr ← strcpy 100 ends.remote_addr
  remote_port ← strcpy 10 ends.remote_port
  (path, behind) ← or_fault (strtok (codes "?") request_uri) null_pointer
  exec_file ← strcat 100 (codes ".") path
  (query_string, rest) ← or_fault (strtok_next (codes "?") behind) null_pointer
  let environ1 = setenv environ (codes "QUERY_STRING") query_string true
  let environ2 = setenv environ1 (codes "SERVER_ADDR") server_addr true
  let environ3 = setenv environ2 (codes "SERVER_PORT") server_port true
  let environ4 = setenv environ3 (codes "REMOTE_ADDR") remote_addr true
  let environ5 = setenv environ4 (codes "REMOTE_PORT") remote_port true
  ok (environ5, exec_file)

-- Both handlers of one connection. Between them the server may run the handlers of other connections,
-- over the same environment: `others` is what these make of it.
unfoldable pub serve_request :
    (Bytes → List Bytes) → Ends → (Environ → Environ) → Bytes → Environ → Result (Environ × Bytes)
unfolding do_read do_write
serve_request split ends others request environ = do
  (environ', request_uri) ← do_read split request environ
  do_write ends request_uri (others environ')
