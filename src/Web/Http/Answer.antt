-- ===== src/Web/Http/Answer.antt =====
-- What http_server.cpp makes of a request: the variables and the program.
use np.Prelude.{
  ◌<◌, ◌≡◌, refl, ap, ◌∙◌, true, List, ◌∷◌, ◌++◌, some, if◌then◌else◌, length, ok, fault,
  null_pointer, arith,
}
use np.Libc.{Bytes, codes, str_eq}
use np.Libc.Buffers.{strcpy_lem, strcat_lem}
use np.Libc.Tokens.{strtok_next, Lacks, IsToken, strtok-token, strtok-last}
use np.Single.Env.{Environ, getenv, setenv, valid_name}
use np.Single.Env.Visible.{getenv-setenv}
use np.Web.Buffer.{text_of_lem, NoNul, max_length}
use np.Web.Http.{IsSplit, Ends, http_env_at, do_read, do_write, serve_request}

-- A request line and the first header. The line ends are `\n`; the `\r` of HTTP in front of each is in
-- `protocol` and `host`.
pub record Request : Type 0 where
  pub method : Bytes
  pub target : Bytes
  pub protocol : Bytes
  pub header : Bytes
  pub host : Bytes
  pub rest : Bytes

abbrev pub line : Request → Bytes
line r =
    r.method
    ++ (b' '
        ∷ (r.target
            ++ (b' '
                ∷ (r.protocol ++ (b'\n' ∷ (r.header ++ (b' ' ∷ (r.host ++ (b'\n' ∷ r.rest)))))))))

-- No field holds a space or a line end, and there is no NUL.
pub record IsRequest (r : Request) : Type 0 where
  pub method : Lacks (codes " \n") r.method
  pub target : Lacks (codes " \n") (r.target)
  pub protocol : Lacks (codes " \n") r.protocol
  pub header : Lacks (codes " \n") r.header
  pub host : Lacks (codes " \n") r.host
  pub no_nul : NoNul (line r)

-- The texts fit their arrays.
pub record Fits (r : Request) (ends : Ends) : Type 0 where
  pub request : length (line r) < max_length
  pub request_uri : length (r.target) < 1000
  pub server_addr : length ends.server_addr < 100
  pub server_port : length ends.server_port < 10
  pub remote_addr : length ends.remote_addr < 100
  pub remote_port : length ends.remote_port < 10

-- The variables that the read of a request sets, and those that the write of the status sets, each in
-- front of an environment.
abbrev pub read_variables : Request → Environ → Environ
read_variables r environ =
    (codes "HTTP_HOST", r.host)
    ∷ (codes "SERVER_PROTOCOL", r.protocol)
    ∷ (codes "REQUEST_URI", r.target)
    ∷ (codes "REQUEST_METHOD", r.method)
    ∷ environ

abbrev pub written_variables : Bytes → Ends → Environ → Environ
written_variables query ends environ =
    (codes "REMOTE_PORT", ends.remote_port)
    ∷ (codes "REMOTE_ADDR", ends.remote_addr)
    ∷ (codes "SERVER_PORT", ends.server_port)
    ∷ (codes "SERVER_ADDR", ends.server_addr)
    ∷ (codes "QUERY_STRING", query)
    ∷ environ

read_environ : Request → Environ → Environ
read_environ r environ =
    setenv
      (setenv
        (setenv (setenv environ (codes "REQUEST_METHOD") r.method true) (codes "REQUEST_URI")
          (r.target) true)
        (codes "SERVER_PROTOCOL") r.protocol true)
      (codes "HTTP_HOST") r.host true

module _ (split : Bytes → List Bytes) (is_split : IsSplit split) where
  pieces :
      (r : Request)
      → IsRequest r
      → split (line r) ≡ r.method ∷ r.target ∷ r.protocol ∷ r.header ∷ r.host ∷ split r.rest
  pieces r h =
      is_split.at_delim r.method b' ' _ h.method refl
      ∙ ap (λ l. r.method ∷ l)
          (is_split.at_delim (r.target) b' ' _ h.target refl
            ∙ ap (λ l. r.target ∷ l)
                (is_split.at_delim r.protocol b'\n' _ h.protocol refl
                  ∙ ap (λ l. r.protocol ∷ l)
                      (is_split.at_delim r.header b' ' _ h.header refl
                        ∙ ap (λ l. r.header ∷ l) (is_split.at_delim r.host b'\n' _ h.host refl))))

  do_read_lem :
      (r : Request) (environ : Environ)
      → IsRequest r
      → length (line r) < max_length
      → length (r.target) < 1000
      → do_read split (line r) environ ≡ ok (read_environ r environ, r.target)
  unfolding do_read http_env_at read_environ
  do_read_lem r environ h less short =
      rw (text_of_lem (line r) h.no_nul less, pieces r h, strcpy_lem 1000 (r.target) short) refl

write_environ : Bytes → Ends → Environ → Environ
write_environ query ends environ =
    setenv
      (setenv
        (setenv
          (setenv (setenv environ (codes "QUERY_STRING") query true) (codes "SERVER_ADDR")
            ends.server_addr true)
          (codes "SERVER_PORT") ends.server_port true)
        (codes "REMOTE_ADDR") ends.remote_addr true)
      (codes "REMOTE_PORT") ends.remote_port true

do_write_lem :
    (r : Request) (path query : Bytes) (ends : Ends) (environ : Environ)
    → Fits r ends
    → IsToken b'?' path
    → IsToken b'?' query
    → length path < 99
    → do_write ends (path ++ (b'?' ∷ query)) environ
      ≡ ok (write_environ query ends environ, b'.' ∷ path)
unfolding do_write write_environ strtok_next
do_write_lem r path query ends environ fits hp hq short =
    rw
      (
        strcpy_lem 100 ends.server_addr fits.server_addr,
        strcpy_lem 10 ends.server_port fits.server_port,
        strcpy_lem 100 ends.remote_addr fits.remote_addr,
        strcpy_lem 10 ends.remote_port fits.remote_port,
        strtok-token b'?' path query hp,
        strcat_lem 100 (codes ".") path (omega arith),
        strtok-last b'?' query hq,
      )
      refl

do_write-no_query :
    (r : Request) (ends : Ends) (environ : Environ)
    → Fits r ends
    → IsToken b'?' r.target
    → length r.target < 99
    → do_write ends r.target environ ≡ fault null_pointer
unfolding do_write strtok_next
do_write-no_query r ends environ fits h short =
    rw
      (
        strcpy_lem 100 ends.server_addr fits.server_addr,
        strcpy_lem 10 ends.server_port fits.server_port,
        strcpy_lem 100 ends.remote_addr fits.remote_addr,
        strcpy_lem 10 ends.remote_port fits.remote_port,
        strtok-last b'?' r.target h,
        strcat_lem 100 (codes ".") r.target (omega arith),
      )
      refl

-- A variable that is set stands in front of what was there.
set_front :
    (m vars : Environ) (k v : Bytes)
    → valid_name k ≡ true
    → ((name : Bytes) → getenv m name ≡ getenv vars name)
    → (name : Bytes) → getenv (setenv m k v true) name ≡ getenv ((k, v) ∷ vars) name
unfolding getenv
set_front m vars k v valid same name =
    getenv-setenv m k v name valid ∙ ap (λ x. if str_eq k name then some v else x) (same name)

getenv-read_environ :
    (r : Request) (environ : Environ) (name : Bytes)
    → getenv (read_environ r environ) name ≡ getenv (read_variables r environ) name
unfolding read_environ valid_name
getenv-read_environ r environ = set_front _ _ (codes "HTTP_HOST") _ refl (
    set_front _ _ (codes "SERVER_PROTOCOL") _ refl (
      set_front _ _ (codes "REQUEST_URI") _ refl
        (set_front _ _ (codes "REQUEST_METHOD") _ refl (λ name. refl))))

getenv-write_environ :
    (query : Bytes) (ends : Ends) (environ : Environ) (name : Bytes)
    → getenv (write_environ query ends environ) name
      ≡ getenv (written_variables query ends environ) name
unfolding write_environ valid_name
getenv-write_environ query ends environ = set_front _ _ (codes "REMOTE_PORT") _ refl (
    set_front _ _ (codes "REMOTE_ADDR") _ refl (
      set_front _ _ (codes "SERVER_PORT") _ refl (
        set_front _ _ (codes "SERVER_ADDR") _ refl
          (set_front _ _ (codes "QUERY_STRING") _ refl (λ name. refl)))))

module _ (split : Bytes → List Bytes) (is_split : IsSplit split) where
  -- A request whose texts fit their arrays, for a path and a query with one `?` between them, whatever the
  -- handlers of other connections make of the environment, `between`, that its read has left: the program
  -- is the one at the path, in the server's directory. Its query and the two ends of the connection are
  -- those of this request, under their five names. Under any other name it sees what the others have left
  -- of `between`, in which the method, the target, the protocol and the value of the first header,
  -- whatever its name, stand under their four names (the protocol and the value up to the `\n`), and any
  -- other variable as before.
  pub serve_request_lem :
      (r : Request) (path query : Bytes) (ends : Ends) (others : Environ → Environ)
      (environ : Environ)
      → IsRequest r
      → Fits r ends
      → r.target ≡ path ++ (b'?' ∷ query)
      → IsToken b'?' path
      → IsToken b'?' query
      → length path < 99
      → (between : Environ) × (environ' : Environ) × (serve_request split ends others
            (line r)
            environ
          ≡ ok (environ', b'.' ∷ path))
        × ((name : Bytes) → getenv between name ≡ getenv (read_variables r environ) name)
        × ((name : Bytes)
            → getenv environ' name ≡ getenv (written_variables query ends (others between)) name)
  unfolding serve_request
  serve_request_lem r path query ends others environ h fits e hp hq short = (
    read_environ r environ,
    write_environ query ends (others (read_environ r environ)),
    rw (do_read_lem split is_split r environ h fits.request fits.request_uri) (
        ap (λ u. do_write ends u (others (read_environ r environ))) e
        ∙ do_write_lem r path query ends (others (read_environ r environ)) fits hp hq short),
    getenv-read_environ r environ,
    getenv-write_environ query ends (others (read_environ r environ)),
  )

  -- A request whose texts fit their arrays, for a target of fewer than 99 bytes without a `?`: the server
  -- reads a null pointer, in its own process, whatever the handlers of other connections do in between.
  pub serve_request-no_query :
      (r : Request) (ends : Ends) (others : Environ → Environ) (environ : Environ)
      → IsRequest r
      → Fits r ends
      → IsToken b'?' r.target
      → length r.target < 99
      → serve_request split ends others (line r) environ ≡ fault null_pointer
  unfolding serve_request
  serve_request-no_query r ends others environ h fits target short =
      rw (do_read_lem split is_split r environ h fits.request fits.request_uri)
        (do_write-no_query r ends (others (read_environ r environ)) fits target short)
