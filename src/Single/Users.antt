-- ===== src/Single/Users.antt =====
-- The table of clients: the start, a login and a logout (`initial_client_infor`,
-- `update_client_infor`, `delete_client_infor`).
use np.Prelude.{
  ℕ, zero, suc, ◌+◌, true, false, List, [], ◌∷◌, Option, none, some, ◌==◌, if◌then◌else◌, get_elem?,
  set, replicate, ℤ, pos, minus_one, is_neg, null_pointer, out_of_bounds, double_free,
}
use np.Libc.{Bytes, codes, strcpy}
use np.CrossPipe.{CrossPipe, initial_cross_pipe_infor, close_cross_pipe_fd, live, null, freed}
use np.Sys.{Call, close}
use np.Single.Env.{max_client_num}
use np.Sys.{SockAddr}
use np.Single.State.{
  Client, Server, M, ◌>>=◌, ◌>>◌, pure, fail, lift, require, gets, modify, perform, client_at, me,
  put_client, cross_pipe_of,
}

abbrev pub max_name_len : ℕ
max_name_len = 20

abbrev pub no_addr : SockAddr
no_addr = record { a = 0; b = 0; c = 0; d = 0; port = 0 }

-- An entry of the table after the start.
abbrev pub no_client : Client
no_client = record {
  sockfd = minus_one;
  state = false;
  user_pipe = none;
  name = [];
  connection_infor = no_addr;
  cp_infor = none;
}

-- The loops over the whole table and over the whole of `fd_id_list`.
unfoldable pub initial_client_infor : Server → ℕ → Server
initial_client_infor s total_fd_num = record s {
  list = replicate (max_client_num + 1) no_client;
  fd_id_list = replicate total_fd_num minus_one;
}

abbrev pub no_pipes : List ℤ
no_pipes = replicate (max_client_num + 1) minus_one

-- The entry of a client who has just come.
abbrev pub new_client : ℤ → SockAddr → Client
new_client sockfd addr = record {
  sockfd = sockfd;
  state = true;
  user_pipe = some no_pipes;
  name = codes "(no name)";
  connection_infor = addr;
  cp_infor = some initial_cross_pipe_infor;
}

-- The first position from `i` on whose client is not there.
unfoldable pub first_absent : ℕ → List Client → Option ℕ
first_absent i [] = none
first_absent i (c ∷ cs) = if c.state then first_absent (i + 1) cs else some i

-- `list[1 .. max_client_num]`
abbrev pub slots : List Client → List Client
slots [] = []
slots (c ∷ cs) = cs

-- The search of a new `min_id` starts at 1; if every place is taken, `min_id` stays.
unfoldable pub next_min_id : List Client → ℕ → ℕ
next_min_id list min_id = elim (first_absent 1 (slots list)) [ none ↦ min_id | some i ↦ i ]

-- `fd_id_list[sockfd] = *min_id`, and the new `min_id`.
unfoldable pub update_client_infor : ℕ → SockAddr → M (Unit {0})
update_client_infor sockfd addr = do
  s ← gets (λ s. s)
  old ← client_at s.min_id
  old_id ← require (get_elem? s.fd_id_list sockfd) out_of_bounds
  let list' = set s.list s.min_id (new_client (pos sockfd) addr)
  modify (λ s. record s {
    id = s.min_id;
    list = list';
    fd_id_list = set s.fd_id_list sockfd (pos s.min_id);
    min_id = next_min_id list' s.min_id;
  })

-- `free(close_fd_record)`
unfoldable pub free_record : CrossPipe → M (Unit {0})
free_record infor = elim infor.close_fd_record [
  | null ↦ pure tt
  | live l ↦ pure tt
  | freed ↦ fail double_free
]

abbrev pub close_if_open : ℤ → List Call
close_if_open fd = if is_neg fd then [] else close fd ∷ []

-- The entry `i` of an array of descriptors.
abbrev pub fd_at : List ℤ → ℕ → M ℤ
fd_at pipes i = require (get_elem? pipes i) out_of_bounds

-- The pipe from client `id` that waits for client `i` is closed.
unfoldable pub drop_pipe_from : ℕ → ℕ → M (Unit {0})
drop_pipe_from id i = do
  c ← client_at i
  elim c.user_pipe [
    | none ↦ pure tt
    | some pipes ↦ do
      fd ← fd_at pipes id
      perform (close_if_open fd)
      if is_neg fd
          then pure tt
          else put_client i (record c { user_pipe = some (set pipes id minus_one) })
  ]

-- `for (i = 1; i <= max_client_num; i++)`, by the rounds left. The pipes of the client who leaves
-- are read anew in each round.
unfoldable pub drop_pipes : ℕ → ℕ → ℕ → M (Unit {0})
unfolding drop_pipe_from
drop_pipes zero i id = pure tt
drop_pipes (suc rounds) i id = do
  c ← client_at id
  pipes ← require c.user_pipe null_pointer
  fd ← fd_at pipes i
  perform (close_if_open fd)
  drop_pipe_from id i
  drop_pipes rounds (i + 1) id

-- The name of the client who leaves goes into an array of `max_name_len` bytes of the caller.
unfoldable pub delete_client_infor : M Bytes
unfolding free_record drop_pipes
delete_client_infor = do
  s ← gets (λ s. s)
  let id = s.id
  c ← me
  name ← lift (strcpy max_name_len c.name)
  put_client id (record c { sockfd = minus_one; state = false; name = [] })
  infor ← cross_pipe_of c
  if infor.data_num == 0
      then pure tt
      else do calls ← lift (close_cross_pipe_fd infor minus_one); perform calls; free_record infor
  c' ← client_at id
  put_client id (record c' { cp_infor = none })
  drop_pipes max_client_num 1 id
  c'' ← client_at id
  put_client id (record c'' { user_pipe = none })
  pure name
