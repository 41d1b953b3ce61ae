-- ===== src/Multi/Users.antt =====
-- The table of clients in np_multi_proc: what a process writes there at login and at logout.
use np.Prelude.{ℕ, zero, suc, ◌+◌, true, false, if◌then◌else◌, minus_one, ok, ltb}
use np.Libc.{Bytes, codes, strcpy}
use np.Sys.{SockAddr}
use np.Single.Env.{max_client_num}
use np.Single.Users.{max_name_len}
use np.Multi.Shared.{
  login, table, set_pid, set_state, set_name, set_connection, set_user_pipe, set_client_num,
  set_min_id,
}
use np.Multi.Prog.{
  Prog, ret, ◌>>=◌, ◌>>◌, lift, reads, mine, client_at, write_to, wait, post, modify,
}

unfoldable pub update_client_infor : ℕ → SockAddr → Prog (Unit {0})
unfolding ◌>>=◌ ◌>>◌
update_client_infor id addr = do
  pid ← mine (λ o. o.pid)
  write_to (set_pid id pid)
  write_to (set_state id true)
  write_to (set_name id (codes "(no name)"))
  write_to (set_connection id addr)

-- `client_list[id].user_pipe[i] = -1` for the rounds left.
unfoldable pub clear_own : ℕ → ℕ → ℕ → Prog (Unit {0})
unfolding ◌>>◌
clear_own id zero i = ret tt
clear_own id (suc rounds) i = do
  write_to (set_user_pipe id i minus_one)
  clear_own id rounds (i + 1)

-- `client_list[i].user_pipe[id] = -1` for the clients who are there.
unfoldable pub clear_others : ℕ → ℕ → ℕ → Prog (Unit {0})
unfolding ◌>>=◌ ◌>>◌
clear_others id zero i = ret tt
clear_others id (suc rounds) i = do
  c ← client_at i
  if c.state then write_to (set_user_pipe i id minus_one) else ret tt
  clear_others id rounds (i + 1)

-- The name goes into the caller's array.
unfoldable pub delete_client_infor : Prog Bytes
unfolding ◌>>=◌ ◌>>◌ clear_own clear_others
delete_client_infor = do
  id ← mine (λ o. o.id)
  write_to (set_state id false)
  c ← client_at id
  name ← lift (strcpy max_name_len c.name)
  clear_own id (max_client_num + 1) 0
  clear_others id max_client_num 1
  ret name

-- The search for the next `min_id` after a login: the first place from `i` on that is free; if there
-- is none, `min_id` stays.
unfoldable pub next_place : ℕ → ℕ → Prog (Unit {0})
unfolding ◌>>=◌
next_place zero i = ret tt
next_place (suc rounds) i = do
  c ← client_at i
  if c.state then next_place rounds (i + 1) else write_to (set_min_id i)

-- `client_num++` and `client_num--`: a read and a write.
unfoldable pub change_client_num : (ℕ → ℕ) → Prog (Unit {0})
unfolding ◌>>=◌
change_client_num f = do n ← reads (λ m. ok m.client_num); write_to (set_client_num (f n))

-- The login in `main`, up to the message.
unfoldable pub take_place : SockAddr → Prog (Unit {0})
unfolding ◌>>=◌ ◌>>◌ change_client_num update_client_infor next_place
take_place addr = do
  wait table
  id ← reads (λ m. ok m.min_id)
  modify (λ o. record o { id = id })
  change_client_num (λ n. n + 1)
  update_client_infor id addr
  next_place max_client_num 1
  post login
  post table

-- `if (id < connect_state->min_id) connect_state->min_id = id;`
unfoldable pub lower_min_id : Prog (Unit {0})
unfolding ◌>>=◌
lower_min_id = do
  id ← mine (λ o. o.id)
  min_id ← reads (λ m. ok m.min_id)
  if ltb id min_id then write_to (set_min_id id) else ret tt
