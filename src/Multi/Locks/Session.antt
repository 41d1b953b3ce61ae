-- ===== src/Multi/Locks/Session.antt =====
-- The discipline in a client's process from login to logout, in the handlers, and in the process that
-- accepts the clients.
use np.Prelude.{
  subst, sym, ◌∙◌, ◌≡◌, ◌⊎◌, inl, inr, ok, ℕ, zero, suc, ◌+◌, refl, Bool, true, false, List, Option,
  none, some,
}
use np.Libc.{Bytes}
use np.CrossPipe.{Block, null, live, freed}
use np.Sys.{Os, SockAddr}
use np.Texts.{Line}
use np.Single.Env.{max_client_num}
use np.Single.Command.Parse.{Parsed}
use np.Multi.Shared.{table, login}
use np.Multi.Users.{
  update_client_infor, clear_own, clear_others, delete_client_infor, next_place, change_client_num,
  take_place, lower_min_id,
}
use np.Multi.Command.{
  print_env, env_setting, run_single, free_block, free_record, free_at_end, string_split, check_cmd,
}
use np.Multi.Session.{leave_shell, run_line, shell_round, shell_loop, run_shell, log_out, session}
use np.Multi.Prog.{Own, Prog, ◌>>=◌, ◌>>◌, reads, lift, mine, modify, write_to}
use np.Multi.Locks.{
  World, is, looks, stores, names, forgets, Held, held, Keeps, calm, returns, crashes, any,
  Keeps->>, Keeps-if, Keeps-mine, Keeps-reads, Keeps-client_at, Keeps-modify, Keeps-perform,
  Keeps-wait, Keeps-post, Keeps-write_to, calm_bind, calm_then,
}
use np.Multi.Locks.Talk.{
  print_welcome_msg-Keeps, print_login_msg-Keeps, print_logout_msg-Keeps, cmd_who-Keeps,
  cmd_name-Keeps, cmd_tell-Keeps, cmd_yell-Keeps,
}
use np.Multi.Locks.Exec.{single_cmd-Keeps, ordinary_pipe-Keeps}

module _ {Mine : ℕ → ℕ → Type 0} where
  print_env-Keeps : {h : Held} (v : Option Bytes) → Keeps Mine any h h (print_env v)
  unfolding print_env
  print_env-Keeps none = search calm
  print_env-Keeps (some v) = search calm

  env_setting-Keeps : {h : Held} (cmd : List Bytes) → Keeps Mine any h h (env_setting cmd)
  unfolding env_setting
  env_setting-Keeps cmd = search (calm, print_env-Keeps) depth 9

  run_single-Keeps :
      (t : Bool) (os : Os) (p : Parsed) (line : Bytes)
      → Keeps Mine any (held t) (held t) (run_single os p line)
  unfolding run_single
  run_single-Keeps t os p line =
      search (calm, env_setting-Keeps, cmd_who-Keeps, cmd_name-Keeps, single_cmd-Keeps) depth 9

  free_block-Keeps : {h : Held} (b : Block) → Keeps Mine any h h (free_block b)
  unfolding free_block
  free_block-Keeps null = returns
  free_block-Keeps (live l) = Keeps-modify _
  free_block-Keeps freed = crashes

  free_record-Keeps : {h : Held} → Keeps Mine any h h free_record
  unfolding free_record
  free_record-Keeps = search (calm, free_block-Keeps)

  free_at_end-Keeps : {h : Held} → Keeps Mine any h h free_at_end
  unfolding free_at_end
  free_at_end-Keeps = search (calm, free_record-Keeps)

  string_split-Keeps :
      (t : Bool) (os : Os) (line : Bytes) → Keeps Mine any (held t) (held t) (string_split os line)
  unfolding string_split
  string_split-Keeps t os line =
      search (calm, ordinary_pipe-Keeps, run_single-Keeps, free_at_end-Keeps) depth 9

  check_cmd-Keeps : (t : Bool) (line : Line) → Keeps Mine any (held t) (held t) (check_cmd line)
  unfolding check_cmd
  check_cmd-Keeps t line = search (calm, cmd_tell-Keeps, cmd_yell-Keeps) depth 9

  leave_shell-Keeps : {h : Held} → Keeps Mine any h h leave_shell
  unfolding leave_shell
  leave_shell-Keeps = search (calm, free_record-Keeps) depth 9

  run_line-Keeps :
      (t : Bool) (os : Os) (line : Line) → Keeps Mine any (held t) (held t) (run_line os line)
  unfolding run_line
  run_line-Keeps t os line =
      search (calm, leave_shell-Keeps, check_cmd-Keeps, string_split-Keeps) depth 9

  shell_round-Keeps : (t : Bool) (os : Os) → Keeps Mine any (held t) (held t) (shell_round os)
  unfolding shell_round
  shell_round-Keeps t os = search (calm, leave_shell-Keeps, run_line-Keeps) depth 12

  shell_loop-Keeps :
      (t : Bool) (os : Os) (rounds : ℕ) → Keeps Mine any (held t) (held t) (shell_loop os rounds)
  unfolding shell_loop
  shell_loop-Keeps t os zero = returns
  shell_loop-Keeps t os (suc rounds) =
      calm_bind (shell_round-Keeps t os)
        (λ left. Keeps-if left returns (shell_loop-Keeps t os rounds))

  run_shell-Keeps :
      (t : Bool) (os : Os) (rounds : ℕ) → Keeps Mine any (held t) (held t) (run_shell os rounds)
  unfolding run_shell
  run_shell-Keeps t os rounds = search (calm, shell_loop-Keeps)

  next_place-Keeps : (rounds i : ℕ) → Keeps Mine any (held true) (held true) (next_place rounds i)
  unfolding next_place
  next_place-Keeps zero i = returns
  next_place-Keeps (suc rounds) i =
      calm_bind (Keeps-client_at i)
        (λ c. Keeps-if c.state (next_place-Keeps rounds (i + 1)) (Keeps-write_to _ refl))

  change_client_num-Keeps :
      (f : ℕ → ℕ) → Keeps Mine any (held true) (held true) (change_client_num f)
  unfolding change_client_num
  change_client_num-Keeps f = calm_bind (Keeps-reads _) (λ n. Keeps-write_to _ refl)

  -- With what comes behind: the number of clients, and the entry of the client whose number the process has.
  change_client_num_then :
      {w : World} {h' : Held} {q : Prog (Unit {0})} (f : ℕ → ℕ)
      → Keeps Mine w h' (held true) q
      → Keeps Mine w h' (held true) (change_client_num f >> q)
  unfolding change_client_num reads lift write_to ◌>>◌ ◌>>=◌
  change_client_num_then f k = looks (λ m o e v. stores refl k)

  update_client_infor_then :
      {h' : Held} {q : Prog (Unit {0})} (id : ℕ) (addr : SockAddr)
      → ((q : ℕ) → id ≡ 0 → Mine q 0)
      → Keeps Mine any h' (held true) q
      → Keeps Mine (is id) h' (held true) (update_client_infor id addr >> q)
  unfolding update_client_infor mine write_to ◌>>◌ ◌>>=◌
  update_client_infor_then id addr ne k = looks (λ m o e v.
      stores (refl, inr (own_number o e v.self))
        (forgets (stores refl (stores tt (stores refl k)))))
    where
      own_number : (o : Own) → o.id ≡ id → (o.id ≡ 0) ⊎ (Mine o.pid o.id) → Mine o.pid id
      own_number o e (inl z) =
          let none_yet : id ≡ 0 = sym e ∙ z in
          subst (λ x. Mine o.pid x) (sym none_yet) (ne o.pid none_yet)
      own_number o e (inr same) = subst (λ x. Mine o.pid x) e same

  -- `min_id` is the place of a client.
  min_id_then :
      {B : Type 0} {h' h : Held} {f : ℕ → Prog B}
      → ((id : ℕ) → ((q : ℕ) → id ≡ 0 → Mine q 0) → Keeps Mine any h' h (f id))
      → Keeps Mine any h' h (reads (λ m. ok m.min_id) >>= f)
  unfolding reads lift ◌>>=◌
  min_id_then k = looks (λ m o q v. k m.min_id v.min)

  name_then :
      {h' h : Held} {q : Prog (Unit {0})} (id : ℕ)
      → Keeps Mine (is id) h' h q
      → Keeps Mine any h' h (modify (λ o. record o { id = id }) >> q)
  unfolding modify ◌>>◌ ◌>>=◌
  name_then id k = names (λ o. refl) k

  take_place-Keeps : (addr : SockAddr) → Keeps Mine any (held false) (held false) (take_place addr)
  unfolding take_place
  take_place-Keeps addr = Keeps->> (Keeps-wait table refl) (
      min_id_then (λ id ne. name_then id (
        change_client_num_then _ (
          update_client_infor_then id addr ne (
            calm_then (next_place-Keeps max_client_num 1)
              (Keeps->> (Keeps-post login tt) (Keeps-post table refl)))))))

  clear_own-Keeps : {h : Held} (id rounds i : ℕ) → Keeps Mine any h h (clear_own id rounds i)
  unfolding clear_own
  clear_own-Keeps id zero i = returns
  clear_own-Keeps id (suc rounds) i =
      calm_then (Keeps-write_to _ tt) (clear_own-Keeps id rounds (i + 1))

  clear_others-Keeps : {h : Held} (id rounds i : ℕ) → Keeps Mine any h h (clear_others id rounds i)
  unfolding clear_others
  clear_others-Keeps id zero i = returns
  clear_others-Keeps id (suc rounds) i = calm_bind (Keeps-client_at i) (λ c.
      calm_then (Keeps-if c.state (Keeps-write_to _ tt) returns)
        (clear_others-Keeps id rounds (i + 1)))

  delete_client_infor-Keeps : Keeps Mine any (held true) (held true) delete_client_infor
  unfolding delete_client_infor
  delete_client_infor-Keeps = calm_bind (Keeps-mine _) (λ id.
      calm_then (Keeps-write_to _ refl)
        (search (calm, clear_own-Keeps, clear_others-Keeps) depth 9))

  lower_min_id-Keeps : Keeps Mine any (held true) (held true) lower_min_id
  unfolding lower_min_id
  lower_min_id-Keeps =
      calm_bind (Keeps-mine _)
        (λ id. calm_bind (Keeps-reads _) (λ min_id. Keeps-if _ (Keeps-write_to _ refl) returns))

  log_out-Keeps : Keeps Mine any (held false) (held false) log_out
  unfolding log_out
  log_out-Keeps = calm_then (Keeps-modify _) (
      Keeps->> (Keeps-wait table refl) (
        calm_bind (Keeps-mine _) (λ sockfd. calm_then (Keeps-perform _) (
          calm_bind delete_client_infor-Keeps (λ name. calm_then (change_client_num-Keeps _) (
            calm_then lower_min_id-Keeps (
              calm_then (print_logout_msg-Keeps true name)
                (Keeps->> (Keeps-post table refl) (Keeps-perform _)))))))))

  -- The program of a client's process, from its login to its logout, keeps this discipline, whatever the
  -- other processes write meanwhile, as long as each entry that it looks at has the pid 0 or that of a
  -- process of its client, the process is one of the client whose number it has (or has the number 0),
  -- and `min_id` is not 0 unless every process is one of client 0. It writes the pid, the state and the
  -- address of an entry, and `client_num` and `min_id`, only while it holds the table, and as a pid only
  -- 0 or that of a process of the entry's client; the counter of FIFOs only while it holds that; a
  -- mailbox and its `from_id` only while it holds that mailbox. It waits for the table and for `login`
  -- only while it holds no semaphore, and for a mailbox or the counter only while it holds neither of
  -- these. It gives back only `login` or a semaphore that it holds. It sends a signal only while it
  -- holds a mailbox, to pid 0 or to a process of that mailbox's client, and then no longer holds the
  -- mailbox. Where it returns it holds no semaphore. Names and user pipes are written with or without a
  -- semaphore, and a run that ends in a fault may hold some.
  pub session-Keeps :
      (os : Os) (rounds msockfd : ℕ) (addr : SockAddr)
      → Keeps Mine any (held false) (held false) (session os rounds msockfd addr)
  unfolding session
  session-Keeps os rounds msockfd addr = calm_then (take_place-Keeps addr) (
      calm_then (Keeps-perform _) (
        calm_then print_welcome_msg-Keeps (
          calm_then (print_login_msg-Keeps false) (
            calm_bind (run_shell-Keeps false os rounds)
              (λ left. Keeps-if left log_out-Keeps returns)))))
