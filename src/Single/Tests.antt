-- ===== src/Single/Tests.antt =====
-- The theorems on the single-process server at small inputs.
use np.Prelude.{
  if◌then◌else◌, ◌&&◌, ℕ, suc, zero, ◌⊎◌, ◌+◌, ◌*◌, ◌<◌, ◌≡◌, refl, true, List, [], ◌∷◌, ◌++◌, none,
  some, arith, pos, length, replicate, set, get_elem?, ok, fault, use_after_free, null_pointer,
  minus_one,
}
use np.Libc.{Bytes, codes, str_eq}
use np.CrossPipe.{initial_cross_pipe_infor}
use np.Sys.{Os}
use np.Single.Env.{EnvVar, Environ, valid_name, getenv, set_env, renew_env_var, delete_env_var}
use np.Single.Env.Visible.{IsEnv, AfterSwitch, renew_env_var_lem}
use np.Single.Env.Change.{
  Changed, Dropped, HasPlace, writes, set_env_lem, delete_env_var-fault, delete_env_var-ok,
}
use np.Sys.{SockAddr}
use np.Single.State.{Client, Server, as_events}
use np.Single.Users.{slots, no_client, new_client, update_client_infor}
use np.Single.Talk.{print_logout_msg, cmd_name}
use np.Single.Talk.Names.{Taken, cmd_name_lem}
use np.Single.Loop.Leave.{leave_place-IsFirstFree}
use np.Single.Loop.Unique.{IsUnique, cmd_name-IsUnique, update_client_infor-IsUnique}
use np.Single.Talk.Fits.{IsAddr, heard_by_all, print_logout_msg_lem}
use np.Single.Loop.{run_shell, leave_place}
use np.Single.Loop.Places.{
  IsFirstFree, present_at, LoggedIn, update_client_infor_lem, taken_place_is_overwritten,
}
use np.Single.Loop.Disconnect.{run_shell-disconnected}

-- A system in which every client types `line`.
abbrev typing : Bytes → Os
typing line = record {
  read_end = λ tr. 100 + 2 * length tr;
  write_end = λ tr. 101 + 2 * length tr;
  child_pid = λ tr. 5000 + length tr;
  open_file = λ tr path. some 90;
  open_null = λ tr. some 91;
  read = λ tr fd. line;
  execvp = λ tr path. true;
  garbage = λ tr. pos 77;
}

abbrev local_host : SockAddr
local_host = record { a = 127; b = 0; c = 0; d = 1; port = 40000 }

abbrev first_client : Client
first_client = new_client (pos 4) local_host

-- Client 1 is there, and the places 2 and 3 of a small table are free.
abbrev one_user : Server
one_user = record {
  id = 1;
  list = no_client ∷ first_client ∷ no_client ∷ no_client ∷ [];
  env = [];
  environ = [];
  active_fd_set = 4 ∷ [];
  fd_id_list = replicate 8 minus_one;
  client_num = 1;
  min_id = 2;
  env_id = 1;
  trace = [];
}

-- Every place of the small table is taken, and `min_id` is 1.
abbrev full_house : Server
full_house = record one_user { list = no_client ∷ first_client ∷ first_client ∷ []; min_id = 1 }

run_shell-disconnected_example : run_shell (typing []) one_user ≡ fault null_pointer
run_shell-disconnected_example =
    run_shell-disconnected (typing []) one_user first_client initial_cross_pipe_infor refl refl refl

update_client_infor_lem_example :
    (t : Server) × (update_client_infor 5 local_host one_user ≡ ok (tt, t))
    × LoggedIn one_user 5 local_host t
update_client_infor_lem_example =
    update_client_infor_lem one_user 5 local_host (omega arith) (omega arith)

taken_place_is_overwritten_example :
    (t : Server) × (update_client_infor 6 local_host
        (leave_place 5 2 (record full_house { list = set full_house.list 2 no_client }))
      ≡ ok (tt, t))
    × (get_elem? t.list 1 ≡ some (new_client (pos 6) local_host))
    × (get_elem? t.list 2 ≡ some no_client)
taken_place_is_overwritten_example =
    taken_place_is_overwritten full_house first_client no_client 2 5 6 local_host refl refl
      (omega arith) (omega arith) refl (omega arith)

-- Client 1 has set `A`; `PATH` has a value for clients 0 and 1.
abbrev path_node : EnvVar
path_node = record {
  user_num = minus_one;
  env_name = some (codes "PATH");
  env_value = some (codes "bin:.") ∷ some (codes "bin") ∷ [];
}

abbrev a_node : EnvVar
a_node = record {
  user_num = pos 1;
  env_name = some (codes "A");
  env_value = none ∷ some (codes "x") ∷ [];
}

abbrev nodes : List EnvVar
nodes = path_node ∷ a_node ∷ []

nodes-IsEnv : IsEnv 1 nodes
unfolding valid_name str_eq
nodes-IsEnv = (
  (codes "PATH", some (codes "bin"), refl, refl, refl, refl),
  ((codes "A", some (codes "x"), refl, refl, refl, refl), tt),
)

renew_env_var_lem_example :
    (environ' : Environ) × (renew_env_var (path_node ∷ nodes) [] 1 ≡ ok environ')
    × AfterSwitch nodes 1 [] environ'
renew_env_var_lem_example = renew_env_var_lem path_node nodes [] 1 nodes-IsEnv

set_env_lem_example :
    (nodes' : List EnvVar) × (environ' : Environ) × (set_env
        (path_node ∷ nodes)
        []
        (codes "B")
        (codes "y")
        1
        true
      ≡ ok (path_node ∷ nodes', environ'))
    × Changed nodes (codes "B") (codes "y") 1 nodes'
    × ((n : Bytes)
        → getenv environ' n ≡ (
            if writes [] (codes "B") true && str_eq (codes "B") n
            then some (codes "y")
            else getenv [] n))
set_env_lem_example =
    set_env_lem path_node nodes [] (codes "B") (codes "y") 1 true nodes-IsEnv (omega arith)

nodes-HasPlace : HasPlace 1 nodes
nodes-HasPlace = ((some (codes "bin"), refl), ((some (codes "x"), refl), tt))

delete_env_var-fault_example : delete_env_var (path_node ∷ nodes) 1 ≡ fault use_after_free
delete_env_var-fault_example = delete_env_var-fault path_node nodes 1 nodes-HasPlace refl

delete_env_var-ok_example :
    (nodes' : List EnvVar) × (delete_env_var (path_node ∷ path_node ∷ []) 1
      ≡ ok (path_node ∷ nodes'))
    × Dropped (path_node ∷ []) 1 nodes'
delete_env_var-ok_example =
    delete_env_var-ok path_node (path_node ∷ []) 1 ((some (codes "bin"), refl), tt) refl

local_host-IsAddr : IsAddr local_host
local_host-IsAddr = omega arith

print_logout_msg_lem_example :
    print_logout_msg (codes "bob") one_user
    ≡ ok (
      tt,
      record one_user {
        trace =
            one_user.trace
            ++ as_events (
                heard_by_all
                  (codes "*** User '" ++ (codes "bob" ++ codes "' left. ***\n"))
                  (slots one_user.list));
      },
    )
print_logout_msg_lem_example = print_logout_msg_lem (codes "bob") one_user (omega arith)

cmd_name_lem_example :
    (t : Server) × (cmd_name (some (codes "bob")) one_user ≡ ok (tt, t))
    × ((Taken one_user.list 1 (codes "bob") × (t.list ≡ one_user.list))
        ⊎ ((Taken one_user.list 1 (codes "bob") → ⊥)
            × (t.list ≡ set one_user.list 1 (record first_client { name = codes "bob" }))))
cmd_name_lem_example =
    cmd_name_lem one_user first_client (codes "bob") refl local_host-IsAddr (omega arith)

one_name :
    (i : ℕ) (c : Client)
    → get_elem? one_user.list i ≡ some c
    → c.state ≡ true
    → c.name ≡ codes "(no name)"
one_name zero c e s = absurd (cc)
one_name (suc zero) c e s = cc
one_name (suc (suc zero)) c e s = absurd (cc)
one_name (suc (suc (suc zero))) c e s = absurd (cc)
one_name (suc (suc (suc (suc i)))) c e s = absurd (cc)

one_user-IsUnique : IsUnique one_user.list
one_user-IsUnique i j c d p q n e f s t h = one_name i c e s

cmd_name-IsUnique_example :
    (t : Server) × (cmd_name (some (codes "bob")) one_user ≡ ok (tt, t)) × IsUnique t.list
cmd_name-IsUnique_example =
    cmd_name-IsUnique one_user first_client (codes "bob") refl local_host-IsAddr (omega arith)
      one_user-IsUnique

update_client_infor-IsUnique_example :
    (t : Server) × (update_client_infor 5 local_host one_user ≡ ok (tt, t)) × IsUnique t.list
update_client_infor-IsUnique_example =
    update_client_infor-IsUnique one_user 5 local_host (omega arith) (omega arith) one_user-IsUnique

two_free : IsFirstFree one_user.list 2
two_free = record {
  positive = omega arith;
  in_range = omega arith;
  free = refl;
  below_taken = first_there;
}
  where
    first_there : (i : ℕ) → 0 < i → i < 2 → present_at one_user.list i ≡ true
    first_there zero p h = absurd (omega arith)
    first_there (suc zero) p h = refl
    first_there (suc (suc i)) p h = absurd (omega arith)

-- Client 1 leaves.
leave_place-IsFirstFree_example :
    let t = leave_place 4 1 (record one_user { list = set one_user.list 1 no_client }) in
    IsFirstFree t.list t.min_id
leave_place-IsFirstFree_example =
    leave_place-IsFirstFree one_user 4 1 no_client two_free (omega arith) (omega arith) refl
