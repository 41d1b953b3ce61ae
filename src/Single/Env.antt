-- ===== src/Single/Env.antt =====
-- The environment variables of the clients: a list of nodes, each with a value for every client,
-- beside the environment of the server process, which the running client's commands see.
pub mod Visible
pub mod Change
use np.Prelude.{
  ℕ, zero, suc, ◌+◌, ◌-◌, ◌≡◌, refl, Bool, true, false, List, [], ◌∷◌, Option, none, some, arith,
  ◌==◌, ltb, if◌then◌else◌, ◌||◌, get_elem?, set, replicate, ℤ, pos, negsuc, minus_one, is_neg,
  ◌==ℤ◌, Result, ok, fault, ◌>>=◌, or_fault, null_pointer, out_of_bounds, use_after_free,
}
use np.Libc.{Bytes, codes, str_eq}

abbrev pub max_client_num : ℕ
max_client_num = 30

-- `env_var`; a null pointer is `none`. The list of nodes is the chain of the `next` pointers.
pub record EnvVar : Type 0 where
  pub user_num : ℤ
  pub env_name : Option Bytes
  pub env_value : List (Option Bytes)

-- The environment of the process.
abbrev pub Environ : Type 0
Environ = List (Bytes × Bytes)

unfoldable pub getenv : Environ → Bytes → Option Bytes
getenv [] name = none
getenv ((k, v) ∷ m) name = if str_eq k name then some v else getenv m name

unfoldable pub insert : Environ → Bytes → Bytes → Environ
insert [] name value = (name, value) ∷ []
insert ((k, v) ∷ m) name value =
    if str_eq k name then (k, value) ∷ m else (k, v) ∷ insert m name value

has_equals : Bytes → Bool
has_equals [] = false
has_equals (c ∷ s) = c == b'=' || has_equals s

-- `setenv` of the C library: an empty name, or one with a `=`, is refused and nothing changes.
unfoldable pub valid_name : Bytes → Bool
unfolding has_equals
valid_name [] = false
valid_name (c ∷ s) = if has_equals (c ∷ s) then false else true

unfoldable pub setenv : Environ → Bytes → Bytes → Bool → Environ
unfolding valid_name getenv insert
setenv environ name value overwrite =
    if valid_name name
    then if overwrite
      then insert environ name value
      else elim (getenv environ name) [ none ↦ insert environ name value | some v ↦ environ ]
    else environ

-- `user_num++` on a variable that counts its users
abbrev pub more_users : ℤ → ℤ
more_users (pos n) = pos (n + 1)
more_users (negsuc n) = negsuc n

-- `user_num--` there; no node ever counts fewer than one user who has a value.
abbrev pub fewer_users : ℤ → ℤ
fewer_users (pos zero) = minus_one
fewer_users (pos (suc n)) = pos n
fewer_users (negsuc n) = negsuc n

-- The function has no `return`; its callers take its last value, the new node.
unfoldable pub create_env_var_node : ℤ → Option Bytes → Option Bytes → ℤ → Result EnvVar
create_env_var_node user_num name value id =
    let blank = replicate (max_client_num + 1) none in
    let empty : EnvVar = record { user_num = user_num; env_name = name; env_value = blank } in
    elim id [
      | negsuc n ↦ ok empty
      | pos i ↦ if ltb max_client_num i then ok empty else elim value [
        | none ↦ fault null_pointer
        | some v ↦ ok (record empty { env_value = set blank i (some v) })
      ]
    ]

-- The head, which holds no variable, and `PATH`. This function has no `return` either.
unfoldable pub initial_env_var : Result (List EnvVar)
unfolding create_env_var_node
initial_env_var = do
  head ← create_env_var_node minus_one none none minus_one
  path ← create_env_var_node minus_one (some (codes "PATH")) none minus_one
  ok (head ∷ path ∷ [])

-- What `set_env` does with a node of the right name.
unfoldable pub set_value : EnvVar → Bytes → ℕ → Result EnvVar
set_value node value id = do
  old ← or_fault (get_elem? node.env_value id) out_of_bounds
  elim old [
    | none ↦ ok (record node {
      user_num = more_users node.user_num;
      env_value = set node.env_value id (some value);
    })
    | some v ↦ ok (record node { env_value = set node.env_value id (some value) })
  ]

-- The search behind the head; a new node goes to the end.
unfoldable pub set_env_loop : List EnvVar → Bytes → Bytes → ℕ → Result (List EnvVar)
set_env_loop [] name value id = do
  node ← create_env_var_node (pos 1) (some name) (some value) (pos id)
  ok (node ∷ [])
set_env_loop (node ∷ rest) name value id = do
  env_name ← or_fault node.env_name null_pointer
  let here = do node' ← set_value node value id; ok (node' ∷ rest)
  let later = do rest' ← set_env_loop rest name value id; ok (node ∷ rest')
  if str_eq name env_name then here else later

-- The nodes and the environment of the process after `set_env`.
unfoldable pub set_env :
    List EnvVar → Environ → Bytes → Bytes → ℕ → Bool → Result (List EnvVar × Environ)
unfolding set_env_loop set_value create_env_var_node setenv
set_env [] environ name value id overwrite = fault null_pointer
set_env (head ∷ nodes) environ name value id overwrite = do
  nodes' ← set_env_loop nodes name value id
  ok (head ∷ nodes', setenv environ name value overwrite)

-- The value that a client sees of a variable: an absent one is the empty text.
abbrev pub value_or_empty : Option Bytes → Bytes
value_or_empty none = []
value_or_empty (some v) = v

unfoldable pub renew_loop : List EnvVar → Environ → ℕ → Result Environ
unfolding setenv
renew_loop [] environ id = ok environ
renew_loop (node ∷ rest) environ id = do
  value ← or_fault (get_elem? node.env_value id) out_of_bounds
  name ← or_fault node.env_name null_pointer
  renew_loop rest (setenv environ name (value_or_empty value) true) id

unfoldable pub renew_env_var : List EnvVar → Environ → ℕ → Result Environ
unfolding renew_loop
renew_env_var [] environ id = fault null_pointer
renew_env_var (head ∷ nodes) environ id = renew_loop nodes environ id

-- A node whose count of users falls to 0 is freed, and the loop then reads its `next` pointer.
unfoldable pub delete_loop : List EnvVar → ℕ → Result (List EnvVar)
delete_loop [] id = ok []
delete_loop (node ∷ rest) id = do
  value ← or_fault (get_elem? node.env_value id) out_of_bounds
  let keep = λ (n : EnvVar). do rest' ← delete_loop rest id; ok (n ∷ rest')
  elim value [
    | none ↦ keep node
    | some v ↦
        if fewer_users node.user_num ==ℤ pos 0
        then fault use_after_free
        else keep (record node {
          user_num = fewer_users node.user_num;
          env_value = set node.env_value id none;
        })
  ]

unfoldable pub delete_env_var : List EnvVar → ℕ → Result (List EnvVar)
delete_env_var [] id = fault null_pointer
delete_env_var (head ∷ nodes) id = do nodes' ← delete_loop nodes id; ok (head ∷ nodes')
