-- ===== src/Single/Env/Visible.antt =====
-- What each client sees of the variables, and what `renew_env_var` makes of it.
use np.Prelude.{
  ℕ, ◌≡◌, refl, ap, ◌∙◌, subst, Bool, true, false, List, [], ◌∷◌, Option, none, some, arith,
  if◌then◌else◌, ◌||◌, get_elem?, ok, Bool-cases, inl, inr,
}
use np.Libc.{Bytes, str_eq}
use np.Libc.Equality.{str_eq→eq}
use np.Single.Env.{
  EnvVar, Environ, getenv, insert, setenv, valid_name, renew_loop, renew_env_var, value_or_empty,
}

abbrev pub has_name : EnvVar → Bytes → Bool
has_name node name = elim node.env_name [ none ↦ false | some n ↦ str_eq n name ]

abbrev pub value_at : EnvVar → ℕ → Option Bytes
value_at node j = elim (get_elem? node.env_value j) [ none ↦ none | some v ↦ v ]

-- The value of the variable `name` for client `j`; a variable that `j` has not set is the empty text.
abbrev pub visible : List EnvVar → ℕ → Bytes → Bytes
visible [] j name = []
visible (node ∷ rest) j name =
    if has_name node name then value_or_empty (value_at node j) else visible rest j name

abbrev pub declared : List EnvVar → Bytes → Bool
declared [] name = false
declared (node ∷ rest) name = has_name node name || declared rest name

pub has_name-eq :
    (node : EnvVar) {n : Bytes} (name : Bytes)
    → node.env_name ≡ some n
    → has_name node name ≡ str_eq n name
has_name-eq node name e =
    ap (λ (x : Option Bytes). elim x [ none ↦ false | some k ↦ str_eq k name ]) e

pub value_at-eq :
    (node : EnvVar) (j : ℕ) {v : Option Bytes}
    → get_elem? node.env_value j ≡ some v
    → value_at node j ≡ v
value_at-eq node j e = ap (λ (x : Option (Option Bytes)). elim x [ none ↦ none | some v ↦ v ]) e

-- A list of nodes: each has a name that the C library accepts and that no later node has, and a value
-- or none for client `id`.
abbrev pub IsEnv : ℕ → List EnvVar → Type 0
IsEnv id [] = Unit
IsEnv id (node ∷ rest) =
    ((n : Bytes) × (v : Option Bytes) × (node.env_name ≡ some n)
      × (valid_name n ≡ true)
      × (get_elem? node.env_value id ≡ some v)
      × (declared rest n ≡ false))
    × IsEnv id rest

pub getenv-insert :
    (m : Environ) (k v j : Bytes)
    → getenv (insert m k v) j ≡ (if str_eq k j then some v else getenv m j)
unfolding getenv insert
getenv-insert [] k v j = refl
getenv-insert ((i, w) ∷ m) k v j = elim (Bool-cases (str_eq i k)) [
  | inl t ↦ rw t (rw (str_eq→eq i k t) (ground arith))
  | inr t ↦
      let other : str_eq k j ≡ true → str_eq i j ≡ false =
        λ e. subst (λ x. str_eq i x ≡ false) (str_eq→eq k j e) t in
      rw t (ground (arith, getenv-insert m k v j, other))
]

-- Overwriting a variable with a name that the C library accepts.
pub getenv-setenv :
    (m : Environ) (k v j : Bytes)
    → valid_name k ≡ true
    → getenv (setenv m k v true) j ≡ (if str_eq k j then some v else getenv m j)
unfolding setenv
getenv-setenv m k v j ok_name = rw (ok_name, setenv) (getenv-insert m k v j)

-- What `getenv` gives after a switch: the client's own value of every variable of the list, and for
-- any other name what it gave before.
abbrev pub AfterSwitch : List EnvVar → ℕ → Environ → Environ → Type 0
AfterSwitch nodes id environ environ' =
    (name : Bytes)
    → getenv environ' name
      ≡ (if declared nodes name then some (visible nodes id name) else getenv environ name)

renew_loop_lem :
    (nodes : List EnvVar) (environ : Environ) (id : ℕ)
    → IsEnv id nodes
    → (environ' : Environ) × (renew_loop nodes environ id ≡ ok environ')
      × AfterSwitch nodes id environ environ'
unfolding renew_loop
renew_loop_lem [] environ id v = (environ, refl, λ name. refl)
renew_loop_lem (node ∷ rest) environ id ((n, w, named, valid, valued, once), v) =
    add (renew_loop_lem rest (setenv environ n (value_or_empty w) true) id v)
  where
    add :
        ((environ' : Environ) × (renew_loop rest (setenv environ n (value_or_empty w) true) id
            ≡ ok environ')
          × AfterSwitch rest id (setenv environ n (value_or_empty w) true) environ')
        → (environ' : Environ) × (renew_loop (node ∷ rest) environ id ≡ ok environ')
          × AfterSwitch (node ∷ rest) id environ environ'
    add (environ', e, after) = (environ', rw (valued, named) e, λ name. after name ∙ merge name)
      where
        merge :
            (name : Bytes)
            → (if declared rest name
                then some (visible rest id name)
                else getenv (setenv environ n (value_or_empty w) true) name)
              ≡ (if declared (node ∷ rest) name
                  then some (visible (node ∷ rest) id name)
                  else getenv environ name)
        merge name =
            let same : str_eq n name ≡ true → declared rest name ≡ false =
              λ e. subst (λ x. declared rest x ≡ false) (str_eq→eq n name e) once in
            rw (getenv-setenv environ n (value_or_empty w) name valid)
              (ground (arith, same, has_name-eq node name named, value_at-eq node id valued))

-- When the server turns to client `id`, the process environment becomes that client's. The nodes behind
-- the head each have a name that `setenv` accepts, no two the same, and a place for `id`; then each of
-- these variables has its value for `id` (the empty text if `id` has none), and no other changes.
pub renew_env_var_lem :
    (head : EnvVar) (nodes : List EnvVar) (environ : Environ) (id : ℕ)
    → IsEnv id nodes
    → (environ' : Environ) × (renew_env_var (head ∷ nodes) environ id ≡ ok environ')
      × AfterSwitch nodes id environ environ'
unfolding renew_env_var
renew_env_var_lem head nodes environ id v = renew_loop_lem nodes environ id v
