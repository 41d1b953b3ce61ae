-- ===== src/Single/Env/Change.antt =====
-- What `set_env` and `delete_env_var` do to what each client sees.
use np.Prelude.{
  ℕ, zero, suc, ◌+◌, ◌≤◌, ◌<◌, ◌≡◌, ◌≢◌, refl, sym, ap, ◌∙◌, subst, Bool, true, false, List, [],
  ◌∷◌, Option, none, some, arith, if◌then◌else◌, get_elem?, get_elem?-set_self, get_elem?-set_ne,
  get_elem?-lt, set, length, length-replicate, replicate, pos, ok, fault, use_after_free, ◌||◌,
  Bool-cases, inl, inr, ◌==ℤ◌, ◌&&◌, ltb,
}
use np.Libc.{Bytes, str_eq}
use np.Libc.Equality.{str_eq→eq}
use np.Single.Env.{
  EnvVar, Environ, getenv, setenv, valid_name, set_env, set_value, set_env_loop,
  create_env_var_node, delete_loop, delete_env_var, value_or_empty, max_client_num, more_users,
  fewer_users,
}
use np.Single.Env.Visible.{
  has_name, value_at, visible, IsEnv, has_name-eq, value_at-eq, getenv-insert,
}

abbrev Written : EnvVar → Bytes → ℕ → EnvVar → Type 0
Written node value id node' =
    (node'.env_name ≡ node.env_name) × (node'.env_value ≡ set node.env_value id (some value))

set_value_lem :
    (node : EnvVar) (value : Bytes) (id : ℕ) (v : Option Bytes)
    → get_elem? node.env_value id ≡ some v
    → (node' : EnvVar) × (set_value node value id ≡ ok node') × Written node value id node'
unfolding set_value
set_value_lem node value id none e = (
  record node {
    user_num = more_users node.user_num;
    env_value = set node.env_value id (some value);
  },
  rw e,
  (refl, refl),
)
set_value_lem node value id (some w) e =
    (record node { env_value = set node.env_value id (some value) }, rw e, (refl, refl))

blank_at :
    (k j : ℕ)
    → value_at (record { user_num = pos 0; env_name = none; env_value = replicate k none }) j ≡ none
blank_at zero j = refl
blank_at (suc k) zero = refl
blank_at (suc k) (suc j) = blank_at k j

module _ (node node' : EnvVar) (value : Bytes) (id : ℕ) (w : Written node value id node') where
  has_name-Written : (n : Bytes) → has_name node' n ≡ has_name node n
  has_name-Written n = ap (λ (x : Option Bytes). elim x [ none ↦ false | some k ↦ str_eq k n ]) w.0

  value_at-Written : id < length node.env_value → value_at node' id ≡ some value
  value_at-Written h =
      value_at-eq node' id
        (ap (λ l. get_elem? l id) w.1 ∙ get_elem?-set_self node.env_value id (some value) h)

  value_at-other : (j : ℕ) → j ≢ id → value_at node' j ≡ value_at node j
  value_at-other j other =
      ap (λ (x : Option (Option Bytes)). elim x [ none ↦ none | some v ↦ v ])
        (ap (λ l. get_elem? l j) w.1
          ∙ get_elem?-set_ne node.env_value id j (some value) (λ e. other (sym e)))

-- Client `id` sees the new value under `name`, and every other variable as before; the other clients
-- see what they saw.
abbrev pub Changed : List EnvVar → Bytes → Bytes → ℕ → List EnvVar → Type 0
Changed nodes name value id nodes' =
    ((n : Bytes) → visible nodes' id n ≡ (if str_eq name n then value else visible nodes id n))
    × ((j : ℕ) (n : Bytes) → j ≢ id → visible nodes' j n ≡ visible nodes j n)

set_here :
    (node node' : EnvVar) (rest : List EnvVar) (name value : Bytes) (id : ℕ)
    → node.env_name ≡ some name
    → id < length node.env_value
    → Written node value id node'
    → Changed (node ∷ rest) name value id (node' ∷ rest)
set_here node node' rest name value id named inside w = (
  λ n. ground (
    arith,
    has_name-Written node node' value id w n,
    has_name-eq node n named,
    value_at-Written node node' value id w inside,
  ),
  λ j n other. ground (
    arith,
    has_name-Written node node' value id w n,
    value_at-other node node' value id w j other,
  ),
)

set_later :
    (node : EnvVar) (rest rest' : List EnvVar) (k name value : Bytes) (id : ℕ)
    → node.env_name ≡ some k
    → str_eq name k ≡ false
    → Changed rest name value id rest'
    → Changed (node ∷ rest) name value id (node ∷ rest')
set_later node rest rest' k name value id named differs (own, others) = (
  λ n.
      let apart : str_eq k n ≡ true → str_eq name n ≡ false =
        λ e. subst (λ x. str_eq name x ≡ false) (str_eq→eq k n e) differs in
      ground (arith, has_name-eq node n named, own n, apart),
  λ j n other. ground (arith, others j n other),
)

new_node :
    (name value : Bytes) (id : ℕ)
    → id ≤ max_client_num
    → (node : EnvVar) × (create_env_var_node (pos 1) (some name) (some value) (pos id) ≡ ok node)
      × Changed [] name value id (node ∷ [])
unfolding create_env_var_node
new_node name value id h = (
  record { user_num = pos 1; env_name = some name; env_value = set blank id (some value) },
  rw inside,
  (
    λ n. ap (λ x. if str_eq name n then value_or_empty x else []) own,
    λ j n other. ground (arith, fresh j other),
  ),
)
  where
    blank : List (Option Bytes)
    blank = replicate (max_client_num + 1) none

    inside : ltb max_client_num id ≡ false
    inside = ground arith

    before : EnvVar
    before = record { user_num = pos 0; env_name = none; env_value = blank }

    after : EnvVar
    after = record { user_num = pos 0; env_name = none; env_value = set blank id (some value) }

    own : value_at after id ≡ some value
    own = value_at-eq after id (
        get_elem?-set_self blank id (some value)
          (omega (arith, length-replicate {A = Option Bytes} 31 none)))

    fresh : (j : ℕ) → j ≢ id → value_at after j ≡ none
    fresh j other =
        value_at-other before after value id (refl, refl) j other ∙ blank_at (max_client_num + 1) j

loop_here :
    (node node' : EnvVar) (rest : List EnvVar) (k name value : Bytes) (id : ℕ)
    → node.env_name ≡ some k
    → str_eq name k ≡ true
    → set_value node value id ≡ ok node'
    → set_env_loop (node ∷ rest) name value id ≡ ok (node' ∷ rest)
unfolding set_env_loop
loop_here node node' rest k name value id named t e = ground arith

loop_later :
    (node : EnvVar) (rest rest' : List EnvVar) (k name value : Bytes) (id : ℕ)
    → node.env_name ≡ some k
    → str_eq name k ≡ false
    → set_env_loop rest name value id ≡ ok rest'
    → set_env_loop (node ∷ rest) name value id ≡ ok (node ∷ rest')
unfolding set_env_loop
loop_later node rest rest' k name value id named t e = ground arith

loop_new :
    (node : EnvVar) (name value : Bytes) (id : ℕ)
    → create_env_var_node (pos 1) (some name) (some value) (pos id) ≡ ok node
    → set_env_loop [] name value id ≡ ok (node ∷ [])
unfolding set_env_loop
loop_new node name value id e = rw e

-- The search of `set_env` in a well-formed list succeeds, and changes one variable of one client.
set_env_loop_lem :
    (nodes : List EnvVar) (name value : Bytes) (id : ℕ)
    → IsEnv id nodes
    → id ≤ max_client_num
    → (nodes' : List EnvVar) × (set_env_loop nodes name value id ≡ ok nodes')
      × Changed nodes name value id nodes'
set_env_loop_lem [] name value id v h =
    let (node, e, c) = new_node name value id h in (node ∷ [], loop_new node name value id e, c)
set_env_loop_lem (node ∷ rest) name value id ((k, w, named, valid, valued, once), v) h =
    elim (Bool-cases (str_eq name k)) [
      | inl t ↦
          let (node', e, c) = set_value_lem node value id w valued in
          (
            node' ∷ rest,
            loop_here node node' rest k name value id named t e,
            set_here node node' rest name value id (named ∙ ap some (sym (str_eq→eq name k t)))
                (get_elem?-lt node.env_value id valued) c,
          )
      | inr t ↦
          let (rest', e, c) = set_env_loop_lem rest name value id v h in
          (
            node ∷ rest',
            loop_later node rest rest' k name value id named t e,
            set_later node rest rest' k name value id named t c,
          )
    ]

-- Does `setenv` write the variable? Not if it refuses the name, and without `overwrite` only if there is
-- none yet.
abbrev pub writes : Environ → Bytes → Bool → Bool
writes environ name overwrite =
    valid_name name && (overwrite || elim (getenv environ name) [ none ↦ true | some v ↦ false ])

getenv-setenv_if :
    (environ : Environ) (name value : Bytes) (overwrite : Bool) (n : Bytes)
    → getenv (setenv environ name value overwrite) n
      ≡ (if writes environ name overwrite && str_eq name n then some value else getenv environ n)
unfolding setenv
getenv-setenv_if environ name value overwrite n = elim (Bool-cases (valid_name name)) [
  | inl valid ↦ by_name valid overwrite (getenv environ name) refl
  | inr refused ↦ rw refused refl
]
  where
    by_name :
        valid_name name ≡ true
        → (b : Bool) (x : Option Bytes) → getenv environ name ≡ x
        → getenv (setenv environ name value b) n ≡ (
            if (valid_name name && (b || elim x [ none ↦ true | some v ↦ false ])) && str_eq name n
            then some value
            else getenv environ n)
    by_name valid true x e = rw valid (getenv-insert environ name value n)
    by_name valid false none e = rw (valid, e) (getenv-insert environ name value n)
    by_name valid false (some v) e = rw (valid, e) refl

-- In a well-formed list `set_env` succeeds. In the list of the clients' variables, client `id` then has
-- the new value under `name` and its other variables as before, and no other client's change. In the
-- environment of the process, which the commands and `printenv` see, `name` has the new value if `setenv`
-- accepts the name (it is not empty and has no `=`) and overwrites or finds none; otherwise, and under
-- any other name, there is what there was.
pub set_env_lem :
    (head : EnvVar) (nodes : List EnvVar) (environ : Environ) (name value : Bytes) (id : ℕ)
    (overwrite : Bool)
    → IsEnv id nodes
    → id ≤ max_client_num
    → (nodes' : List EnvVar) × (environ' : Environ) × (set_env
          (head ∷ nodes)
          environ
          name
          value
          id
          overwrite
        ≡ ok (head ∷ nodes', environ'))
      × Changed nodes name value id nodes'
      × ((n : Bytes)
          → getenv environ' n ≡ (
              if writes environ name overwrite && str_eq name n
              then some value
              else getenv environ n))
unfolding set_env
set_env_lem head nodes environ name value id overwrite v h =
    let (nodes', e, c) = set_env_loop_lem nodes name value id v h in
    (
      nodes',
      setenv environ name value overwrite,
      rw e refl,
      c,
      getenv-setenv_if environ name value overwrite,
    )

-- Is there a variable that only client `id` has? (Its node counts one user, and has a value for `id`.)
abbrev pub sole_user : ℕ → List EnvVar → Bool
sole_user id [] = false
sole_user id (node ∷ rest) = elim (value_at node id) [
  | none ↦ sole_user id rest
  | some v ↦ fewer_users node.user_num ==ℤ pos 0 || sole_user id rest
]

-- Client `id` no longer sees any value, and the other clients see what they saw.
abbrev pub Dropped : List EnvVar → ℕ → List EnvVar → Type 0
Dropped nodes id nodes' =
    ((n : Bytes) → visible nodes' id n ≡ [])
    × ((j : ℕ) (n : Bytes) → j ≢ id → visible nodes' j n ≡ visible nodes j n)

-- Every node has a place for client `id`.
abbrev pub HasPlace : ℕ → List EnvVar → Type 0
HasPlace id [] = Unit
HasPlace id (node ∷ rest) =
    ((v : Option Bytes) × (get_elem? node.env_value id ≡ some v)) × HasPlace id rest

-- `delete_env_var` reads freed memory exactly where a variable dies with the client who leaves.
delete_loop-fault :
    (nodes : List EnvVar) (id : ℕ)
    → HasPlace id nodes
    → sole_user id nodes ≡ true
    → delete_loop nodes id ≡ fault use_after_free
unfolding delete_loop
delete_loop-fault [] id p h = cc
delete_loop-fault (node ∷ rest) id ((none, e), p) h = ground (arith, delete_loop-fault rest id p)
delete_loop-fault (node ∷ rest) id ((some w, e), p) h = ground (arith, delete_loop-fault rest id p)

drop_none :
    (node : EnvVar) (rest rest' : List EnvVar) (id : ℕ)
    → get_elem? node.env_value id ≡ some none
    → Dropped rest id rest'
    → Dropped (node ∷ rest) id (node ∷ rest')
drop_none node rest rest' id e (own, others) = (
  λ n. ground (arith, value_at-eq node id e, own n),
  λ j n other. ground (arith, others j n other),
)

drop_some :
    (node node' : EnvVar) (rest rest' : List EnvVar) (id : ℕ)
    → id < length node.env_value
    → node'.env_name ≡ node.env_name
    → node'.env_value ≡ set node.env_value id none
    → Dropped rest id rest'
    → Dropped (node ∷ rest) id (node' ∷ rest')
drop_some node node' rest rest' id inside named valued (own, others) = (
  λ n. ground (arith, gone, own n),
  λ j n other. ground (arith, name_same n, kept j other, others j n other),
)
  where
    gone : value_at node' id ≡ none
    gone =
        value_at-eq node' id
          (ap (λ l. get_elem? l id) valued ∙ get_elem?-set_self node.env_value id none inside)

    name_same : (n : Bytes) → has_name node' n ≡ has_name node n
    name_same n = ap (λ (x : Option Bytes). elim x [ none ↦ false | some k ↦ str_eq k n ]) named

    kept : (j : ℕ) → j ≢ id → value_at node' j ≡ value_at node j
    kept j other =
        ap (λ (x : Option (Option Bytes)). elim x [ none ↦ none | some v ↦ v ])
          (ap (λ l. get_elem? l j) valued
            ∙ get_elem?-set_ne node.env_value id j none (λ q. other (sym q)))

delete_loop-ok :
    (nodes : List EnvVar) (id : ℕ)
    → HasPlace id nodes
    → sole_user id nodes ≡ false
    → (nodes' : List EnvVar) × (delete_loop nodes id ≡ ok nodes') × Dropped nodes id nodes'
unfolding delete_loop
delete_loop-ok [] id p h = ([], refl, (λ n. refl, λ j n other. refl))
delete_loop-ok (node ∷ rest) id ((none, e), p) h =
    let (rest', d, c) = delete_loop-ok rest id p (ground (arith, value_at-eq node id e)) in
    (node ∷ rest', ground arith, drop_none node rest rest' id e c)
delete_loop-ok (node ∷ rest) id ((some w, e), p) h =
    let (rest', d, c) = delete_loop-ok rest id p (ground (arith, value_at-eq node id e)) in
    let node' : EnvVar = record node {
      user_num = fewer_users node.user_num;
      env_value = set node.env_value id none;
    } in
    (
      node' ∷ rest',
      ground (arith, value_at-eq node id e),
      drop_some node node' rest rest' id (get_elem?-lt node.env_value id e) refl refl c,
    )

-- If every node behind the head has a place for the client who leaves, and the client is the only user
-- of one of them, `delete_env_var` frees that node and then reads it.
pub delete_env_var-fault :
    (head : EnvVar) (nodes : List EnvVar) (id : ℕ)
    → HasPlace id nodes
    → sole_user id nodes ≡ true
    → delete_env_var (head ∷ nodes) id ≡ fault use_after_free
unfolding delete_env_var
delete_env_var-fault head nodes id p h = rw (delete_loop-fault nodes id p h)

-- If every node behind the head has a place for the client who leaves, and the client is the only user
-- of none, `delete_env_var` succeeds: the client sees no value of these variables, and the other
-- clients see what they saw.
pub delete_env_var-ok :
    (head : EnvVar) (nodes : List EnvVar) (id : ℕ)
    → HasPlace id nodes
    → sole_user id nodes ≡ false
    → (nodes' : List EnvVar) × (delete_env_var (head ∷ nodes) id ≡ ok (head ∷ nodes'))
      × Dropped nodes id nodes'
unfolding delete_env_var
delete_env_var-ok head nodes id p h =
    let (nodes', e, c) = delete_loop-ok nodes id p h in (nodes', rw e, c)
