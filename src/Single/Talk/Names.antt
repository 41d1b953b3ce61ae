-- ===== src/Single/Talk/Names.antt =====
-- Which names `cmd_name` gives to a client.
use np.Prelude.{
  ℕ, zero, suc, ◌+◌, ◌<◌, ◌≡◌, ◌≢◌, refl, sym, ap, ◌∙◌, true, false, List, [], ◌∷◌, ◌++◌, some,
  arith, length, get_elem?, set, ok, ◌⊎◌, inl, inr, Bool-cases, ◌==◌, ◌||◌, not,
}
use np.Libc.{Bytes, codes, str_eq}
use np.Libc.Buffers.{join, strcpy_lem, strcat_all_lem}
use np.Libc.Equality.{str_eq→eq}
use np.Single.State.{Client, Server, as_events}
use np.Sys.{write}
use np.Single.Users.{slots, max_name_len}
use np.Texts.{taken_text}
use np.Single.Talk.{name_taken, refuse_name, accept_name, cmd_name, broadcast, broadcast_calls}
use np.Single.Talk.Fits.{IsAddr, named_msg_fits}

-- Among the clients `cs`, whose numbers begin at `i`, one who is there and is not `id` has the name.
abbrev TakenFrom : ℕ → ℕ → List Client → Bytes → Type 0
TakenFrom id i cs name =
    (j : ℕ) × (c : Client) × (get_elem? cs j ≡ some c)
    × (i + j ≢ id)
    × (c.state ≡ true)
    × (name ≡ c.name)

str_eq_self : (s : Bytes) → str_eq s s ≡ true
unfolding str_eq
str_eq_self [] = refl
str_eq_self (c ∷ s) = ground (arith, str_eq_self s)

later :
    (id i : ℕ) (c : Client) (cs : List Client) (name : Bytes)
    → TakenFrom id (i + 1) cs name
    → TakenFrom id i (c ∷ cs) name
later id i c cs name (j, d, e, n, s, q) = (suc j, d, e, (λ h. n (omega arith)), s, q)

-- The first client does not count.
only_later :
    (id i : ℕ) (c : Client) (cs : List Client) (name : Bytes)
    → (i ≢ id → c.state ≡ true → name ≢ c.name)
    → (TakenFrom id (i + 1) cs name → ⊥)
    → TakenFrom id i (c ∷ cs) name
    → ⊥
only_later id i c cs name out none_later (zero, d, e, n, s, q) =
    let same : c ≡ d = cc in
    out (λ h. n (omega arith)) (ap (λ (x : Client). x.state) same ∙ s)
      (q ∙ sym (ap (λ (x : Client). x.name) same))
only_later id i c cs name out none_later (suc j, d, e, n, s, q) =
    none_later (j, d, e, (λ h. n (omega arith)), s, q)

Answer : ℕ → ℕ → List Client → Bytes → Type 0
Answer id i cs name =
    ((name_taken id i cs (some name) ≡ ok true) × TakenFrom id i cs name)
    ⊎ ((name_taken id i cs (some name) ≡ ok false) × (TakenFrom id i cs name → ⊥))

pass :
    (id i : ℕ) (c : Client) (cs : List Client) (name : Bytes)
    → name_taken id i (c ∷ cs) (some name) ≡ name_taken id (i + 1) cs (some name)
    → (i ≢ id → c.state ≡ true → name ≢ c.name)
    → Answer id (i + 1) cs name
    → Answer id i (c ∷ cs) name
unfolding Answer
pass id i c cs name e out (inl (f, t)) = inl (e ∙ f, later id i c cs name t)
pass id i c cs name e out (inr (f, n)) = inr (e ∙ f, only_later id i c cs name out n)

name_taken_lem : (id i : ℕ) (cs : List Client) (name : Bytes) → Answer id i cs name
unfolding name_taken Answer
name_taken_lem id i [] name = inr (refl, λ (j, c, e, r, u, v). absurd (cc))
name_taken_lem id i (c ∷ cs) name =
    let rest = name_taken_lem id (i + 1) cs name in
    elim (Bool-cases (i == id || not c.state)) [
      | inl skip ↦ pass id i c cs name (rw skip refl) (λ n s. absurd (ground arith)) rest
      | inr other ↦ elim (Bool-cases (str_eq name c.name)) [
        | inl same ↦ inl (
          rw (other, same) refl,
          (0, c, refl, (λ h. absurd (ground arith)), ground arith, str_eq→eq name c.name same),
        )
        | inr differs ↦
            pass id i c cs name (rw (other, differs) refl)
              (λ n s q. absurd (cc (differs, ap (str_eq name) q, str_eq_self name))) rest
      ]
    ]

cmd_name-taken :
    (s : Server) (c : Client) (name : Bytes)
    → get_elem? s.list s.id ≡ some c
    → length name < 20
    → name_taken s.id 1 (slots s.list) (some name) ≡ ok true
    → (t : Server) × (cmd_name (some name) s ≡ ok (tt, t)) × (t.list ≡ s.list)
unfolding cmd_name refuse_name taken_text
cmd_name-taken s c name here short taken =
    let parts = codes "*** User '" ∷ name ∷ codes "' already exists. ***\n" ∷ [] in
    (
      record s { trace = s.trace ++ as_events (write c.sockfd (join parts) ∷ []) },
      ground (arith, taken, here, strcat_all_lem 60 [] parts (omega arith)),
      refl,
    )

cmd_name-fresh :
    (s : Server) (c : Client) (name : Bytes)
    → get_elem? s.list s.id ≡ some c
    → IsAddr c.connection_infor
    → length name < 20
    → name_taken s.id 1 (slots s.list) (some name) ≡ ok false
    → (t : Server) × (cmd_name (some name) s ≡ ok (tt, t))
      × (t.list ≡ set s.list s.id (record c { name = name }))
unfolding cmd_name accept_name broadcast
cmd_name-fresh s c name here addr short free =
    let s' : Server = record s { list = set s.list s.id (record c { name = name }) } in
    let (msg, e, l) = named_msg_fits c name s' addr short in
    (
      record s' { trace = s'.trace ++ as_events (broadcast_calls msg (slots s'.list)) },
      ground (arith, free, here, strcpy_lem max_name_len name short, e),
      refl,
    )

-- A client who is there, not `id`, has the name. Places count from 1.
abbrev pub Taken : List Client → ℕ → Bytes → Type 0
Taken list id name =
    (j : ℕ) × (c : Client) × (0 < j)
    × (j ≢ id)
    × (get_elem? list j ≡ some c)
    × (c.state ≡ true)
    × (name ≡ c.name)

to_Taken :
    (list : List Client) (id : ℕ) (name : Bytes)
    → TakenFrom id 1 (slots list) name
    → Taken list id name
to_Taken [] id name (j, c, e, n, s, q) = absurd (cc)
to_Taken (d ∷ cs) id name (j, c, e, n, s, q) =
    (suc j, c, omega arith, (λ h. n (omega arith)), e, s, q)

of_Taken :
    (list : List Client) (id : ℕ) (name : Bytes)
    → Taken list id name
    → TakenFrom id 1 (slots list) name
of_Taken [] id name (j, c, p, n, e, s, q) = absurd (cc)
of_Taken (d ∷ cs) id name (zero, c, p, n, e, s, q) = absurd (omega arith)
of_Taken (d ∷ cs) id name (suc j, c, p, n, e, s, q) = (j, c, e, (λ h. n (omega arith)), s, q)

-- `name` with a name of fewer than 20 bytes succeeds, for a client at an IPv4 address: if another client
-- who is there has the name, no entry of the table changes; else the caller has it, and no other entry
-- of the table changes.
pub cmd_name_lem :
    (s : Server) (c : Client) (name : Bytes)
    → get_elem? s.list s.id ≡ some c
    → IsAddr c.connection_infor
    → length name < 20
    → (t : Server) × (cmd_name (some name) s ≡ ok (tt, t))
      × ((Taken s.list s.id name × (t.list ≡ s.list))
          ⊎ ((Taken s.list s.id name → ⊥) × (t.list ≡ set s.list s.id (record c { name = name }))))
unfolding Answer
cmd_name_lem s c name here addr short = elim (name_taken_lem s.id 1 (slots s.list) name) [
  | inl (f, taken) ↦
      let (t, e, l) = cmd_name-taken s c name here short f in
      (t, e, inl (to_Taken s.list s.id name taken, l))
  | inr (f, free) ↦
      let (t, e, l) = cmd_name-fresh s c name here addr short f in
      (t, e, inr ((λ h. free (of_Taken s.list s.id name h)), l))
]
