-- ===== src/Single/Loop/Places.antt =====
-- The places of the table over logins and logouts (`update_client_infor`, and `min_id` in `main`).
use np.Prelude.{
  ℕ, zero, suc, ◌+◌, ◌<◌, ◌≡◌, ◌≢◌, refl, sym, ◌∙◌, subst, Bool, true, false, List, [], ◌∷◌, none,
  some, arith, ℤ, get_elem?, get_elem?-some, get_elem?-set_self, get_elem?-set_ne, get_elem?-lt,
  length-set, set, length, pos, minus_one, ok, Bool-cases, Option-cases, inl, inr, ◌⊎◌,
}
use np.Sys.{SockAddr}
use np.Single.State.{Client, Server}
use np.Single.Users.{new_client, first_absent, next_min_id, update_client_infor}
use np.Single.Loop.{leave_place}

-- Is there a client with number `i`?
abbrev pub present_at : List Client → ℕ → Bool
present_at [] i = false
present_at (c ∷ cs) zero = c.state
present_at (c ∷ cs) (suc i) = present_at cs i

-- Every place from 1 on is taken.
abbrev pub IsFull : List Client → Type 0
IsFull list = (i : ℕ) → 0 < i → i < length list → present_at list i ≡ true

-- `m` is the first free place.
pub record IsFirstFree (list : List Client) (m : ℕ) : Type 0 where
  pub positive : 0 < m
  pub in_range : m < length list
  pub free : present_at list m ≡ false
  pub below_taken : (i : ℕ) → 0 < i → i < m → present_at list i ≡ true

absent-none :
    (i : ℕ) (cs : List Client)
    → first_absent i cs ≡ none
    → (j : ℕ) → j < length cs
    → present_at cs j ≡ true
unfolding first_absent
absent-none i [] h j lt = elim lt [ ]
absent-none i (c ∷ cs) h zero lt = elim (Bool-cases c.state) [
  | inl t ↦ t
  | inr t ↦ absurd (ground arith)
]
absent-none i (c ∷ cs) h (suc j) lt = elim (Bool-cases c.state) [
  | inl t ↦ absent-none (i + 1) cs (ground arith) j (omega arith)
  | inr t ↦ absurd (ground arith)
]

absent-some :
    (i : ℕ) (cs : List Client) (k : ℕ)
    → first_absent i cs ≡ some k
    → (j : ℕ) × (k ≡ i + j)
      × (j < length cs)
      × (present_at cs j ≡ false)
      × ((l : ℕ) → l < j → present_at cs l ≡ true)
unfolding first_absent
absent-some i [] k h = absurd (cc)
absent-some i (c ∷ cs) k h = elim (Bool-cases c.state) [
  | inl t ↦ next t (absent-some (i + 1) cs k (ground arith))
  | inr t ↦ (0, ground arith, omega arith, t, λ l lt. elim lt [ ])
]
  where
    next :
        c.state ≡ true
        → ((j : ℕ) × (k ≡ i + 1 + j)
            × (j < length cs)
            × (present_at cs j ≡ false)
            × ((l : ℕ) → l < j → present_at cs l ≡ true))
        → (j : ℕ) × (k ≡ i + j)
          × (j < suc (length cs))
          × (present_at (c ∷ cs) j ≡ false)
          × ((l : ℕ) → l < j → present_at (c ∷ cs) l ≡ true)
    next t (j, a, b, f, d) = (suc j, omega arith, omega arith, f, below)
      where
        below : (l : ℕ) → l < suc j → present_at (c ∷ cs) l ≡ true
        below zero lt = t
        below (suc l) lt = d l (omega arith)

-- The search for a new `min_id` finds the first free place; if there is none, `min_id` stays.
pub next_min_id_lem :
    (c : Client) (cs : List Client) (m : ℕ)
    → IsFirstFree (c ∷ cs) (next_min_id (c ∷ cs) m)
      ⊎ ((next_min_id (c ∷ cs) m ≡ m) × IsFull (c ∷ cs))
unfolding next_min_id
next_min_id_lem c cs m = elim (Option-cases (first_absent 1 cs)) [
  | inl e ↦ inr (rw (e, next_min_id), full e)
  | inr (k, e) ↦
      inl (subst (IsFirstFree (c ∷ cs)) (rw (e, next_min_id)) (first k (absent-some 1 cs k e)))
]
  where
    full : first_absent 1 cs ≡ none → IsFull (c ∷ cs)
    full e zero p lt = absurd (omega arith)
    full e (suc i) p lt = absent-none 1 cs e i (omega arith)

    first :
        (k : ℕ)
        → ((j : ℕ) × (k ≡ 1 + j)
            × (j < length cs)
            × (present_at cs j ≡ false)
            × ((l : ℕ) → l < j → present_at cs l ≡ true))
        → IsFirstFree (c ∷ cs) k
    first zero (j, a, b, f, d) = absurd (omega arith)
    first (suc k) (j, a, b, f, d) =
        let e : j ≡ k = omega arith in
        record {
          positive = omega arith;
          in_range = omega arith;
          free = subst (λ t. present_at cs t ≡ false) e f;
          below_taken = elim [
            | zero ↦ λ p lt. absurd (omega arith)
            | suc i ↦ λ p lt. d i (omega arith)
          ];
        }

present_at-get_elem? :
    (cs : List Client) (i : ℕ) {c : Client} → get_elem? cs i ≡ some c → present_at cs i ≡ c.state
present_at-get_elem? [] i h = absurd (cc)
present_at-get_elem? (c ∷ cs) zero h = ground arith
present_at-get_elem? (c ∷ cs) (suc i) h = present_at-get_elem? cs i h

-- What a login does: the newcomer has the place `min_id`, all other places are as they were, the
-- descriptor leads to the place, and the next `min_id` is the first free place or, if there is none, stays.
pub record LoggedIn (s : Server) (fd : ℕ) (addr : SockAddr) (t : Server) : Type 0 where
  pub placed : get_elem? t.list s.min_id ≡ some (new_client (pos fd) addr)
  pub others : (i : ℕ) → s.min_id ≢ i → get_elem? t.list i ≡ get_elem? s.list i
  pub current : t.id ≡ s.min_id
  pub found : get_elem? t.fd_id_list fd ≡ some (pos s.min_id)
  pub next : IsFirstFree t.list t.min_id ⊎ ((t.min_id ≡ s.min_id) × IsFull t.list)

update_equation :
    (s : Server) (fd : ℕ) (addr : SockAddr) {old : Client} {old_id : ℤ}
    → get_elem? s.list s.min_id ≡ some old
    → get_elem? s.fd_id_list fd ≡ some old_id
    → let list' = set s.list s.min_id (new_client (pos fd) addr) in
      update_client_infor fd addr s
      ≡ ok (
        tt,
        record s {
          id = s.min_id;
          list = list';
          fd_id_list = set s.fd_id_list fd (pos s.min_id);
          min_id = next_min_id list' s.min_id;
        },
      )
unfolding update_client_infor
update_equation s fd addr a b = ground arith

next_of_set :
    (cs : List Client) (i : ℕ) (c : Client) (m : ℕ)
    → i < length cs
    → IsFirstFree (set cs i c) (next_min_id (set cs i c) m)
      ⊎ ((next_min_id (set cs i c) m ≡ m) × IsFull (set cs i c))
next_of_set [] i c m h = elim h [ ]
next_of_set (d ∷ cs) zero c m h = next_min_id_lem c cs m
next_of_set (d ∷ cs) (suc i) c m h = next_min_id_lem d (set cs i c) m

-- A login with `min_id` and the descriptor in the range of their tables succeeds: the newcomer has the
-- place `min_id` and becomes the current client, all other places are as they were, the descriptor
-- leads to the place, and the next `min_id` is the first free place from 1 on or, if every place from
-- 1 on is taken, stays.
pub update_client_infor_lem :
    (s : Server) (fd : ℕ) (addr : SockAddr)
    → s.min_id < length s.list
    → fd < length s.fd_id_list
    → (t : Server) × (update_client_infor fd addr s ≡ ok (tt, t)) × LoggedIn s fd addr t
update_client_infor_lem s fd addr h k =
    let (old, a) = get_elem?-some s.list s.min_id h in
    let (old_id, b) = get_elem?-some s.fd_id_list fd k in
    let list' = set s.list s.min_id (new_client (pos fd) addr) in
    let t : Server = record s {
      id = s.min_id;
      list = list';
      fd_id_list = set s.fd_id_list fd (pos s.min_id);
      min_id = next_min_id list' s.min_id;
    } in
    (
      t,
      update_equation s fd addr a b,
      record {
        placed = get_elem?-set_self s.list s.min_id _ h;
        others = λ i n. get_elem?-set_ne s.list s.min_id i _ n;
        current = refl;
        found = get_elem?-set_self s.fd_id_list fd _ k;
        next = next_of_set s.list s.min_id _ s.min_id h;
      },
    )

-- If `min_id` is on a taken place, as it is when the table is full, and a client `j` behind it leaves
-- (its place already cleared), `min_id` stays: the next login, on a descriptor in range, overwrites the
-- client that is connected there, while `j`'s place stays free.
pub taken_place_is_overwritten :
    (s : Server) (c : Client) (gone : Client) (j fd_j fd : ℕ) (addr : SockAddr)
    → get_elem? s.list s.min_id ≡ some c
    → c.state ≡ true
    → s.min_id < j
    → j < length s.list
    → gone.state ≡ false
    → fd < length s.fd_id_list
    → (t : Server) × (update_client_infor fd addr
          (leave_place fd_j j (record s { list = set s.list j gone }))
        ≡ ok (tt, t))
      × (get_elem? t.list s.min_id ≡ some (new_client (pos fd) addr))
      × (get_elem? t.list j ≡ some gone)
unfolding leave_place
taken_place_is_overwritten s c gone j fd_j fd addr here present behind inside left k =
    let u = leave_place fd_j j (record s { list = set s.list j gone }) in
    let same : u.min_id ≡ s.min_id = ground arith in
    let (t, e, l) =
      update_client_infor_lem u fd addr
        (subst (λ m. m < length u.list) (sym same)
          (omega (arith, length-set s.list j gone, get_elem?-lt s.list s.min_id here)))
        (omega (arith, length-set s.fd_id_list fd_j minus_one)) in
    (
      t,
      e,
      subst (λ m. get_elem? t.list m ≡ some (new_client (pos fd) addr)) same l.placed,
      l.others j (λ q. omega (arith, same)) ∙ get_elem?-set_self s.list j gone inside,
    )
