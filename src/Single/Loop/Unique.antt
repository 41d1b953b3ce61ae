-- ===== src/Single/Loop/Unique.antt =====
-- The names in the table of clients, over `cmd_name` and `update_client_infor`.
use np.Prelude.{
  ℕ, ◌<◌, ◌≡◌, ◌≢◌, refl, sym, ◌∙◌, subst, true, List, some, arith, length, get_elem?,
  get_elem?-set_self, get_elem?-set_ne, get_elem?-lt, set, ok, inl, inr, Bool-cases, ◌==◌,
}
use np.Libc.{Bytes, codes}
use np.Sys.{SockAddr}
use np.Single.State.{Client, Server}
use np.Single.Users.{update_client_infor}
use np.Single.Talk.{cmd_name}
use np.Single.Talk.Fits.{IsAddr}
use np.Single.Talk.Names.{Taken, cmd_name_lem}
use np.Single.Loop.Places.{update_client_infor_lem}

-- Clients who are there have different names, unless the name is the one of a newcomer. Places count
-- from 1.
abbrev pub IsUnique : List Client → Type 0
IsUnique list =
    (i j : ℕ) (c d : Client)
    → 0 < i
    → 0 < j
    → i ≢ j
    → get_elem? list i ≡ some c
    → get_elem? list j ≡ some d
    → c.state ≡ true
    → d.state ≡ true
    → c.name ≡ d.name
    → c.name ≡ codes "(no name)"

-- If nobody else has the name of client `k` in `list'`, or it is the newcomers' name, and the other
-- places are those of `list`.
keeps :
    (list list' : List Client) (k : ℕ) (name : Bytes)
    → ((j : ℕ) → k ≢ j → get_elem? list' j ≡ get_elem? list j)
    → ((c : Client) → get_elem? list' k ≡ some c → c.name ≡ name)
    → ((j : ℕ) (d : Client)
        → 0 < j
        → j ≢ k
        → get_elem? list j ≡ some d
        → d.state ≡ true
        → name ≡ d.name
        → name ≡ codes "(no name)")
    → IsUnique list
    → IsUnique list'
keeps list list' k name same named out v i j c d p q n e f s t same_name =
    elim (Bool-cases (i == k)) [
      | inl a ↦
          let i_k : i ≡ k = ground arith in
          let own : c.name ≡ name = named c (subst (λ x. get_elem? list' x ≡ some c) i_k e) in
          own
          ∙ out j d q (λ h. n (i_k ∙ sym h)) (sym (same j (λ h. n (i_k ∙ h))) ∙ f) t
              (sym own ∙ same_name)
      | inr a ↦ elim (Bool-cases (j == k)) [
        | inl b ↦
            let j_k : j ≡ k = ground arith in
            let own : d.name ≡ name = named d (subst (λ x. get_elem? list' x ≡ some d) j_k f) in
            same_name
            ∙ own
            ∙ out i c p (λ h. n (h ∙ sym j_k)) (sym (same i (λ h. n (sym h ∙ sym j_k))) ∙ e) s
                (sym own ∙ sym same_name)
        | inr b ↦
            v i j c d p q n (sym (same i (λ h. absurd (ground arith))) ∙ e)
              (sym (same j (λ h. absurd (ground arith))) ∙ f) s t same_name
      ]
    ]

name_of : {c d : Client} → some c ≡ some d → c.name ≡ d.name
name_of h = cc

-- If the clients who are there have different names, but for the newcomers' one, they still do after
-- `name` with a name of fewer than 20 bytes, which succeeds for a client at an IPv4 address.
pub cmd_name-IsUnique :
    (s : Server) (c : Client) (name : Bytes)
    → get_elem? s.list s.id ≡ some c
    → IsAddr c.connection_infor
    → length name < 20
    → IsUnique s.list
    → (t : Server) × (cmd_name (some name) s ≡ ok (tt, t)) × IsUnique t.list
cmd_name-IsUnique s c name here addr short v =
    let (t, e, r) = cmd_name_lem s c name here addr short in
    (
      t,
      e,
      elim r [
        | inl (taken, l) ↦ subst IsUnique (sym l) v
        | inr (free, l) ↦ subst IsUnique (sym l) (renamed free)
      ],
    )
  where
    renamed : (Taken s.list s.id name → ⊥) → IsUnique (set s.list s.id (record c { name = name }))
    renamed free =
        keeps s.list (set s.list s.id (record c { name = name })) s.id name
          (λ j n. get_elem?-set_ne s.list s.id j _ n)
          (λ d e.
            name_of (sym e ∙ get_elem?-set_self s.list s.id _ (get_elem?-lt s.list s.id here)))
          (λ j d p n e st q. absurd (free (j, d, p, n, e, st, q))) v

-- If the clients who are there have different names, but for the newcomers' one, they still do after a
-- login with `min_id` and the descriptor in the range of their tables, which succeeds.
pub update_client_infor-IsUnique :
    (s : Server) (fd : ℕ) (addr : SockAddr)
    → s.min_id < length s.list
    → fd < length s.fd_id_list
    → IsUnique s.list
    → (t : Server) × (update_client_infor fd addr s ≡ ok (tt, t)) × IsUnique t.list
update_client_infor-IsUnique s fd addr h k v =
    let (t, e, l) = update_client_infor_lem s fd addr h k in
    (
      t,
      e,
      keeps s.list t.list s.min_id (codes "(no name)") (λ j n. l.others j n)
          (λ c f. name_of (sym f ∙ l.placed)) (λ j d p n f u q. refl) v,
    )
