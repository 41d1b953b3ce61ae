-- ===== src/CrossPipe/Valid.antt =====
-- The invariant of the table of numbered pipes, over counts (`count_down_and_check`) and new pipes.
use np.Prelude.{
  ℕ, zero, suc, ◌+◌, ◌<◌, ◌≡◌, ◌≢◌, refl, sym, ap, ◌∙◌, subst, true, false, List, [], ◌∷◌, some,
  arith, ltb, ◌==◌, length, length-replicate, get_elem?-some, set, replicate, ℤ, pos, negsuc,
  minus_one, is_neg, magnitude, ok, ◌⊎◌, inl, inr, Bool-cases, ok-injective,
}
use mathlib.Core.List.{map}
use np.CrossPipe.{
  FdInfor, CrossPipe, Fds, free_block, initial_cross_pipe_infor, fd_infor_list_size,
  count_down_and_check, renew_min, first_free, next_input, update_cross_pipe_fd,
}
use np.CrossPipe.Count.{
  count_at, aged, aged_block, count_down-list, count_at-count_down, output_point-none,
  output_point-due,
}
use np.CrossPipe.Slots.{lt_of_count, first_free-some}

-- No two pipes have the same count, and `min_input_point` is the first free block.
pub record IsValid (x : CrossPipe) : Type 0 where
  pub distinct :
      (i j m : ℕ) → count_at x.list i ≡ pos (suc m) → count_at x.list j ≡ pos (suc m) → i ≡ j
  pub in_range : x.min_input_point < length x.list
  pub free_min : is_neg (count_at x.list x.min_input_point) ≡ true
  pub least : (j : ℕ) → j < x.min_input_point → is_neg (count_at x.list j) ≡ false

aged-pos : (c : ℤ) (m : ℕ) → aged c ≡ pos (suc m) → c ≡ pos (suc (suc m))
aged-pos (pos zero) m h = cc
aged-pos (pos (suc zero)) m h = cc
aged-pos (pos (suc (suc n))) m h = cc
aged-pos (negsuc n) m h = cc

aged-neg : (c : ℤ) → is_neg c ≡ true → is_neg (aged c) ≡ true
aged-neg (pos n) h = cc
aged-neg (negsuc n) h = refl

aged-not_neg : (c : ℤ) → c ≢ pos 1 → is_neg c ≡ false → is_neg (aged c) ≡ false
aged-not_neg (pos zero) o h = refl
aged-not_neg (pos (suc zero)) o h = absurd (o refl)
aged-not_neg (pos (suc (suc n))) o h = refl
aged-not_neg (negsuc n) o h = cc

pub find_due :
    (es : List FdInfor) → ((p : ℕ) × (count_at es p ≡ pos 1)) ⊎ ((j : ℕ) → count_at es j ≢ pos 1)
find_due [] = inr (λ j h. absurd (cc))
find_due (e ∷ es) = join e.count refl (find_due es)
  where
    join :
        (c : ℤ)
        → e.count ≡ c
        → (((p : ℕ) × (count_at es p ≡ pos 1)) ⊎ ((j : ℕ) → count_at es j ≢ pos 1))
        → ((p : ℕ) × (count_at (e ∷ es) p ≡ pos 1)) ⊎ ((j : ℕ) → count_at (e ∷ es) j ≢ pos 1)
    join c h (inl (p, q)) = inl (suc p, q)
    join (pos (suc zero)) h (inr n) = inl (0, h)
    join (pos zero) h (inr n) = inr (elim [ zero ↦ λ q. absurd (cc) | suc j ↦ n j ])
    join (pos (suc (suc k))) h (inr n) =
        inr (elim [ zero ↦ λ q. absurd (ground arith) | suc j ↦ n j ])
    join (negsuc k) h (inr n) = inr (elim [ zero ↦ λ q. absurd (cc) | suc j ↦ n j ])

length-aged : (es : List FdInfor) → length (map aged_block es) ≡ length es
length-aged [] = refl
length-aged (e ∷ es) = ap suc (length-aged es)

min-count_down :
    (x : CrossPipe)
    → (count_down_and_check x).min_input_point
      ≡ renew_min (count_down_and_check x).output_point x.min_input_point
unfolding count_down_and_check
min-count_down x = refl

length-count_down : (x : CrossPipe) → length (count_down_and_check x).list ≡ length x.list
length-count_down x = rw (count_down-list x) (length-aged x.list)

renew-lt : (p m : ℕ) → ltb p m ≡ true → renew_min (pos p) m ≡ p
unfolding renew_min
renew-lt p m t = rw t

renew-ge : (p m : ℕ) → ltb p m ≡ false → renew_min (pos p) m ≡ m
unfolding renew_min
renew-ge p m t = rw t

-- What a count does to `min_input_point`.
data Renewed (x : CrossPipe) (m : ℕ) : Type 0 where
  kept : m ≡ x.min_input_point → ((j : ℕ) → j < m → count_at x.list j ≢ pos 1) → Renewed x m
  moved : m < x.min_input_point → count_at x.list m ≡ pos 1 → Renewed x m

renewed : (x : CrossPipe) → IsValid x → Renewed x (count_down_and_check x).min_input_point
renewed x v = elim (find_due x.list) [
  | inr none_due ↦
      kept (rw (min-count_down x, output_point-none x none_due) (unfold renew_min in refl))
        (λ j lt. none_due j)
  | inl (p, due) ↦
      let only = λ (j : ℕ) (h : count_at x.list j ≡ pos 1). v.distinct j p 0 h due in
      by_order p due only (Bool-cases (ltb p x.min_input_point))
        (min-count_down x ∙ ap (λ o. renew_min o x.min_input_point) (output_point-due x p due only))
]
  where
    by_order :
        (p : ℕ)
        → count_at x.list p ≡ pos 1
        → ((j : ℕ) → count_at x.list j ≡ pos 1 → j ≡ p)
        → ((ltb p x.min_input_point ≡ true) ⊎ (ltb p x.min_input_point ≡ false))
        → (count_down_and_check x).min_input_point ≡ renew_min (pos p) x.min_input_point
        → Renewed x (count_down_and_check x).min_input_point
    by_order p due only (inl t) e =
        let m = e ∙ renew-lt p x.min_input_point t in moved (rw m (ground arith)) (rw m due)
    by_order p due only (inr t) e =
        let m = e ∙ renew-ge p x.min_input_point t in kept m (λ j lt h. ground (arith, only j h, m))

-- A count keeps the invariant.
pub count_down-IsValid : (x : CrossPipe) → IsValid x → IsValid (count_down_and_check x)
count_down-IsValid x v = by_case (renewed x v)
  where
    apart :
        (i j m : ℕ)
        → count_at (count_down_and_check x).list i ≡ pos (suc m)
        → count_at (count_down_and_check x).list j ≡ pos (suc m)
        → i ≡ j
    apart i j m hi hj =
        v.distinct i j (suc m) (aged-pos _ m (sym (count_at-count_down x i) ∙ hi))
          (aged-pos _ m (sym (count_at-count_down x j) ∙ hj))

    by_case : Renewed x (count_down_and_check x).min_input_point → IsValid (count_down_and_check x)
    by_case (kept e none_due) = record {
      distinct = apart;
      in_range = rw (e, length-count_down x) v.in_range;
      free_min = rw (e, count_at-count_down x x.min_input_point) (aged-neg _ v.free_min);
      least = λ j lt.
          rw (count_at-count_down x j)
            (aged-not_neg _ (none_due j lt) (v.least j (subst (λ t. j < t) e lt)));
    }
    by_case (moved lt due) = record {
      distinct = apart;
      in_range = rw (length-count_down x) (lt_of_count x.list _ 1 due);
      free_min = rw (count_at-count_down x (count_down_and_check x).min_input_point, due) refl;
      least = λ j below. rw (count_at-count_down x j) (
          aged-not_neg _
            (λ (h : count_at x.list j ≡ pos 1). absurd (omega (arith, v.distinct j _ 0 h due)))
            (v.least j (omega arith)));
    }

count_at-set_self :
    (es : List FdInfor) (i : ℕ) (b : FdInfor) → i < length es → count_at (set es i b) i ≡ b.count
count_at-set_self [] i b h = elim h [ ]
count_at-set_self (e ∷ es) zero b h = refl
count_at-set_self (e ∷ es) (suc i) b h = count_at-set_self es i b (omega arith)

pub count_at-set_ne :
    (es : List FdInfor) (i j : ℕ) (b : FdInfor) → i ≢ j → count_at (set es i b) j ≡ count_at es j
count_at-set_ne [] i j b h = refl
count_at-set_ne (e ∷ es) zero zero b h = absurd (h refl)
count_at-set_ne (e ∷ es) zero (suc j) b h = refl
count_at-set_ne (e ∷ es) (suc i) zero b h = refl
count_at-set_ne (e ∷ es) (suc i) (suc j) b h = count_at-set_ne es i j b (λ q. h (ap suc q))

-- The block that `update_cross_pipe_fd` writes, and where.
pub update_lem :
    (x : CrossPipe) (fd : Fds) (cross_num : ℤ)
    → x.min_input_point < length x.list
    → let list = set x.list x.min_input_point (record {
      count = pos (magnitude cross_num);
      write_fd = fd.write_end;
      read_fd = fd.read_end;
    }) in
      update_cross_pipe_fd x fd cross_num
      ≡ ok (record x {
        list = list;
        min_input_point = next_input (first_free 0 list) x.min_input_point;
      })
unfolding update_cross_pipe_fd
update_lem x fd cross_num h = let (e, got) = get_elem?-some x.list x.min_input_point h in rw got

module _ (x : CrossPipe) (b : FdInfor) (m : ℕ) (v : IsValid x) (held : b.count ≡ pos (suc m))
    (new : (p : ℕ) → count_at x.list p ≢ pos (suc m)) where
  -- A count in the new table is that of the new block, or an old one.
  origin :
      (i n : ℕ)
      → count_at (set x.list x.min_input_point b) i ≡ pos (suc n)
      → ((i ≡ x.min_input_point) × (n ≡ m)) ⊎ (count_at x.list i ≡ pos (suc n))
  origin i n h = elim (Bool-cases (i == x.min_input_point)) [
    | inl t ↦
        let e : i ≡ x.min_input_point = ground arith in
        inl (e, ground (arith, held, count_at-set_self x.list x.min_input_point b v.in_range))
    | inr t ↦ inr (sym (count_at-set_ne x.list x.min_input_point i b (ground arith)) ∙ h)
  ]

  set-distinct :
      (i j n : ℕ)
      → count_at (set x.list x.min_input_point b) i ≡ pos (suc n)
      → count_at (set x.list x.min_input_point b) j ≡ pos (suc n)
      → i ≡ j
  set-distinct i j n hi hj = join (origin i n hi) (origin j n hj)
    where
      join :
          (((i ≡ x.min_input_point) × (n ≡ m)) ⊎ (count_at x.list i ≡ pos (suc n)))
          → (((j ≡ x.min_input_point) × (n ≡ m)) ⊎ (count_at x.list j ≡ pos (suc n)))
          → i ≡ j
      join (inl (a, c)) (inl (d, e)) = a ∙ sym d
      join (inl (a, c)) (inr d) = absurd (new j (d ∙ ap (λ t. pos (suc t)) c))
      join (inr a) (inl (d, e)) = absurd (new i (a ∙ ap (λ t. pos (suc t)) e))
      join (inr a) (inr d) = v.distinct i j n a d

-- A new pipe keeps the invariant, if its count is new and a block stays free.
pub update-IsValid :
    (x z : CrossPipe) (fd : Fds) (cross_num : ℤ) (m k : ℕ)
    → IsValid x
    → magnitude cross_num ≡ suc m
    → ((p : ℕ) → count_at x.list p ≢ pos (suc m))
    → update_cross_pipe_fd x fd cross_num ≡ ok z
    → first_free 0 z.list ≡ some k
    → IsValid z
update-IsValid x z fd cross_num m k v size new done room =
    rebuild (ok-injective (sym (update_lem x fd cross_num v.in_range) ∙ done))
  where
    block : FdInfor
    block = record {
      count = pos (magnitude cross_num);
      write_fd = fd.write_end;
      read_fd = fd.read_end;
    }

    list' : List FdInfor
    list' = set x.list x.min_input_point block

    after : CrossPipe
    after = record x {
      list = list';
      min_input_point = next_input (first_free 0 list') x.min_input_point;
    }

    placed :
        first_free 0 list' ≡ some k
        → ((j : ℕ) × (k ≡ 0 + j)
            × (j < length list')
            × (is_neg (count_at list' j) ≡ true)
            × ((l : ℕ) → l < j → is_neg (count_at list' l) ≡ false))
        → after.min_input_point ≡ k
        → IsValid after
    placed r (j, a, b, c, d) e =
        let at_j : j ≡ after.min_input_point = omega arith in
        record {
          distinct = set-distinct x block m v (ap pos size) new;
          in_range = subst (λ t. t < length list') at_j b;
          free_min = subst (λ t. is_neg (count_at list' t) ≡ true) at_j c;
          least = λ l lt. d l (omega arith);
        }

    rebuild : after ≡ z → IsValid z
    rebuild e =
        let r : first_free 0 list' ≡ some k =
          subst (λ (t : CrossPipe). first_free 0 t.list ≡ some k) (sym e) room in
        subst IsValid e (placed r (first_free-some 0 list' k r) (unfold next_input in rw r refl))

-- The start: every block is free.
pub count_at-free : (n i : ℕ) → count_at (replicate n free_block) i ≡ minus_one
count_at-free zero i = refl
count_at-free (suc n) zero = refl
count_at-free (suc n) (suc i) = count_at-free n i

pub initial-IsValid : IsValid initial_cross_pipe_infor
unfolding initial_cross_pipe_infor
initial-IsValid = record {
  distinct = λ i j m h _. absurd (ground (arith, count_at-free fd_infor_list_size i));
  in_range = rw (length-replicate fd_infor_list_size free_block) (omega arith);
  free_min = refl;
  least = λ j lt. elim lt [ ];
}
