-- ===== src/CrossPipe/Slots.antt =====
-- The places of the table: the search for a pipe with a given count, and the choice of a free block.
use np.Prelude.{
  ℕ, zero, suc, ◌+◌, ◌≤◌, ◌<◌, ◌≡◌, ◌≢◌, refl, sym, ◌∙◌, subst, Bool, true, false, List, [], ◌∷◌,
  some, arith, if◌then◌else◌, length, get_elem?, ℤ, pos, negsuc, minus_one, is_neg, is_pos,
  magnitude, ◌==ℤ◌, ok, ◌⊎◌, inl, inr, All, get_elem?-some, Bool-cases,
}
use np.CrossPipe.{
  FdInfor, CrossPipe, Fds, count_down_and_check, find_loop, find_same_cross_pipe, first_free,
}
use np.CrossPipe.Count.{count_at, waiting, recorded-count_down}

pub count_at-get_elem? :
    (es : List FdInfor) (p : ℕ) {e : FdInfor} → get_elem? es p ≡ some e → count_at es p ≡ e.count
count_at-get_elem? [] p h = cc
count_at-get_elem? (e ∷ es) zero h = cc
count_at-get_elem? (e ∷ es) (suc p) h = count_at-get_elem? es p h

pub lt_of_count : (es : List FdInfor) (p n : ℕ) → count_at es p ≡ pos n → p < length es
lt_of_count [] p n h = cc
lt_of_count (e ∷ es) zero n h = omega arith
lt_of_count (e ∷ es) (suc p) n h = omega (arith, lt_of_count es p n h)

-- Every position that holds a pipe is listed, and no other.
waiting-complete {ℓ} :
    (Q : ℕ → Type ℓ) (i : ℕ) (es : List FdInfor) (j m : ℕ)
    → All Q (waiting i es)
    → count_at es j ≡ pos (suc m)
    → Q (i + j)
waiting-complete Q i [] j m a h = absurd (cc)
waiting-complete Q i (e ∷ es) zero m a h =
    let held : is_pos e.count ≡ true = rw h (ground arith) in
    subst Q (omega arith)
      (subst (λ b. All Q (if b then i ∷ waiting (i + 1) es else waiting (i + 1) es)) held a).0
waiting-complete Q i (e ∷ es) (suc j) m a h =
    subst Q (omega arith) (waiting-complete Q (i + 1) es j m (rest (is_pos e.count) a) h)
  where
    rest :
        (b : Bool)
        → All Q (if b then i ∷ waiting (i + 1) es else waiting (i + 1) es)
        → All Q (waiting (i + 1) es)
    rest true a = a.1
    rest false a = a

waiting-bounds : (i n : ℕ) (es : List FdInfor) → i + length es ≤ n → All (λ p. p < n) (waiting i es)
waiting-bounds i n [] h = tt
waiting-bounds i n (e ∷ es) h = elim (Bool-cases (is_pos e.count)) [
  | inl t ↦ rw t (omega arith, waiting-bounds (i + 1) n es (omega arith))
  | inr t ↦ rw t (waiting-bounds (i + 1) n es (omega arith))
]

-- The answer `r` of a search for the count `n` among the positions `rs`.
abbrev Answer : List FdInfor → ℕ → Fds → List ℕ → ℤ × Fds → Type 0
Answer list n fd rs r =
    ((r.0 ≡ minus_one) × (r.1 ≡ fd) × All (λ p. count_at list p ≢ pos n) rs)
    ⊎ ((p : ℕ) × (r.0 ≡ pos p)
        × (get_elem? list p
            ≡ some (record { count = pos n; write_fd = r.1.write_end; read_fd = r.1.read_end })))

==ℤ-pos : (n : ℕ) (c : ℤ) → (pos n ==ℤ c) ≡ true → c ≡ pos n
==ℤ-pos n (pos m) h = ground arith
==ℤ-pos n (negsuc m) h = cc

==ℤ-ne : (n : ℕ) (c : ℤ) → (pos n ==ℤ c) ≡ false → c ≢ pos n
==ℤ-ne n (pos m) h e = ground arith
==ℤ-ne n (negsuc m) h e = cc

module _ (list : List FdInfor) (n : ℕ) (fd : Fds) (p : ℕ) (rs : List ℕ) (e : FdInfor) where
  Answer-here :
      get_elem? list p ≡ some e
      → e.count ≡ pos n
      → Answer list n fd (p ∷ rs) (pos p, record { read_end = e.read_fd; write_end = e.write_fd })
  Answer-here got same = inr (p, refl, ground arith)

  Answer-later :
      (r : ℤ × Fds)
      → get_elem? list p ≡ some e
      → e.count ≢ pos n
      → Answer list n fd rs r
      → Answer list n fd (p ∷ rs) r
  Answer-later r got other (inl (a, b, c)) =
      inl (a, b, (λ h. other (sym (count_at-get_elem? list p got) ∙ h), c))
  Answer-later r got other (inr q) = inr q

  find_here :
      get_elem? list p ≡ some e
      → (pos n ==ℤ e.count) ≡ true
      → find_loop list n fd (p ∷ rs)
        ≡ ok (pos p, record { read_end = e.read_fd; write_end = e.write_fd })
  unfolding find_loop
  find_here got t = rw (got, t)

  find_later :
      get_elem? list p ≡ some e
      → (pos n ==ℤ e.count) ≡ false
      → find_loop list n fd (p ∷ rs) ≡ find_loop list n fd rs
  unfolding find_loop
  find_later got t = rw (got, t)

find-Answer :
    (list : List FdInfor) (n : ℕ) (fd : Fds) (rs : List ℕ)
    → All (λ p. p < length list) rs
    → (r : ℤ × Fds) × (find_loop list n fd rs ≡ ok r) × Answer list n fd rs r
find-Answer list n fd [] a = unfold find_loop in ((minus_one, fd), refl, inl (refl, refl, tt))
find-Answer list n fd (p ∷ rs) (h, a) =
    extend (get_elem?-some list p h) (find-Answer list n fd rs a)
  where
    extend :
        ((e : FdInfor) × (get_elem? list p ≡ some e))
        → ((r : ℤ × Fds) × (find_loop list n fd rs ≡ ok r) × Answer list n fd rs r)
        → (r : ℤ × Fds) × (find_loop list n fd (p ∷ rs) ≡ ok r) × Answer list n fd (p ∷ rs) r
    extend (e, got) (r, later, answer) = elim (Bool-cases (pos n ==ℤ e.count)) [
      | inl t ↦ (
        (pos p, record { read_end = e.read_fd; write_end = e.write_fd }),
        find_here list n fd p rs e got t,
        Answer-here list n fd p rs e got (==ℤ-pos n e.count t),
      )
      | inr t ↦ (
        r,
        find_later list n fd p rs e got t ∙ later,
        Answer-later list n fd p rs e r got (==ℤ-ne n e.count t) answer,
      )
    ]

-- What `find_same_cross_pipe` answers for the count `suc m`: the position and the descriptors of the
-- pipe that has it, or -1 and no change of `fd` if no block has it.
abbrev pub Finds : List FdInfor → ℕ → Fds → ℤ × Fds → Type 0
Finds list m fd r =
    ((r.0 ≡ minus_one) × (r.1 ≡ fd) × ((p : ℕ) → count_at list p ≢ pos (suc m)))
    ⊎ ((p : ℕ) × (r.0 ≡ pos p)
        × (get_elem? list p
            ≡ some
                (record { count = pos (suc m); write_fd = r.1.write_end; read_fd = r.1.read_end })))

all_counts :
    (list : List FdInfor) (m : ℕ) (fd : Fds) (r : ℤ × Fds)
    → Answer list (suc m) fd (waiting 0 list) r
    → Finds list m fd r
all_counts list m fd r (inr q) = inr q
all_counts list m fd r (inl (a, b, c)) = inl (
  a,
  b,
  λ p h.
      subst (λ q. count_at list q ≢ pos (suc m)) (omega arith) (waiting-complete _ 0 list p m c h)
        h,
)

-- After a count down, in any table, the search for `cross_num` (nonzero, positive or negative) never
-- faults, and answers the position and both descriptors of a block whose count is its magnitude, or,
-- if no block has that count, -1 and the descriptors it was given.
pub find-count_down :
    (x : CrossPipe) (fd : Fds) (cross_num : ℤ) (m : ℕ)
    → magnitude cross_num ≡ suc m
    → (r : ℤ × Fds) × (find_same_cross_pipe (count_down_and_check x) fd cross_num ≡ ok r)
      × Finds (count_down_and_check x).list m fd r
unfolding find_same_cross_pipe
find-count_down x fd cross_num m e =
    let list = (count_down_and_check x).list in
    let (r, found, answer) =
      find-Answer list (suc m) fd (waiting 0 list) (waiting-bounds 0 _ list (omega arith)) in
    (r, rw (recorded-count_down x, e) found, all_counts list m fd r answer)

-- `first_free` is the first position whose count is negative.
pub first_free-some :
    (i : ℕ) (es : List FdInfor) (k : ℕ)
    → first_free i es ≡ some k
    → (j : ℕ) × (k ≡ i + j)
      × (j < length es)
      × (is_neg (count_at es j) ≡ true)
      × ((l : ℕ) → l < j → is_neg (count_at es l) ≡ false)
unfolding first_free
first_free-some i [] k h = absurd (cc)
first_free-some i (e ∷ es) k h = elim (Bool-cases (is_neg e.count)) [
  | inl t ↦ (0, ground arith, omega arith, t, λ l lt. elim lt [ ])
  | inr t ↦ next t (first_free-some (i + 1) es k (ground arith))
]
  where
    next :
        is_neg e.count ≡ false
        → ((j : ℕ) × (k ≡ i + 1 + j)
            × (j < length es)
            × (is_neg (count_at es j) ≡ true)
            × ((l : ℕ) → l < j → is_neg (count_at es l) ≡ false))
        → (j : ℕ) × (k ≡ i + j)
          × (j < suc (length es))
          × (is_neg (count_at (e ∷ es) j) ≡ true)
          × ((l : ℕ) → l < j → is_neg (count_at (e ∷ es) l) ≡ false)
    next t (j, a, b, c, d) = (suc j, omega arith, omega arith, c, below)
      where
        below : (l : ℕ) → l < suc j → is_neg (count_at (e ∷ es) l) ≡ false
        below zero lt = t
        below (suc l) lt = d l (omega arith)
