-- ===== src/CrossPipe/Delivery.antt =====
-- A numbered pipe over the command lines that follow it: `ls |3` is read by the third line.
use np.Prelude.{
  ℕ, zero, suc, ◌+◌, ◌-◌, ◌<◌, ◌≡◌, ◌≢◌, refl, sym, ap, ◌∙◌, subst, true, List, [], ◌∷◌, some,
  arith, get_elem?, get_elem?-set_self, get_elem?-set_ne, ℤ, pos, minus_one, is_neg, magnitude, ok,
  ◌⊎◌, inl, inr, ok-injective,
}
use mathlib.Core.List.{map}
use np.Sys.{close, dup2, stdin_fileno}
use np.CrossPipe.{
  FdInfor, CrossPipe, Block, Fds, count_down_and_check, find_same_cross_pipe, first_free,
  update_cross_pipe_fd, connect_pipe_to_first_process,
}
use np.CrossPipe.Count.{count_at, aged_block, count_down-list, output_point-none, output_point-due}
use np.CrossPipe.Slots.{Finds, count_at-get_elem?, find-count_down}
use np.CrossPipe.Valid.{IsValid, find_due, count_down-IsValid, update-IsValid, update_lem}

-- What `k` command lines of a client do to the table: each counts down, and may then store a new pipe
-- if the search finds none with its count. The record block may be freed at the end of a line.
pub data Lines (x : CrossPipe) : ℕ → CrossPipe → Type 0 where
  none_yet : Lines x 0 x
  line :
      {k : ℕ} {y : CrossPipe}
      → Lines x k y
      → (b : Block) → Lines x (suc k) (record (count_down_and_check y) { close_fd_record = b })
  store :
      {k : ℕ} {y z : CrossPipe} (fd fd' : Fds) (cross_num : ℤ) (m free : ℕ)
      → Lines x k y
      → magnitude cross_num ≡ suc m
      → find_same_cross_pipe (count_down_and_check y) fd cross_num ≡ ok (minus_one, fd')
      → update_cross_pipe_fd (count_down_and_check y) fd' cross_num ≡ ok z
      → first_free 0 z.list ≡ some free
      → (b : Block) → Lines x (suc k) (record z { close_fd_record = b })

-- -1 is answered only if no pipe has the count.
pub no_such_pipe :
    (y : CrossPipe) (fd fd' : Fds) (cross_num : ℤ) (m : ℕ)
    → magnitude cross_num ≡ suc m
    → find_same_cross_pipe (count_down_and_check y) fd cross_num ≡ ok (minus_one, fd')
    → (p : ℕ) → count_at (count_down_and_check y).list p ≢ pos (suc m)
no_such_pipe y fd fd' cross_num m size found = read (find-count_down y fd cross_num m size)
  where
    read :
        ((r : ℤ × Fds) × (find_same_cross_pipe (count_down_and_check y) fd cross_num ≡ ok r)
          × Finds (count_down_and_check y).list m fd r)
        → (p : ℕ) → count_at (count_down_and_check y).list p ≢ pos (suc m)
    read (r, got, inl (a, b, c)) = c
    read (r, got, inr (q, a, b)) = absurd (cc)

block-IsValid : (x : CrossPipe) (b : Block) → IsValid x → IsValid (record x { close_fd_record = b })
block-IsValid x b v = record {
  distinct = v.distinct;
  in_range = v.in_range;
  free_min = v.free_min;
  least = v.least;
}

-- No two pipes have the same count and `min_input_point` is the first free block: if this holds, it
-- holds after any command lines, each of which counts down and may store a new pipe under a count
-- that the search does not find, with a block left free.
pub Lines-IsValid : {x y : CrossPipe} {k : ℕ} → Lines x k y → IsValid x → IsValid y
Lines-IsValid none_yet v = v
Lines-IsValid (line {y = y} ls b) v = block-IsValid _ b (count_down-IsValid y (Lines-IsValid ls v))
Lines-IsValid (store {y = y} {z = z} fd fd' cross_num m free ls size found done room b) v =
    block-IsValid z b (
      update-IsValid (count_down_and_check y) z fd' cross_num m free
        (count_down-IsValid y (Lines-IsValid ls v)) size
        (no_such_pipe y fd fd' cross_num m size found) done room)

pub get_elem?-map :
    (es : List FdInfor) (p : ℕ) {e : FdInfor}
    → get_elem? es p ≡ some e
    → get_elem? (map aged_block es) p ≡ some (aged_block e)
get_elem?-map [] p h = absurd (cc)
get_elem?-map (e ∷ es) zero h = ap some (ap aged_block (ground arith))
get_elem?-map (e ∷ es) (suc p) h = get_elem?-map es p h

abbrev pub held : ℕ → Fds → FdInfor
held n fd = record { count = pos n; write_fd = fd.write_end; read_fd = fd.read_end }

one_line_later :
    (y : CrossPipe) (p n : ℕ) (fd : Fds)
    → get_elem? y.list p ≡ some (held (suc (suc n)) fd)
    → get_elem? (count_down_and_check y).list p ≡ some (held (suc n) fd)
one_line_later y p n fd h = rw (count_down-list y) (get_elem?-map y.list p h)

-- A new pipe goes to a free block, so it overwrites none.
store_elsewhere :
    (y z : CrossPipe) (fd : Fds) (cross_num : ℤ) (p : ℕ) {n : ℕ} {e : FdInfor}
    → IsValid y
    → get_elem? y.list p ≡ some e
    → e.count ≡ pos n
    → update_cross_pipe_fd y fd cross_num ≡ ok z
    → get_elem? z.list p ≡ some e
store_elsewhere y z fd cross_num p {n} {e} v h c done =
    subst (λ (t : CrossPipe). get_elem? t.list p ≡ some e)
      (ok-injective (sym (update_lem y fd cross_num v.in_range) ∙ done))
      (get_elem?-set_ne y.list y.min_input_point p _ other ∙ h)
  where
    other : y.min_input_point ≢ p
    other q =
        let free : is_neg (count_at y.list p) ≡ true =
          subst (λ t. is_neg (count_at y.list t) ≡ true) q v.free_min in
        cc (count_at-get_elem? y.list p h)

-- A waiting pipe stays where it is, with its descriptors, and its count falls by one a line.
waits :
    {x y : CrossPipe} {k : ℕ} (p n : ℕ) (fd : Fds)
    → IsValid x
    → get_elem? x.list p ≡ some (held (suc (k + n)) fd)
    → Lines x k y
    → get_elem? y.list p ≡ some (held (suc n) fd)
waits p n fd v h none_yet = h ∙ ap (λ t. some (held t fd)) (omega arith)
waits p n fd v h (line {k = k} {y = y} ls b) =
    one_line_later y p n fd (waits p (suc n) fd v (h ∙ ap (λ t. some (held t fd)) (omega arith)) ls)
waits p n fd v h (store {y = y} {z = z} fd1 fd' cross_num m free ls size found done room b) =
    store_elsewhere (count_down_and_check y) z fd' cross_num p
      (count_down-IsValid y (Lines-IsValid ls v))
      (one_line_later y p n fd
        (waits p (suc n) fd v (h ∙ ap (λ t. some (held t fd)) (omega arith)) ls))
      refl done

-- A block whose count is 1 is the one that the next line reads.
pub due :
    (y : CrossPipe) (p : ℕ) (fd : Fds)
    → IsValid y
    → get_elem? y.list p ≡ some (held 1 fd)
    → (count_down_and_check y).output_point ≡ pos p
due y p fd v h =
    let one : count_at y.list p ≡ pos 1 = count_at-get_elem? y.list p h in
    output_point-due y p one (λ j c. v.distinct j p 0 c one)

pub connects :
    (y : CrossPipe) (p : ℕ) (e : FdInfor)
    → y.output_point ≡ pos p
    → get_elem? y.list p ≡ some e
    → connect_pipe_to_first_process y true
      ≡ ok (close e.write_fd ∷ dup2 e.read_fd stdin_fileno ∷ close e.read_fd ∷ [])
unfolding connect_pipe_to_first_process
connects y p e o h = rw (o, h)

stored :
    (x z : CrossPipe) (fd : Fds) (cross_num : ℤ) (k : ℕ)
    → IsValid x
    → magnitude cross_num ≡ suc k
    → update_cross_pipe_fd x fd cross_num ≡ ok z
    → get_elem? z.list x.min_input_point ≡ some (held (suc k) fd)
stored x z fd cross_num k v size done =
    subst (λ (t : CrossPipe). get_elem? t.list x.min_input_point ≡ some (held (suc k) fd))
      (ok-injective (sym (update_lem x fd cross_num v.in_range) ∙ done))
      (get_elem?-set_self x.list x.min_input_point _ v.in_range ∙ ap (λ t. some (held t fd)) size)

module _ {x z : CrossPipe} (fd : Fds) (cross_num : ℤ) (k free : ℕ) (v : IsValid x)
    (size : magnitude cross_num ≡ suc k) (new : (p : ℕ) → count_at x.list p ≢ pos (suc k))
    (done : update_cross_pipe_fd x fd cross_num ≡ ok z)
    (room : first_free 0 z.list ≡ some free) where
  stored-IsValid : IsValid z
  stored-IsValid = update-IsValid x z fd cross_num k free v size new done room

  -- A pipe stored by `|N` or `!N` in a valid table, under a count that no pipe has yet, with a block
  -- left free: after N-1 further lines, whatever pipes these store, the N-th line counts down and its
  -- first process gets the read end of this very pipe as its standard input.
  pub delivered_on_time :
      {y : CrossPipe}
      → Lines z k y
      → connect_pipe_to_first_process (count_down_and_check y) true
        ≡ ok (close fd.write_end ∷ dup2 fd.read_end stdin_fileno ∷ close fd.read_end ∷ [])
  delivered_on_time {y} ls =
      let p = x.min_input_point in
      let waited =
        waits {x = z} {y = y} {k = k} p 0 fd stored-IsValid
          (stored x z fd cross_num k v size done ∙ ap (λ t. some (held (suc t) fd)) (omega arith))
          ls in
      connects (count_down_and_check y) p
        (record { count = minus_one; write_fd = fd.write_end; read_fd = fd.read_end })
        (due y p fd (Lines-IsValid ls stored-IsValid) waited)
        (rw (count_down-list y) (get_elem?-map y.list p waited))

  -- A pipe stored as in `delivered_on_time` is read by no earlier line: after fewer than N-1 further
  -- lines, the `output_point` of the next one is not the block of this pipe.
  not_before_time :
      {y : CrossPipe} (j : ℕ)
      → j < k
      → Lines z j y
      → (count_down_and_check y).output_point ≢ pos x.min_input_point
  not_before_time {y} j early ls early_out = by_case (find_due y.list)
    where
      p : ℕ
      p = x.min_input_point

      left : ℕ
      left = k - j - 1

      waited : count_at y.list p ≡ pos (suc (suc left))
      waited = count_at-get_elem? y.list p (
          waits {x = z} {y = y} {k = j} p (suc left) fd stored-IsValid
            (stored x z fd cross_num k v size done ∙ ap (λ t. some (held (suc t) fd)) (omega arith))
            ls)

      by_case : ((q : ℕ) × (count_at y.list q ≡ pos 1)) ⊎ ((q : ℕ) → count_at y.list q ≢ pos 1) → ⊥
      by_case (inr n) = absurd (cc (output_point-none y n))
      by_case (inl (q, one)) =
          let v' = Lines-IsValid ls stored-IsValid in
          let out = output_point-due y q one (λ i c. v'.distinct i q 0 c one) in
          let same : q ≡ p = ground (arith, out, early_out) in
          absurd (ground (arith, one, same, waited))
