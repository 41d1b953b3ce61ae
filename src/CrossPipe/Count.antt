-- ===== src/CrossPipe/Count.antt =====
-- What `count_down_and_check` does to the table: every pipe comes one line nearer.
use np.Prelude.{
  ℕ, zero, suc, ◌+◌, ◌≡◌, ◌≢◌, refl, sym, ap, ◌∙◌, Bool, true, false, List, [], ◌∷◌, ◌++◌,
  append_assoc, append-nil, arith, if◌then◌else◌, length, take, ℤ, pos, negsuc, minus_one, is_pos,
  ok,
}
use mathlib.Core.List.{map}
use np.CrossPipe.{
  FdInfor, CrossPipe, count_down_block, count_down_loop, record_block, count_down_and_check,
  recorded,
}

-- The count of block `i`; -1 behind the table's end.
abbrev pub count_at : List FdInfor → ℕ → ℤ
count_at [] i = minus_one
count_at (e ∷ es) zero = e.count
count_at (e ∷ es) (suc i) = count_at es i

-- A count one line later.
abbrev pub aged : ℤ → ℤ
aged (pos zero) = pos 0
aged (pos (suc zero)) = minus_one
aged (pos (suc (suc n))) = pos (suc n)
aged (negsuc n) = negsuc n

abbrev pub aged_block : FdInfor → FdInfor
aged_block e = record e { count = aged e.count }

-- The positions from `i` on of the blocks that hold a pipe.
abbrev pub waiting : ℕ → List FdInfor → List ℕ
waiting i [] = []
waiting i (e ∷ es) = if is_pos e.count then i ∷ waiting (i + 1) es else waiting (i + 1) es

block_list :
    (i : ℕ) (c : ℤ) (w r : ℤ) (out : ℤ) (tmp : List ℕ)
    → (count_down_block i (record { count = c; write_fd = w; read_fd = r }) out tmp).0
      ≡ aged_block (record { count = c; write_fd = w; read_fd = r })
unfolding count_down_block
block_list i (pos zero) w r out tmp = refl
block_list i (pos (suc zero)) w r out tmp = refl
block_list i (pos (suc (suc n))) w r out tmp = ground arith
block_list i (negsuc n) w r out tmp = refl

loop_list :
    (i : ℕ) (es : List FdInfor) (out : ℤ) (tmp : List ℕ)
    → (count_down_loop i es out tmp).0 ≡ map aged_block es
unfolding count_down_loop
loop_list i [] out tmp = refl
loop_list i (e ∷ es) out tmp = cc (
  block_list i e.count e.write_fd e.read_fd out tmp,
  loop_list (i + 1) es (count_down_block i e out tmp).1 (count_down_block i e out tmp).2,
)

-- Every block is aged, and keeps its descriptors.
pub count_down-list : (x : CrossPipe) → (count_down_and_check x).list ≡ map aged_block x.list
unfolding count_down_and_check
count_down-list x = loop_list 0 x.list minus_one []

pub count_at-map :
    (es : List FdInfor) (i : ℕ) → count_at (map aged_block es) i ≡ aged (count_at es i)
count_at-map [] i = refl
count_at-map (e ∷ es) zero = refl
count_at-map (e ∷ es) (suc i) = count_at-map es i

pub count_at-count_down :
    (x : CrossPipe) (i : ℕ) → count_at (count_down_and_check x).list i ≡ aged (count_at x.list i)
count_at-count_down x i = rw (count_down-list x) (count_at-map x.list i)

block_out_other :
    (i : ℕ) (c : ℤ) (w r : ℤ) (out : ℤ) (tmp : List ℕ)
    → c ≢ pos 1
    → (count_down_block i (record { count = c; write_fd = w; read_fd = r }) out tmp).1 ≡ out
unfolding count_down_block
block_out_other i (pos zero) w r out tmp h = refl
block_out_other i (pos (suc zero)) w r out tmp h = absurd (h refl)
block_out_other i (pos (suc (suc n))) w r out tmp h = ground arith
block_out_other i (negsuc n) w r out tmp h = refl

block_out_due :
    (i : ℕ) (e : FdInfor) (out : ℤ) (tmp : List ℕ)
    → e.count ≡ pos 1
    → (count_down_block i e out tmp).1 ≡ pos i
unfolding count_down_block
block_out_due i e out tmp h = rw h

block_tmp :
    (i : ℕ) (c : ℤ) (w r : ℤ) (out : ℤ) (tmp : List ℕ)
    → (count_down_block i (record { count = c; write_fd = w; read_fd = r }) out tmp).2
      ≡ tmp ++ (if is_pos (aged c) then i ∷ [] else [])
unfolding count_down_block
block_tmp i (pos zero) w r out tmp = sym (append-nil tmp)
block_tmp i (pos (suc zero)) w r out tmp = sym (append-nil tmp)
block_tmp i (pos (suc (suc n))) w r out tmp = ground arith
block_tmp i (negsuc n) w r out tmp = sym (append-nil tmp)

-- No block is due: `output_point` stays.
loop_out_none :
    (i : ℕ) (es : List FdInfor) (out : ℤ) (tmp : List ℕ)
    → ((j : ℕ) → count_at es j ≢ pos 1)
    → (count_down_loop i es out tmp).1 ≡ out
unfolding count_down_loop
loop_out_none i [] out tmp h = refl
loop_out_none i (e ∷ es) out tmp h =
    loop_out_none (i + 1) es _ (count_down_block i e out tmp).2 (λ j. h (suc j))
    ∙ block_out_other i e.count e.write_fd e.read_fd out tmp (h 0)

-- Block `p` is due, and no other: `output_point` is its position.
loop_out_one :
    (i : ℕ) (es : List FdInfor) (out : ℤ) (tmp : List ℕ) (p : ℕ)
    → count_at es p ≡ pos 1
    → ((j : ℕ) → count_at es j ≡ pos 1 → j ≡ p)
    → (count_down_loop i es out tmp).1 ≡ pos (i + p)
unfolding count_down_loop
loop_out_one i [] out tmp p h only = cc
loop_out_one i (e ∷ es) out tmp zero h only =
    loop_out_none (i + 1) es _ (count_down_block i e out tmp).2
      (λ j c. absurd (omega (arith, only (suc j) c)))
    ∙ block_out_due i e out tmp h
    ∙ ap pos (omega arith)
loop_out_one i (e ∷ es) out tmp (suc p) h only =
    loop_out_one (i + 1) es (count_down_block i e out tmp).1 (count_down_block i e out tmp).2 p h
      (λ j c. omega (arith, only (suc j) c))
    ∙ ap pos (omega arith)

loop_tmp :
    (i : ℕ) (es : List FdInfor) (out : ℤ) (tmp : List ℕ)
    → (count_down_loop i es out tmp).2 ≡ tmp ++ waiting i (map aged_block es)
unfolding count_down_loop
loop_tmp i [] out tmp = sym (append-nil tmp)
loop_tmp i (e ∷ es) out tmp =
    loop_tmp (i + 1) es (count_down_block i e out tmp).1 (count_down_block i e out tmp).2
    ∙ rw (block_tmp i e.count e.write_fd e.read_fd out tmp) (regroup (is_pos (aged e.count)))
  where
    regroup :
        (b : Bool)
        → (tmp ++ (if b then i ∷ [] else [])) ++ waiting (i + 1) (map aged_block es)
          ≡ tmp
            ++ (if b
                then i ∷ waiting (i + 1) (map aged_block es)
                else waiting (i + 1) (map aged_block es))
    regroup true = append_assoc tmp (i ∷ []) _
    regroup false = ap (λ t. t ++ waiting (i + 1) (map aged_block es)) (append-nil tmp)

pub output_point-none :
    (x : CrossPipe)
    → ((j : ℕ) → count_at x.list j ≢ pos 1)
    → (count_down_and_check x).output_point ≡ minus_one
unfolding count_down_and_check
output_point-none x h = loop_out_none 0 x.list minus_one [] h

pub output_point-due :
    (x : CrossPipe) (p : ℕ)
    → count_at x.list p ≡ pos 1
    → ((j : ℕ) → count_at x.list j ≡ pos 1 → j ≡ p)
    → (count_down_and_check x).output_point ≡ pos p
unfolding count_down_and_check
output_point-due x p h only = loop_out_one 0 x.list minus_one [] p h only ∙ ap pos (omega arith)

take-length : (l : List ℕ) → take (length l) l ≡ l
take-length [] = refl
take-length (x ∷ l) = ap (λ t. x ∷ t) (take-length l)

recorded-live :
    (x : CrossPipe) (l : List ℕ)
    → x.data_num ≡ length l
    → x.close_fd_record ≡ record_block l
    → recorded x ≡ ok l
unfolding recorded record_block
recorded-live x [] n e = ground arith
recorded-live x (i ∷ l) n e = ground (arith, take-length (i ∷ l))

-- `close_fd_record` lists exactly the positions that hold a pipe after the count.
pub recorded-count_down :
    (x : CrossPipe)
    → recorded (count_down_and_check x) ≡ ok (waiting 0 (count_down_and_check x).list)
recorded-count_down x = rw (count_down-list x) (
    recorded-live _ _ (unfold count_down_and_check in ap length (loop_tmp 0 x.list minus_one []))
      (unfold count_down_and_check in ap record_block (loop_tmp 0 x.list minus_one [])))
