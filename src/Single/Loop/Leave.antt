-- ===== src/Single/Loop/Leave.antt =====
-- `min_id` when a client leaves (`main`), as long as it is the first free place.
use np.Prelude.{
  ℕ, zero, suc, ◌<◌, ◌≡◌, false, List, [], ◌∷◌, arith, if◌then◌else◌, length, length-set, set, ◌==◌,
}
use np.Single.State.{Client, Server}
use np.Single.Loop.{leave_place, min}
use np.Single.Loop.Places.{present_at, IsFirstFree}

-- A place that is set to an absent client is free, and the others are as they were.
present_at-set :
    (cs : List Client) (j i : ℕ) (gone : Client)
    → gone.state ≡ false
    → present_at (set cs j gone) i ≡ (if i == j then false else present_at cs i)
present_at-set [] j i gone h = ground arith
present_at-set (c ∷ cs) zero zero gone h = ground arith
present_at-set (c ∷ cs) zero (suc i) gone h = ground arith
present_at-set (c ∷ cs) (suc j) zero gone h = ground arith
present_at-set (c ∷ cs) (suc j) (suc i) gone h = ground (arith, present_at-set cs j i gone h)

-- If `min_id` is the first free place and a client leaves whose place is in the table (its entry already
-- cleared), the new `min_id` is the first free place again.
pub leave_place-IsFirstFree :
    (s : Server) (fd j : ℕ) (gone : Client)
    → IsFirstFree s.list s.min_id
    → 0 < j
    → j < length s.list
    → gone.state ≡ false
    → let t = leave_place fd j (record s { list = set s.list j gone }) in
      IsFirstFree t.list t.min_id
unfolding leave_place
leave_place-IsFirstFree s fd j gone v p h g =
    let clear = λ (i : ℕ). present_at-set s.list j i gone g in
    record {
      positive = ground (arith, v.positive);
      in_range = ground (arith, v.in_range, length-set s.list j gone);
      free = ground (arith, v.free, clear (min j s.min_id));
      below_taken = λ i q l. ground (arith, clear i, v.below_taken i);
    }
