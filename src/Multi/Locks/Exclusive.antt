-- ===== src/Multi/Locks/Exclusive.antt =====
-- A semaphore that starts at 1, and the threads that hold it. A thread is a process (`false`) or the
-- handler that interrupts it (`true`).
use np.Prelude.{
  ℕ, suc, ◌≤◌, ◌≡◌, refl, sym, Bool, true, false, arith, if◌then◌else◌, ◌==◌, ◌&&◌, Bool-cases, inl,
  inr, ◌⊎◌, ◌∙◌, subst,
}

pub record IsExclusive (holds : ℕ → Bool → Bool) (value : ℕ) : Type 0 where
  pub few : value ≤ 1
  pub taken : (p : ℕ) (b : Bool) → holds p b ≡ true → value ≡ 0
  pub unique : (p q : ℕ) (b c : Bool) → holds p b ≡ true → holds q c ≡ true → (p ≡ q) × (b ≡ c)

abbrev pub eqb : Bool → Bool → Bool
eqb true c = c
eqb false true = false
eqb false false = true

abbrev pub put {ℓ} : {A : Type ℓ} → (ℕ → Bool → A) → ℕ → Bool → A → ℕ → Bool → A
put f p b x q c = if q == p && eqb c b then x else f q c

-- What a step of a thread does to one semaphore.
pub data Moves (b b' : Bool) (n n' : ℕ) : Type 0 where
  same : b' ≡ b → n' ≡ n → Moves b b' n n'
  takes : b' ≡ true → n ≡ suc n' → Moves b b' n n'
  gives : b ≡ true → b' ≡ false → n' ≡ suc n → Moves b b' n n'

eqb-eq : (b c : Bool) → eqb c b ≡ true → c ≡ b
eqb-eq true true h = refl
eqb-eq true false h = cc
eqb-eq false true h = cc
eqb-eq false false h = refl

-- At another thread than `p`, `b`, or at this one.
put-cases :
    (f : ℕ → Bool → Bool) (p : ℕ) (b : Bool) (x : Bool) (q : ℕ) (c : Bool)
    → put f p b x q c ≡ true
    → (f q c ≡ true) ⊎ ((q ≡ p) × (c ≡ b) × (x ≡ true))
put-cases f p b x q c h = elim (Bool-cases (q == p && eqb c b)) [
  | inl t ↦ inr (ground arith, eqb-eq b c (ground arith), ground arith)
  | inr t ↦ inl (ground arith)
]

-- Fewer threads hold it.
pub shrink :
    {f g : ℕ → Bool → Bool} {n : ℕ}
    → ((p : ℕ) (b : Bool) → g p b ≡ true → f p b ≡ true)
    → IsExclusive f n
    → IsExclusive g n
shrink sub v = record {
  few = v.few;
  taken = λ p b h. v.taken p b (sub p b h);
  unique = λ p q b c h k. v.unique p q b c (sub p b h) (sub q c k);
}

put-sub :
    (f : ℕ → Bool → Bool) (p : ℕ) (b x : Bool)
    → (x ≡ true → f p b ≡ true)
    → (q : ℕ) (c : Bool) → put f p b x q c ≡ true
    → f q c ≡ true
put-sub f p b x back q c h = elim (put-cases f p b x q c h) [
  | inl k ↦ k
  | inr (e, d, y) ↦ cc (back y)
]

put-here : (f : ℕ → Bool → Bool) (p : ℕ) (b : Bool) (x : Bool) → put f p b x p b ≡ x
put-here f p true x = ground arith
put-here f p false x = ground arith

-- A step of thread `p`, `b` that takes the semaphore, gives it back or leaves it keeps it exclusive.
pub Moves-IsExclusive :
    {f : ℕ → Bool → Bool} {n n' : ℕ} (p : ℕ) (b : Bool) {b' : Bool}
    → Moves (f p b) b' n n'
    → IsExclusive f n
    → IsExclusive (put f p b b') n'
Moves-IsExclusive {f} p b {b'} (same e d) v =
    let w = shrink (put-sub f p b b' (λ y. sym e ∙ y)) v in
    record { few = omega (arith, w.few); taken = λ q c h. d ∙ w.taken q c h; unique = w.unique }
Moves-IsExclusive {f} {n} {n'} p b {b'} (takes e d) v =
    let free : (q : ℕ) (c : Bool) → f q c ≡ true → ⊥ =
      λ q c h. absurd (omega (arith, d, v.taken q c h)) in
    record {
      few = omega (arith, v.few);
      taken = λ q c h. omega (arith, v.few, d);
      unique = λ q r c c' h k. elim (put-cases f p b b' q c h) [
        | inl x ↦ absurd (free q c x)
        | inr (a1, a2, a3) ↦ elim (put-cases f p b b' r c' k) [
          | inl x ↦ absurd (free r c' x)
          | inr (b1, b2, b3) ↦ (a1 ∙ sym b1, a2 ∙ sym b2)
        ]
      ];
    }
Moves-IsExclusive {f} {n} {n'} p b {b'} (gives e e' d) v =
    let none_left : (q : ℕ) (c : Bool) → put f p b b' q c ≡ true → ⊥ = λ q c h.
      elim (put-cases f p b b' q c h) [
        | inl x ↦
            let (q_p, c_b) = v.unique q p c b x e in
            absurd (
              cc (
                put-here f p b b',
                subst (λ t. put f p b b' t b ≡ true) q_p
                    (subst (λ t. put f p b b' q t ≡ true) c_b h),
                e',
              ))
        | inr (a1, a2, a3) ↦ absurd (cc)
      ] in
    record {
      few = omega (arith, v.taken p b e, d);
      taken = λ q c h. absurd (none_left q c h);
      unique = λ q r c c' h k. absurd (none_left q c h);
    }
