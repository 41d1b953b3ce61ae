-- ===== src/Libc/Equality.antt =====
-- `strcmp` decides equality.
use np.Prelude.{◌≡◌, ◌≢◌, refl, true, false, [], ◌∷◌, arith, Bool-cases, inl, inr}
use np.Libc.{Bytes, str_eq}

pub str_eq_refl : (s : Bytes) → str_eq s s ≡ true
unfolding str_eq
str_eq_refl [] = refl
str_eq_refl (c ∷ s) = ground (arith, str_eq_refl s)

pub str_eq→eq : (s t : Bytes) → str_eq s t ≡ true → s ≡ t
unfolding str_eq
str_eq→eq [] [] h = refl
str_eq→eq [] (d ∷ t) h = cc
str_eq→eq (c ∷ s) [] h = cc
str_eq→eq (c ∷ s) (d ∷ t) h = ground (arith, str_eq→eq s t)

pub str_eq_ne : (s t : Bytes) → s ≢ t → str_eq s t ≡ false
str_eq_ne s t n = elim (Bool-cases (str_eq s t)) [
  | inl h ↦ absurd (n (str_eq→eq s t h))
  | inr h ↦ h
]
