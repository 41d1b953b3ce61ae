-- ===== src/Libc/Buffers.antt =====
-- When the copies into `char` arrays fit.
use np.Prelude.{
  ℕ, ◌+◌, ◌<◌, ◌≤◌, ◌≡◌, refl, ◌∙◌, ap, List, [], ◌∷◌, ◌++◌, append-nil, append_assoc, sym, arith,
  length, length-append, ok, ltb, Bool-cases, inl, inr, fault, buffer_overflow,
}
use np.Libc.{Bytes, strcpy, strcat, strcat_all}

pub strcpy_lem : (cap : ℕ) (s : Bytes) → length s < cap → strcpy cap s ≡ ok s
unfolding strcpy
strcpy_lem cap s h = ground arith

pub strcat_lem :
    (cap : ℕ) (msg s : Bytes) → length msg + length s < cap → strcat cap msg s ≡ ok (msg ++ s)
unfolding strcat
strcat_lem cap msg s h = ground arith

-- The bytes of a row of texts, one behind the other.
abbrev pub join : List Bytes → Bytes
join [] = []
join (s ∷ rest) = s ++ join rest

abbrev pub total : List Bytes → ℕ
total [] = 0
total (s ∷ rest) = length s + total rest

pub strcat_all_lem :
    (cap : ℕ) (msg : Bytes) (parts : List Bytes)
    → length msg + total parts < cap
    → strcat_all cap msg parts ≡ ok (msg ++ join parts)
unfolding strcat_all
strcat_all_lem cap msg [] h = ap ok (sym (append-nil msg))
strcat_all_lem cap msg (s ∷ rest) h = rw (strcat_lem cap msg s (omega arith)) (
    strcat_all_lem cap (msg ++ s) rest (omega (arith, length-append msg s))
    ∙ ap ok (append_assoc msg s (join rest)))

pub length-join : (parts : List Bytes) → length (join parts) ≡ total parts
length-join [] = refl
length-join (s ∷ rest) = omega (arith, length-append s (join rest), length-join rest)

-- Where the bytes do not fit, some `strcat` of the row writes behind the array.
pub strcat_all-overflow :
    (cap : ℕ) (msg : Bytes) (parts : List Bytes)
    → length msg < cap
    → cap ≤ length msg + total parts
    → strcat_all cap msg parts ≡ fault buffer_overflow
unfolding strcat_all strcat
strcat_all-overflow cap msg [] h le = absurd (omega arith)
strcat_all-overflow cap msg (s ∷ rest) h le = elim (Bool-cases (ltb (length msg + length s) cap)) [
  | inl t ↦ rw t (
      strcat_all-overflow cap (msg ++ s) rest (ground (arith, length-append msg s))
        (omega (arith, length-append msg s)))
  | inr t ↦ rw t refl
]
