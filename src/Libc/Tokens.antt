-- ===== src/Libc/Tokens.antt =====
-- `strtok`, and the loop of calls that cuts a command line at its spaces.
use np.Prelude.{
  ℕ, zero, suc, ◌≤◌, ◌≡◌, refl, Bool, true, List, [], ◌∷◌, Option, none, some, arith, ◌==◌, ◌||◌,
  if◌then◌else◌, length, All, false, ◌++◌, length-append, ap,
}
use np.Libc.{Bytes, codes}

-- Is `c` one of the delimiters?
abbrev pub is_delim : Bytes → ℕ → Bool
is_delim [] c = false
is_delim (d ∷ ds) c = c == d || is_delim ds c

unfoldable pub skip : Bytes → Bytes → Bytes
skip ds [] = []
skip ds (c ∷ s) = let rest = skip ds s in if is_delim ds c then rest else c ∷ s

-- The bytes up to the first delimiter, and those behind it, if there is one.
unfoldable pub cut : Bytes → Bytes → Bytes × Option Bytes
cut ds [] = ([], none)
cut ds (c ∷ s) = let (t, rest) = cut ds s in if is_delim ds c then ([], some s) else (c ∷ t, rest)

-- One call of `strtok`: the token, and where the next call goes on (`none` at the end of the text).
unfoldable pub strtok : Bytes → Bytes → Option (Bytes × Option Bytes)
unfolding skip cut
strtok ds s = elim (skip ds s) [ [] ↦ none | c ∷ t ↦ some (cut ds (c ∷ t)) ]

-- `strtok(NULL, ds)` where the call before stopped.
unfoldable pub strtok_next : Bytes → Option Bytes → Option (Bytes × Option Bytes)
unfolding strtok
strtok_next ds none = none
strtok_next ds (some s) = strtok ds s

-- `for (buf = strtok(s, ds); buf != NULL; buf = strtok(NULL, ds))` on fuel.
unfoldable pub tokens_from : ℕ → Bytes → Option Bytes → List Bytes
unfolding strtok_next
tokens_from zero ds s = []
tokens_from (suc fuel) ds s = elim (strtok_next ds s) [
  | none ↦ []
  | some (t, rest) ↦ t ∷ tokens_from fuel ds rest
]

unfoldable pub tokens : Bytes → Bytes → List Bytes
unfolding tokens_from
tokens ds s = tokens_from (suc (length s)) ds (some s)

words_test : tokens (codes " ") (codes " ls  |2 x") ≡ codes "ls" ∷ codes "|2" ∷ codes "x" ∷ []
unfolding tokens
words_test = refl

length_rest : Option Bytes → ℕ
length_rest none = 0
length_rest (some s) = suc (length s)

length-skip : (ds s : Bytes) → length (skip ds s) ≤ length s
unfolding skip
length-skip ds [] = omega arith
length-skip ds (c ∷ s) = ground (arith, length-skip ds s)

length-cut : (ds s : Bytes) → length_rest (cut ds s).1 ≤ length s
unfolding cut length_rest
length-cut ds [] = omega arith
length-cut ds (c ∷ s) = ground (arith, length-cut ds s)

abbrev pub Lacks : Bytes → Bytes → Type 0
Lacks ds = All (λ c. is_delim ds c ≡ false)

-- A token holds no delimiter.
cut-Lacks : (ds s : Bytes) → Lacks ds (cut ds s).0
unfolding cut
cut-Lacks ds [] = tt
cut-Lacks ds (c ∷ s) = ground (arith, cut-Lacks ds s)

-- A text of delimiters only has no token.
pub skip-All : (ds s : Bytes) → All (λ c. is_delim ds c ≡ true) s → skip ds s ≡ []
unfolding skip
skip-All ds [] a = refl
skip-All ds (c ∷ s) (d, a) = ground (arith, skip-All ds s a)

pub tokens-blank : (ds s : Bytes) → All (λ c. is_delim ds c ≡ true) s → tokens ds s ≡ []
unfolding tokens
tokens-blank ds s a = rw (skip-All ds s a, tokens, tokens_from, strtok_next, strtok)

-- The texts with one delimiter between them.
unfoldable pub separated : ℕ → List Bytes → Bytes
separated d [] = []
separated d (t ∷ []) = t
separated d (t ∷ u ∷ ts) = t ++ (d ∷ separated d (u ∷ ts))

-- A text that `strtok` gives.
abbrev pub IsToken : ℕ → Bytes → Type 0
IsToken d [] = ⊥
IsToken d (c ∷ t) = Lacks (d ∷ []) (c ∷ t)

cut-token :
    (d : ℕ) (t rest : Bytes) → Lacks (d ∷ []) t → cut (d ∷ []) (t ++ (d ∷ rest)) ≡ (t, some rest)
unfolding cut
cut-token d [] rest h = ground arith
cut-token d (c ∷ t) rest (n, h) = rw (n, cut-token d t rest h) refl

cut-last : (d : ℕ) (t : Bytes) → Lacks (d ∷ []) t → cut (d ∷ []) t ≡ (t, none)
unfolding cut
cut-last d [] h = refl
cut-last d (c ∷ t) (n, h) = rw (n, cut-last d t h) refl

pub strtok-token :
    (d : ℕ) (t rest : Bytes) → IsToken d t → strtok (d ∷ []) (t ++ (d ∷ rest)) ≡ some (t, some rest)
unfolding strtok skip
strtok-token d [] rest h = elim h [ ]
strtok-token d (c ∷ t) rest h = rw (h.0, strtok, skip) (ap some (cut-token d (c ∷ t) rest h))

pub strtok-last : (d : ℕ) (t : Bytes) → IsToken d t → strtok (d ∷ []) t ≡ some (t, none)
unfolding strtok skip
strtok-last d [] h = elim h [ ]
strtok-last d (c ∷ t) h = rw (h.0, strtok, skip) (ap some (cut-last d (c ∷ t) h))

tokens_from-none : (fuel : ℕ) (ds : Bytes) → tokens_from fuel ds none ≡ []
unfolding tokens_from strtok_next
tokens_from-none zero ds = refl
tokens_from-none (suc fuel) ds = refl

tokens_from-separated :
    (fuel d : ℕ) (ts : List Bytes)
    → All (IsToken d) ts
    → length ts ≤ fuel
    → tokens_from fuel (d ∷ []) (some (separated d ts)) ≡ ts
unfolding tokens_from strtok_next separated
tokens_from-separated zero d [] a h = refl
tokens_from-separated (suc fuel) d [] a h = unfold strtok skip in refl
tokens_from-separated zero d (t ∷ ts) a h = absurd (omega arith)
tokens_from-separated (suc fuel) d (t ∷ []) (a, b) h =
    rw (strtok-last d t a, tokens_from, strtok_next)
      (ap (λ l. t ∷ l) (tokens_from-none fuel (d ∷ [])))
tokens_from-separated (suc fuel) d (t ∷ u ∷ ts) (a, b) h =
    rw (strtok-token d t (separated d (u ∷ ts)) a, tokens_from, strtok_next)
      (ap (λ l. t ∷ l) (tokens_from-separated fuel d (u ∷ ts) b (omega arith)))

length-separated : (d : ℕ) (ts : List Bytes) → length ts ≤ suc (length (separated d ts))
unfolding separated
length-separated d [] = omega arith
length-separated d (t ∷ []) = omega arith
length-separated d (t ∷ u ∷ ts) =
    omega (arith, length-separated d (u ∷ ts), length-append t (d ∷ separated d (u ∷ ts)))

-- Tokens with one delimiter between them are found again.
pub tokens-separated :
    (d : ℕ) (ts : List Bytes) → All (IsToken d) ts → tokens (d ∷ []) (separated d ts) ≡ ts
unfolding tokens
tokens-separated d ts a = tokens_from-separated _ d ts a (length-separated d ts)
