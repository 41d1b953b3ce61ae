-- ===== src/Web/Buffer.antt =====
-- `data_` of the consoles and `request` of http_server.cpp: what `async_read_some` has put into an array
-- that was all zeros.
use np.Prelude.{
  ℕ, zero, suc, ◌<◌, ◌≡◌, refl, [], ◌∷◌, ap, if◌then◌else◌, ◌==◌, false, ltb, length, Result, ok,
  fault, out_of_bounds, All, arith,
}
use np.Libc.{Bytes}
use np.Single.Loop.{before_nul}

abbrev pub max_length : ℕ
max_length = 1024

-- The array as a text. One without a NUL in it has no end in the array.
unfoldable pub text_of : Bytes → Result Bytes
unfolding before_nul
text_of bytes =
    let text = before_nul bytes in
    if ltb (length text) max_length then ok text else fault out_of_bounds

abbrev pub NoNul : Bytes → Type 0
NoNul = All (λ b. (b == 0) ≡ false)

pub before_nul-NoNul : (bytes : Bytes) → NoNul bytes → before_nul bytes ≡ bytes
unfolding before_nul
before_nul-NoNul [] h = refl
before_nul-NoNul (zero ∷ bytes) (h, t) = absurd (ground arith)
before_nul-NoNul (suc b ∷ bytes) (h, t) = ap (λ l. suc b ∷ l) (before_nul-NoNul bytes t)

pub text_of_lem :
    (bytes : Bytes) → NoNul bytes → length bytes < max_length → text_of bytes ≡ ok bytes
unfolding text_of
text_of_lem bytes h less = rw (before_nul-NoNul bytes h) (ground arith)
