-- ===== src/Web/Html.antt =====
-- `change_to_html_format`, `print_output` and `print_command`: texts that go into the page.
use np.Prelude.{
  ℕ, zero, suc, ◌≤◌, ◌<◌, ◌≡◌, refl, sym, ap, ◌∙◌, false, [], ◌∷◌, ◌++◌, Option, none, some,
  if◌then◌else◌, ◌==◌, arith, length, append_assoc, Bool-cases, inl, inr, All, All-append,
}
use mathlib.Core.List.{flat_map}
use np.Libc.{Bytes, codes}

infixl 5 ◌>>=◌
abbrev ◌>>=◌ : Option Bytes → (Bytes → Option Bytes) → Option Bytes
none >>= f = none
some b >>= f = f b

abbrev behind : Bytes → Option Bytes → Option Bytes
behind pre none = none
behind pre (some s) = some (pre ++ s)

-- `buf.find(target)`, then `replace` and `insert` there: the first target becomes `by`. `none` is `npos`.
unfoldable pub replace_first : ℕ → Bytes → Bytes → Option Bytes
replace_first target by [] = none
replace_first target by (b ∷ buf) =
    let later = replace_first target by buf in
    if b == target then some (by ++ buf) else behind (b ∷ []) later

-- The loop on fuel: `none` if it has not ended.
unfoldable pub replace_loop : ℕ → ℕ → Bytes → Bytes → Option Bytes
unfolding replace_first
replace_loop zero target by buf = none
replace_loop (suc fuel) target by buf = elim (replace_first target by buf) [
  | none ↦ some buf
  | some buf' ↦ replace_loop fuel target by buf'
]

-- One round for each byte, and one for the test that ends the loop.
unfoldable pub change_to_html_format : Bytes → ℕ → Bytes → Option Bytes
unfolding replace_loop
change_to_html_format buf replace_target replace_string =
    replace_loop (suc (length buf)) replace_target (codes "&" ++ (replace_string ++ codes ";")) buf

-- What `print_output` makes of the data.
unfoldable pub html_of : Bytes → Option Bytes
unfolding change_to_html_format
html_of output = do
  buf1 ← change_to_html_format output b'\n' (codes "NewLine")
  buf2 ← change_to_html_format buf1 b'\'' (codes "#x27")
  buf3 ← change_to_html_format buf2 b'<' (codes "lt")
  change_to_html_format buf3 b'>' (codes "gt")

-- Every target becomes `by`.
abbrev substitute : ℕ → Bytes → ℕ → Bytes
substitute target by b = if b == target then by else b ∷ []

count : ℕ → Bytes → ℕ
count target [] = 0
count target (b ∷ buf) = let rest = count target buf in if b == target then suc rest else rest

count-length : (target : ℕ) (buf : Bytes) → count target buf ≤ length buf
unfolding count
count-length target [] = omega arith
count-length target (b ∷ buf) = ground (arith, count-length target buf)

-- The text without the target.
abbrev Lacks : ℕ → Bytes → Type 0
Lacks target = All (λ b. (b == target) ≡ false)

behind-behind : (s t : Bytes) (x : Option Bytes) → behind s (behind t x) ≡ behind (s ++ t) x
behind-behind s t none = refl
behind-behind s t (some u) = ap some (sym (append_assoc s t u))

behind-nil : (x : Option Bytes) → behind [] x ≡ x
behind-nil none = refl
behind-nil (some u) = refl

-- The first target stands behind a text without it.
replace_first-behind :
    (target : ℕ) (by pre buf : Bytes)
    → Lacks target pre
    → replace_first target by (pre ++ buf) ≡ behind pre (replace_first target by buf)
unfolding replace_first
replace_first-behind target by [] buf h = sym (behind-nil _)
replace_first-behind target by (b ∷ pre) buf (n, h) =
    rw (n, replace_first-behind target by pre buf h) (behind-behind (b ∷ []) pre _)

-- A round of the loop.
abbrev next_round : ℕ → ℕ → Bytes → Bytes → Option Bytes → Option Bytes
next_round fuel target by buf found = elim found [
  | none ↦ some buf
  | some buf' ↦ replace_loop fuel target by buf'
]

-- One target less in each round: the loop ends on as much fuel as there are targets, and one more.
replace_loop_lem :
    (fuel target : ℕ) (by pre buf : Bytes)
    → Lacks target by
    → Lacks target pre
    → count target buf < fuel
    → replace_loop fuel target by (pre ++ buf) ≡ some (pre ++ flat_map (substitute target by) buf)
unfolding replace_loop replace_first count flat_map
replace_loop_lem zero target by pre buf hb hp h = absurd (omega arith)
replace_loop_lem (suc fuel) target by pre [] hb hp h =
    ap (next_round fuel target by (pre ++ [])) (replace_first-behind target by pre [] hp)
replace_loop_lem (suc fuel) target by pre (b ∷ buf) hb hp h = elim (Bool-cases (b == target)) [
  | inl t ↦
      let now : replace_first target by (b ∷ buf) ≡ some (by ++ buf) = rw t refl in
      let one : flat_map (substitute target by) (b ∷ buf)
          ≡ by ++ flat_map (substitute target by) buf =
        rw t refl in
      let fewer : count target buf < fuel = ground arith in
      ap (next_round fuel target by (pre ++ (b ∷ buf)))
        (replace_first-behind target by pre (b ∷ buf) hp ∙ ap (behind pre) now)
      ∙ ap (replace_loop fuel target by) (sym (append_assoc pre by buf))
      ∙ replace_loop_lem fuel target by (pre ++ by) buf hb (All-append _ pre by hp hb) fewer
      ∙ ap some (append_assoc pre by _ ∙ ap (λ x. pre ++ x) (sym one))
  | inr t ↦
      let one : flat_map (substitute target by) (b ∷ buf)
          ≡ b ∷ flat_map (substitute target by) buf =
        rw t refl in
      let same : count target buf < suc fuel = ground arith in
      ap (replace_loop (suc fuel) target by) (sym (append_assoc pre (b ∷ []) buf))
      ∙ replace_loop_lem (suc fuel) target by (pre ++ (b ∷ [])) buf hb
          (All-append _ pre (b ∷ []) hp (t, tt)) same
      ∙ ap some (append_assoc pre (b ∷ []) _ ∙ ap (λ x. pre ++ x) (sym one))
]

change_lem :
    (buf : Bytes) (target : ℕ) (name : Bytes)
    → Lacks target (codes "&" ++ (name ++ codes ";"))
    → change_to_html_format buf target name
      ≡ some (flat_map (substitute target (codes "&" ++ (name ++ codes ";"))) buf)
unfolding change_to_html_format
change_lem buf target name h =
    replace_loop_lem (suc (length buf)) target _ [] buf h tt
      (omega (arith, count-length target buf))

-- What stands for a byte of the data in the page.
abbrev pub html_byte : ℕ → Bytes
html_byte b =
    if b == b'\n'
    then codes "&NewLine;"
    else if b == b'\''
    then codes "&#x27;"
    else if b == b'<'
    then codes "&lt;"
    else if b == b'>'
    then codes "&gt;"
    else b ∷ []

-- The four rounds on one byte.
abbrev four_rounds : ℕ → Bytes
four_rounds b = flat_map (substitute b'>' (codes "&gt;")) (
    flat_map (substitute b'<' (codes "&lt;"))
      (flat_map (substitute b'\'' (codes "&#x27;")) (substitute b'\n' (codes "&NewLine;") b)))

one_byte : (b : ℕ) → four_rounds b ≡ html_byte b
unfolding flat_map
one_byte b = ground arith

flat_map-append : (f : ℕ → Bytes) (s t : Bytes) → flat_map f (s ++ t) ≡ flat_map f s ++ flat_map f t
unfolding flat_map
flat_map-append f [] t = refl
flat_map-append f (b ∷ s) t =
    ap (λ x. f b ++ x) (flat_map-append f s t) ∙ sym (append_assoc (f b) _ _)

flat_map-flat_map :
    (f g : ℕ → Bytes) (s : Bytes) → flat_map g (flat_map f s) ≡ flat_map (λ b. flat_map g (f b)) s
unfolding flat_map
flat_map-flat_map f g [] = refl
flat_map-flat_map f g (b ∷ s) =
    flat_map-append g (f b) (flat_map f s)
    ∙ ap (λ x. flat_map g (f b) ++ x) (flat_map-flat_map f g s)

flat_map-same : (f g : ℕ → Bytes) (s : Bytes) → ((b : ℕ) → f b ≡ g b) → flat_map f s ≡ flat_map g s
unfolding flat_map
flat_map-same f g [] h = refl
flat_map-same f g (b ∷ s) h = rw (h b, flat_map-same f g s h) refl

-- The four loops of `print_output` end on any data, and come to one pass in which each byte is replaced
-- by what stands for it: the newline, the quote and the two angle brackets by their names, any other by
-- itself.
pub html_of_lem : (output : Bytes) → html_of output ≡ some (flat_map html_byte output)
unfolding html_of
html_of_lem output =
    let g1 = substitute b'\n' (codes "&NewLine;") in
    let g2 = substitute b'\'' (codes "&#x27;") in
    let g3 = substitute b'<' (codes "&lt;") in
    let g4 = substitute b'>' (codes "&gt;") in
    let s1 = flat_map g1 output in
    let s2 = flat_map g2 s1 in
    let s3 = flat_map g3 s2 in
    rw
      (
        change_lem output b'\n' (codes "NewLine") (ground arith),
        change_lem s1 b'\'' (codes "#x27") (ground arith),
        change_lem s2 b'<' (codes "lt") (ground arith),
        change_lem s3 b'>' (codes "gt") (ground arith),
      )
      (ap some (
        ap (flat_map g4) (
          ap (flat_map g3) (flat_map-flat_map g1 g2 output)
          ∙ flat_map-flat_map (λ b. flat_map g2 (g1 b)) g3 output)
        ∙ flat_map-flat_map (λ b. flat_map g3 (flat_map g2 (g1 b))) g4 output
        ∙ flat_map-same four_rounds html_byte output one_byte))
