-- ===== src/Web/Query/Form.antt =====
-- The query string of the panels' form, and what `parse_query_string` makes of it.
use np.Prelude.{
  ℕ, zero, suc, ◌+◌, ◌≤◌, ◌<◌, ◌≡◌, refl, sym, ap, ◌∙◌, Bool, true, false, Bool-cases, subst, List,
  [], ◌∷◌, ◌++◌, append-nil, none, some, if◌then◌else◌, ◌==◌, ltb, leb, length, get_elem?, ◌⊎◌, inl,
  inr, Result, ok, fault, ◌>>=◌, out_of_bounds, All, All-append, arith,
}
use np.Libc.{Bytes, codes}
use np.Libc.Buffers.{strcpy_lem, strcat_all_lem}
use np.Libc.Tokens.{Lacks, separated, IsToken, tokens-separated}
use np.Web.Query.{
  ClientInfor, html_ids, behind_equals, value, read_client, parse_loop, parse_query_string,
}

-- A field of the form: its name and its value.
abbrev pub field : Bytes × Bytes → Bytes
field (name, value) = name ++ (b'=' ∷ value)

-- Three fields: a host, a port and a file.
pub record Row : Type 0 where
  pub host : Bytes × Bytes
  pub port : Bytes × Bytes
  pub file : Bytes × Bytes

abbrev pub fields : List Row → List Bytes
fields [] = []
fields (r ∷ rows) = field r.host ∷ field r.port ∷ field r.file ∷ fields rows

-- What the browser sends.
abbrev pub query : List Row → Bytes
query rows = separated b'&' (fields rows)

abbrev pub IsField : Bytes × Bytes → Type 0
IsField (name, value) =
    (All (λ b. (b == b'=') ≡ false) name) × (Lacks (b'&' ∷ []) name × Lacks (b'&' ∷ []) value)

abbrev pub IsRow : Row → Type 0
IsRow r = IsField r.host × (IsField r.port × IsField r.file)

-- The values fit their arrays.
abbrev pub Fits : Row → Type 0
Fits r = (length r.host.1 < 100) × ((length r.port.1 < 10) × (length r.file.1 < 10))

abbrev pub is_empty : Bytes → Bool
is_empty [] = true
is_empty (b ∷ s) = false

-- The rows with a host.
unfoldable pub chosen : List Row → List Row
chosen [] = []
chosen (r ∷ rows) = let later = chosen rows in if is_empty r.host.1 then later else r ∷ later

-- What is stored at a place for a row.
unfoldable pub client_of : ℕ → Row → ClientInfor
client_of count r = record {
  host = r.host.1;
  port = r.port.1;
  file_name = codes "test_case/" ++ r.file.1;
  html_id = b's' ∷ (b'0' + count) ∷ [];
}

-- The clients of these rows, from a place on.
unfoldable pub clients : ℕ → List Row → List ClientInfor
unfolding client_of
clients count [] = []
clients count (r ∷ rows) = client_of count r ∷ clients (suc count) rows

behind_equals-field : (f : Bytes × Bytes) → IsField f → behind_equals (field f) ≡ some (f.1)
unfolding behind_equals
behind_equals-field ([], v) h = refl
behind_equals-field (b ∷ name, v) ((n, hn), ((d, hd), hv)) =
    rw (n, behind_equals-field (name, v) (hn, (hd, hv))) refl

pub value-field :
    (f : Bytes × Bytes) (rest : List Bytes) → IsField f → value (field f ∷ rest) ≡ ok (f.1)
unfolding value
value-field f rest h = rw (behind_equals-field f h) refl

pub field-IsToken : (f : Bytes × Bytes) → IsField f → IsToken b'&' (field f)
field-IsToken ([], v) (hn, (hd, hv)) = (refl, hv)
field-IsToken (b ∷ name, v) (hn, (hd, hv)) = All-append _ (b ∷ name) (b'=' ∷ v) hd (refl, hv)

pub fields-IsToken : (rows : List Row) → All IsRow rows → All (IsToken b'&') (fields rows)
fields-IsToken [] h = tt
fields-IsToken (r ∷ rows) ((a, (b, c)), h) = (
  field-IsToken r.host a,
  (field-IsToken r.port b, (field-IsToken r.file c, fields-IsToken rows h)),
)

html_id_of : (count : ℕ) → count < 5 → get_elem? html_ids count ≡ some (b's' ∷ (b'0' + count) ∷ [])
html_id_of zero h = refl
html_id_of (suc zero) h = refl
html_id_of (suc (suc zero)) h = refl
html_id_of (suc (suc (suc zero))) h = refl
html_id_of (suc (suc (suc (suc zero)))) h = refl
html_id_of (suc (suc (suc (suc (suc n))))) h = absurd (omega arith)

no_html_id : (count : ℕ) → 5 ≤ count → get_elem? html_ids count ≡ none
no_html_id zero h = absurd (omega arith)
no_html_id (suc zero) h = absurd (omega arith)
no_html_id (suc (suc zero)) h = absurd (omega arith)
no_html_id (suc (suc (suc zero))) h = absurd (omega arith)
no_html_id (suc (suc (suc (suc zero)))) h = absurd (omega arith)
no_html_id (suc (suc (suc (suc (suc n))))) h = refl

pub read_client_lem :
    (count : ℕ) (r : Row) (rest : List Bytes)
    → IsRow r
    → Fits r
    → count < 5
    → read_client count (field r.host ∷ field r.port ∷ field r.file ∷ rest)
      ≡ ok (client_of count r, rest)
unfolding read_client client_of
read_client_lem count r rest (a, (b, c)) (fa, (fb, fc)) h =
    rw
      (
        html_id_of count h,
        value-field r.host (field r.port ∷ field r.file ∷ rest) a,
        strcpy_lem 100 (r.host.1) fa,
        value-field r.port (field r.file ∷ rest) b,
        strcpy_lem 10 (r.port.1) fb,
        value-field r.file rest c,
        strcat_all_lem 20 [] (codes "test_case/" ∷ r.file.1 ∷ []) (omega arith),
        append-nil,
      )
      refl

no_room : (count : ℕ) (buf : List Bytes) → 5 ≤ count → read_client count buf ≡ fault out_of_bounds
unfolding read_client
no_room count buf h = rw (no_html_id count h) refl

-- What a loop answers for the rows, from a place on: five clients have a place.
outcome : ℕ → List Row → Result (List ClientInfor × List Bytes)
outcome count rows =
    if leb (count + length rows) 5 then ok (clients count rows, []) else fault out_of_bounds

add_client :
    ClientInfor → Result (List ClientInfor × List Bytes) → Result (List ClientInfor × List Bytes)
add_client infor end = do (list, left) ← end; ok (infor ∷ list, left)

outcome-next :
    (count : ℕ) (r : Row) (rows : List Row)
    → add_client (client_of count r) (outcome (suc count) rows) ≡ outcome count (r ∷ rows)
unfolding outcome add_client clients
outcome-next count r rows = ground arith

outcome-full :
    (count : ℕ) (r : Row) (rows : List Row)
    → 5 ≤ count
    → outcome count (r ∷ rows) ≡ fault out_of_bounds
unfolding outcome
outcome-full count r rows h = ground arith

-- A host, as the loop reads it.
pub value-host :
    (r : Row) (rows : List Row) (host : Bytes)
    → IsRow r
    → r.host.1 ≡ host
    → value (fields (r ∷ rows)) ≡ ok host
value-host r rows host h e =
    value-field r.host (field r.port ∷ field r.file ∷ fields rows) (h.0) ∙ ap ok e

parse_loop-skip :
    (rounds count : ℕ) (r : Row) (rows : List Row)
    → IsRow r
    → r.host.1 ≡ []
    → parse_loop (suc rounds) count (fields (r ∷ rows)) ≡ parse_loop rounds count (fields rows)
unfolding parse_loop
parse_loop-skip rounds count r rows h e = rw (value-host r rows [] h e, parse_loop) refl

parse_loop-take :
    (rounds count : ℕ) (r : Row) (rows : List Row) (c : ℕ) (host : Bytes)
    → IsRow r
    → Fits r
    → r.host.1 ≡ c ∷ host
    → count < 5
    → parse_loop (suc rounds) count (fields (r ∷ rows))
      ≡ add_client (client_of count r) (parse_loop rounds (suc count) (fields rows))
unfolding parse_loop add_client
parse_loop-take rounds count r rows c host h fits e room =
    rw
      (
        value-host r rows (c ∷ host) h e,
        parse_loop,
        read_client_lem count r (fields rows) h fits room,
      )
      refl

parse_loop-full :
    (rounds count : ℕ) (r : Row) (rows : List Row) (c : ℕ) (host : Bytes)
    → IsRow r
    → r.host.1 ≡ c ∷ host
    → 5 ≤ count
    → parse_loop (suc rounds) count (fields (r ∷ rows)) ≡ fault out_of_bounds
unfolding parse_loop
parse_loop-full rounds count r rows c host h e full =
    rw (value-host r rows (c ∷ host) h e, parse_loop, no_room count (fields (r ∷ rows)) full) refl

pub chosen-skip : (r : Row) (rows : List Row) → r.host.1 ≡ [] → chosen (r ∷ rows) ≡ chosen rows
unfolding chosen
chosen-skip r rows e = rw (ap is_empty e) refl

pub chosen-take :
    (r : Row) (rows : List Row) (c : ℕ) (host : Bytes)
    → r.host.1 ≡ c ∷ host
    → chosen (r ∷ rows) ≡ r ∷ chosen rows
unfolding chosen
chosen-take r rows c host e = rw (ap is_empty e) refl

-- A text is empty or not.
pub text_cases : (s : Bytes) → (s ≡ []) ⊎ ((c : ℕ) × (t : Bytes) × (s ≡ c ∷ t))
text_cases [] = inl refl
text_cases (c ∷ t) = inr (c, t, refl)

parse_loop_lem :
    (rounds count : ℕ) (rows : List Row)
    → All IsRow rows
    → All Fits (chosen rows)
    → length rows ≤ rounds
    → count ≤ 5
    → parse_loop rounds count (fields rows) ≡ outcome count (chosen rows)
parse_loop_lem zero count [] h fits le room =
    unfold parse_loop chosen outcome clients in ground arith
parse_loop_lem (suc rounds) count [] h fits le room =
    unfold parse_loop chosen outcome clients in ground arith
parse_loop_lem zero count (r ∷ rows) h fits le room = absurd (omega arith)
parse_loop_lem (suc rounds) count (r ∷ rows) (hr, h) fits le room = elim (text_cases (r.host.1)) [
  | inl e ↦
      let same = chosen-skip r rows e in
      parse_loop-skip rounds count r rows hr e
      ∙ parse_loop_lem rounds count rows h (subst (All Fits) same fits) (omega arith) room
      ∙ ap (outcome count) (sym same)
  | inr (c, t, e) ↦
      let same = chosen-take r rows c t e in
      let both : All Fits (r ∷ chosen rows) = subst (All Fits) same fits in
      elim (decide_lt count 5) [
        | inl less ↦
            parse_loop-take rounds count r rows c t hr (both.0) e less
            ∙ ap (add_client (client_of count r))
                (parse_loop_lem rounds (suc count) rows h (both.1) (omega arith) (omega arith))
            ∙ outcome-next count r (chosen rows)
            ∙ ap (outcome count) (sym same)
        | inr full ↦
            parse_loop-full rounds count r rows c t hr e full
            ∙ sym (outcome-full count r (chosen rows) full)
            ∙ ap (outcome count) (sym same)
      ]
]
  where
    decide_lt : (m n : ℕ) → (m < n) ⊎ (n ≤ m)
    decide_lt m n = elim (Bool-cases (ltb m n)) [
      | inl t ↦ inl (ground arith)
      | inr t ↦ inr (ground arith)
    ]

pub length-fields : (rows : List Row) → length rows ≤ length (fields rows)
length-fields [] = omega arith
length-fields (r ∷ rows) = omega (arith, length-fields rows)

outcome-first :
    (rows : List Row)
    → outcome 0 rows
      ≡ (if leb (length rows) 5 then ok (clients 0 rows, []) else fault out_of_bounds)
unfolding outcome
outcome-first rows = ground arith

-- The query string of a form, whose names hold no `=` and no `&` and whose values hold no `&`: if the
-- rows with a host are at most five, and their hosts have fewer than 100 bytes, their ports fewer than
-- 10 and their files fewer than 10, `parse_query_string` stores exactly these rows, in order, under the
-- ids s0, s1, …, and leaves no token; if there are more than five, it writes behind the table.
pub parse_query_string_lem :
    (rows : List Row)
    → All IsRow rows
    → All Fits (chosen rows)
    → parse_query_string (some (query rows)) ≡ (
        if leb (length (chosen rows)) 5
        then ok (clients 0 (chosen rows), [])
        else fault out_of_bounds)
unfolding parse_query_string
parse_query_string_lem rows h fits =
    let found = tokens-separated b'&' (fields rows) (fields-IsToken rows h) in
    ap (λ buf. parse_loop (length buf) 0 buf) found
    ∙ parse_loop_lem _ 0 rows h fits (length-fields rows) (omega arith)
    ∙ outcome-first (chosen rows)
