-- ===== src/Web/Console/Replies.antt =====
-- What a client shows and sends, against the texts that it has read.
use np.Prelude.{
  ℕ, ◌+◌, ◌≡◌, refl, sym, ap, ◌∙◌, Bool, false, List, [], ◌∷◌, ◌++◌, if◌then◌else◌, ltb, length, ok,
  >>=-eq-ok, ok-injective, Bool-cases, inl, inr,
}
use mathlib.Core.List.{flat_map}
use np.Libc.{Bytes, codes, strcpy, strcat}
use np.Web.Buffer.{text_of}
use np.Web.Html.{html_byte, html_of_lem}
use np.Web.Console.Input.{File, getline, max_input_len, command}
use np.Web.Console.{
  Client, Operation, idle, connecting, awaiting_reply, reading, requesting, writing, start_read,
  script, cmd_text, send_command, print_output, print_command, start_write, has_percent,
  take_output,
}

-- The file, the page and the number of bytes of the commands of a client after some texts.
pub record Talk : Type 0 where
  pub file : File
  pub page : List Bytes
  pub sent : ℕ

-- A text goes into the page as HTML. If there is a `%` in it, the next line of the file goes into the page
-- as a command, and counts with a line end as sent to the server.
unfoldable pub respond : Bytes → Bytes → Talk → Talk
unfolding has_percent getline command script cmd_text
respond html_id text k =
    let (line, file) = getline k.file in
    let cmd = command line in
    let shown = k.page ++ (script html_id (flat_map html_byte text) ∷ []) in
    if has_percent text
    then record {
      file = file;
      page = shown ++ (script html_id (cmd_text cmd) ∷ []);
      sent = k.sent + length (cmd ++ codes "\n");
    }
    else record k { page = shown }

unfoldable pub talk : Bytes → Talk → List Bytes → Talk
unfolding respond
talk html_id k [] = k
talk html_id k (text ∷ texts) = talk html_id (respond html_id text k) texts

pub talk-append :
    (html_id : Bytes) (k : Talk) (texts : List Bytes) (text : Bytes)
    → talk html_id k (texts ++ (text ∷ [])) ≡ respond html_id text (talk html_id k texts)
unfolding talk
talk-append html_id k [] text = refl
talk-append html_id k (t ∷ texts) text = talk-append html_id (respond html_id t k) texts text

abbrev pub begin_talk : File → Talk
begin_talk file = record { file = file; page = []; sent = 0 }

-- What is still to be written: the write under way; without one, nothing if the client has not stopped.
abbrev pub Pending : Operation → Bool → ℕ → Type 0
Pending (writing d) stopped later = later ≡ d
Pending (requesting d) stopped later = stopped ≡ false → later ≡ 0
Pending idle stopped later = stopped ≡ false → later ≡ 0
Pending connecting stopped later = stopped ≡ false → later ≡ 0
Pending awaiting_reply stopped later = stopped ≡ false → later ≡ 0
Pending reading stopped later = stopped ≡ false → later ≡ 0

-- The client is where the talk is that its texts give.
unfoldable pub IsTalk : Bytes → File → Client → Type 0
unfolding talk
IsTalk html_id file s =
    let k = talk html_id (begin_talk file) s.got in
    (s.html_id ≡ html_id)
    × ((s.file ≡ k.file)
        × ((s.page ≡ k.page)
            × ((later : ℕ) × (s.sent + later ≡ k.sent) × Pending s.operation s.stopped later)))

strcpy-eq-ok : (room : ℕ) (s r : Bytes) → strcpy room s ≡ ok r → s ≡ r
unfolding strcpy
strcpy-eq-ok room s r h = elim (Bool-cases (ltb (length s) room)) [
  | inl t ↦ ok-injective (sym (rw t refl) ∙ h)
  | inr t ↦ cc
]

strcat-eq-ok : (room : ℕ) (msg s r : Bytes) → strcat room msg s ≡ ok r → msg ++ s ≡ r
unfolding strcat
strcat-eq-ok room msg s r h = elim (Bool-cases (ltb (length msg + length s) room)) [
  | inl t ↦ ok-injective (sym (rw t refl) ∙ h)
  | inr t ↦ cc
]

-- A client that has shown a text.
abbrev pub shown : Bytes → Client → Client
shown text s = record s {
  got = s.got ++ (text ∷ []);
  page = s.page ++ (script s.html_id (flat_map html_byte text) ∷ []);
}

-- A client that writes the next command.
abbrev pub asked : Client → Client
asked s =
    let (line, file) = getline s.file in
    let cmd = command line in
    record s {
      file = file;
      page = s.page ++ (script s.html_id (cmd_text cmd) ∷ []);
      operation = writing (length (cmd ++ codes "\n"));
    }

print_command-eq-ok :
    (cmd : Bytes) (s t : Client)
    → print_command cmd s ≡ ok t
    → record s { page = s.page ++ (script s.html_id (cmd_text cmd) ∷ []) } ≡ t
unfolding print_command
print_command-eq-ok cmd s t h =
    let (buf, e, done) = >>=-eq-ok (strcpy max_input_len cmd) _ h in
    ap {A = Bytes} {B = Client}
      (λ b. record s { page = s.page ++ (script s.html_id (cmd_text b) ∷ []) })
      (strcpy-eq-ok max_input_len cmd buf e)
    ∙ ok-injective done

start_write-eq-ok : (s t : Client) → s.stopped ≡ false → start_write s ≡ ok t → asked s ≡ t
unfolding start_write send_command
start_write-eq-ok s t going h =
    let (line, file) = getline s.file in
    let cmd = command line in
    let branch : start_write s ≡ send_command s = rw going refl in
    let (printed, e, later) =
      >>=-eq-ok (print_command cmd (record s { file = file })) _ (sym branch ∙ h) in
    let (buffer, e', done) = >>=-eq-ok (strcat max_input_len cmd (codes "\n")) _ later in
    ap {A = Client} {B = Client}
      (λ p. record p { operation = writing (length (cmd ++ codes "\n")) })
      (print_command-eq-ok cmd (record s { file = file }) printed e)
    ∙ ap {A = Bytes} {B = Client} (λ b. record printed { operation = writing (length b) })
        (strcat-eq-ok max_input_len cmd (codes "\n") buffer e')
    ∙ ok-injective done

print_output-eq-ok :
    (text : Bytes) (s t : Client)
    → print_output text s ≡ ok t
    → record s { page = s.page ++ (script s.html_id (flat_map html_byte text) ∷ []) } ≡ t
unfolding print_output
print_output-eq-ok text s t h =
    let printed : print_output text s
        ≡ ok (record s { page = s.page ++ (script s.html_id (flat_map html_byte text) ∷ []) }) =
      rw (html_of_lem text) refl in
    ok-injective (sym printed ∙ h)

-- What is done with a text.
abbrev pub answered : Bytes → Client → Client
answered text s = if has_percent text then asked (shown text s) else start_read (shown text s)

go_on :
    (text : Bytes) (s t : Client)
    → s.stopped ≡ false
    → (if has_percent text then start_write s else ok (start_read s)) ≡ ok t
    → (if has_percent text then asked s else start_read s) ≡ t
go_on text s t going h = elim (Bool-cases (has_percent text)) [
  | inl mark ↦
      let branch : start_write s ≡ ok t = sym (rw mark refl) ∙ h in
      rw mark (start_write-eq-ok s t going branch)
  | inr mark ↦
      let branch : ok (start_read s) ≡ ok t = sym (rw mark refl) ∙ h in
      rw mark (ok-injective branch)
]

pub take_output-eq-ok :
    (bytes : Bytes) (s t : Client)
    → s.stopped ≡ false
    → take_output bytes s ≡ ok t
    → (text : Bytes) × (answered text s ≡ t)
unfolding take_output
take_output-eq-ok bytes s t going h =
    let (text, e, later) = >>=-eq-ok (text_of bytes) _ h in
    let (printed, e', last) =
      >>=-eq-ok (print_output text (record s { got = s.got ++ (text ∷ []) })) _ later in
    let same : shown text s ≡ printed =
      print_output-eq-ok text (record s { got = s.got ++ (text ∷ []) }) printed e' in
    (
      text,
      go_on text (shown text s) t going
          (ap (λ p. if has_percent text then start_write p else ok (start_read p)) same ∙ last),
    )
