-- ===== src/Web/Console/Answered.antt =====
-- A client that has answered a text is where its talk is.
use np.Prelude.{
  ℕ, ◌+◌, length, arith, ◌≡◌, refl, sym, ap, ◌∙◌, subst, true, false, ◌++◌, Bool-cases, inl, inr,
}
use np.Libc.{Bytes, codes}
use np.Web.Console.Input.{File, getline, command}
use np.Web.Console.{Client, reading, start_read, has_percent, over}
use np.Web.Console.Replies.{
  Talk, respond, talk, talk-append, begin_talk, Pending, IsTalk, asked, shown, answered,
}

zero_right : (n : ℕ) → n + 0 ≡ n
zero_right n = omega arith

-- Where a client with nothing left to write is.
seen : Client → Talk
seen s = record { file = s.file; page = s.page; sent = s.sent }

-- The client that has answered a text, in the two cases.
IsTalk-asked :
    (html_id text : Bytes) (k : Talk) (s : Client)
    → s.html_id ≡ html_id
    → seen s ≡ k
    → has_percent text ≡ true
    → ((asked (shown text s)).file ≡ (respond html_id text k).file)
      × (((asked (shown text s)).page ≡ (respond html_id text k).page)
          × (s.sent + length (command (getline s.file).0 ++ codes "\n")
              ≡ (respond html_id text k).sent))
unfolding respond seen
IsTalk-asked html_id text k s i same mark =
    let now : respond s.html_id text (seen s) ≡ respond html_id text k =
      ap (λ h. respond h text (seen s)) i ∙ ap (respond html_id text) same in
    let it : record {
      file = (asked (shown text s)).file;
      page = (asked (shown text s)).page;
      sent = s.sent + length (command (getline s.file).0 ++ codes "\n");
    }
        ≡ respond s.html_id text (seen s) =
      rw mark refl in
    (ap (λ t. t.file) (it ∙ now), (ap (λ t. t.page) (it ∙ now), ap (λ t. t.sent) (it ∙ now)))

IsTalk-shown :
    (html_id text : Bytes) (k : Talk) (s : Client)
    → s.html_id ≡ html_id
    → seen s ≡ k
    → has_percent text ≡ false
    → (s.file ≡ (respond html_id text k).file)
      × (((shown text s).page ≡ (respond html_id text k).page)
          × (s.sent + 0 ≡ (respond html_id text k).sent))
unfolding respond seen
IsTalk-shown html_id text k s i same mark =
    let now : respond s.html_id text (seen s) ≡ respond html_id text k =
      ap (λ h. respond h text (seen s)) i ∙ ap (respond html_id text) same in
    let it : record (seen s) { page = (shown text s).page } ≡ respond s.html_id text (seen s) =
      rw mark refl in
    (
      ap (λ t. t.file) (it ∙ now),
      (ap (λ t. t.page) (it ∙ now), zero_right s.sent ∙ ap (λ t. t.sent) (it ∙ now)),
    )

seen_of :
    (k : Talk) (s : Client) (later : ℕ)
    → s.file ≡ k.file
    → s.page ≡ k.page
    → s.sent + later ≡ k.sent
    → later ≡ 0
    → seen s ≡ k
unfolding seen
seen_of k s later f p all empty =
    let sent : s.sent ≡ k.sent = sym (zero_right s.sent) ∙ ap (λ l. s.sent + l) (sym empty) ∙ all in
    cc

pub IsTalk-answered :
    (html_id text : Bytes) (file : File) (s : Client)
    → s.stopped ≡ false
    → s.operation ≡ reading
    → IsTalk html_id file s
    → IsTalk html_id file (answered text (over s))
unfolding IsTalk start_read
IsTalk-answered html_id text file s going op (i, (f, (p, (later, all, rest)))) =
    let k = talk html_id (begin_talk file) s.got in
    let nothing : later ≡ 0 = subst (λ o. Pending o s.stopped later) op rest going in
    let same = seen_of k s later f p all nothing in
    let after = talk-append html_id (begin_talk file) s.got text in
    elim (Bool-cases (has_percent text)) [
      | inl mark ↦
          let (file', (page', sent')) = IsTalk-asked html_id text k s i same mark in
          rw (mark, after)
            (i, (file', (page', (length (command (getline s.file).0 ++ codes "\n"), sent', refl))))
      | inr mark ↦
          let (file', (page', sent')) = IsTalk-shown html_id text k s i same mark in
          rw (mark, after) (i, (file', (page', (0, sent', λ h. refl))))
    ]
