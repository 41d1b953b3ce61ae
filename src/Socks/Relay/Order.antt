-- ===== src/Socks/Relay/Order.antt =====
-- The bytes of each direction arrive in order, none twice and none made up.
use np.Prelude.{
  ℕ, zero, suc, ◌-◌, ◌≡◌, ◌≢◌, refl, sym, ap, ◌∙◌, subst, Bool, true, false, not, [], ◌++◌,
  if◌then◌else◌, append_assoc, append-nil,
}
use np.Libc.{Bytes}
use np.Socks.Relay.{
  Beginning, connecting, replying, over, Operation, idle, reading, writing, Flow, Relay, begin,
  take_in, give_out, stop, start_connect, reply_source, handle_connect, start_read,
  handle_reply_to_source, handle_source_read, handle_dest_read, handle_dest_write,
  handle_source_write, Step, connect_ends, reply_ends, source_read, source_fails, dest_read,
  dest_fails, dest_written, dest_lost, source_written, source_lost, Reach, here, next,
}

abbrev pub in_flight : Operation → Bytes
in_flight idle = []
in_flight reading = []
in_flight (writing d) = d

-- What has been read is what has been written and what is being written; once the relay has stopped,
-- some bytes may be lost behind these.
abbrev pub IsInOrder : Bool → Flow → Type 0
IsInOrder false f = f.got ≡ f.put ++ in_flight f.operation
IsInOrder true f = (lost : Bytes) × (f.got ≡ f.put ++ (in_flight f.operation ++ lost))

weaken : (b : Bool) (f : Flow) → IsInOrder b f → IsInOrder true f
weaken true f h = h
weaken false f h = ([], h ∙ ap (λ x. f.put ++ x) (sym (append-nil (in_flight f.operation))))

-- The operation under way is `op`.
at :
    (b : Bool) (f : Flow) (op : Operation)
    → f.operation ≡ op
    → IsInOrder b f
    → IsInOrder b (begin op f)
at b f op e h = subst (λ x. IsInOrder b (begin x f)) e h

-- Between two operations that write nothing.
restart :
    (b : Bool) (f : Flow) (op op' : Operation)
    → in_flight op' ≡ in_flight op
    → IsInOrder b (begin op f)
    → IsInOrder b (begin op' f)
restart false f op op' e h = h ∙ ap (λ x. f.put ++ x) (sym e)
restart true f op op' e (lost, h) = (lost, h ∙ ap (λ x. f.put ++ (x ++ lost)) (sym e))

read_on :
    (d : Bytes) (f : Flow)
    → IsInOrder false (begin reading f)
    → IsInOrder false (begin (writing d) (take_in d f))
read_on d f h = ap (λ x. x ++ d) (h ∙ append-nil f.put)

read_late : (d : Bytes) (f : Flow) → IsInOrder true (begin reading f) → IsInOrder true (take_in d f)
read_late d f (lost, h) = (lost ++ d, ap (λ x. x ++ d) h ∙ append_assoc f.put lost d)

write_ends :
    (b : Bool) (d : Bytes) (f : Flow)
    → IsInOrder b (begin (writing d) f)
    → IsInOrder b (give_out d f)
write_ends false d f h = h ∙ sym (append-nil (f.put ++ d))
write_ends true d f (lost, h) = (lost, h ∙ sym (append_assoc f.put d lost))

write_breaks :
    (b : Bool) (d d' : Bytes) (f : Flow)
    → IsInOrder b (begin (writing (d ++ d')) f)
    → IsInOrder true (give_out d f)
write_breaks b d d' f h =
    let (lost, e) = weaken b (begin (writing (d ++ d')) f) h in
    (
      d' ++ lost,
      e ∙ ap (λ x. f.put ++ x) (append_assoc d d' lost) ∙ sym (append_assoc f.put d (d' ++ lost)),
    )

abbrev pub BothInOrder : Relay → Type 0
BothInOrder s = IsInOrder s.stopped s.up × IsInOrder s.stopped s.down

cast : {b c : Bool} (f : Flow) → b ≡ c → IsInOrder b f → IsInOrder c f
cast f e h = subst (λ x. IsInOrder x f) e h

branch :
    (P : Relay → Type 0) (b : Bool) (x y : Relay)
    → (b ≡ true → P x)
    → (b ≡ false → P y)
    → P (if b then x else y)
branch P true x y f g = f refl
branch P false x y f g = g refl

-- Until the beginning is over no direction reads or writes.
abbrev IsQuiet : Beginning → Flow → Type 0
IsQuiet connecting f = f.operation ≡ idle
IsQuiet replying f = f.operation ≡ idle
IsQuiet over f = Unit

abbrev pub BothQuiet : Relay → Type 0
BothQuiet s = IsQuiet s.beginning s.up × IsQuiet s.beginning s.down

idle-IsQuiet : (b : Beginning) (f : Flow) → f.operation ≡ idle → IsQuiet b f
idle-IsQuiet connecting f h = h
idle-IsQuiet replying f h = h
idle-IsQuiet over f h = tt

over-IsQuiet : {b : Beginning} (f : Flow) → b ≡ over → IsQuiet b f
over-IsQuiet f e = subst (λ x. IsQuiet x f) (sym e) tt

is_over : (b : Beginning) (f : Flow) → IsQuiet b f → f.operation ≢ idle → b ≡ over
is_over connecting f q busy = absurd (busy q)
is_over replying f q busy = absurd (busy q)
is_over over f q busy = refl

pub start_connect-quiet :
    (n : ℕ) (s : Relay)
    → s.up.operation ≡ idle
    → s.down.operation ≡ idle
    → BothQuiet (start_connect n s)
unfolding start_connect stop
start_connect-quiet zero s hu hd =
    (idle-IsQuiet s.beginning s.up hu, idle-IsQuiet s.beginning s.down hd)
start_connect-quiet (suc n) s hu hd = (hu, hd)

handle_connect-quiet :
    (is_open ec : Bool) (s : Relay)
    → s.up.operation ≡ idle
    → s.down.operation ≡ idle
    → BothQuiet (handle_connect is_open ec s)
unfolding handle_connect reply_source
handle_connect-quiet is_open ec s hu hd =
    let again = start_connect-quiet (s.endpoints - 1) s hu hd in
    branch BothQuiet s.stopped _ _
      (λ e. (idle-IsQuiet s.beginning s.up hu, idle-IsQuiet s.beginning s.down hd))
      (λ e.
        branch BothQuiet (not is_open) _ _ (λ e. again)
          (λ e. branch BothQuiet ec _ _ (λ e. again) (λ e. (hu, hd))))

-- A test that leaves the beginning over.
both_over :
    (b : Bool) (x y : Relay)
    → x.beginning ≡ over
    → y.beginning ≡ over
    → BothQuiet (if b then x else y)
both_over b x y hx hy =
    branch BothQuiet b x y (λ e. (over-IsQuiet x.up hx, over-IsQuiet x.down hx))
      (λ e. (over-IsQuiet y.up hy, over-IsQuiet y.down hy))

pub Step-BothQuiet : {s t : Relay} → Step s t → BothQuiet s → BothQuiet t
unfolding handle_reply_to_source handle_source_read handle_dest_read handle_dest_write
    handle_source_write start_read stop
Step-BothQuiet {s = s} (connect_ends is_open ec h) (qu, qd) =
    handle_connect-quiet is_open ec (record s { beginning = over })
      (subst (λ b. IsQuiet b s.up) h qu) (subst (λ b. IsQuiet b s.down) h qd)
Step-BothQuiet {s = s} (reply_ends ec h) (qu, qd) =
    branch BothQuiet s.stopped _ _ (λ e. (tt, tt))
      (λ e. branch BothQuiet ec _ _ (λ e. (tt, tt)) (λ e. (tt, tt)))
Step-BothQuiet {s = s} (source_read d h) (qu, qd) =
    let gone = is_over s.beginning s.up qu (λ i. absurd (cc)) in both_over s.stopped _ _ gone gone
Step-BothQuiet {s = s} (source_fails h) (qu, qd) =
    let gone = is_over s.beginning s.up qu (λ i. absurd (cc)) in both_over s.stopped _ _ gone gone
Step-BothQuiet {s = s} (dest_read d h) (qu, qd) =
    let gone = is_over s.beginning s.down qd (λ i. absurd (cc)) in both_over s.stopped _ _ gone gone
Step-BothQuiet {s = s} (dest_fails h) (qu, qd) =
    let gone = is_over s.beginning s.down qd (λ i. absurd (cc)) in both_over s.stopped _ _ gone gone
Step-BothQuiet {s = s} (dest_written h) (qu, qd) =
    let gone = is_over s.beginning s.up qu (λ i. absurd (cc)) in both_over s.stopped _ _ gone gone
Step-BothQuiet {s = s} (dest_lost d d' h) (qu, qd) =
    let gone = is_over s.beginning s.up qu (λ i. absurd (cc)) in both_over s.stopped _ _ gone gone
Step-BothQuiet {s = s} (source_written h) (qu, qd) =
    let gone = is_over s.beginning s.down qd (λ i. absurd (cc)) in both_over s.stopped _ _ gone gone
Step-BothQuiet {s = s} (source_lost d d' h) (qu, qd) =
    let gone = is_over s.beginning s.down qd (λ i. absurd (cc)) in both_over s.stopped _ _ gone gone

both-stop : (s : Relay) → BothInOrder s → BothInOrder (stop s)
unfolding stop
both-stop s (hu, hd) = (weaken s.stopped s.up hu, weaken s.stopped s.down hd)

pub both-start_connect : (n : ℕ) (s : Relay) → BothInOrder s → BothInOrder (start_connect n s)
unfolding start_connect
both-start_connect zero s h = both-stop (record s { endpoints = 0 }) h
both-start_connect (suc n) s h = h

both-handle_connect :
    (is_open ec : Bool) (s : Relay) → BothInOrder s → BothInOrder (handle_connect is_open ec s)
unfolding handle_connect reply_source
both-handle_connect is_open ec s h =
    branch BothInOrder s.stopped _ _ (λ e. h)
      (λ e.
        branch BothInOrder (not is_open) _ _ (λ e. both-start_connect (s.endpoints - 1) s h)
          (λ e. branch BothInOrder ec _ _ (λ e. both-start_connect (s.endpoints - 1) s h) (λ e. h)))

pub Step-BothInOrder : {s t : Relay} → Step s t → BothQuiet s → BothInOrder s → BothInOrder t
unfolding handle_reply_to_source handle_source_read handle_dest_read handle_dest_write
    handle_source_write start_read
Step-BothInOrder {s = s} (connect_ends is_open ec h) q (hu, hd) =
    both-handle_connect is_open ec (record s { beginning = over }) (hu, hd)
Step-BothInOrder {s = s} (reply_ends ec h) (qu, qd) (hu, hd) =
    branch BothInOrder s.stopped _ _ (λ e. (hu, hd))
      (λ e.
        branch BothInOrder ec _ _ (λ e. both-stop (record s { beginning = over }) (hu, hd))
          (λ e. (
            restart s.stopped s.up idle reading refl
                (at s.stopped s.up idle (subst (λ b. IsQuiet b s.up) h qu) hu),
            restart s.stopped s.down idle reading refl
                (at s.stopped s.down idle (subst (λ b. IsQuiet b s.down) h qd) hd),
          )))
Step-BothInOrder {s = s} (source_read d h) q (hu, hd) =
    let was = at s.stopped s.up reading h hu in
    branch BothInOrder s.stopped _ _ (λ e. (cast _ (sym e) (read_late d s.up (cast _ e was)), hd))
      (λ e. (cast _ (sym e) (read_on d s.up (cast _ e was)), hd))
Step-BothInOrder {s = s} (source_fails h) q (hu, hd) =
    let now = restart s.stopped s.up reading idle refl (at s.stopped s.up reading h hu) in
    branch BothInOrder s.stopped _ _ (λ e. (now, hd))
      (λ e. both-stop (record s { up = begin idle s.up }) (now, hd))
Step-BothInOrder {s = s} (dest_read d h) q (hu, hd) =
    let was = at s.stopped s.down reading h hd in
    branch BothInOrder s.stopped _ _ (λ e. (hu, cast _ (sym e) (read_late d s.down (cast _ e was))))
      (λ e. (hu, cast _ (sym e) (read_on d s.down (cast _ e was))))
Step-BothInOrder {s = s} (dest_fails h) q (hu, hd) =
    let now = restart s.stopped s.down reading idle refl (at s.stopped s.down reading h hd) in
    branch BothInOrder s.stopped _ _ (λ e. (hu, now))
      (λ e. both-stop (record s { down = begin idle s.down }) (hu, now))
Step-BothInOrder {s = s} (dest_written {d = d} h) q (hu, hd) =
    let now = write_ends s.stopped d s.up (at s.stopped s.up (writing d) h hu) in
    branch BothInOrder s.stopped _ _ (λ e. (now, hd))
      (λ e. (restart s.stopped (give_out d s.up) idle reading refl now, hd))
Step-BothInOrder {s = s} (dest_lost d d' h) q (hu, hd) =
    let now = write_breaks s.stopped d d' s.up (at s.stopped s.up (writing (d ++ d')) h hu) in
    branch BothInOrder s.stopped _ _ (λ e. (cast _ (sym e) now, hd))
      (λ e. (now, weaken s.stopped s.down hd))
Step-BothInOrder {s = s} (source_written {d = d} h) q (hu, hd) =
    let now = write_ends s.stopped d s.down (at s.stopped s.down (writing d) h hd) in
    branch BothInOrder s.stopped _ _ (λ e. (hu, now))
      (λ e. (hu, restart s.stopped (give_out d s.down) idle reading refl now))
Step-BothInOrder {s = s} (source_lost d d' h) q (hu, hd) =
    let now = write_breaks s.stopped d d' s.down (at s.stopped s.down (writing (d ++ d')) h hd) in
    branch BothInOrder s.stopped _ _ (λ e. (hu, cast _ (sym e) now))
      (λ e. (weaken s.stopped s.up hu, now))

Reach-BothQuiet : {s t : Relay} → BothQuiet s → Reach s t → BothQuiet t
Reach-BothQuiet q here = q
Reach-BothQuiet q (next r step) = Step-BothQuiet step (Reach-BothQuiet q r)

-- However the operations of a relay end, and in any order: if at the start each direction is in order,
-- and reads and writes nothing while the beginning is not over, it is in order ever after. While the
-- relay goes on, the bytes read on one socket are those written on the other followed by those being
-- written; after it has stopped, some bytes behind these may be lost.
pub Reach-BothInOrder : {s t : Relay} → BothQuiet s → BothInOrder s → Reach s t → BothInOrder t
Reach-BothInOrder q h here = h
Reach-BothInOrder q h (next r step) =
    Step-BothInOrder step (Reach-BothQuiet q r) (Reach-BothInOrder q h r)
