-- ===== src/Socks/Relay.antt =====
-- `client` of connect_to_dest.hpp: the proxy copies bytes between its client (the source) and the
-- destination. Each callback is a function on the state; an operation of Boost.Asio that is under way
-- ends in the callback it was given.
pub mod Order
use np.Prelude.{
  ℕ, zero, suc, ◌-◌, ◌≡◌, refl, sym, ap, ◌∙◌, Bool, true, false, not, List, [], ◌++◌, Option, none,
  some, if◌then◌else◌, append_assoc, append-nil,
}
use np.Libc.{Bytes}

-- Nothing, an `async_read_some`, or an `async_write` of these bytes.
pub data Operation : Type 0 where
  idle reading : Operation
  writing : Bytes → Operation

-- One direction: the operation under way, the bytes read on one socket and those written on the other.
pub record Flow : Type 0 where
  pub operation : Operation
  pub got : Bytes
  pub put : Bytes

-- `async_connect` or the write of the answer is under way, or neither.
pub data Beginning : Type 0 where
  connecting replying over : Beginning

-- `stopped_`; the endpoints from `endpoint_iter` on; how far the beginning is; from the source to the
-- destination, and back.
pub record Relay : Type 0 where
  pub stopped : Bool
  pub endpoints : ℕ
  pub beginning : Beginning
  pub up : Flow
  pub down : Flow

abbrev begin : Operation → Flow → Flow
begin op f = record f { operation = op }

unfoldable pub stop : Relay → Relay
stop s = record s { stopped = true }

unfoldable pub start_connect : ℕ → Relay → Relay
unfolding stop
start_connect zero s = stop (record s { endpoints = 0 })
start_connect (suc n) s = record s { endpoints = suc n; beginning = connecting }

unfoldable pub reply_source : Relay → Relay
reply_source s = record s { beginning = replying }

-- `socket_dest.is_open()` and `ec` as the system gives them.
unfoldable pub handle_connect : Bool → Bool → Relay → Relay
unfolding start_connect reply_source
handle_connect is_open ec s =
    if s.stopped
    then s
    else if not is_open
    then start_connect (s.endpoints - 1) s
    else if ec
    then start_connect (s.endpoints - 1) s
    else reply_source s

unfoldable pub start_read : Relay → Relay
start_read s = record s { up = begin reading s.up; down = begin reading s.down }

unfoldable pub handle_reply_to_source : Bool → Relay → Relay
unfolding start_read stop
handle_reply_to_source ec s = if s.stopped then s else if ec then stop s else start_read s

-- `none` is an error.
unfoldable pub handle_source_read : Option Bytes → Relay → Relay
unfolding stop
handle_source_read none s = if s.stopped then s else stop s
handle_source_read (some data_source) s =
    if s.stopped then s else record s { up = begin (writing data_source) s.up }

unfoldable pub handle_dest_read : Option Bytes → Relay → Relay
unfolding stop
handle_dest_read none s = if s.stopped then s else stop s
handle_dest_read (some data_dest) s =
    if s.stopped then s else record s { down = begin (writing data_dest) s.down }

unfoldable pub handle_dest_write : Bool → Relay → Relay
unfolding stop
handle_dest_write ec s =
    if s.stopped then s else if ec then stop s else record s { up = begin reading s.up }

unfoldable pub handle_source_write : Bool → Relay → Relay
unfolding stop
handle_source_write ec s =
    if s.stopped then s else if ec then stop s else record s { down = begin reading s.down }

-- A read ends with some bytes or an error; a write ends when all its bytes are written, or in an error
-- after some of them.
abbrev pub take_in : Bytes → Flow → Flow
take_in d f = record f { operation = idle; got = f.got ++ d }

abbrev pub give_out : Bytes → Flow → Flow
give_out d f = record f { operation = idle; put = f.put ++ d }

pub data Step (s : Relay) : Relay → Type 0 where
  connect_ends :
      (is_open ec : Bool)
      → s.beginning ≡ connecting
      → Step s (handle_connect is_open ec (record s { beginning = over }))
  reply_ends :
      (ec : Bool)
      → s.beginning ≡ replying
      → Step s (handle_reply_to_source ec (record s { beginning = over }))
  source_read :
      (d : Bytes)
      → s.up.operation ≡ reading
      → Step s (handle_source_read (some d) (record s { up = take_in d s.up }))
  source_fails :
      s.up.operation ≡ reading
      → Step s (handle_source_read none (record s { up = begin idle s.up }))
  dest_read :
      (d : Bytes)
      → s.down.operation ≡ reading
      → Step s (handle_dest_read (some d) (record s { down = take_in d s.down }))
  dest_fails :
      s.down.operation ≡ reading
      → Step s (handle_dest_read none (record s { down = begin idle s.down }))
  dest_written :
      {d : Bytes}
      → s.up.operation ≡ writing d
      → Step s (handle_dest_write false (record s { up = give_out d s.up }))
  dest_lost :
      (d d' : Bytes)
      → s.up.operation ≡ writing (d ++ d')
      → Step s (handle_dest_write true (record s { up = give_out d s.up }))
  source_written :
      {d : Bytes}
      → s.down.operation ≡ writing d
      → Step s (handle_source_write false (record s { down = give_out d s.down }))
  source_lost :
      (d d' : Bytes)
      → s.down.operation ≡ writing (d ++ d')
      → Step s (handle_source_write true (record s { down = give_out d s.down }))

pub data Reach (s : Relay) : Relay → Type 0 where
  here : Reach s s
  next : {t u : Relay} → Reach s t → Step t u → Reach s u
