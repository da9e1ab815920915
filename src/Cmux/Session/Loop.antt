-- ===== src/Cmux/Session/Loop.antt =====
-- The loop of a session over CBOR frames never panics, and ends.
use qtalk_go.Base.{
  ℕ, zero, suc, ◌<◌, ◌≡◌, refl, arith, Bool, true, false, Option, none, some, Result, ok, err,
  length, ◌==◌, if◌then◌else◌, lookup, delete, get_elem?,
}
use qtalk_go.Frame.Encoder.{Writer}
use qtalk_go.Frame.Decoder.{Reader}
use qtalk_go.Cmux.Channel.{
  Frame, Cbor, Channel, channel_open, channel_data, channel_close, channel_eof,
  channel_open_confirm, channel_open_failure,
}
use qtalk_go.Cmux.Session.{
  new_session, Session, Handled, handled, stuck, panicked, handle_at, offered, handle_open,
  new_channel, put, fresh, post, close_channel, handle_close, handle, to_channel, dispatch,
  received, one_packet, loop, loop_next,
}
use qtalk_go.Cmux.Session.Sound.{IsSound, Safe, one_packet_cbor-Safe}
use qtalk_go.Cmux.Session.Exit.{exit-Shuts}

-- A frame takes a byte of the stream at least.
abbrev pub Consumes : Cbor → Type 0
Consumes cbor =
    (r r' : Reader) (f : Frame) → cbor.decode r ≡ (ok f, r') → length r'.rest < length r.rest

-- The loop has come to its end, with an error that is kept, or it waits for an Open to receive.
abbrev pub Stops : Handled → Type 0
Stops (handled none s) = ⊥
Stops (handled (some e) s) = s.error ≡ some e
Stops (stuck s) = Unit
Stops panicked = ⊥

-- The decoder is the given one.
abbrev pub HasDec : Reader → Handled → Type 0
HasDec r (handled e s) = s.dec ≡ r
HasDec r (stuck s) = Unit
HasDec r panicked = Unit

if-HasDec :
    (r : Reader) (b : Bool) (x y : Handled)
    → HasDec r x
    → HasDec r y
    → HasDec r (if b then x else y)
if-HasDec r true x y h k = h
if-HasDec r false x y h k = k

module _ (cbor : Cbor) (accepts : Bool) (f : Frame) where
  post-HasDec : (p : ℕ) (c : Channel) (s : Session) → HasDec s.dec (post p c f s)
  post-HasDec p c s = if-HasDec s.dec c.frames.closed panicked _ tt (
      if-HasDec s.dec c.frames.awaited
        (handled none
          (put p (record c { frames = record c.frames { awaited = false; passed = some f } }) s))
        (stuck (put p c s)) refl tt)

  handle_close-HasDec : (p : ℕ) (c : Channel) (s : Session) → HasDec s.dec (handle_close cbor p c s)
  unfolding close_channel
  handle_close-HasDec p c s = if-HasDec s.dec _ panicked (handled _ _) tt refl

  handle-HasDec : (p : ℕ) (c : Channel) (s : Session) → HasDec s.dec (handle cbor p c f s)
  unfolding handle
  handle-HasDec p c s = if-HasDec s.dec (f.type_of == channel_data) _ _ refl (
      if-HasDec s.dec (f.type_of == channel_close) _ _ (handle_close-HasDec p c s) (
        if-HasDec s.dec (f.type_of == channel_eof) _ _ refl (
          if-HasDec s.dec (f.type_of == channel_open_confirm) _ _
            (post-HasDec p (record c { remote_id = f.sender_id }) s)
            (if-HasDec s.dec (f.type_of == channel_open_failure) _ _
              (post-HasDec p c (record s { chans = delete f.channel_id s.chans })) refl))))

  to_channel-HasDec : (found : Option ℕ) (s : Session) → HasDec s.dec (to_channel cbor found f s)
  to_channel-HasDec none s = refl
  to_channel-HasDec (some p) s =
      elim (get_elem? s.heap p) as (λ c. HasDec s.dec (handle_at cbor p c f s)) [
        | none ↦ tt
        | some c ↦ handle-HasDec p c s
      ]

  offered-HasDec : (b : Bool) (p id : ℕ) (s : Session) → HasDec s.dec (offered cbor b f p id s)
  offered-HasDec true p id s = refl
  offered-HasDec false p id s = refl

  handle_open-HasDec : (s : Session) → HasDec s.dec (handle_open cbor accepts f s)
  unfolding handle_open new_channel
  handle_open-HasDec s =
      let (p, id, s') = new_channel s in
      offered-HasDec accepts p id (put p (record (fresh id) { remote_id = f.sender_id }) s')

  dispatch-HasDec : (s : Session) → HasDec s.dec (dispatch cbor accepts f s)
  unfolding dispatch
  dispatch-HasDec s =
      if-HasDec s.dec (f.type_of == channel_open) _ _ (handle_open-HasDec s)
        (to_channel-HasDec (lookup f.channel_id s.chans) s)

-- A packet that is handled without an error has shortened the stream.
Shortens : Session → Handled → Type 0
Shortens s (handled none s') = length s'.dec.rest < length s.dec.rest
Shortens s h = Unit

module _ (cbor : Cbor) (consumes : Consumes cbor) where
  received-Shortens :
      (accepts : Bool) (s : Session) (x : Result Frame × Reader)
      → cbor.decode s.dec ≡ x
      → Shortens s (received cbor accepts s x)
  unfolding Shortens
  received-Shortens accepts s (err e, r) d = tt
  received-Shortens accepts s (ok f, r) d =
      go (dispatch cbor accepts f (record s { dec = r }))
        (dispatch-HasDec cbor accepts f (record s { dec = r }))
    where
      go : (h : Handled) → HasDec r h → Shortens s h
      go (handled none s') e = rw e (consumes s.dec r f d)
      go (handled (some x) s') e = tt
      go (stuck s') e = tt
      go panicked e = tt

  one_packet-Shortens : (accepts : Bool) (s : Session) → Shortens s (one_packet cbor accepts s)
  unfolding one_packet
  one_packet-Shortens accepts s = received-Shortens accepts s (cbor.decode s.dec) refl

  loop_cbor-Stops :
      (fuel : ℕ) (accepts : ℕ → Bool) (s : Session)
      → IsSound s
      → length s.dec.rest < fuel
      → Stops (loop cbor fuel accepts s)
  unfolding loop
  loop_cbor-Stops zero accepts s h f = absurd (omega arith)
  loop_cbor-Stops (suc fuel) accepts s h f =
      go (one_packet cbor (accepts fuel) s) (one_packet_cbor-Safe cbor (accepts fuel) s h)
        (one_packet-Shortens (accepts fuel) s) (loop_cbor-Stops fuel accepts)
    where
      go :
          (r : Handled)
          → Safe r
          → Shortens s r
          → ((s' : Session)
              → IsSound s'
              → length s'.dec.rest < fuel
              → Stops (loop cbor fuel accepts s'))
          → Stops (loop_next (loop cbor fuel accepts) r)
      go (handled none s') k l rec = rec s' k (unfold Shortens in omega (arith, l))
      go (handled (some e) s') k l rec = let r = exit-Shuts e s' k in rw r.1 r.6
      go (stuck s') k l rec = tt
      go panicked k l rec = k

-- A new session on any transport, with a decoder each of whose frames takes a byte at least, and
-- more fuel than there are bytes: its loop ends with an error that the session keeps, or waits for
-- an Open to receive. It never panics.
pub new_session_cbor-Stops :
    (cbor : Cbor) (fuel : ℕ) (accepts : ℕ → Bool) (w : Writer) (r : Reader)
    → Consumes cbor
    → length r.rest < fuel
    → Stops (loop cbor fuel accepts (new_session w r))
unfolding new_session
new_session_cbor-Stops cbor fuel accepts w r c h =
    loop_cbor-Stops cbor c fuel accepts (new_session w r) (record { leads = tt; distinct = tt }) h
