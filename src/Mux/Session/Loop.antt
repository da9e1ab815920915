-- ===== src/Mux/Session/Loop.antt =====
-- The loop of a session never panics, and ends.
use qtalk_go.Base.{
  ℕ, zero, suc, ◌<◌, ◌≡◌, refl, sym, arith, u32_mod, Bool, Option, none, some, Error, Result, ok,
  err, length,
}
use qtalk_go.Frame.Message.{Message, open_message, channel}
use qtalk_go.Frame.Decoder.{Reader, decode}
use qtalk_go.Frame.Encoder.{Writer}
use qtalk_go.Mux.ChanList.{get_chan}
use qtalk_go.Mux.Session.{
  new_session, Session, Handled, handled, stuck, panicked, to_channel, dispatch, received,
  one_packet, exit, loop, loop_next,
}
use qtalk_go.Mux.Session.Exit.{exit_shuts}
use qtalk_go.Mux.Session.Reading.{HasDec, HasDec-dispatch}
use qtalk_go.Frame.Consumption.{decode_shorter}
use qtalk_go.Mux.Session.Safety.{IsSound, IsSound-weaken, Safe, handle-Safe, handle_open-Safe}

to_channel-Safe :
    (n : ℕ) (m : Message) (s : Session)
    → IsSound n s
    → Safe n (to_channel (channel m).0 (get_chan (channel m).0 s.chans) m s)
to_channel-Safe n m s h = go (get_chan (channel m).0 s.chans) refl
  where
    go :
        (found : Option ℕ)
        → get_chan (channel m).0 s.chans ≡ found
        → Safe n (to_channel (channel m).0 found m s)
    go none e = h
    go (some p) e =
        let (c, here, same, open_) = h.at _ p e in
        rw here (handle-Safe n s p c here open_ h m (sym same))

dispatch-Safe :
    (n : ℕ) (accepts : Bool) (m : Message) (s : Session)
    → IsSound (suc n) s
    → Safe n (dispatch accepts m s)
unfolding dispatch
dispatch-Safe n accepts (open_message m) s h = handle_open-Safe n accepts m s h
dispatch-Safe n accepts m s h = to_channel-Safe n m s (IsSound-weaken n s h)

received-Safe :
    (n : ℕ) (accepts : Bool) (s : Session) (r : Result Message × Reader)
    → IsSound (suc n) s
    → Safe n (received accepts s r)
received-Safe n accepts s (ok m, r) h =
    dispatch-Safe n accepts m (record s { dec = r }) (record { room = h.room; at = h.at })
received-Safe n accepts s (err e, r) h = IsSound-weaken n _ (record { room = h.room; at = h.at })

-- Where every id leads to a channel of the store that has this id and an open mailbox, and there
-- is room for one id more than n: whatever the peer sends, and whether the channels that it opens
-- are accepted or not, handling a packet does not panic, and keeps this with room for n.
pub one_packet-Safe :
    (n : ℕ) (accepts : Bool) (s : Session) → IsSound (suc n) s → Safe n (one_packet accepts s)
unfolding one_packet
one_packet-Safe n accepts s h = received-Safe n accepts s (decode s.dec) h

-- The loop has come to its end, with an error that is kept, or it waits for room in a mailbox.
abbrev pub Stops : Handled → Type 0
Stops (handled none s) = ⊥
Stops (handled (some e) s) = s.error ≡ some e
Stops (stuck s) = Unit
Stops panicked = ⊥

exit-Stops : (e : Error) (s : Session) → IsSound 0 s → Stops (exit e s)
exit-Stops e s h = let r = exit_shuts e s h in rw r.1 r.5

IsSound-any : (n : ℕ) (s : Session) → IsSound n s → IsSound 0 s
IsSound-any n s h = record { room = omega (arith, h.room); at = h.at }

-- A packet that is handled without an error has shortened the stream.
Shortens : Session → Handled → Type 0
Shortens s (handled none s') = length s'.dec.rest < length s.dec.rest
Shortens s h = Unit

received-Shortens :
    (accepts : Bool) (s : Session) (x : Result Message × Reader)
    → decode s.dec ≡ x
    → Shortens s (received accepts s x)
unfolding Shortens
received-Shortens accepts s (err e, r) d = tt
received-Shortens accepts s (ok m, r) d =
    go (dispatch accepts m (record s { dec = r }))
      (HasDec-dispatch accepts m (record s { dec = r }))
  where
    go : (h : Handled) → HasDec r h → Shortens s h
    go (handled none s') e = rw e (decode_shorter s.dec r m d)
    go (handled (some x) s') e = tt
    go (stuck s') e = tt
    go panicked e = tt

one_packet-Shortens : (accepts : Bool) (s : Session) → Shortens s (one_packet accepts s)
unfolding one_packet
one_packet-Shortens accepts s = received-Shortens accepts s (decode s.dec) refl

-- In a session whose ids lead to channels of the store that have these ids and open mailboxes,
-- with more fuel than there are bytes to read and room for as many ids, the loop ends: with an
-- error that the session keeps, or waiting for room in a mailbox. It never panics.
pub loop-Stops :
    (fuel : ℕ) (accepts : ℕ → Bool) (s : Session)
    → IsSound fuel s
    → length s.dec.rest < fuel
    → Stops (loop fuel accepts s)
unfolding loop
loop-Stops zero accepts s h f = absurd (omega arith)
loop-Stops (suc fuel) accepts s h f =
    go (one_packet (accepts fuel) s) (one_packet-Safe fuel (accepts fuel) s h)
      (one_packet-Shortens (accepts fuel) s) (loop-Stops fuel accepts)
  where
    go :
        (r : Handled)
        → Safe fuel r
        → Shortens s r
        → ((s' : Session)
            → IsSound fuel s'
            → length s'.dec.rest < fuel
            → Stops (loop fuel accepts s'))
        → Stops (loop_next (loop fuel accepts) r)
    go (handled none s') k l rec = rec s' k (unfold Shortens in omega (arith, l))
    go (handled (some e) s') k l rec = exit-Stops e s' (IsSound-any fuel s' k)
    go (stuck s') k l rec = tt
    go panicked k l rec = k

new_session-IsSound : (n : ℕ) (w : Writer) (r : Reader) → n < u32_mod → IsSound n (new_session w r)
unfolding new_session get_chan
new_session-IsSound n w r h = record { room = omega arith; at = λ id p e. absurd (ground arith) }

-- A new session on any transport from which fewer than 2^32 - 1 bytes come, whatever they are,
-- with more fuel than there are bytes and less than 2^32: its loop ends with an error that the
-- session keeps, or waits for room in a mailbox. It never panics.
pub new_session-Stops :
    (fuel : ℕ) (accepts : ℕ → Bool) (w : Writer) (r : Reader)
    → length r.rest < fuel
    → fuel < u32_mod
    → Stops (loop fuel accepts (new_session w r))
unfolding new_session
new_session-Stops fuel accepts w r h few =
    loop-Stops fuel accepts (new_session w r) (new_session-IsSound fuel w r few) h
