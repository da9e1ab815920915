-- ===== src/Mux/Channel/Stalls.antt =====
-- A Write that makes no progress.
use qtalk_go.Base.{
  ℕ, ◌+◌, ◌-◌, ◌<◌, ◌≡◌, refl, ap, ◌∙◌, arith, false, List, [], ◌++◌, none, some, ok, u32, length,
}
use qtalk_go.Frame.Message.{Message, bytes}
use qtalk_go.Frame.Encoder.{Writer, encode}
use qtalk_go.Mux.Window.{Window, reserve_wake, reserve_enter}
use qtalk_go.Mux.Channel.{
  Conn, min_u32, write_again, data_frame, sent_frame, reserved, write_wake, write_round,
}

stalled_reserve :
    (a l : ℕ) (w : Window)
    → u32 l ≡ 0
    → 0 < w.win
    → w.closed ≡ false
    → reserve_wake (min_u32 a l) (reserve_enter w)
      ≡ some (record w { write_waiters = w.write_waiters + 1 - 1 }, 0, none)
unfolding reserve_wake reserve_enter min_u32
stalled_reserve a l w z win live = ground arith

encode_unfailing :
    (m : Message) (w : Writer)
    → w.fault ≡ none
    → encode m w ≡ (ok tt, record { written = w.written ++ bytes m; fault = none })
unfolding encode
encode_unfailing m w h = rw (h, encode)

-- Where the length of the data is 0 as a uint32, the window is open and not empty, and the writer
-- does not fail, a round of Write sends an empty frame, takes nothing from the window and is left
-- with all of its data.
pub write_stalls :
    (n : ℕ) (input : List ℕ) (k : Conn)
    → u32 (length input) ≡ 0
    → 0 < k.ch.remote_win.win
    → k.ch.remote_win.closed ≡ false
    → k.enc.fault ≡ none
    → (k' : Conn) × (write_round n input k ≡ write_again n input k')
      × (k'.ch.remote_win.win ≡ k.ch.remote_win.win)
      × (k'.enc.written ≡ k.enc.written ++ bytes (data_frame k.ch.remote_id []))
unfolding write_round write_wake
write_stalls n input k z win live fault = (
  record {
    ch = record k.ch { remote_win = unblocked };
    enc = record { written = k.enc.written ++ bytes (data_frame k.ch.remote_id []); fault = none };
  },
  ap (reserved n input entered) (stalled_reserve _ _ k.ch.remote_win z win live)
      ∙ ap (sent_frame n [] input (record k.ch { remote_win = unblocked }))
          (encode_unfailing _ k.enc fault)
      ∙ ap (λ (m : ℕ). write_again m input _) (omega arith),
  refl,
  refl,
)
  where
    entered : Conn
    entered = record k { ch = record k.ch { remote_win = reserve_enter k.ch.remote_win } }

    unblocked : Window
    unblocked = record k.ch.remote_win { write_waiters = k.ch.remote_win.write_waiters + 1 - 1 }
