-- ===== src/Mux/Link/Rounds.antt =====
-- What one round of Write and one Read do to their end of the channel, exactly.
use qtalk_go.Base.{
  ℕ, ◌+◌, ◌≤◌, ◌<◌, ◌≡◌, ◌⊎◌, inl, inr, refl, ap, ◌∙◌, arith, Bool, true, false, List, [], ◌∷◌,
  ◌++◌, none, some, eof, u32, length, take, drop, min, take-append-drop, length-take, length-drop,
  if◌then◌else◌,
}
use qtalk_go.Frame.Message.{Message, bytes, window_adjust_message}
use qtalk_go.Frame.Encoder.{Writer, encode}
use qtalk_go.Mux.Window.{Window, reserve_wake, reserve_enter}
use qtalk_go.Mux.Window.Grants.{reserve_wake_exact}
use qtalk_go.Mux.Buffer
use qtalk_go.Mux.Buffer.{Outcome}
use qtalk_go.Mux.Channel.{
  Conn, min_u32, WriteResult, write_done, write_waits, write_again, data_frame, reserved,
  write_wake, write_round, ReadResult, read_done, read_waits, read_rest, read, adjust_window, send,
}
use qtalk_go.Mux.Channel.Sending.{encode_cases}
use qtalk_go.Mux.Link.{sent_part}

abbrev pub SameIds : Conn → Conn → Type 0
SameIds k k' = (k'.ch.local_id ≡ k.ch.local_id) × (k'.ch.remote_id ≡ k.ch.remote_id)

-- One round sends one chunk and takes exactly its length from the window; or it finds the window
-- empty.
abbrev pub Moves : List ℕ → Conn → WriteResult → Type 0
Moves input k (write_again n rest k') =
    (sent_part input rest ++ rest ≡ input)
    × (length (sent_part input rest) ≤ k.ch.max_remote_payload)
    × (k'.ch.remote_win.win + length (sent_part input rest) ≡ k.ch.remote_win.win)
    × (k'.enc.written ≡ k.enc.written ++ bytes (data_frame k.ch.remote_id (sent_part input rest)))
    × (k'.ch.max_remote_payload ≡ k.ch.max_remote_payload)
    × SameIds k k'
Moves input k (write_waits n rest k') =
    (k'.ch.remote_win.win ≡ k.ch.remote_win.win)
    × (k'.ch.max_remote_payload ≡ k.ch.max_remote_payload)
    × (k.ch.remote_win.win ≡ 0)
    × SameIds k k'
Moves input k (write_done n e k') = Unit

take-sent :
    (space : ℕ) (input : List ℕ)
    → space ≤ length input
    → sent_part input (drop (length (take space input)) input) ≡ take space input
take-sent space input h =
    ap (λ (n : ℕ). take n input)
      (omega (arith, length-take space input, length-drop (length (take space input)) input))

module _ (n : ℕ) (input : List ℕ) (k : Conn) where
  reserved-Moves :
      (w : Window) (space : ℕ)
      → w.win + space ≡ k.ch.remote_win.win
      → space ≤ length input
      → space ≤ k.ch.max_remote_payload
      → Moves input k (reserved n input k (some (w, space, none)))
  reserved-Moves w space spent fits allowed =
      elim (encode_cases (data_frame k.ch.remote_id (take space input)) k.enc) [
        | inl e ↦ rw e (
            rw (take-sent space input fits)
              (whole, omega (arith, size), omega (arith, size), refl, refl, (refl, refl)))
        | inr (x, e) ↦ rw e tt
      ]
    where
      size : length (take space input) ≡ space
      size = omega (arith, length-take space input)

      whole : take space input ++ drop (length (take space input)) input ≡ input
      whole = ap (λ (m : ℕ). take space input ++ drop m input) size ∙ take-append-drop space input

  wake-Moves :
      (space : ℕ)
      → space ≤ length input
      → space ≤ k.ch.max_remote_payload
      → Moves input k (reserved n input k (reserve_wake space k.ch.remote_win))
  wake-Moves space fits allowed = elim (reserve_wake_exact space k.ch.remote_win) [
    | inl (empty, live, e) ↦ rw e (refl, refl, empty, (refl, refl))
    | inr (w, e, sum, waiters, same, woken) ↦ go w k.ch.remote_win.closed e sum
  ]
    where
      go :
          (w : Window) (shut : Bool)
          → reserve_wake space k.ch.remote_win
            ≡ some (w, min space k.ch.remote_win.win, if shut then some eof else none)
          → w.win + min space k.ch.remote_win.win ≡ k.ch.remote_win.win
          → Moves input k (reserved n input k (reserve_wake space k.ch.remote_win))
      go w true e sum = rw e tt
      go w false e sum =
          rw e (reserved-Moves w (min space k.ch.remote_win.win) sum (omega arith) (omega arith))

min_u32-le : (a b : ℕ) → (min_u32 a b ≤ a) × (min_u32 a b ≤ b)
unfolding min_u32
min_u32-le a b = (ground arith, ground arith)

pub write_wake-Moves : (n : ℕ) (input : List ℕ) (k : Conn) → Moves input k (write_wake n input k)
unfolding write_wake
write_wake-Moves n input k =
    let (allowed, fits) = min_u32-le k.ch.max_remote_payload (length input) in
    wake-Moves n input k (min_u32 k.ch.max_remote_payload (length input)) fits allowed

abbrev entered : Conn → Conn
entered k = record k { ch = record k.ch { remote_win = reserve_enter k.ch.remote_win } }

-- A waiter more changes neither the window nor the encoder.
Moves-entered :
    (input : List ℕ) (k : Conn) (r : WriteResult) → Moves input (entered k) r → Moves input k r
unfolding reserve_enter
Moves-entered input k (write_again n rest k') m = m
Moves-entered input k (write_waits n rest k') m = m
Moves-entered input k (write_done n e k') m = tt

pub write_round-Moves : (n : ℕ) (input : List ℕ) (k : Conn) → Moves input k (write_round n input k)
unfolding write_round
write_round-Moves n input k =
    Moves-entered input k (write_wake n input (entered k)) (write_wake-Moves n input (entered k))

-- The adjustment that a Read of some bytes sends.
abbrev pub grant : ℕ → ℕ → Message
grant id n = window_adjust_message (record { channel_id = id; additional_bytes = n })

adjust_window-live :
    (n : ℕ) (k : Conn)
    → k.ch.sent_close ≡ false
    → k.enc.fault ≡ none
    → ((adjust_window n k).1.enc
        ≡ record { written = k.enc.written ++ bytes (grant k.ch.remote_id (u32 n)); fault = none })
      × ((adjust_window n k).1.ch.sent_close ≡ false)
      × SameIds k (adjust_window n k).1
unfolding adjust_window send encode
adjust_window-live n k open_ sound = (simp (open_, sound), simp open_, (simp open_, simp open_))

-- What a Read sends on an end that lives: nothing, or the adjustment for what it took.
abbrev pub Acks : Conn → ReadResult → Type 0
Acks k (read_done got e k') =
    (((got ≡ []) × (k'.enc.written ≡ k.enc.written))
      ⊎ ((0 < length got)
          × (k'.enc.written
              ≡ k.enc.written ++ bytes (grant k.ch.remote_id (u32 (u32 (length got)))))))
    × (k'.ch.sent_close ≡ false)
    × (k'.enc.fault ≡ none)
    × SameIds k k'
Acks k (read_waits k') =
    (k'.enc.written ≡ k.enc.written)
    × (k'.ch.sent_close ≡ false)
    × (k'.enc.fault ≡ none)
    × SameIds k k'

pub read-Acks :
    (room : ℕ) (k : Conn) → k.ch.sent_close ≡ false → k.enc.fault ≡ none → Acks k (read room k)
unfolding read
read-Acks room k open_ sound = go (Buffer.read room k.ch.pending)
  where
    go : (o : Outcome) → Acks k (read_rest k o)
    go (Outcome.returned [] e b) = (inl (refl, refl), open_, sound, (refl, refl))
    go (Outcome.returned (x ∷ got) e b) =
        let (enc, live, ids) =
          adjust_window-live (u32 (length (x ∷ got)))
            (record k { ch = record k.ch { pending = b } }) open_ sound in
        (
          inr (omega arith, ap (λ (w : Writer). w.written) enc),
          live,
          ap (λ (w : Writer). w.fault) enc,
          ids,
        )
    go (Outcome.blocked b) = (refl, open_, sound, (refl, refl))
    go (Outcome.again p) = (refl, open_, sound, (refl, refl))
