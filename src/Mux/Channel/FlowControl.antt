-- ===== src/Mux/Channel/FlowControl.antt =====
-- The window of the receiving side: what the peer may still send and what waits to be read are
-- together the window that the channel began with.
use mathlib.Core.Path.{ap₂}
use qtalk_go.Base.{
  ℕ, ◌+◌, ◌≤◌, ◌<◌, ◌≡◌, ◌≢◌, ◌⊎◌, inl, inr, refl, sym, ap, ◌∙◌, arith, [], ◌∷◌, ◌++◌, none, some,
  Error, u32_mod, u32, add_u32, ltb, ◌==◌, Bool-cases, payload_too_big, wrong_length,
  window_exceeded, length, length-append, length-take, take-append-drop,
}
use qtalk_go.Frame.Message.{DataMessage}
use qtalk_go.Mux.Buffer.{Outcome}
use qtalk_go.Mux.Buffer.Queue.{contents, contents-write, Reads, read-Reads}
use qtalk_go.Mux.Channel.{
  Channel, Conn, channel_window_size, adjust_window, ReadResult, read_done, read_waits, read_rest,
  read, handle_data,
}

abbrev pub IsBalanced : Channel → Type 0
IsBalanced c = c.my_window + length (contents c.pending) ≡ channel_window_size

-- A data message of fewer than 2^32 bytes is taken, without an error, if it is no longer than the
-- channel's limit and its window and its length field is right; then its data comes behind what
-- waits to be read, and its length goes off the window. Otherwise there is an error and the
-- channel stays as it was.
pub handle_data_exact :
    (m : DataMessage) (c : Channel)
    → length m.payload < u32_mod
    → ((m.length_field ≡ length m.payload)
        × (m.length_field ≤ c.max_incoming_payload)
        × (m.length_field ≤ c.my_window)
        × ((handle_data m c).0 ≡ none)
        × (contents (handle_data m c).1.pending ≡ contents c.pending ++ m.payload)
        × ((handle_data m c).1.my_window + m.length_field ≡ c.my_window))
      ⊎ (((m.length_field ≢ length m.payload)
            ⊎ ((c.max_incoming_payload < m.length_field) ⊎ (c.my_window < m.length_field)))
          × ((x : Error) × ((handle_data m c).0 ≡ some x))
          × ((handle_data m c).1 ≡ c))
unfolding handle_data
handle_data_exact m c h = elim (Bool-cases (ltb c.max_incoming_payload m.length_field)) [
  | inl big ↦ inr (inr (inl (ground arith)), (payload_too_big, simp big), simp big)
  | inr fits ↦ elim (Bool-cases (m.length_field == u32 (length m.payload))) [
    | inr wrong ↦ inr (inl (ground arith), (wrong_length, simp (fits, wrong)), simp (fits, wrong))
    | inl right ↦ elim (Bool-cases (ltb c.my_window m.length_field)) [
      | inl over ↦ inr (
        inr (inr (ground arith)),
        (window_exceeded, simp (fits, right, over)),
        simp (fits, right, over),
      )
      | inr within ↦ inl (
        ground arith,
        ground arith,
        ground arith,
        simp (fits, right, within),
        simp (fits, right, within) (contents-write m.payload c.pending),
        simp (fits, right, within) (ground arith),
      )
    ]
  ]
]

-- Handling a data message of fewer than 2^32 bytes, taken or not, keeps the window and what waits
-- to be read together equal to the initial window.
pub handle_data-IsBalanced :
    (m : DataMessage) (c : Channel)
    → length m.payload < u32_mod
    → IsBalanced c
    → IsBalanced (handle_data m c).1
handle_data-IsBalanced m c h b = elim (handle_data_exact m c h) [
  | inl (e, l, w, n, p, s) ↦
      omega (arith, ap length p, length-append (contents c.pending) m.payload)
  | inr (f, x, e) ↦ rw e b
]

-- What Read has done: the bytes that it returns, and the window given back for them.
abbrev pub Drains : ℕ → Conn → ReadResult → Type 0
Drains room k (read_done got e k') =
    (got ++ contents k'.ch.pending ≡ contents k.ch.pending)
    × (length got ≤ room)
    × (k'.ch.my_window ≡ k.ch.my_window + length got)
    × (k'.ch.max_incoming_payload ≡ k.ch.max_incoming_payload)
Drains room k (read_waits k') =
    (contents k'.ch.pending ≡ contents k.ch.pending)
    × (k'.ch.my_window ≡ k.ch.my_window)
    × (k'.ch.max_incoming_payload ≡ k.ch.max_incoming_payload)

adjust_window-fields :
    (n : ℕ) (k : Conn)
    → ((adjust_window n k).1.ch.pending ≡ k.ch.pending)
      × ((adjust_window n k).1.ch.my_window ≡ add_u32 k.ch.my_window (u32 n))
      × ((adjust_window n k).1.ch.max_incoming_payload ≡ k.ch.max_incoming_payload)
unfolding adjust_window
adjust_window-fields n k = ground arith

read_rest-Drains :
    (room : ℕ) (k : Conn) (o : Outcome)
    → IsBalanced k.ch
    → Reads room k.ch.pending o
    → Drains room k (read_rest k o)
read_rest-Drains room k (Outcome.returned [] e b) h (e1, e2, e3, e4) =
    let whole = ap₂ ◌++◌ e1 e2 ∙ take-append-drop room (contents k.ch.pending) in
    (whole, omega arith, omega arith, refl)
read_rest-Drains room k (Outcome.returned (x ∷ got) e b) h (e1, e2, e3, e4) =
    let (p, w, l) =
      adjust_window-fields (u32 (length (x ∷ got)))
        (record k { ch = record k.ch { pending = b } }) in
    let whole = ap₂ ◌++◌ e1 (ap contents p ∙ e2) ∙ take-append-drop room (contents k.ch.pending) in
    let size = ap length e1 ∙ length-take room (contents k.ch.pending) in
    (whole, omega (arith, size), w ∙ omega (arith, size, h), l)
read_rest-Drains room k (Outcome.blocked b) h (e1, e2, e3, e4, e5) = (e4 ∙ sym e2, refl, refl)
read_rest-Drains room k (Outcome.again p) h r = elim r [ ]

-- Where the window and what waits to be read make the initial window, Read returns the bytes
-- written first, no more than there is room for, leaves the others in order, and gives the window
-- as much as it returns; if it waits, neither has changed.
pub read-Drains : (room : ℕ) (k : Conn) → IsBalanced k.ch → Drains room k (read room k)
unfolding read
read-Drains room k h = read_rest-Drains room k _ h (read-Reads room k.ch.pending)
