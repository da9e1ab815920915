-- ===== src/Mux/Link/Pieces.antt =====
-- What a piece that an encoder has written comes to on the other side.
use mathlib.Core.Path.{subst}
use qtalk_go.Base.{
  u32, IsU32, Result, append-nil, ℕ, ◌+◌, ◌≤◌, ◌<◌, ◌≡◌, inl, inr, sym, ap, ◌∙◌, arith, true, List,
  [], ◌∷◌, ◌++◌, Option, none, Error, u32_mod, All, length, length-append,
}
use qtalk_go.Frame.Message.{
  Message, DataMessage, WindowAdjustMessage, data_message, window_adjust_message,
}
use qtalk_go.Mux.Window
use qtalk_go.Mux.Window.{Window}
use qtalk_go.Mux.Window.Grants.{add_exact}
use qtalk_go.Mux.Buffer.Queue.{contents}
use qtalk_go.Mux.Channel.{Conn, channel_max_packet, write_again, read_done, handle_data}
use qtalk_go.Mux.Channel.FlowControl.{handle_data_exact}
use qtalk_go.Mux.Link.{Link, sent_part, written_since, taken_in, after_data}
use qtalk_go.Mux.Link.Rounds.{Moves, Acks}
use qtalk_go.Mux.Link.Ledger.{
  payload_of, wire_bytes, amount_of, sum, Fits, Grants, Inv, written_since-bytes,
  written_since-same, decoded-grant, decoded-data, after_data-own,
}

module _ (l : Link) (h : Inv l) where
  -- What a round has written is one piece, which decodes to what it has taken from its input.
  pub sent-chunk :
      (input rest : List ℕ) (n : ℕ) (k : Conn)
      → Moves input l.tx (write_again n rest k)
      → All (Fits l.rx.ch.local_id) (written_since l.tx k)
        × (wire_bytes (written_since l.tx k) ≡ sent_part input rest)
  sent-chunk input rest n k (whole, allowed, win, written, limit, same) =
      let chunk = sent_part input rest in
      let m : DataMessage = record {
        channel_id = l.tx.ch.remote_id;
        length_field = u32 (length chunk);
        payload = chunk;
      } in
      let size : length chunk ≡ u32 (length chunk) = omega (arith, h.limit) in
      let piece = written_since-bytes (data_message m) l.tx k written in
      let back =
        decoded-data m (subst IsU32 (sym h.to_rx) h.ids_fit.0) (omega (arith, h.limit)) size in
      (
        subst (All (Fits l.rx.ch.local_id)) (sym piece)
            ((m, back, h.to_rx, sym size, omega (arith, h.limit)), tt),
        ap wire_bytes piece
            ∙ ap (λ (r : Result Message). payload_of r ++ []) back
            ∙ append-nil chunk,
      )

  -- What a Read has written grants what it has taken.
  pub read-grant :
      (got : List ℕ) (e : Option Error) (k : Conn)
      → length got < u32_mod
      → Acks l.rx (read_done got e k)
      → All (Grants l.tx.ch.local_id) (written_since l.rx k)
        × (sum (written_since l.rx k) ≡ length got)
  read-grant got e k small (inl (nothing, same), open_, live, ids) =
      let piece = written_since-same l.rx k same in
      (subst (All (Grants l.tx.ch.local_id)) (sym piece) tt, ap sum piece ∙ ap length (sym nothing))
  read-grant got e k small (inr (some_bytes, written), open_, live, ids) =
      let n = u32 (u32 (length got)) in
      let m : WindowAdjustMessage = record {
        channel_id = l.rx.ch.remote_id;
        additional_bytes = n;
      } in
      let piece = written_since-bytes (window_adjust_message m) l.rx k written in
      let back = decoded-grant m (subst IsU32 (sym h.to_tx) h.ids_fit.1) (omega arith) in
      (
        subst (All (Grants l.tx.ch.local_id)) (sym piece) ((m, back, h.to_tx), tt),
        ap sum piece ∙ ap (λ (r : Result Message). amount_of r + 0) back ∙ omega arith,
      )

  -- What handling the oldest data message does: it is taken without an error.
  abbrev pub Taken : DataMessage → Type 0
  Taken m =
      ((handle_data m l.rx.ch).0 ≡ none)
      × (contents (handle_data m l.rx.ch).1.pending ≡ contents l.rx.ch.pending ++ m.payload)
      × ((handle_data m l.rx.ch).1.my_window + length m.payload ≡ l.rx.ch.my_window)

  data-Taken :
      (m : DataMessage)
      → m.length_field ≡ length m.payload
      → length m.payload ≤ channel_max_packet
      → length m.payload ≤ l.rx.ch.my_window
      → Taken m
  data-Taken m right small within = elim (handle_data_exact m l.rx.ch (omega arith)) [
    | inl (a, b, c, n, p, s) ↦ (n, p, omega arith)
    | inr (inl wrong, b, c) ↦ absurd (wrong right)
    | inr (inr (inl big), b, c) ↦ absurd (omega (arith, h.accepts))
    | inr (inr (inr over), b, c) ↦ absurd (omega arith)
  ]

  -- The oldest piece is a data message that is taken.
  pub wire-Taken :
      (p : List ℕ) (ps : List (List ℕ))
      → l.wire ≡ p ∷ ps
      → (m : DataMessage) × (after_data p ps l ≡ taken_in m (record l { wire = ps }))
        × Taken m
        × (wire_bytes l.wire ≡ m.payload ++ wire_bytes ps)
  wire-Taken p ps e =
      let (m, back, own, right, small) = (subst (All (Fits l.rx.ch.local_id)) e h.fits).0 in
      let bytes =
        ap wire_bytes e ∙ ap (λ (r : Result Message). payload_of r ++ wire_bytes ps) back in
      (
        m,
        after_data-own p ps l m back own,
        data-Taken m right small
            (omega (arith, ap length bytes, length-append m.payload (wire_bytes ps), h.credit)),
        bytes,
      )

  -- No adjustment on its way makes the window overflow.
  pub ack-added :
      (n rest : ℕ)
      → sum l.acks ≡ n + rest
      → Window.add n l.tx.ch.remote_win
        ≡ (record l.tx.ch.remote_win { win = l.tx.ch.remote_win.win + n }, true)
  ack-added n rest all =
      elim (add_exact n l.tx.ch.remote_win (omega (arith, all, h.credit, h.balanced))
        (omega (arith, h.credit, h.balanced))) [
          | inl (fits, added) ↦ added
          | inr (over, kept) ↦ absurd (omega (arith, all, h.credit, h.balanced))
        ]
