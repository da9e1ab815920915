-- ===== src/Mux/Link/Pipe.antt =====
-- The two ends as one pipe: a queue of bytes, first in and first out, with room for the initial
-- window, what the writer may still send, and what the reader has taken and still owes to the writer.
use mathlib.Core.Path.{subst}
use qtalk_go.Base.{
  Bool, Result, ℕ, ◌+◌, ◌≤◌, ◌≡◌, sym, ap, ◌∙◌, arith, List, [], ◌∷◌, ◌++◌, Option, none, Error,
  length, append_assoc, length-append, ◌<◌, u32_mod, All,
}
use qtalk_go.Frame.Message.{Message}
use qtalk_go.Mux.Window.{Window}
use qtalk_go.Mux.Buffer.Queue.{contents}
use qtalk_go.Mux.Channel.{
  Conn, channel_window_size, write_round, write_again, write_waits, read_done, read_waits,
}
use qtalk_go.Mux.Channel.FlowControl.{Drains, read-Drains}
use qtalk_go.Mux.Link.{
  Link, sent_part, written_since, after_send, after_read, after_data, after_adjust, Step, sends,
  resumes, waits, delivers, reads, blocks, adjusts, Reach,
}
use qtalk_go.Mux.Link.Rounds.{Moves, write_wake-Moves, write_round-Moves, Acks, read-Acks}
use qtalk_go.Mux.Link.Ledger.{
  wire_bytes, amount_of, sum, sum-append, Fits, Grants, wire_bytes-append, after_adjust-own, Inv,
}
use qtalk_go.Mux.Link.Pieces.{sent-chunk, read-grant, ack-added, wire-Taken}
use qtalk_go.Mux.Link.Credit.{Step-Inv, Reach-Inv}

pub record Pipe : Type 0 where
  pub queue : List ℕ
  pub given : List ℕ
  pub taken : List ℕ
  pub free : ℕ
  pub owed : ℕ

abbrev pub pushed : List ℕ → ℕ → Pipe → Pipe
pushed xs f p = record p { queue = p.queue ++ xs; given = p.given ++ xs; free = f }

abbrev pub popped : List ℕ → List ℕ → Pipe → Pipe
popped xs q p = record p { queue = q; taken = p.taken ++ xs; owed = p.owed + length xs }

pub data PipeStep (p : Pipe) : Pipe → Type 0 where
  push :
      (xs : List ℕ) (f : ℕ)
      → f + length xs ≡ p.free
      → length (p.queue ++ xs) ≤ channel_window_size
      → PipeStep p (pushed xs f p)
  pop : (xs q : List ℕ) → p.queue ≡ xs ++ q → PipeStep p (popped xs q p)
  pay : (n o : ℕ) → p.owed ≡ n + o → PipeStep p (record p { free = p.free + n; owed = o })
  stay : PipeStep p p

-- The queue is what waits to be read and then what is on its way.
abbrev pub view : Link → Pipe
view l = record {
  queue = contents l.rx.ch.pending ++ wire_bytes l.wire;
  given = l.given;
  taken = l.taken;
  free = l.tx.ch.remote_win.win;
  owed = sum l.acks;
}

abbrev queued : List ℕ → Link → Pipe
queued q l = record (view l) { queue = q }

-- In every reachable state no step has met an error, what was taken and what is queued is what was
-- given, in order, no more is queued than the initial window, and what is queued, what the writer may
-- send and what is granted on the way make up the initial window.
pub Reach-Delivers :
    {l : Link}
    → Reach l
    → (l.fault ≡ none)
      × (l.taken ++ (view l).queue ≡ l.given)
      × (length (view l).queue ≤ channel_window_size)
      × ((view l).free + (length (view l).queue + (view l).owed) ≡ channel_window_size)
Reach-Delivers {l} r =
    let h = Reach-Inv r in
    (
      h.sound,
      h.order,
      omega (
        arith,
        length-append (contents l.rx.ch.pending) (wire_bytes l.wire),
        h.credit,
        h.balanced,
      ),
      omega (
        arith,
        length-append (contents l.rx.ch.pending) (wire_bytes l.wire),
        h.credit,
        h.balanced,
      ),
    )

module _ (l : Link) (h : Inv l) where
  sent-Refines :
      (input rest : List ℕ) (n : ℕ) (k : Conn)
      → Moves input l.tx (write_again n rest k)
      → Inv (after_send (sent_part input rest) k l)
      → PipeStep (view l) (view (after_send (sent_part input rest) k l))
  sent-Refines input rest n k m h' =
      let chunk = sent_part input rest in
      let same =
        ap (λ (x : List ℕ). contents l.rx.ch.pending ++ x)
          (wire_bytes-append l.wire (written_since l.tx k)
            ∙ ap (◌++◌ (wire_bytes l.wire)) (sent-chunk l h input rest n k m).1)
        ∙ sym (append_assoc (contents l.rx.ch.pending) (wire_bytes l.wire) chunk) in
      let room : length ((view l).queue ++ chunk) ≤ channel_window_size = omega (
        arith,
        sym (ap length same),
        length-append (contents l.rx.ch.pending) (wire_bytes (after_send chunk k l).wire),
        h'.credit,
        h'.balanced,
      ) in
      subst (λ (q : List ℕ). PipeStep (view l) (queued q (after_send chunk k l))) (sym same)
        (push chunk k.ch.remote_win.win m.2 room)

  delivered-Refines :
      (p : List ℕ) (ps : List (List ℕ))
      → l.wire ≡ p ∷ ps
      → PipeStep (view l) (view (after_data p ps l))
  delivered-Refines p ps e =
      let (m, result, (n, pending, s), bytes) = wire-Taken l h p ps e in
      let same =
        ap (λ (x : List ℕ). x ++ wire_bytes ps) pending
        ∙ append_assoc (contents l.rx.ch.pending) m.payload (wire_bytes ps)
        ∙ ap (λ (w : List ℕ). contents l.rx.ch.pending ++ w) (sym bytes) in
      subst (λ (l' : Link). PipeStep (view l) (view l')) (sym result)
        (subst (λ (q : List ℕ). PipeStep (view l) (queued q l)) (sym same) stay)

  adjusted-Refines :
      (p : List ℕ) (ps : List (List ℕ))
      → l.acks ≡ p ∷ ps
      → PipeStep (view l) (view (after_adjust p ps l))
  adjusted-Refines p ps e =
      let (m, back, own) = (subst (All (Grants l.tx.ch.local_id)) e h.grants).0 in
      let all = ap sum e ∙ ap (λ (r : Result Message). amount_of r + sum ps) back in
      let added = ack-added l h m.additional_bytes (sum ps) all in
      let win = ap (λ (w : Window × Bool). w.0.win) added in
      subst (λ (l' : Link). PipeStep (view l) (view l')) (sym (after_adjust-own p ps l m back own))
        (subst (λ (f : ℕ). PipeStep (view l) (record (view l) { free = f; owed = sum ps }))
          (sym win) (pay m.additional_bytes (sum ps) all))

  waiting-Refines :
      (input rest : List ℕ) (n : ℕ) (k : Conn)
      → Moves input l.tx (write_waits n rest k)
      → PipeStep (view l) (view (record l { tx = k }))
  waiting-Refines input rest n k (win, limit, empty, ids) =
      subst (λ (f : ℕ). PipeStep (view l) (record (view l) { free = f })) (sym win) stay

  read-Refines :
      (room : ℕ) (got : List ℕ) (e : Option Error) (k : Conn)
      → Drains room l.rx (read_done got e k)
      → Acks l.rx (read_done got e k)
      → PipeStep (view l) (view (after_read got k l))
  read-Refines room got e k (whole, few, win, accepts) acks =
      let size = ap length whole in
      let split = length-append got (contents k.ch.pending) in
      let small : length got < u32_mod = omega (arith, size, split, h.balanced) in
      let (new, amount) = read-grant l h got e k small acks in
      let owed : sum (l.acks ++ written_since l.rx k) ≡ sum l.acks + length got =
        omega (arith, sum-append l.acks (written_since l.rx k), amount) in
      subst (λ (o : ℕ). PipeStep (view l) (record (view (after_read got k l)) { owed = o }))
        (sym owed)
        (pop got (contents k.ch.pending ++ wire_bytes l.wire) (
          ap (λ (x : List ℕ). x ++ wire_bytes l.wire) (sym whole)
          ∙ append_assoc got (contents k.ch.pending) (wire_bytes l.wire)))

  blocked-Refines :
      (room : ℕ) (k : Conn)
      → Drains room l.rx (read_waits k)
      → PipeStep (view l) (view (record l { rx = k }))
  blocked-Refines room k (same, win, accepts) =
      subst (λ (x : List ℕ). PipeStep (view l) (queued (x ++ wire_bytes l.wire) l)) (sym same) stay

-- Every step of the two ends, in a reachable state, is a step of the pipe: a round of Write pushes
-- what it takes from its input, there is room for it, and it goes off what the writer may send; a Read
-- pops what it returns from the front, and owes it to the writer; an adjustment pays what it says; all
-- other steps leave the pipe as it is.
pub Step-Refines : {l l' : Link} → Reach l → Step l l' → PipeStep (view l) (view l')
Step-Refines {l} r (sends n n' input rest k p s e) =
    sent-Refines l (Reach-Inv r) input rest n' k
      (subst (Moves input l.tx) e (write_round-Moves n input l.tx))
      (Step-Inv (sends n n' input rest k p s e) (Reach-Inv r))
Step-Refines {l} r (resumes n n' input rest k p s e) =
    sent-Refines l (Reach-Inv r) input rest n' k
      (subst (Moves input l.tx) e (write_wake-Moves n input l.tx))
      (Step-Inv (resumes n n' input rest k p s e) (Reach-Inv r))
Step-Refines {l} r (waits n n' input rest k p s e) =
    waiting-Refines l (Reach-Inv r) input rest n' k
      (subst (Moves input l.tx) e (write_round-Moves n input l.tx))
Step-Refines {l} r (delivers p ps e) = delivered-Refines l (Reach-Inv r) p ps e
Step-Refines {l} r (reads room got e k d) =
    read-Refines l (Reach-Inv r) room got e k
      (subst (Drains room l.rx) d (read-Drains room l.rx (Reach-Inv r).balanced))
      (subst (Acks l.rx) d (read-Acks room l.rx (Reach-Inv r).open_ (Reach-Inv r).live))
Step-Refines {l} r (blocks room k d) =
    blocked-Refines l (Reach-Inv r) room k
      (subst (Drains room l.rx) d (read-Drains room l.rx (Reach-Inv r).balanced))
Step-Refines {l} r (adjusts p ps e) = adjusted-Refines l (Reach-Inv r) p ps e

-- No credit is lost: in every reachable state the window of the writer, the data and the adjustments
-- on their way and what waits to be read make up the initial window.
pub Reach-Conserves :
    {l : Link}
    → Reach l
    → l.tx.ch.remote_win.win
        + length (wire_bytes l.wire)
        + sum l.acks
        + length (contents l.rx.ch.pending)
      ≡ channel_window_size
Reach-Conserves {l} r = let h = Reach-Inv r in omega (arith, h.credit, h.balanced)

-- Nothing overflows: in every reachable state the window of the writer, the data and the adjustments
-- that were written and not decoded yet and what waits to be read make up the initial window, which a
-- uint32 holds, and the window of the reader is within it. Each piece that the encoder of the writer
-- wrote decodes to a data message for the channel of the reader, with its length in its length field
-- and within the packet size; each piece of the other encoder to an adjustment for the channel of the
-- writer.
pub Reach-Bounded :
    {l : Link}
    → Reach l
    → (l.tx.ch.remote_win.win
          + length (wire_bytes l.wire)
          + sum l.acks
          + length (contents l.rx.ch.pending)
        ≡ channel_window_size)
      × (channel_window_size < u32_mod)
      × (l.rx.ch.my_window ≤ channel_window_size)
      × All (Fits l.rx.ch.local_id) l.wire
      × All (Grants l.tx.ch.local_id) l.acks
Reach-Bounded {l} r =
    let h = Reach-Inv r in
    (Reach-Conserves r, omega arith, omega (arith, h.credit, h.balanced), h.fits, h.grants)

-- No credit is lost: where a Write waits for the window in a reachable state, and nothing is on its
-- way in either direction, the reader has a whole window of bytes to read.
pub waits-Full :
    {l : Link} (n n' : ℕ) (input rest : List ℕ) (k : Conn)
    → Reach l
    → write_round n input l.tx ≡ write_waits n' rest k
    → l.wire ≡ []
    → l.acks ≡ []
    → length (contents l.rx.ch.pending) ≡ channel_window_size
waits-Full {l} n n' input rest k r e wire acks =
    let h = Reach-Inv r in
    let (same, limit, empty, ids) = subst (Moves input l.tx) e (write_round-Moves n input l.tx) in
    omega (
      arith,
      ap (λ (w : List (List ℕ)). length (wire_bytes w)) wire,
      ap sum acks,
      h.credit,
      h.balanced,
      empty,
    )
