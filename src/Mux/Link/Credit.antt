-- ===== src/Mux/Link/Credit.antt =====
-- What holds of the two ends in every reachable state.
use mathlib.Core.Path.{ap₂, subst}
use qtalk_go.Base.{
  IsU32, Result, ℕ, ◌+◌, ◌<◌, ◌≡◌, sym, ap, ◌∙◌, arith, Bool, List, ◌∷◌, ◌++◌, Option, Error,
  u32_mod, All, All-append, length, append_assoc, length-append,
}
use qtalk_go.Frame.Message.{Message}
use qtalk_go.Mux.Window.{Window}
use qtalk_go.Mux.Buffer.Queue.{contents}
use qtalk_go.Mux.Channel.{Conn, write_again, write_waits, read_done, read_waits}
use qtalk_go.Mux.Channel.FlowControl.{Drains, read-Drains}
use qtalk_go.Mux.Link.{
  Link, first_error, sent_part, written_since, after_send, after_read, after_data, update_error,
  after_adjust, Step, sends, resumes, waits, delivers, reads, blocks, adjusts, IsOpened, Reach,
  start, next,
}
use qtalk_go.Mux.Link.Rounds.{Moves, write_wake-Moves, write_round-Moves, Acks, read-Acks}
use qtalk_go.Mux.Link.Ledger.{
  wire_bytes, amount_of, sum, Fits, Grants, Inv, wire_bytes-append, sum-append, after_adjust-own,
  handle_data-fields,
}
use qtalk_go.Mux.Link.Pieces.{sent-chunk, read-grant, wire-Taken, ack-added}

module _ (l : Link) (h : Inv l) where
  Inv-send :
      (input rest : List ℕ) (n : ℕ) (k : Conn)
      → Moves input l.tx (write_again n rest k)
      → Inv (after_send (sent_part input rest) k l)
  Inv-send input rest n k m =
      let (whole, allowed, win, written, limit, same) = m in
      let chunk = sent_part input rest in
      let (new, payload) = sent-chunk l h input rest n k m in
      let bytes =
        wire_bytes-append l.wire (written_since l.tx k) ∙ ap (◌++◌ (wire_bytes l.wire)) payload in
      record {
        credit = omega (arith, ap length bytes, length-append (wire_bytes l.wire) chunk, h.credit);
        balanced = h.balanced;
        fits = All-append (Fits l.rx.ch.local_id) l.wire (written_since l.tx k) h.fits new;
        grants = subst (λ (id : ℕ). All (Grants id) l.acks) (sym same.0) h.grants;
        limit = limit ∙ h.limit;
        accepts = h.accepts;
        order =
            ap (λ (x : List ℕ). l.taken ++ (contents l.rx.ch.pending ++ x)) bytes
            ∙ ap (λ (x : List ℕ). l.taken ++ x)
                (sym (append_assoc (contents l.rx.ch.pending) (wire_bytes l.wire) chunk))
            ∙ sym (append_assoc l.taken (contents l.rx.ch.pending ++ wire_bytes l.wire) chunk)
            ∙ ap (λ (x : List ℕ). x ++ chunk) h.order;
        sound = h.sound;
        to_rx = same.1 ∙ h.to_rx;
        to_tx = h.to_tx ∙ sym same.0;
        ids_fit = (h.ids_fit.0, subst IsU32 (sym same.0) h.ids_fit.1);
        open_ = h.open_;
        live = h.live;
      }

  Inv-wait :
      (input rest : List ℕ) (n : ℕ) (k : Conn)
      → Moves input l.tx (write_waits n rest k)
      → Inv (record l { tx = k })
  Inv-wait input rest n k (win, limit, empty, same) = record {
    credit = omega (arith, h.credit);
    balanced = h.balanced;
    fits = h.fits;
    grants = subst (λ (id : ℕ). All (Grants id) l.acks) (sym same.0) h.grants;
    limit = limit ∙ h.limit;
    accepts = h.accepts;
    order = h.order;
    sound = h.sound;
    to_rx = same.1 ∙ h.to_rx;
    to_tx = h.to_tx ∙ sym same.0;
    ids_fit = (h.ids_fit.0, subst IsU32 (sym same.0) h.ids_fit.1);
    open_ = h.open_;
    live = h.live;
  }

  Inv-read :
      (room : ℕ) (got : List ℕ) (e : Option Error) (k : Conn)
      → Drains room l.rx (read_done got e k)
      → Acks l.rx (read_done got e k)
      → Inv (after_read got k l)
  Inv-read room got e k (whole, few, win, accepts) acks =
      let (written, open_, live, same) = acks in
      let size = ap length whole in
      let split = length-append got (contents k.ch.pending) in
      let small : length got < u32_mod = omega (arith, size, split, h.balanced) in
      let (new, amount) = read-grant l h got e k small acks in
      record {
        credit = omega (arith, sum-append l.acks (written_since l.rx k), amount, win, h.credit);
        balanced = omega (arith, size, split, h.balanced);
        fits = subst (λ (id : ℕ). All (Fits id) l.wire) (sym same.0) h.fits;
        grants = All-append (Grants l.tx.ch.local_id) l.acks (written_since l.rx k) h.grants new;
        limit = h.limit;
        accepts = accepts ∙ h.accepts;
        to_rx = h.to_rx ∙ sym same.0;
        to_tx = same.1 ∙ h.to_tx;
        ids_fit = (subst IsU32 (sym same.0) h.ids_fit.0, h.ids_fit.1);
        order =
            append_assoc l.taken got (contents k.ch.pending ++ wire_bytes l.wire)
            ∙ ap (λ (x : List ℕ). l.taken ++ x)
                (sym (append_assoc got (contents k.ch.pending) (wire_bytes l.wire)))
            ∙ ap (λ (x : List ℕ). l.taken ++ (x ++ wire_bytes l.wire)) whole
            ∙ h.order;
        sound = h.sound;
        open_ = open_;
        live = live;
      }

  Inv-block :
      (room : ℕ) (k : Conn)
      → Drains room l.rx (read_waits k)
      → Acks l.rx (read_waits k)
      → Inv (record l { rx = k })
  Inv-block room k (same, win, accepts) (written, open_, live, ids) = record {
    credit = omega (arith, h.credit);
    balanced = omega (arith, ap length same, h.balanced);
    fits = subst (λ (id : ℕ). All (Fits id) l.wire) (sym ids.0) h.fits;
    grants = h.grants;
    limit = h.limit;
    accepts = accepts ∙ h.accepts;
    to_rx = h.to_rx ∙ sym ids.0;
    to_tx = ids.1 ∙ h.to_tx;
    ids_fit = (subst IsU32 (sym ids.0) h.ids_fit.0, h.ids_fit.1);
    order = ap (λ (x : List ℕ). l.taken ++ (x ++ wire_bytes l.wire)) same ∙ h.order;
    sound = h.sound;
    open_ = open_;
    live = live;
  }

  Inv-deliver : (p : List ℕ) (ps : List (List ℕ)) → l.wire ≡ p ∷ ps → Inv (after_data p ps l)
  Inv-deliver q ps e =
      let (m, result, (n, p, s), bytes) = wire-Taken l h q ps e in
      let (accepts, open_, id, to) = handle_data-fields m l.rx.ch in
      let size = ap length bytes in
      let split = length-append m.payload (wire_bytes ps) in
      let more = length-append (contents l.rx.ch.pending) m.payload in
      subst Inv (sym result) (record {
        credit = omega (arith, size, split, s, h.credit);
        balanced = omega (arith, ap length p, more, s, h.balanced);
        fits =
            subst (λ (i : ℕ). All (Fits i) ps) (sym id)
              (subst (All (Fits l.rx.ch.local_id)) e h.fits).1;
        grants = h.grants;
        limit = h.limit;
        accepts = accepts ∙ h.accepts;
        order =
            ap (λ (x : List ℕ). l.taken ++ (x ++ wire_bytes ps)) p
            ∙ ap (λ (x : List ℕ). l.taken ++ x)
                (append_assoc (contents l.rx.ch.pending) m.payload (wire_bytes ps))
            ∙ ap (λ (w : List ℕ). l.taken ++ (contents l.rx.ch.pending ++ w)) (sym bytes)
            ∙ h.order;
        sound = ap₂ first_error h.sound n;
        to_rx = h.to_rx ∙ sym id;
        to_tx = to ∙ h.to_tx;
        ids_fit = (subst IsU32 (sym id) h.ids_fit.0, h.ids_fit.1);
        open_ = open_ ∙ h.open_;
        live = h.live;
      })

  Inv-adjust : (p : List ℕ) (ps : List (List ℕ)) → l.acks ≡ p ∷ ps → Inv (after_adjust p ps l)
  Inv-adjust p ps e =
      let (m, back, own) = (subst (All (Grants l.tx.ch.local_id)) e h.grants).0 in
      let all = ap sum e ∙ ap (λ (r : Result Message). amount_of r + sum ps) back in
      let added = ack-added l h m.additional_bytes (sum ps) all in
      let win = ap (λ (p : Window × Bool). p.0.win) added in
      subst Inv (sym (after_adjust-own p ps l m back own)) (record {
        credit = omega (arith, win, all, h.credit);
        balanced = h.balanced;
        fits = h.fits;
        grants = (subst (All (Grants l.tx.ch.local_id)) e h.grants).1;
        limit = h.limit;
        accepts = h.accepts;
        order = h.order;
        sound =
            ap₂ first_error h.sound
              (ap (λ (p : Window × Bool). update_error m.additional_bytes p.1) added);
        to_rx = h.to_rx;
        to_tx = h.to_tx;
        ids_fit = h.ids_fit;
        open_ = h.open_;
        live = h.live;
      })

pub Step-Inv : {l l' : Link} → Step l l' → Inv l → Inv l'
Step-Inv {l} (sends n n' input rest k p s e) h =
    Inv-send l h input rest n' k (subst (Moves input l.tx) e (write_round-Moves n input l.tx))
Step-Inv {l} (resumes n n' input rest k p s e) h =
    Inv-send l h input rest n' k (subst (Moves input l.tx) e (write_wake-Moves n input l.tx))
Step-Inv {l} (waits n n' input rest k p s e) h =
    Inv-wait l h input rest n' k (subst (Moves input l.tx) e (write_round-Moves n input l.tx))
Step-Inv {l} (delivers p ps e) h = Inv-deliver l h p ps e
Step-Inv {l} (reads room got e k r) h =
    Inv-read l h room got e k (subst (Drains room l.rx) r (read-Drains room l.rx h.balanced))
      (subst (Acks l.rx) r (read-Acks room l.rx h.open_ h.live))
Step-Inv {l} (blocks room k r) h =
    Inv-block l h room k (subst (Drains room l.rx) r (read-Drains room l.rx h.balanced))
      (subst (Acks l.rx) r (read-Acks room l.rx h.open_ h.live))
Step-Inv {l} (adjusts p ps e) h = Inv-adjust l h p ps e

IsOpened-Inv : (l : Link) → IsOpened l → Inv l
IsOpened-Inv l o =
    let (wire, acks, given, taken) = o.quiet in
    let none_on = ap (λ (w : List (List ℕ)). length (wire_bytes w)) wire in
    record {
      credit = omega (arith, none_on, ap sum acks, o.window, o.my_window);
      balanced = omega (arith, ap length o.empty, o.my_window);
      fits = subst (All (Fits l.rx.ch.local_id)) (sym wire) tt;
      grants = subst (All (Grants l.tx.ch.local_id)) (sym acks) tt;
      to_rx = o.ids.0;
      to_tx = o.ids.1;
      ids_fit = o.ids_fit;
      limit = o.limit;
      accepts = o.accepts;
      order =
          ap₂ (λ (x y : List ℕ). x ++ y) taken
            (ap₂ (λ (x y : List ℕ). x ++ y) o.empty (ap wire_bytes wire))
          ∙ sym given;
      sound = o.sound;
      open_ = o.live.0;
      live = o.live.1;
    }

pub Reach-Inv : {l : Link} → Reach l → Inv l
Reach-Inv {l} (start o) = IsOpened-Inv l o
Reach-Inv (next r st) = Step-Inv st (Reach-Inv r)
