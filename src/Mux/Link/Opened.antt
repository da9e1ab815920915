-- ===== src/Mux/Link/Opened.antt =====
-- The handshake of two sessions for a channel (mux/session.go): Open up to its select, the loop of the
-- other session with the bytes that Open has written, the loop of this one with the bytes of the
-- answer. It leaves the two ends of the channel opened, in both directions.
use qtalk_go.Base.{
  ℕ, ◌≡◌, refl, sym, ap, ◌∙◌, arith, Bool, true, false, List, [], ◌∷◌, ◌++◌, Option, none, some,
  Error, eof, IsU32, u32, ◌-◌, length, drop, set, get_elem?, ==_iff, if◌then◌else◌, append-nil,
  drop-append, length-append, length-set, get_elem?-set_self,
}
use qtalk_go.Frame.Message.{
  Message, OpenMessage, OpenConfirmMessage, open_message, open_confirm_message, bytes, channel,
  IsWellFormed,
}
use qtalk_go.Frame.Encoder.{Writer, encode}
use qtalk_go.Frame.RoundTrip.{decode-bytes}
use qtalk_go.Mux.ChanList
use qtalk_go.Mux.ChanList.{ChanList, get_chan}
use qtalk_go.Mux.ChanList.Slots.{HasRoom, get_chan-add}
use qtalk_go.Mux.Window
use qtalk_go.Mux.Buffer
use qtalk_go.Mux.Channel.{
  Channel, channel_inbound, channel_outbound, channel_max_packet, channel_window_size,
  response_message_received,
}
use qtalk_go.Mux.Session.{
  Session, Handled, handled, put, fresh, inbound, confirmed, new_channel, handle_open, handle,
  dispatch, received, one_packet,
}
use qtalk_go.Mux.Session.Calls.{open_start, open_finish, opened}
use qtalk_go.Mux.Link.{Link, IsOpened}

-- The session `t` with what the encoder of the other has written to read.
abbrev pub hands : Session → Session → Session → Session
hands s s' t = record t {
  dec = record { rest = drop (length s.enc.written) s'.enc.written; fault = eof };
}

abbrev pub answered : Session → Handled → Option (Session × Session)
answered t (handled none s) = some (s, t)
answered t h = none

abbrev pub asked : Session → Session → Handled → Option (Session × Session)
asked t s (handled none t') = answered t' (one_packet true (hands t t' s))
asked t s h = none

-- The two sessions behind it, where both loops have handled their packet without an error.
unfoldable pub handshake : Session → Session → Option (Session × Session)
unfolding open_start one_packet
handshake s t = let (p, e, s') = open_start s in asked t s' (one_packet true (hands s s' t))

abbrev pub link : Channel → Writer → Channel → Writer → Link
link c w d v = record {
  tx = record { ch = c; enc = w };
  rx = record { ch = d; enc = v };
  wire = [];
  acks = [];
  given = [];
  taken = [];
  fault = none;
}

add-IsU32 : (p : ℕ) (c : ChanList ℕ) → IsU32 (ChanList.add p c).1
unfolding ChanList.add
add-IsU32 p c = go (ChanList.first_free c.chans)
  where
    go :
        (o : Option ℕ)
        → IsU32
            (elim o as (λ r. ChanList ℕ × ℕ) [
              | some i ↦ (record { chans = set c.chans i (some p) }, u32 i)
              | none ↦ (
                record { chans = c.chans ++ (some p ∷ []) },
                u32 (length (c.chans ++ (some p ∷ [])) - 1),
              )
            ]).1
    go none = omega arith
    go (some i) = omega arith

-- What a session hands to another that has written one message more.
hands-bytes :
    (s s' t : Session) (m : Message)
    → s'.enc.written ≡ s.enc.written ++ bytes m
    → hands s s' t ≡ record t { dec = record { rest = bytes m ++ []; fault = eof } }
hands-bytes s s' t m e =
    ap
      (λ (w : List ℕ). record t {
        dec = record { rest = drop (length s.enc.written) w; fault = eof };
      })
      e
    ∙ ap (λ (w : List ℕ). record t { dec = record { rest = w; fault = eof } })
        (drop-append s.enc.written (bytes m) ∙ sym (append-nil (bytes m)))

-- The loop handles that message.
one_packet-bytes :
    (s s' t : Session) (m : Message)
    → s'.enc.written ≡ s.enc.written ++ bytes m
    → IsWellFormed m
    → one_packet true (hands s s' t)
      ≡ dispatch true m (record t { dec = record { rest = []; fault = eof } })
unfolding one_packet
one_packet-bytes s s' t m e h =
    ap (one_packet true) (hands-bytes s s' t m e)
    ∙ ap (received true (record t { dec = record { rest = bytes m ++ []; fault = eof } }))
        (decode-bytes m [] eof h)

-- The side that opens.
module _ (s : Session) where
  abbrev pub id_of : ℕ
  id_of = (ChanList.add (length s.heap) s.chans).1

  abbrev asking : OpenMessage
  asking = record {
    window_size = channel_window_size;
    max_packet_size = channel_max_packet;
    sender_id = id_of;
  }

  abbrev opening : Channel
  opening = record (fresh channel_outbound id_of) { max_incoming_payload = channel_max_packet }

  abbrev started : Session
  started = put (length s.heap) opening (record s {
    chans = (ChanList.add (length s.heap) s.chans).0;
    heap = s.heap ++ fresh channel_outbound id_of ∷ [];
    enc = record { written = s.enc.written ++ bytes (open_message asking); fault = none };
  })

  open_start-asks : s.enc.fault ≡ none → open_start s ≡ (length s.heap, none, started)
  unfolding open_start new_channel encode
  open_start-asks live = simp live

-- The other side.
module _ (om : OpenMessage) (t : Session) where
  abbrev confirmation : OpenConfirmMessage
  confirmation = record {
    channel_id = om.sender_id;
    sender_id = id_of t;
    window_size = channel_window_size;
    max_packet_size = channel_max_packet;
  }

  abbrev offering : Session
  offering = put (length t.heap) (inbound om (id_of t)) (record t {
    chans = (ChanList.add (length t.heap) t.chans).0;
    heap = t.heap ++ fresh channel_inbound (id_of t) ∷ [];
    dec = record { rest = []; fault = eof };
    inbox = t.inbox ++ length t.heap ∷ [];
    enc = record {
      written = t.enc.written ++ bytes (open_confirm_message confirmation);
      fault = none;
    };
  })

  handle_open-confirms :
      t.enc.fault ≡ none
      → om.max_packet_size ≡ channel_max_packet
      → dispatch true (open_message om) (record t { dec = record { rest = []; fault = eof } })
        ≡ handled none offering
  unfolding dispatch handle_open new_channel encode Buffer.new_buffer Window.add
  handle_open-confirms live size = simp (live, size)

added-listed :
    (s : Session)
    → HasRoom s.chans
    → get_chan (id_of s) (ChanList.add (length s.heap) s.chans).0 ≡ some (length s.heap)
added-listed s room =
    (get_chan-add (length s.heap) s.chans room).1 (id_of s)
    ∙ ap (λ (b : Bool). if b then some (length s.heap) else get_chan (id_of s) s.chans)
        ((==_iff (id_of s) (id_of s)).1 refl)

put-stored :
    (cs : List Channel) (x c : Channel)
    → get_elem? (set (cs ++ x ∷ []) (length cs) c) (length cs) ≡ some c
put-stored cs x c =
    get_elem?-set_self (cs ++ x ∷ []) (length cs) c (omega (arith, length-append cs (x ∷ [])))

-- The answer, on the side that opens.
module _ (cm : OpenConfirmMessage) (s : Session) where
  abbrev confirmed_end : Channel
  confirmed_end = record (confirmed cm (opening s)) {
    msg = record { queued = open_confirm_message cm ∷ []; closed = false };
  }

  open_confirm-kept :
      HasRoom s.chans
      → cm.channel_id ≡ id_of s
      → cm.max_packet_size ≡ channel_max_packet
      → dispatch true
          (open_confirm_message cm)
          (record (started s) { dec = record { rest = []; fault = eof } })
        ≡ handled none (
            put
              (length s.heap)
              confirmed_end
              (record (started s) { dec = record { rest = []; fault = eof } }))
  unfolding dispatch handle channel response_message_received Window.add Buffer.new_buffer
  open_confirm-kept room own size =
      let found = added-listed s room in
      let there = put-stored s.heap (fresh channel_outbound (id_of s)) (opening s) in
      simp (own, found, there, size)

-- What the handshake leaves: a channel in the store of either session, under its id, of which the one
-- is what Open returns and the other waits for Accept, and which are the two ends of an opened channel
-- whichever side writes.
pub record Joins (s t : Session) : Type 0 where
  pub opener : Session
  pub acceptor : Session
  pub c : Channel
  pub d : Channel
  pub ends : handshake s t ≡ some (opener, acceptor)
  pub c_stored : get_elem? opener.heap (length s.heap) ≡ some c
  pub c_listed : get_chan c.local_id opener.chans ≡ some (length s.heap)
  pub c_opened : (open_finish false (length s.heap) c opener).0 ≡ opened (length s.heap)
  pub d_stored : get_elem? acceptor.heap (length t.heap) ≡ some d
  pub d_listed : get_chan d.local_id acceptor.chans ≡ some (length t.heap)
  pub d_offered : acceptor.inbox ≡ t.inbox ++ length t.heap ∷ []
  pub forth : IsOpened (link c opener.enc d acceptor.enc)
  pub back : IsOpened (link d acceptor.enc c opener.enc)

-- Where both sessions have room for one more id and both transports can be written to: Open sends its
-- message, the other session takes the channel and confirms it, the confirmation lets Open return the
-- channel, and the two ends are opened in both directions.
pub link-IsOpened :
    (s t : Session)
    → HasRoom s.chans
    → HasRoom t.chans
    → s.enc.fault ≡ none
    → t.enc.fault ≡ none
    → Joins s t
unfolding handshake open_finish Window.add Buffer.new_buffer
link-IsOpened s t room_s room_t live_s live_t =
    let om = asking s in
    let cm = confirmation om t in
    let id_s = add-IsU32 (length s.heap) s.chans in
    let id_t = add-IsU32 (length t.heap) t.chans in
    let there =
      one_packet-bytes s (started s) t (open_message om) refl (id_s, omega arith, omega arith) in
    let back =
      one_packet-bytes t (offering om t) (started s) (open_confirm_message cm) refl
        (id_s, id_t, omega arith, omega arith) in
    record {
      opener =
          put (length s.heap) (confirmed_end cm s)
            (record (started s) { dec = record { rest = []; fault = eof } });
      acceptor = offering om t;
      c = confirmed_end cm s;
      d = inbound om (id_of t);
      ends =
          ap (λ (r : ℕ × Option Error × Session). asked t r.2 (one_packet true (hands s r.2 t)))
            (open_start-asks s live_s)
          ∙ ap (asked t (started s)) (there ∙ handle_open-confirms om t live_t refl)
          ∙ ap (answered (offering om t)) (back ∙ open_confirm-kept cm s room_s refl refl);
      c_stored = get_elem?-set_self _ (length s.heap) (confirmed_end cm s) (
          omega (
            arith,
            length-set (s.heap ++ fresh channel_outbound (id_of s) ∷ []) (length s.heap)
                (opening s),
            length-append s.heap (fresh channel_outbound (id_of s) ∷ []),
          ));
      c_listed = added-listed s room_s;
      c_opened = refl;
      d_stored = put-stored t.heap (fresh channel_inbound (id_of t)) (inbound om (id_of t));
      d_listed = added-listed t room_t;
      d_offered = refl;
      forth = record {
        window = refl;
        my_window = refl;
        limit = refl;
        accepts = refl;
        empty = refl;
        quiet = (refl, refl, refl, refl);
        sound = refl;
        ids = (refl, refl);
        ids_fit = (id_t, id_s);
        live = (refl, refl);
      };
      back = record {
        window = refl;
        my_window = refl;
        limit = refl;
        accepts = refl;
        empty = refl;
        quiet = (refl, refl, refl, refl);
        sound = refl;
        ids = (refl, refl);
        ids_fit = (id_s, id_t);
        live = (refl, refl);
      };
    }
