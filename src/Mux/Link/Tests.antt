-- ===== src/Mux/Link/Tests.antt =====
-- A run of two ends: a Write of three bytes arrives, is read and given back.
use qtalk_go.Base.{
  eof, some, ℕ, ◌+◌, ◌≤◌, ◌≡◌, refl, arith, false, List, [], ◌∷◌, ◌++◌, none, length, ◌<◌, All,
  u32_mod,
}
use qtalk_go.Frame.Message.{bytes, window_adjust_message}
use qtalk_go.Frame.Decoder.{decode}
use qtalk_go.Mux.Session.{Session, new_session, fresh}
use qtalk_go.Frame.Encoder.{Writer, encode}
use qtalk_go.Mux.Window
use qtalk_go.Mux.Window.{reserve_enter, reserve_wake}
use qtalk_go.Mux.Buffer
use qtalk_go.Mux.Buffer.Queue.{contents}
use qtalk_go.Mux.Channel
use qtalk_go.Mux.Channel.{
  Channel, Conn, channel_inbound, channel_outbound, channel_window_size, min_u32, write_round,
  write_again, read, read_done, handle_data, adjust_window, send, channel_max_packet,
}
use qtalk_go.Mux.Link.{
  Link, after_send, after_data, after_read, after_adjust, Step, sends, delivers, reads, adjusts,
  IsOpened, Reach, start, next,
}
use qtalk_go.Mux.Link.Ledger.{wire_bytes, sum, Fits, Grants}
use qtalk_go.Mux.Link.Pipe.{PipeStep, view, Reach-Delivers, Step-Refines, Reach-Bounded}
use qtalk_go.Mux.Link.Opened.{link, Joins, link-IsOpened}

abbrev writer : Writer
writer = record { written = []; fault = none }

abbrev letters : List ℕ
letters = b'a' ∷ b'b' ∷ b'c' ∷ []

-- Two sessions, the first of which has a channel already.
abbrev opener : Session
opener = record (new_session writer (record { rest = []; fault = eof })) {
  chans = record { chans = some 0 ∷ [] };
  heap = fresh channel_inbound 0 ∷ [];
}

abbrev acceptor : Session
acceptor = new_session writer (record { rest = []; fault = eof })

link-IsOpened_example : Joins opener acceptor
unfolding new_session
link-IsOpened_example = link-IsOpened opener acceptor (omega arith) (omega arith) refl refl

-- The two ends of a channel, as a handshake leaves them but for the mailbox.
abbrev outbound_end : Channel
outbound_end = record (fresh channel_outbound 4) {
  remote_id = 9;
  max_incoming_payload = channel_max_packet;
  max_remote_payload = channel_max_packet;
  remote_win = record { win = channel_window_size; write_waiters = 0; closed = false };
}

abbrev inbound_end : Channel
inbound_end = record (fresh channel_inbound 9) {
  remote_id = 4;
  max_incoming_payload = channel_max_packet;
  max_remote_payload = channel_max_packet;
  remote_win = record { win = channel_window_size; write_waiters = 0; closed = false };
}

abbrev opened_link : Link
opened_link = link outbound_end writer inbound_end writer

is_opened : IsOpened opened_link
unfolding Buffer.new_buffer
is_opened = record {
  window = refl;
  my_window = refl;
  limit = refl;
  accepts = refl;
  empty = refl;
  quiet = (refl, refl, refl, refl);
  sound = refl;
  ids = (refl, refl);
  ids_fit = (omega arith, omega arith);
  live = (refl, refl);
}

-- The writer behind its first round.
abbrev has_sent : Conn
has_sent = record {
  ch = record outbound_end {
    remote_win = record { win = 1073741821; write_waiters = 0; closed = false };
  };
  enc = (encode (Channel.data_frame 9 letters) writer).1;
}

abbrev sent_link : Link
sent_link = after_send letters has_sent opened_link

sent : Step opened_link sent_link
unfolding write_round reserve_enter reserve_wake min_u32 encode Window.add Buffer.new_buffer
sent = sends 0 3 letters [] has_sent (omega arith) (omega arith) refl

abbrev packet : List ℕ
packet = bytes (Channel.data_frame 9 letters)

abbrev arrived_link : Link
arrived_link = after_data packet [] sent_link

arrived : Step sent_link arrived_link
unfolding encode bytes
arrived = delivers packet [] refl

-- The reader behind a Read of two bytes.
abbrev has_read : Conn
has_read = record {
  ch = record inbound_end {
    my_window = 1073741823;
    pending = record { head = b'c' ∷ []; behind = []; closed = false };
  };
  enc = (encode (window_adjust_message (record { channel_id = 4; additional_bytes = 2 })) writer).1;
}

abbrev read_link : Link
read_link = after_read (b'a' ∷ b'b' ∷ []) has_read arrived_link

taken : Step arrived_link read_link
unfolding read Buffer.read Buffer.round adjust_window send encode Buffer.write handle_data
    Buffer.new_buffer after_data decode bytes
taken = reads 2 (b'a' ∷ b'b' ∷ []) none has_read refl

reached : Reach read_link
reached = next (next (next (start is_opened) sent) arrived) taken

abbrev adjustment : List ℕ
adjustment = bytes (window_adjust_message (record { channel_id = 4; additional_bytes = 2 }))

adjusted : Step read_link (after_adjust adjustment [] read_link)
unfolding encode bytes after_data decode handle_data Buffer.write
adjusted = adjusts adjustment [] refl

Reach-Delivers_example :
    (read_link.fault ≡ none)
    × (read_link.taken ++ (view read_link).queue ≡ read_link.given)
    × (length (view read_link).queue ≤ channel_window_size)
    × ((view read_link).free + (length (view read_link).queue + (view read_link).owed)
        ≡ channel_window_size)
Reach-Delivers_example = Reach-Delivers reached

Step-Refines_example : PipeStep (view read_link) (view (after_adjust adjustment [] read_link))
Step-Refines_example = Step-Refines reached adjusted

Reach-Bounded_example :
    (arrived_link.tx.ch.remote_win.win
        + length (wire_bytes arrived_link.wire)
        + sum arrived_link.acks
        + length (contents arrived_link.rx.ch.pending)
      ≡ channel_window_size)
    × (channel_window_size < u32_mod)
    × (arrived_link.rx.ch.my_window ≤ channel_window_size)
    × All (Fits arrived_link.rx.ch.local_id) arrived_link.wire
    × All (Grants arrived_link.tx.ch.local_id) arrived_link.acks
Reach-Bounded_example = Reach-Bounded (next (next (start is_opened) sent) arrived)
