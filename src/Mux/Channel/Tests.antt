-- ===== src/Mux/Channel/Tests.antt =====
-- Runs of a channel.
use qtalk_go.Base.{ℕ, false, List, [], ◌∷◌, none}
use qtalk_go.Mux.Channel.{Channel, Conn, channel_inbound, channel_max_packet}
use qtalk_go.Mux.Channel.Sending.{Writes}

abbrev channel : Channel
channel = record {
  local_id = 0;
  remote_id = 3;
  max_incoming_payload = channel_max_packet;
  max_remote_payload = 2;
  direction = channel_inbound;
  msg = record { queued = []; closed = false };
  sent_eof = false;
  remote_win = record { win = 5; write_waiters = 0; closed = false };
  pending = record { head = 1 ∷ 2 ∷ []; behind = []; closed = false };
  my_window = 1073741822;
  sent_close = false;
}

abbrev conn : Conn
conn = record { ch = channel; enc = record { written = []; fault = none } }

abbrev letters : List ℕ
letters = b'a' ∷ b'b' ∷ b'c' ∷ []
