-- ===== src/Mux/Proxy/Both/Tests.antt =====
-- A run of proxy between two channels whose peers have said their end.
use qtalk_go.Base.{none, ◌≢◌, refl, true, false, [], ◌∷◌}
use qtalk_go.Mux.Buffer
use qtalk_go.Mux.Channel.{write_round, Channel, Conn, channel_inbound, channel_max_packet}
use qtalk_go.Mux.Proxy.Both.{
  Joined, reading, finished, join, at_to_a, at_to_b, leg_step, close_both, Reach, here, next,
  copies_to_a, copies_to_b, closes,
}
use qtalk_go.Mux.Proxy.Both.Closing.{IsOrdered, Reach-IsOrdered}

-- Two bytes to read, and no more to come.
abbrev channel : Channel
channel = record {
  local_id = 0;
  remote_id = 3;
  max_incoming_payload = channel_max_packet;
  max_remote_payload = 9;
  direction = channel_inbound;
  msg = record { queued = []; closed = false };
  sent_eof = false;
  remote_win = record { win = 5; write_waiters = 0; closed = false };
  pending = record { head = 1 ∷ 2 ∷ []; behind = []; closed = true };
  my_window = 1073741822;
  sent_close = false;
}

abbrev conn : Conn
conn = record { ch = channel; enc = record { written = []; fault = none } }

abbrev to_a : Joined → Joined
to_a s = at_to_a s (leg_step s.to_a s.b s.a)

abbrev to_b : Joined → Joined
to_b s = at_to_b s (leg_step s.to_b s.a s.b)

-- The bytes in both directions, the two ends in the other order, and the close.
abbrev copied : Joined
copied = to_a (to_b (to_b (to_a (join conn conn))))

reading_is_not_finished : reading ≢ finished
reading_is_not_finished e = cc

run : Reach (join conn conn) (close_both copied)
unfolding leg_step close_both Buffer.round write_round
run =
    next
      (next
        (next
          (next (next here (copies_to_a reading_is_not_finished))
            (copies_to_b reading_is_not_finished))
          (copies_to_b reading_is_not_finished))
        (copies_to_a reading_is_not_finished))
      (closes refl refl refl)

Reach-IsOrdered_example : IsOrdered (close_both copied)
Reach-IsOrdered_example = Reach-IsOrdered conn conn (close_both copied) refl refl run
