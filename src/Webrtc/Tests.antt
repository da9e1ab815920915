-- ===== src/Webrtc/Tests.antt =====
-- Channels over WebRTC, over a data channel that is a list of messages.
use qtalk_go.Base.{
  ℕ, ◌+◌, ◌≤◌, ◌≡◌, refl, arith, Bool, true, false, List, [], ◌∷◌, ◌++◌, map, Option, none, some,
  Error, eof, io_fault, ltb, if◌then◌else◌, length,
}
use qtalk_go.Webrtc.{
  Received, received, blocked, Detached, Channel, read, read_done, read_waits, new, accept,
  accept_waits, close_session, eof_text,
}
use qtalk_go.Webrtc.Messages.{Delivers, write_all, reads, write_all-reads, read-waits_after_eof}
use qtalk_go.Webrtc.Waiting.{made, closed, accept-Waits}

abbrev Queue : Type 0
Queue = List (Bool × List ℕ)

abbrev receive : ℕ → Queue → Received Queue
receive room [] = blocked
receive room ((string, p) ∷ ms) =
    if ltb room (length p)
    then received [] string (some (io_fault 1)) ms
    else received p string none ms

abbrev queue : Detached Queue
queue = record {
  read_data_channel = receive;
  write = λ p t. (length p, none, t ++ ((false, p) ∷ []));
  write_data_channel = λ p string t. (length p, none, t ++ ((string, p) ∷ []));
  close = λ t. (none, t);
}

queue-receives :
    (room : ℕ) (p : List ℕ) (string : Bool) (ms t : Queue)
    → t ≡ (string, p) ∷ ms
    → length p ≤ room
    → (t' : Queue) × (receive room t ≡ received p string none t') × (t' ≡ ms)
queue-receives room p string ms t e h = (ms, rw e (ground arith), refl)

queue-waits : (room : ℕ) (t : Queue) → t ≡ [] → receive room t ≡ blocked
queue-waits room t e = rw e refl

abbrev queue_delivers : Delivers queue
queue_delivers = record {
  inbox = λ t. t;
  write_binary = λ p t. refl;
  sends = λ p string t. (length p, t ++ ((string, p) ∷ []), refl, refl);
  receives = queue-receives;
  waits = queue-waits;
}

abbrev fresh : Queue → Channel Queue
fresh t = record { id = 1; rwc = t; got_eof = false; closed_write = false }

-- Data that is the text for the end, in binary.
abbrev data_list : List (List ℕ)
data_list = (1 ∷ 2 ∷ []) ∷ eof_text ∷ []

write_all-reads_example :
    ((write_all queue data_list (fresh [])).0 ≡ none)
    × ((write_all queue data_list (fresh [])).1.closed_write ≡ true)
    × ((reads queue 8 3
          (record (fresh []) { rwc = (write_all queue data_list (fresh [])).1.rwc })).0
        ≡ map (λ p. (p, none)) data_list ++ (([], some eof) ∷ []))
write_all-reads_example =
    write_all-reads queue queue_delivers 8 data_list (fresh []) (fresh []) refl refl refl
      (omega arith) (omega arith)

read-waits_after_eof_example :
    (c' : Channel Queue) × (read queue 8 (fresh ((true, eof_text) ∷ []))
      ≡ read_done [] (some eof) c')
    × (read queue 8 c' ≡ read_waits)
read-waits_after_eof_example =
    read-waits_after_eof queue queue_delivers 8 (fresh ((true, eof_text) ∷ [])) refl refl
      (omega arith)

abbrev close_peer : ℕ → Option Error × ℕ
close_peer n = (none, n + 1)

accept-Waits_example : accept true (close_session close_peer (new {T = Queue} 0)).1 ≡ accept_waits
unfolding new close_session
accept-Waits_example = accept-Waits close_peer (closed (made 0)) true refl
