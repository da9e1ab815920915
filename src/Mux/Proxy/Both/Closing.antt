-- ===== src/Mux/Proxy/Both/Closing.antt =====
-- What the goroutines of proxy leave of the ends of the two channels.
use mathlib.Core.Path.{subst}
use qtalk_go.Base.{
  arith, ℕ, zero, suc, ◌≡◌, refl, sym, Bool, true, false, List, [], ◌∷◌, Option, none, some, Error,
  eof, Result, ok, err, length, ◌==◌, Bool-cases, inl, inr,
}
use qtalk_go.Frame.Message.{Message}
use qtalk_go.Frame.Encoder.{Writer}
use qtalk_go.Mux.Window.{Window, reserve_enter}
use qtalk_go.Mux.Buffer
use qtalk_go.Mux.Buffer.{Outcome}
use qtalk_go.Mux.Channel.{
  Channel, Conn, ReadResult, read_done, read_waits, read, read_rest, WriteResult, write_done,
  write_waits, write_again, sent_frame, reserved, write_wake, write_round, write_next, write_loop,
  write, send, close_write, close, adjust_window,
}
use qtalk_go.Mux.Proxy.Copying.{copy_size, after_error}
use qtalk_go.Mux.Proxy.Both.{
  Leg, reading, writing, finished, Place, leg_of, leg_write, leg_read, leg_step, Joined, join, Step,
  copies_to_a, copies_to_b, closes, on_a, on_b, Reach, here, next, close_both,
}

-- Sending says no end of a channel by itself.
send-keeps : (m : Message) (k : Conn) → (send m k).1.ch.sent_eof ≡ k.ch.sent_eof
unfolding send
send-keeps m k = ground arith

-- A channel is closed behind Close, whether or not the message was sent.
close-closes : (k : Conn) → (close k).1.ch.sent_close ≡ true
unfolding close send
close-closes k = ground arith

close-keeps : (k : Conn) → (close k).1.ch.sent_eof ≡ k.ch.sent_eof
unfolding close
close-keeps k = send-keeps _ k

abbrev Reads : Bool → ReadResult → Type 0
Reads b (read_done got e k) = k.ch.sent_eof ≡ b
Reads b (read_waits k) = k.ch.sent_eof ≡ b

read-keeps : (k : Conn) (o : Outcome) → Reads k.ch.sent_eof (read_rest k o)
unfolding adjust_window
read-keeps k (Outcome.returned [] e b) = refl
read-keeps k (Outcome.returned (x ∷ got) e b) = send-keeps _ _
read-keeps k (Outcome.blocked b) = refl
read-keeps k (Outcome.again p) = refl

abbrev Writes : Bool → WriteResult → Type 0
Writes b (write_done n e k) = k.ch.sent_eof ≡ b
Writes b (write_waits n rest k) = k.ch.sent_eof ≡ b
Writes b (write_again n rest k) = k.ch.sent_eof ≡ b

sent_frame-keeps :
    (n : ℕ) (chunk later : List ℕ) (c : Channel) (o : Result (Unit {0}) × Writer)
    → Writes c.sent_eof (sent_frame n chunk later c o)
sent_frame-keeps n chunk later c (ok u, w) = refl
sent_frame-keeps n chunk later c (err e, w) = refl

reserved-keeps :
    (n : ℕ) (bytes : List ℕ) (k : Conn) (o : Option (Window × ℕ × Option Error))
    → Writes k.ch.sent_eof (reserved n bytes k o)
reserved-keeps n bytes k none = refl
reserved-keeps n bytes k (some (w, space, some e)) = refl
reserved-keeps n bytes k (some (w, space, none)) = sent_frame-keeps n _ _ _ _

write_wake-keeps : (n : ℕ) (bytes : List ℕ) (k : Conn) → Writes k.ch.sent_eof (write_wake n bytes k)
unfolding write_wake
write_wake-keeps n bytes k = reserved-keeps n bytes k _

write_round-keeps :
    (n : ℕ) (bytes : List ℕ) (k : Conn) → Writes k.ch.sent_eof (write_round n bytes k)
unfolding write_round
write_round-keeps n bytes k =
    write_wake-keeps n bytes
      (record k { ch = record k.ch { remote_win = reserve_enter k.ch.remote_win } })

write_loop-keeps :
    (fuel n : ℕ) (bytes : List ℕ) (k : Conn) → Writes k.ch.sent_eof (write_loop fuel n bytes k)
unfolding write_loop
write_loop-keeps fuel n [] k = refl
write_loop-keeps zero n (x ∷ bytes) k = refl
write_loop-keeps (suc fuel) n (x ∷ bytes) k =
    go (write_round n (x ∷ bytes) k) (write_round-keeps n (x ∷ bytes) k) (write_loop-keeps fuel)
  where
    go :
        (r : WriteResult)
        → Writes k.ch.sent_eof r
        → ((n : ℕ) (bytes : List ℕ) (k : Conn) → Writes k.ch.sent_eof (write_loop fuel n bytes k))
        → Writes k.ch.sent_eof (write_next (write_loop fuel) r)
    go (write_done n e k') w rec = w
    go (write_waits n rest k') w rec = w
    go (write_again n rest k') w rec =
        subst (λ (b : Bool). Writes b (write_loop fuel n rest k')) w (rec n rest k')

write_next-keeps :
    (fuel : ℕ) (b : Bool) (r : WriteResult) → Writes b r → Writes b (write_next (write_loop fuel) r)
write_next-keeps fuel b (write_done n e k) w = w
write_next-keeps fuel b (write_waits n rest k) w = w
write_next-keeps fuel b (write_again n rest k) w =
    subst (λ (b : Bool). Writes b (write_loop fuel n rest k)) w (write_loop-keeps fuel n rest k)

-- Write of some bytes, on a channel that has not said its end.
write-keeps : (bytes : List ℕ) (k : Conn) → k.ch.sent_eof ≡ false → Writes false (write bytes k)
unfolding write
write-keeps bytes k h = simp h (
    subst (λ (b : Bool). Writes b (write_loop (length bytes) 0 bytes k)) h
      (write_loop-keeps (length bytes) 0 bytes k))

-- A channel has said its end exactly if the goroutine that writes to it is finished.
abbrev pub Says : Leg → Bool → Type 0
Says finished b = b ≡ true
Says reading b = b ≡ false
Says (writing got e n rest) b = b ≡ false

abbrev Kept : Bool → Place → Type 0
Kept c (leg, src, dst) = (src.ch.sent_eof ≡ c) × Says leg dst.ch.sent_eof

close_write-ends : (k : Conn) → (close_write k).1.ch.sent_eof ≡ true
unfolding close_write
close_write-ends k = send-keeps _ (record k { ch = record k.ch { sent_eof = true } })

module _ (c : Bool) (src : Conn) (same : src.ch.sent_eof ≡ c) where
  after_error-Kept :
      (e : Option Error) (dst : Conn)
      → dst.ch.sent_eof ≡ false
      → Kept c (leg_of (after_error e src dst))
  after_error-Kept none dst h = (same, h)
  after_error-Kept (some eof) dst h = (same, close_write-ends dst)
  after_error-Kept (some e) dst h = (same, close_write-ends dst)

  leg_write-Kept :
      (got : List ℕ) (e : Option Error) (r : WriteResult)
      → Writes false r
      → Kept c (leg_write got e src r)
  leg_write-Kept got e (write_done n (some x) dst) h = (same, close_write-ends dst)
  leg_write-Kept got e (write_done n none dst) h = elim (Bool-cases (n == length got)) [
    | inl t ↦ rw t (after_error-Kept e dst h)
    | inr f ↦ rw f (same, close_write-ends dst)
  ]
  leg_write-Kept got e (write_waits n rest dst) h = (same, h)
  leg_write-Kept got e (write_again n rest dst) h = (same, h)

leg_read-Kept :
    (c : Bool) (dst : Conn) (r : ReadResult)
    → dst.ch.sent_eof ≡ false
    → Reads c r
    → Kept c (leg_read dst r)
leg_read-Kept c dst (read_waits src) h w = (w, h)
leg_read-Kept c dst (read_done [] e src) h w = after_error-Kept c src w e dst h
leg_read-Kept c dst (read_done (x ∷ got) e src) h w =
    leg_write-Kept c src w (x ∷ got) e (write (x ∷ got) dst) (write-keeps (x ∷ got) dst h)

leg_step-Kept :
    (leg : Leg) (src dst : Conn)
    → Says leg dst.ch.sent_eof
    → Kept src.ch.sent_eof (leg_step leg src dst)
unfolding leg_step read
leg_step-Kept reading src dst h =
    leg_read-Kept src.ch.sent_eof dst (read copy_size src) h
      (read-keeps src (Buffer.read copy_size src.ch.pending))
leg_step-Kept (writing got e n rest) src dst h = leg_write-Kept src.ch.sent_eof src refl got e _ (
    write_next-keeps (length rest) false (write_wake n rest dst)
      (subst (λ (b : Bool). Writes b (write_wake n rest dst)) h (write_wake-keeps n rest dst)))
leg_step-Kept finished src dst h = (refl, h)

-- Each channel has said its end exactly if the copying to it is over, and where both are closed,
-- both directions were over before.
pub record IsOrdered (s : Joined) : Type 0 where
  pub says_a : Says s.to_a s.a.ch.sent_eof
  pub says_b : Says s.to_b s.b.ch.sent_eof
  pub last :
      s.closed ≡ true
      → (s.to_a ≡ finished)
        × (s.to_b ≡ finished)
        × (s.a.ch.sent_close ≡ true)
        × (s.b.ch.sent_close ≡ true)

Step-IsOrdered : (s s' : Joined) → Step s s' → IsOrdered s → IsOrdered s'
unfolding close_both
Step-IsOrdered s s' (copies_to_a running) h =
    let k = leg_step-Kept s.to_a s.b s.a h.says_a in
    record {
      says_a = k.1;
      says_b = subst (Says s.to_b) (sym k.0) h.says_b;
      last = λ c. let (over_a, over_b, shut_a, shut_b) = h.last c in absurd (running over_a);
    }
Step-IsOrdered s s' (copies_to_b running) h =
    let k = leg_step-Kept s.to_b s.a s.b h.says_b in
    record {
      says_a = subst (Says s.to_a) (sym k.0) h.says_a;
      says_b = k.1;
      last = λ c. let (over_a, over_b, shut_a, shut_b) = h.last c in absurd (running over_b);
    }
Step-IsOrdered s s' (closes over_a over_b yet) h = record {
  says_a = subst (Says s.to_a) (sym (close-keeps s.a)) h.says_a;
  says_b = subst (Says s.to_b) (sym (close-keeps s.b)) h.says_b;
  last = λ c. (over_a, over_b, close-closes s.a, close-closes s.b);
}
Step-IsOrdered s s' (on_a k m) h = record {
  says_a = subst (Says s.to_a) (sym m.0) h.says_a;
  says_b = h.says_b;
  last =
      λ c. let (over_a, over_b, shut_a, shut_b) = h.last c in (over_a, over_b, m.1 shut_a, shut_b);
}
Step-IsOrdered s s' (on_b k m) h = record {
  says_a = h.says_a;
  says_b = subst (Says s.to_b) (sym m.0) h.says_b;
  last =
      λ c. let (over_a, over_b, shut_a, shut_b) = h.last c in (over_a, over_b, shut_a, m.1 shut_b);
}

-- Between two channels that have not said their end, in whatever order the two goroutines and the
-- sessions take their steps, proxy has called CloseWrite on a channel exactly if the copying to it
-- is over, so that no Write meets its own CloseWrite; and it has closed both channels only where
-- both directions are over.
pub Reach-IsOrdered :
    (a b : Conn) (s : Joined)
    → a.ch.sent_eof ≡ false
    → b.ch.sent_eof ≡ false
    → Reach (join a b) s
    → IsOrdered s
Reach-IsOrdered a b s open_a open_b here = record {
  says_a = open_a;
  says_b = open_b;
  last = λ c. absurd (cc);
}
Reach-IsOrdered a b s open_a open_b (next r st) =
    Step-IsOrdered _ s st (Reach-IsOrdered a b _ open_a open_b r)
