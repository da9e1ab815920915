-- ===== src/Mux/Channel/Writes.antt =====
-- What Write sends.
use mathlib.Core.Path.{ap₂}
use qtalk_go.Base.{
  ℕ, zero, suc, ◌+◌, ◌≤◌, ◌<◌, ◌≡◌, inl, inr, refl, sym, ap, ◌∙◌, arith, Bool, List, [], ◌∷◌, ◌++◌,
  none, some, eof, u32_mod, All-append, length, take, min, append-nil, append_assoc,
  take-append-drop, length-append, length-take, length-drop, Bool-cases, if◌then◌else◌,
}
use qtalk_go.Mux.Window.{Window, reserve_wake, reserve_enter}
use qtalk_go.Mux.Window.Grants.{reserve_wake_exact}
use qtalk_go.Mux.Buffer.Queue.{joined, joined-append}
use qtalk_go.Mux.Channel.{
  Conn, min_u32, WriteResult, write_done, write_waits, write_again, data_frame, reserved,
  write_wake, write_round, write_next, write_loop,
}
use qtalk_go.Mux.Channel.Sending.{
  frames, Sent, Writes, frames-append, frames-single, Sent-none, encode_cases,
}

module _ (n : ℕ) (input : List ℕ) (k : Conn) where
  -- The frame that a round sends once it has reserved `space` bytes.
  reserved-Writes :
      (w : Window) (space : ℕ)
      → w.win + space ≤ k.ch.remote_win.win
      → 0 < space
      → space ≤ length input
      → space ≤ k.ch.max_remote_payload
      → Writes n input k (reserved n input k (some (w, space, none)))
  reserved-Writes w space spent more fits allowed =
      elim (encode_cases (data_frame k.ch.remote_id (take space input)) k.enc) [
        | inl e ↦ rw e (
          record {
            chunks = take space input ∷ [];
            in_order = rw (append-nil (take space input), size) (take-append-drop space input);
            sized = (omega (arith, size), tt);
            written = ap (◌++◌ k.enc.written) (sym (frames-single k.ch.remote_id _));
            window = rw (append-nil (take space input)) (omega (arith, size));
            same_id = refl;
            same_limit = refl;
          },
          omega (arith, size, length-drop (length (take space input)) input),
          omega (arith, size, length-drop (length (take space input)) input),
        )
        | inr (x, e) ↦ rw e (
          input,
          Sent-none input k _ refl (omega arith) refl refl,
          refl,
          inr (x, refl, omega arith),
        )
      ]
    where
      size : length (take space input) ≡ space
      size = omega (arith, length-take space input)

  -- What a test of the window by `reserve` leads to.
  wake-Writes :
      (space : ℕ)
      → 0 < space
      → space ≤ length input
      → space ≤ k.ch.max_remote_payload
      → Writes n input k (reserved n input k (reserve_wake space k.ch.remote_win))
  wake-Writes space more fits allowed = elim (reserve_wake_exact space k.ch.remote_win) [
    | inl (empty, live, e) ↦
        rw e (Sent-none input k k refl (omega arith) refl refl, refl, omega arith, empty, live)
    | inr (w, e, sum, waiters, same, woken) ↦ elim (Bool-cases k.ch.remote_win.closed) [
      | inl shut ↦
          rw
            (e
              ∙ ap
                  (λ (b : Bool).
                    some (w, min space k.ch.remote_win.win, if b then some eof else none))
                  shut)
            (
              input,
              Sent-none input k _ refl (omega arith) refl refl,
              refl,
              inr (eof, refl, omega arith),
            )
      | inr live ↦
          rw
            (e
              ∙ ap
                  (λ (b : Bool).
                    some (w, min space k.ch.remote_win.win, if b then some eof else none))
                  live)
            (reserved-Writes w (min space k.ch.remote_win.win) (omega arith) (ground arith)
              (omega arith) (omega arith))
    ]
  ]

min_u32-bounds :
    (a b : ℕ)
    → 0 < a
    → 0 < b
    → b < u32_mod
    → (0 < min_u32 a b) × (min_u32 a b ≤ a) × (min_u32 a b ≤ b)
unfolding min_u32
min_u32-bounds a b ha hb h = ground arith

module _ (n : ℕ) (input : List ℕ) (k : Conn) where
  pub write_wake-Writes :
      0 < length input
      → length input < u32_mod
      → 0 < k.ch.max_remote_payload
      → Writes n input k (write_wake n input k)
  unfolding write_wake
  write_wake-Writes pos h allowed =
      let (more, limit, fits) =
        min_u32-bounds k.ch.max_remote_payload (length input) allowed pos h in
      wake-Writes n input k (min_u32 k.ch.max_remote_payload (length input)) more fits limit

module _ (input mid rest : List ℕ) (k k' k'' : Conn) where
  Sent-trans : Sent input k mid k' → Sent mid k' rest k'' → Sent input k rest k''
  Sent-trans s t = record {
    chunks = s.chunks ++ t.chunks;
    in_order =
        ap (λ (x : List ℕ). x ++ rest) (joined-append s.chunks t.chunks)
        ∙ append_assoc (joined s.chunks) (joined t.chunks) rest
        ∙ ap (◌++◌ (joined s.chunks)) t.in_order
        ∙ s.in_order;
    sized =
        All-append (λ c. (0 < length c) × (length c ≤ k.ch.max_remote_payload)) s.chunks t.chunks
          s.sized (rw s.same_limit at t.sized);
    written =
        t.written
        ∙ ap₂ (λ (x : List ℕ) (i : ℕ). x ++ frames i t.chunks) s.written s.same_id
        ∙ append_assoc k.enc.written _ _
        ∙ ap (◌++◌ k.enc.written) (sym (frames-append k.ch.remote_id s.chunks t.chunks));
    window =
        rw (joined-append s.chunks t.chunks)
          (omega (arith, length-append (joined s.chunks) (joined t.chunks), s.window, t.window));
    same_id = t.same_id ∙ s.same_id;
    same_limit = t.same_limit ∙ s.same_limit;
  }

Writes-trans :
    (n n' : ℕ) (input mid : List ℕ) (k k' : Conn) (r : WriteResult)
    → Sent input k mid k'
    → n' + length mid ≡ n + length input
    → length mid ≤ length input
    → Writes n' mid k' r
    → Writes n input k r
Writes-trans n n' input mid k k' (write_done m e k'') s c l (rest, t, d, f) =
    (rest, Sent-trans input mid rest k k' k'' s t, omega arith, f)
Writes-trans n n' input mid k k' (write_waits m rest k'') s c l (t, d, p, z, o) =
    (Sent-trans input mid rest k k' k'' s t, omega arith, p, z, o)
Writes-trans n n' input mid k k' (write_again m rest k'') s c l (t, d, p) =
    (Sent-trans input mid rest k k' k'' s t, omega arith, omega arith)

-- A round only counts a waiter more before it tests the window.
pub write_round-Writes :
    (n : ℕ) (input : List ℕ) (k : Conn)
    → 0 < length input
    → length input < u32_mod
    → 0 < k.ch.max_remote_payload
    → Writes n input k (write_round n input k)
unfolding write_round
write_round-Writes n input k pos h allowed =
    Writes-trans n n input input k entered _
      (Sent-none input k entered refl (omega arith) refl refl) refl (omega arith)
      (write_wake-Writes n input entered pos h allowed)
  where
    entered : Conn
    entered = record k { ch = record k.ch { remote_win = reserve_enter k.ch.remote_win } }

-- Write has come to its end: it returns, or waits for the window.
abbrev pub Ends : WriteResult → Type 0
Ends (write_again n rest k) = ⊥
Ends r = Unit

pub write_loop-Writes :
    (fuel n : ℕ) (input : List ℕ) (k : Conn)
    → length input ≤ fuel
    → length input < u32_mod
    → 0 < k.ch.max_remote_payload
    → Ends (write_loop fuel n input k) × Writes n input k (write_loop fuel n input k)
unfolding write_loop
write_loop-Writes fuel n [] k f h allowed =
    (tt, ([], Sent-none [] k k refl (omega arith) refl refl, refl, inl (refl, refl)))
write_loop-Writes zero n (b ∷ input) k f h allowed = absurd (omega arith)
write_loop-Writes (suc fuel) n (b ∷ input) k f h allowed =
    go (write_round n (b ∷ input) k) (write_round-Writes n (b ∷ input) k (omega arith) h allowed)
      (write_loop-Writes fuel)
  where
    go :
        (r : WriteResult)
        → Writes n (b ∷ input) k r
        → ((n' : ℕ) (rest : List ℕ) (k' : Conn)
            → length rest ≤ fuel
            → length rest < u32_mod
            → 0 < k'.ch.max_remote_payload
            → Ends (write_loop fuel n' rest k') × Writes n' rest k' (write_loop fuel n' rest k'))
        → Ends (write_next (write_loop fuel) r)
          × Writes n (b ∷ input) k (write_next (write_loop fuel) r)
    go (write_done m e k') w rec = (tt, w)
    go (write_waits m rest k') w rec = (tt, w)
    go (write_again m rest k') w rec =
        let (e, w') = rec m rest k' (omega arith) (omega arith) (omega (arith, w.0.same_limit)) in
        (e, Writes-trans n m (b ∷ input) rest k k' _ w.0 w.1 (omega arith) w')
