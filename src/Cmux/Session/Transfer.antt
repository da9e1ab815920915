-- ===== src/Cmux/Session/Transfer.antt =====
-- What is written to a channel of one session arrives at the channel of the other.
use qtalk_go.Base.{
  ℕ, ◌≡◌, ◌≢◌, refl, sym, ap, ◌∙◌, Bool, false, List, [], ◌∷◌, ◌++◌, Option, none, some, Error, ok,
  append-nil, append_assoc, flatten, length, get_elem?, get_elem?-set_self, get_elem?-set_ne,
  get_elem?-lt, lookup, if◌then◌else◌, eof,
}
use qtalk_go.Frame.Encoder.{Writer}
use qtalk_go.Frame.Decoder.{Reader}
use qtalk_go.Mux.Buffer
use qtalk_go.Mux.Buffer.Queue.{contents, contents-write}
use qtalk_go.Cmux.Channel.{Frame, Cbor, Channel, Conn, data_frame, write}
use qtalk_go.Cmux.Session.{
  Session, handled, put, handle, dispatch, received, one_packet, loop, loop_next, to_channel,
  handle_at,
}

-- Encode writes the bytes `marshal` of a frame to a transport that does not fail, and Decode takes
-- the frame from these bytes and leaves what follows.
pub record Carries (cbor : Cbor) : Type 0 where
  pub marshal : Frame → List ℕ
  pub encodes :
      (f : Frame) (done : List ℕ)
      → cbor.encode f (record { written = done; fault = none })
        ≡ (none, record { written = done ++ marshal f; fault = none })
  pub decodes :
      (f : Frame) (more : List ℕ) (e : Error)
      → cbor.decode (record { rest = marshal f ++ more; fault = e })
        ≡ (ok f, record { rest = more; fault = e })

-- A Write after another, and the bytes that they send.
abbrev pub write_all : Cbor → List (List ℕ) → Conn → Conn
write_all cbor [] k = k
write_all cbor (d ∷ ds) k = write_all cbor ds (write cbor d k).2

abbrev pub wire : {cbor : Cbor} → Carries cbor → ℕ → List (List ℕ) → List ℕ
wire h id [] = []
wire h id (d ∷ ds) = h.marshal (data_frame id d) ++ wire h id ds

module _ (cbor : Cbor) (h : Carries cbor) where
  write-sent :
      (d : List ℕ) (c : Channel) (done : List ℕ)
      → c.sent_eof ≡ false
      → write cbor d (record { ch = c; enc = record { written = done; fault = none } }) ≡ (
        0,
        none,
        record {
          ch = c;
          enc = record { written = done ++ h.marshal (data_frame c.remote_id d); fault = none };
        },
      )
  unfolding write
  write-sent d c done e =
      let k : Conn = record { ch = c; enc = record { written = done; fault = none } } in
      let r = cbor.encode (data_frame c.remote_id d) k.enc in
      ap (λ (b : Bool). if b then (0, some eof, k) else (0, r.0, record { ch = c; enc = r.1 })) e
      ∙ ap (λ (r : Option Error × Writer). (0, r.0, record { ch = c; enc = r.1 }))
          (h.encodes (data_frame c.remote_id d) done)

  pub write_all-wire :
      (ds : List (List ℕ)) (c : Channel) (done : List ℕ)
      → c.sent_eof ≡ false
      → write_all cbor ds (record { ch = c; enc = record { written = done; fault = none } })
        ≡ record { ch = c; enc = record { written = done ++ wire h c.remote_id ds; fault = none } }
  write_all-wire [] c done e =
      ap (λ (x : List ℕ). record { ch = c; enc = record { written = x; fault = none } })
        (sym (append-nil done))
  write_all-wire (d ∷ ds) c done e =
      let bytes = h.marshal (data_frame c.remote_id d) in
      ap (λ (r : ℕ × Option Error × Conn). write_all cbor ds r.2) (write-sent d c done e)
      ∙ write_all-wire ds c (done ++ bytes) e
      ∙ ap (λ (x : List ℕ). record { ch = c; enc = record { written = x; fault = none } })
          (append_assoc done bytes (wire h c.remote_id ds))

  -- A data frame for the channel at `p`.
  abbrev arrived : ℕ → Channel → List ℕ → Reader → Session → Session
  arrived p c d r s = put p (record c { pending = Buffer.write d c.pending }) (record s { dec = r })

  one_packet-data :
      (accepts : Bool) (id p : ℕ) (c : Channel) (d more : List ℕ) (e : Error) (s : Session)
      → lookup id s.chans ≡ some p
      → get_elem? s.heap p ≡ some c
      → s.dec ≡ record { rest = h.marshal (data_frame id d) ++ more; fault = e }
      → one_packet cbor accepts s
        ≡ handled none (arrived p c d (record { rest = more; fault = e }) s)
  unfolding one_packet dispatch handle Buffer.write
  one_packet-data accepts id p c d more e s found here dec =
      let r : Reader = record { rest = more; fault = e } in
      ap (λ (x : Reader). received cbor accepts s (cbor.decode x)) dec
      ∙ ap (received cbor accepts s) (h.decodes (data_frame id d) more e)
      ∙ ap (λ (x : Option ℕ). to_channel cbor x (data_frame id d) (record s { dec = r })) found
      ∙ ap (λ (x : Option Channel). handle_at cbor p x (data_frame id d) (record s { dec = r }))
          here

-- The session `s'` is `s` with the bytes at the end of the channel at `p`, and `r` to be read.
pub record HasGot (p : ℕ) (c : Channel) (bytes : List ℕ) (r : Reader) (s s' : Session)
    : Type 0 where
  pub channel :
      (c' : Channel) × (get_elem? s'.heap p ≡ some c')
      × (contents c'.pending ≡ contents c.pending ++ bytes)
      × (c'.pending.closed ≡ c.pending.closed)
  pub others : (q : ℕ) → p ≢ q → get_elem? s'.heap q ≡ get_elem? s.heap q
  pub unread : s'.dec ≡ r

module _ (cbor : Cbor) (h : Carries cbor) (accepts : ℕ → Bool) (id p : ℕ) (more : List ℕ)
    (e : Error) where
  loop-got :
      (ds : List (List ℕ)) (c : Channel) (s : Session)
      → lookup id s.chans ≡ some p
      → get_elem? s.heap p ≡ some c
      → s.dec ≡ record { rest = wire h id ds ++ more; fault = e }
      → (s' : Session) × (loop cbor (length ds) accepts s ≡ handled none s')
        × HasGot p c (flatten ds) (record { rest = more; fault = e }) s s'
  unfolding loop Buffer.write mathlib.Core.List.flatten
  loop-got [] c s found here dec = (
    s,
    refl,
    record {
      channel = (c, here, sym (append-nil (contents c.pending)), refl);
      others = λ q n. refl;
      unread = dec;
    },
  )
  loop-got (d ∷ ds) c s found here dec =
      let c' : Channel = record c { pending = Buffer.write d c.pending } in
      let rest = wire h id ds ++ more in
      let s1 = arrived cbor h p c d (record { rest = rest; fault = e }) s in
      let at_p = get_elem?-set_self s.heap p c' (get_elem?-lt s.heap p c here) in
      let step = one_packet-data cbor h (accepts (length ds)) id p c d rest e s found here (
        dec
        ∙ ap (λ (x : List ℕ). record { rest = x; fault = e })
            (append_assoc (h.marshal (data_frame id d)) (wire h id ds) more)) in
      let (s', run, got) = loop-got ds c' s1 found at_p refl in
      let (c2, at_2, bytes, open_) = got.channel in
      (
        s',
        ap (loop_next (loop cbor (length ds) accepts)) step ∙ run,
        record {
          channel = (
            c2,
            at_2,
            bytes
                ∙ ap (λ (x : List ℕ). x ++ flatten ds) (contents-write d c.pending)
                ∙ append_assoc (contents c.pending) d (flatten ds),
            open_,
          );
          others = λ q n. got.others q n ∙ get_elem?-set_ne s.heap c' n;
          unread = got.unread;
        },
      )

  -- With frames that the cbor package carries: what one end writes to an open channel, whatever its
  -- channel is otherwise, is the marshalled data frames, and the loop of the other end, in as many
  -- packets, puts all of it, in order, behind the pending bytes of the channel that has the id, and
  -- changes no other channel.
  pub writes-got :
      (ds : List (List ℕ)) (tx c : Channel) (done : List ℕ) (s : Session)
      → tx.sent_eof ≡ false
      → tx.remote_id ≡ id
      → lookup id s.chans ≡ some p
      → get_elem? s.heap p ≡ some c
      → s.dec ≡ record { rest = wire h id ds ++ more; fault = e }
      → (write_all cbor ds (record { ch = tx; enc = record { written = done; fault = none } })
          ≡ record { ch = tx; enc = record { written = done ++ wire h id ds; fault = none } })
        × ((s' : Session) × (loop cbor (length ds) accepts s ≡ handled none s')
            × HasGot p c (flatten ds) (record { rest = more; fault = e }) s s')
  writes-got ds tx c done s open_ same found here dec = (
    write_all-wire cbor h ds tx done open_
        ∙ ap
            (λ (i : ℕ). record {
              ch = tx;
              enc = record { written = done ++ wire h i ds; fault = none };
            })
            same,
    loop-got ds c s found here dec,
  )
