-- ===== src/Webrtc/Messages.antt =====
-- What is written to a channel over WebRTC and what is read from its other end.
use qtalk_go.Base.{
  ℕ, zero, suc, ◌≤◌, ◌≡◌, ap, ◌∙◌, Bool, true, false, List, [], ◌∷◌, ◌++◌, map, Option, none, some,
  Error, eof, All, length, append_assoc, closed_pipe, if◌then◌else◌,
}
use qtalk_go.Webrtc.{
  received, blocked, Detached, Channel, ReadResult, read_done, read_waits, eof_text, after_receive,
  read, after_write, write, after_eof, close_write,
}

-- What the package documents of a reliable, ordered data channel, in one direction: messages come
-- in the order in which they were sent and as they were sent, if there is room for them; Write sends
-- a binary message; without a message a read waits.
pub record Delivers {T : Type 0} (dc : Detached T) : Type 0 where
  pub inbox : T → List (Bool × List ℕ)
  pub write_binary : (p : List ℕ) (t : T) → dc.write p t ≡ dc.write_data_channel p false t
  pub sends :
      (p : List ℕ) (string : Bool) (t : T)
      → (n : ℕ) × (t' : T) × (dc.write_data_channel p string t ≡ (n, none, t'))
        × (inbox t' ≡ inbox t ++ ((string, p) ∷ []))
  pub receives :
      (room : ℕ) (p : List ℕ) (string : Bool) (ms : List (Bool × List ℕ)) (t : T)
      → inbox t ≡ (string, p) ∷ ms
      → length p ≤ room
      → (t' : T) × (dc.read_data_channel room t ≡ received p string none t') × (inbox t' ≡ ms)
  pub waits : (room : ℕ) (t : T) → inbox t ≡ [] → dc.read_data_channel room t ≡ blocked

module _ {T : Type 0} (dc : Detached T) where
  -- Writes of some data, one after the other, until an error, and CloseWrite.
  abbrev pub write_next :
      (Channel T → Option Error × Channel T)
      → ℕ × Option Error × Channel T
      → Option Error × Channel T
  write_next more (n, some e, c) = (some e, c)
  write_next more (n, none, c) = more c

  unfoldable pub write_all : List (List ℕ) → Channel T → Option Error × Channel T
  write_all [] c = close_write dc c
  write_all (p ∷ ps) c = write_next (write_all ps) (write dc p c)

  -- Reads, one after the other: what each returns, and the channel then, if none waits.
  abbrev pub read_next :
      (Channel T → List (List ℕ × Option Error) × Option (Channel T))
      → ReadResult T
      → List (List ℕ × Option Error) × Option (Channel T)
  read_next more read_waits = ([], none)
  read_next more (read_done p e c) = ((p, e) ∷ (more c).0, (more c).1)

  unfoldable pub reads : ℕ → ℕ → Channel T → List (List ℕ × Option Error) × Option (Channel T)
  reads room zero c = ([], some c)
  reads room (suc n) c = read_next (reads room n) (read dc room c)

  abbrev pub messages : List (List ℕ) → List (Bool × List ℕ)
  messages ps = map (λ p. (false, p)) ps ++ ((true, eof_text) ∷ [])

  write-open :
      (p : List ℕ) (c : Channel T)
      → c.closed_write ≡ false
      → write dc p c ≡ after_write dc c (dc.write p c.rwc)
  unfolding write
  write-open p c h =
      ap (λ (b : Bool). if b then (0, some closed_pipe, c) else after_write dc c (dc.write p c.rwc))
        h

  read-open :
      (room : ℕ) (c : Channel T)
      → c.got_eof ≡ false
      → read dc room c ≡ after_receive dc c (dc.read_data_channel room c.rwc)
  unfolding read
  read-open room c h =
      ap
        (λ (b : Bool).
          if b
          then read_done [] (some eof) c
          else after_receive dc c (dc.read_data_channel room c.rwc))
        h

  module _ (d : Delivers dc) where
    write_all-sends :
        (ps : List (List ℕ)) (c : Channel T)
        → c.closed_write ≡ false
        → ((write_all ps c).0 ≡ none)
          × ((write_all ps c).1.closed_write ≡ true)
          × (d.inbox (write_all ps c).1.rwc ≡ d.inbox c.rwc ++ messages ps)
    unfolding write_all close_write
    write_all-sends [] c h =
        let (n, t, e, i) = d.sends eof_text true c.rwc in
        let q = ap (after_eof dc c) e in
        (
          ap (λ (r : Option Error × Channel T). r.0) q,
          ap (λ (r : Option Error × Channel T). r.1.closed_write) q,
          ap (λ (r : Option Error × Channel T). d.inbox r.1.rwc) q ∙ i,
        )
    write_all-sends (p ∷ ps) c h =
        let (n, t, e, i) = d.sends p false c.rwc in
        let (x, y, z) = write_all-sends ps (record c { rwc = t }) h in
        let q =
          ap (write_next (write_all ps))
            (write-open p c h ∙ ap (after_write dc c) (d.write_binary p c.rwc ∙ e)) in
        (
          ap (λ (r : Option Error × Channel T). r.0) q ∙ x,
          ap (λ (r : Option Error × Channel T). r.1.closed_write) q ∙ y,
          ap (λ (r : Option Error × Channel T). d.inbox r.1.rwc) q
              ∙ z
              ∙ ap (λ (l : List (Bool × List ℕ)). l ++ messages ps) i
              ∙ append_assoc (d.inbox c.rwc) ((false, p) ∷ []) (messages ps),
        )

    read-message :
        (room : ℕ) (p : List ℕ) (string : Bool) (ms : List (Bool × List ℕ)) (c : Channel T)
        → c.got_eof ≡ false
        → d.inbox c.rwc ≡ (string, p) ∷ ms
        → length p ≤ room
        → (t : T) × (read dc room c ≡ after_receive dc c (received p string none t))
          × (d.inbox t ≡ ms)
    read-message room p string ms c h i few =
        let (t, e, j) = d.receives room p string ms c.rwc i few in
        (t, read-open room c h ∙ ap (after_receive dc c) e, j)

    -- A Read of a channel that has no message left waits, also where an earlier one returned io.EOF:
    -- where only the end of the other side's writing is to be read, one Read returns io.EOF and the
    -- next one waits.
    pub read-waits_after_eof :
        (room : ℕ) (c : Channel T)
        → c.got_eof ≡ false
        → d.inbox c.rwc ≡ (true, eof_text) ∷ []
        → 3 ≤ room
        → (c' : Channel T) × (read dc room c ≡ read_done [] (some eof) c')
          × (read dc room c' ≡ read_waits)
    read-waits_after_eof room c h i few =
        let (t, e, j) = read-message room eof_text true [] c h i few in
        let c' = record c { rwc = t } in
        (c', e, read-open room c' h ∙ ap (after_receive dc c') (d.waits room t j))

    reads-messages :
        (room : ℕ) (ps : List (List ℕ)) (c : Channel T)
        → c.got_eof ≡ false
        → d.inbox c.rwc ≡ messages ps
        → All (λ p. length p ≤ room) ps
        → 3 ≤ room
        → (reads room (suc (length ps)) c).0 ≡ map (λ p. (p, none)) ps ++ (([], some eof) ∷ [])
    unfolding reads
    reads-messages room [] c h i few big =
        let (t, e, j) = read-message room eof_text true [] c h i big in
        ap (λ (r : ReadResult T). (read_next (reads room zero) r).0) e
    reads-messages room (p ∷ ps) c h i few big =
        let (t, e, j) = read-message room p false (messages ps) c h i few.0 in
        ap (λ (r : ReadResult T). (read_next (reads room (suc (length ps))) r).0) e
        ∙ ap (λ (l : List (List ℕ × Option Error)). (p, none) ∷ l)
            (reads-messages room ps (record c { rwc = t }) h j few.1 big)

    -- Over a data channel that delivers messages in order, with nothing on its way, the Writes of
    -- some data, each no longer than what a Read has room for, and the CloseWrite after them meet no
    -- error; the other end then reads each of them whole and in order, whatever its bytes, also the
    -- text that stands for the end, and then io.EOF.
    pub write_all-reads :
        (room : ℕ) (ps : List (List ℕ)) (c c' : Channel T)
        → c.closed_write ≡ false
        → d.inbox c.rwc ≡ []
        → c'.got_eof ≡ false
        → All (λ p. length p ≤ room) ps
        → 3 ≤ room
        → ((write_all ps c).0 ≡ none)
          × ((write_all ps c).1.closed_write ≡ true)
          × ((reads room (suc (length ps)) (record c' { rwc = (write_all ps c).1.rwc })).0
              ≡ map (λ p. (p, none)) ps ++ (([], some eof) ∷ []))
    write_all-reads room ps c c' h i k few big =
        let (x, y, z) = write_all-sends ps c h in
        (
          x,
          y,
          reads-messages room ps (record c' { rwc = (write_all ps c).1.rwc }) k
              (z ∙ ap (λ (l : List (Bool × List ℕ)). l ++ messages ps) i) few big,
        )
