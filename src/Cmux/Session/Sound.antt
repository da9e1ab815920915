-- ===== src/Cmux/Session/Sound.antt =====
-- Handling packets never panics.
use native.Mathlib.Decide.{ℕ_discrete}
use mathlib.Core.Path.{subst}
use qtalk_go.Base.{
  ℕ, ◌≡◌, ◌≢◌, refl, sym, ap, ◌∙◌, arith, Bool, true, false, List, [], ◌∷◌, ◌++◌, Option, none,
  some, Result, ok, err, length, get_elem?, set, get_elem?-set_self, get_elem?-set_ne, get_elem?-lt,
  get_elem?-append_left, get_elem?-append_self, get_elem?-same, All, Entry, lookup, delete,
  Distinct, All-weaken, All-delete, All-lookup, Distinct-delete, Distinct-insert, add_u32, ◌==◌,
  if◌then◌else◌,
}
use qtalk_go.Frame.Decoder.{Reader}
use qtalk_go.Cmux.Channel.{
  Frame, Cbor, Channel, Conn, control_frame, channel_close, channel_open, channel_data, channel_eof,
  channel_open_confirm, channel_open_failure, send, shut,
}
use qtalk_go.Cmux.Session.{
  Session, Handled, handled, stuck, panicked, put, fresh, new_channel, encode_on, offered,
  handle_open, post, close_channel, said_close, handle_close, handle, to_channel, dispatch,
  received, one_packet,
}

-- The entry leads to a channel of the store that has its key for an id and is not closed.
abbrev pub Leads : List Channel → Entry ℕ → Type 0
Leads heap x =
    (c : Channel) × (get_elem? heap x.value ≡ some c)
    × (c.local_id ≡ x.key)
    × (c.frames.closed ≡ false)

pub record IsSound (s : Session) : Type 0 where
  pub leads : All (Leads s.heap) s.chans
  pub distinct : Distinct s.chans

abbrev pub Safe : Handled → Type 0
Safe (handled e s) = IsSound s
Safe (stuck s) = IsSound s
Safe panicked = ⊥

module _ (heap : List Channel) (p : ℕ) (c : Channel) (here : get_elem? heap p ≡ some c)
    (c' : Channel) where
  -- A change of a channel that keeps its id and leaves it open.
  Leads-set :
      c'.local_id ≡ c.local_id
      → c'.frames.closed ≡ c.frames.closed
      → (x : Entry ℕ) → Leads heap x
      → Leads (set heap p c') x
  Leads-set same open_ x (d, at_x, id_x, open_x) = elim (ℕ_discrete p x.value) [
    | yes eq ↦
        let cd = get_elem?-same heap p x.value c d here at_x eq in
        (
          c',
          rw (← eq) (get_elem?-set_self heap p c' (get_elem?-lt heap p c here)),
          same ∙ ap (λ (y : Channel). y.local_id) cd ∙ id_x,
          open_ ∙ ap (λ (y : Channel). y.frames.closed) cd ∙ open_x,
        )
    | no ne ↦ (d, get_elem?-set_ne heap c' ne ∙ at_x, id_x, open_x)
  ]

  -- The entries of other ids lead to other channels.
  pub Leads-other : (x : Entry ℕ) → c.local_id ≢ x.key → Leads heap x → p ≢ x.value
  Leads-other x ne (d, at_x, id_x, open_x) eq =
      ne (ap (λ (y : Channel). y.local_id) (get_elem?-same heap p x.value c d here at_x eq) ∙ id_x)

  pub Leads-set_other :
      (x : Entry ℕ) → (c.local_id ≢ x.key) × Leads heap x → Leads (set heap p c') x
  Leads-set_other x (ne, l) =
      let (d, at_x, id_x, open_x) = l in
      (d, get_elem?-set_ne heap c' (Leads-other x ne l) ∙ at_x, id_x, open_x)

module _ (s : Session) (p : ℕ) (c : Channel) (here : get_elem? s.heap p ≡ some c)
    (c' : Channel) where
  put-IsSound :
      c'.local_id ≡ c.local_id
      → c'.frames.closed ≡ c.frames.closed
      → IsSound s
      → IsSound (put p c' s)
  put-IsSound same open_ h = record {
    leads =
        All-weaken (Leads s.heap) (Leads (set s.heap p c'))
          (Leads-set s.heap p c here c' same open_) s.chans h.leads;
    distinct = h.distinct;
  }

  -- A channel that has no id any more may be changed at will.
  forget-IsSound : IsSound s → IsSound (put p c' (record s { chans = delete c.local_id s.chans }))
  forget-IsSound h = record {
    leads =
        All-weaken (λ x. (c.local_id ≢ x.key) × Leads s.heap x) (Leads (set s.heap p c'))
          (Leads-set_other s.heap p c here c') (delete c.local_id s.chans)
          (All-delete (Leads s.heap) c.local_id s.chans h.leads);
    distinct = Distinct-delete c.local_id s.chans h.distinct;
  }

delete-IsSound : (k : ℕ) (s : Session) → IsSound s → IsSound (record s { chans = delete k s.chans })
delete-IsSound k s h = record {
  leads =
      All-weaken (λ x. (k ≢ x.key) × Leads s.heap x) (Leads s.heap) (λ x l. l.1) (delete k s.chans)
        (All-delete (Leads s.heap) k s.chans h.leads);
  distinct = Distinct-delete k s.chans h.distinct;
}

if-Safe : (b : Bool) (x y : Handled) → Safe x → Safe y → Safe (if b then x else y)
if-Safe true x y h k = h
if-Safe false x y h k = k

if_false-Safe : (b : Bool) (x y : Handled) → b ≡ false → Safe y → Safe (if b then x else y)
if_false-Safe true x y e h = absurd (cc)
if_false-Safe false x y e h = h

new_channel-IsSound : (s : Session) → IsSound s → IsSound (new_channel s).2
unfolding new_channel
new_channel-IsSound s h =
    let id = add_u32 s.chan_counter 1 in
    let heap = s.heap ++ fresh id ∷ [] in
    let grown =
      All-weaken (Leads s.heap) (Leads heap)
        (λ x l. (l.0, get_elem?-append_left s.heap (fresh id ∷ []) x.value l.0 l.1, l.2, l.3))
        s.chans h.leads in
    record {
      leads = (
        (fresh id, get_elem?-append_self s.heap (fresh id), refl, refl),
        All-weaken (λ x. (id ≢ x.key) × Leads heap x) (Leads heap) (λ x l. l.1) (delete id s.chans)
            (All-delete (Leads heap) id s.chans grown),
      );
      distinct = Distinct-insert id (length s.heap) s.chans h.distinct;
    }

encode_on-Safe : (cbor : Cbor) (f : Frame) (s : Session) → IsSound s → Safe (encode_on cbor f s)
encode_on-Safe cbor f s h = record { leads = h.leads; distinct = h.distinct }

offered-Safe :
    (cbor : Cbor) (accepts : Bool) (f : Frame) (p id : ℕ) (s : Session)
    → IsSound s
    → Safe (offered cbor accepts f p id s)
offered-Safe cbor true f p id s h = record { leads = h.leads; distinct = h.distinct }
offered-Safe cbor false f p id s h = record { leads = h.leads; distinct = h.distinct }

handle_open-Safe :
    (cbor : Cbor) (accepts : Bool) (f : Frame) (s : Session)
    → IsSound s
    → Safe (handle_open cbor accepts f s)
unfolding handle_open new_channel
handle_open-Safe cbor accepts f s h =
    let (p, id, s') = new_channel s in
    offered-Safe cbor accepts f p id (put p (record (fresh id) { remote_id = f.sender_id }) s') (
      put-IsSound s' p (fresh id) (get_elem?-append_self s.heap (fresh id))
        (record (fresh id) { remote_id = f.sender_id }) refl refl (new_channel-IsSound s h))

send-id :
    (cbor : Cbor) (f : Frame) (k : Conn)
    → ((send cbor f k).1.ch.local_id ≡ k.ch.local_id)
      × ((send cbor f k).1.ch.frames.closed ≡ k.ch.frames.closed)
unfolding send
send-id cbor f k = ground arith

pub close_channel_open :
    (p : ℕ) (c : Channel) (s : Session)
    → c.frames.closed ≡ false
    → close_channel p c s ≡ handled none (put p (shut c) s)
unfolding close_channel
close_channel_open p c s e = rw e refl

module _ (cbor : Cbor) (p : ℕ) (c : Channel) (f : Frame) (s : Session)
    (here : get_elem? s.heap p ≡ some c) (open_ : c.frames.closed ≡ false) where
  post-Safe :
      (c' : Channel) (s' : Session)
      → c'.local_id ≡ c.local_id
      → c'.frames.closed ≡ c.frames.closed
      → s'.heap ≡ s.heap
      → IsSound s'
      → Safe (post p c' f s')
  post-Safe c' s' same closed heap h =
      let at = ap (λ (x : List Channel). get_elem? x p) heap ∙ here in
      let passed = record c' { frames = record c'.frames { awaited = false; passed = some f } } in
      if_false-Safe c'.frames.closed panicked _ (closed ∙ open_) (
        if-Safe c'.frames.awaited (handled none (put p passed s')) (stuck (put p c' s'))
          (put-IsSound s' p c at passed same closed h) (put-IsSound s' p c at c' same closed h))

  said-Safe :
      (k : Conn)
      → k.ch.local_id ≡ c.local_id
      → k.ch.frames.closed ≡ c.frames.closed
      → IsSound s
      → Safe (close_channel p k.ch (record s { enc = k.enc; chans = delete k.ch.local_id s.chans }))
  unfolding close_channel
  said-Safe k same closed h =
      let h' : IsSound (put p (shut k.ch) (record s { chans = delete k.ch.local_id s.chans })) =
        subst (λ (i : ℕ). IsSound (put p (shut k.ch) (record s { chans = delete i s.chans })))
          (sym same) (forget-IsSound s p c here (shut k.ch) h) in
      if_false-Safe k.ch.frames.closed panicked
        (handled none
          (put p (shut k.ch) (record s { enc = k.enc; chans = delete k.ch.local_id s.chans })))
        (closed ∙ open_) (record { leads = h'.leads; distinct = h'.distinct })

  handle_close-Safe : IsSound s → Safe (handle_close cbor p c s)
  handle_close-Safe h =
      let k = said_close cbor c s in
      let (same, closed) =
        send-id cbor (control_frame channel_close c.remote_id) (record { ch = c; enc = s.enc }) in
      said-Safe k same closed h

  pub handle-Safe : IsSound s → Safe (handle cbor p c f s)
  unfolding handle
  handle-Safe h = if-Safe (f.type_of == channel_data) _ _ (put-IsSound s p c here _ refl refl h) (
      if-Safe (f.type_of == channel_close) _ _ (handle_close-Safe h) (
        if-Safe (f.type_of == channel_eof) _ _ (put-IsSound s p c here _ refl refl h) (
          if-Safe (f.type_of == channel_open_confirm) _ _
            (post-Safe (record c { remote_id = f.sender_id }) s refl refl refl h)
            (if-Safe (f.type_of == channel_open_failure) _ _
              (post-Safe c (record s { chans = delete f.channel_id s.chans }) refl refl refl
                (delete-IsSound f.channel_id s h))
              h))))

to_channel-Safe :
    (cbor : Cbor) (f : Frame) (s : Session)
    → IsSound s
    → Safe (to_channel cbor (lookup f.channel_id s.chans) f s)
to_channel-Safe cbor f s h = go (lookup f.channel_id s.chans) refl
  where
    go : (found : Option ℕ) → lookup f.channel_id s.chans ≡ found → Safe (to_channel cbor found f s)
    go none e = h
    go (some p) e =
        let (c, here, same, open_) = All-lookup (Leads s.heap) f.channel_id p s.chans h.leads e in
        rw here (handle-Safe cbor p c f s here open_ h)

pub dispatch-Safe :
    (cbor : Cbor) (accepts : Bool) (f : Frame) (s : Session)
    → IsSound s
    → Safe (dispatch cbor accepts f s)
unfolding dispatch
dispatch-Safe cbor accepts f s h =
    if-Safe (f.type_of == channel_open) _ _ (handle_open-Safe cbor accepts f s h)
      (to_channel-Safe cbor f s h)

received-Safe :
    (cbor : Cbor) (accepts : Bool) (s : Session) (r : Result Frame × Reader)
    → IsSound s
    → Safe (received cbor accepts s r)
received-Safe cbor accepts s (ok f, r) h =
    dispatch-Safe cbor accepts f (record s { dec = r })
      (record { leads = h.leads; distinct = h.distinct })
received-Safe cbor accepts s (err e, r) h = record { leads = h.leads; distinct = h.distinct }

-- Where the entries of the map have different ids and each leads to a channel of the store that has
-- this id and is not closed, handling a packet, whatever comes, neither panics nor breaks this.
pub one_packet_cbor-Safe :
    (cbor : Cbor) (accepts : Bool) (s : Session) → IsSound s → Safe (one_packet cbor accepts s)
unfolding one_packet
one_packet_cbor-Safe cbor accepts s h = received-Safe cbor accepts s (cbor.decode s.dec) h
