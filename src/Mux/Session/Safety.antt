-- ===== src/Mux/Session/Safety.antt =====
-- Handling packets, the loop and its end never panic.
use native.Mathlib.Decide.{ℕ_discrete}
use qtalk_go.Base.{
  ℕ, suc, ◌+◌, ◌<◌, ◌≡◌, ◌≢◌, ◌⊎◌, inl, inr, refl, sym, ap, ◌∙◌, arith, Bool, true, false, [], ◌∷◌,
  ◌++◌, Option, none, some, Error, u32_mod, length, get_elem?, set, get_elem?-set_self,
  get_elem?-set_ne, get_elem?-lt, get_elem?-append_left, get_elem?-append_self, get_elem?-same,
  Bool-cases, leb,
}
use qtalk_go.Frame.Message.{
  Message, open_message, open_confirm_message, open_failure_message, window_adjust_message,
  data_message, eof_message, close_message, channel, OpenMessage, DataMessage, OpenConfirmMessage,
  OpenFailureMessage,
}
use qtalk_go.Mux.ChanList
use qtalk_go.Mux.ChanList.{ChanList, get_chan, remove}
use qtalk_go.Mux.ChanList.Slots.{get_chan-remove, get_chan-add, length-add, length-remove}
use qtalk_go.Mux.Channel.{
  Channel, Conn, Direction, send, shut, handle_data, channel_inbound, response_message_received,
  chan_size,
}
use qtalk_go.Mux.Window.{Window}
use qtalk_go.Frame.Encoder.{Writer}
use qtalk_go.Mux.Session.{
  Session, Handled, handled, stuck, panicked, put, fresh, new_channel, encode_on, offered,
  handle_open, post, close_channel, adjusted, said_close, confirmed, confirm, refused,
  bad_packet_size, if_expected, handle,
}

-- Every id leads to a channel of the store that has this id and an open mailbox; and there is room
-- for `n` more ids.
pub record IsSound (n : ℕ) (s : Session) : Type 0 where
  pub room : length s.chans.chans + n < u32_mod
  pub at :
      (id p : ℕ)
      → get_chan id s.chans ≡ some p
      → (c : Channel) × (get_elem? s.heap p ≡ some c) × (c.local_id ≡ id) × (c.msg.closed ≡ false)

abbrev pub Safe : ℕ → Handled → Type 0
Safe n (handled e s) = IsSound n s
Safe n (stuck s) = IsSound n s
Safe n panicked = ⊥

get_chan-remove-some :
    (l id q : ℕ) (c : ChanList ℕ)
    → length c.chans < u32_mod
    → get_chan id (remove l c) ≡ some q
    → (get_chan id c ≡ some q) × (id ≢ l)
get_chan-remove-some l id q c h e = ground (arith, get_chan-remove l id c h)

get_chan-add_cases :
    (ch id q : ℕ) (c : ChanList ℕ)
    → length c.chans + 1 < u32_mod
    → get_chan id (ChanList.add ch c).0 ≡ some q
    → ((id ≡ (ChanList.add ch c).1) × (q ≡ ch)) ⊎ (get_chan id c ≡ some q)
get_chan-add_cases ch id q c h e = ground (arith, (get_chan-add ch c h).1 id)

pub IsSound-weaken : (n : ℕ) (s : Session) → IsSound (suc n) s → IsSound n s
IsSound-weaken n s h = record { room = omega (arith, h.room); at = h.at }

module _ (n : ℕ) (s : Session) (p : ℕ) (c : Channel) (here : get_elem? s.heap p ≡ some c) where
  -- A change of a channel that keeps its id and its mailbox open.
  put-IsSound :
      (c' : Channel)
      → c'.local_id ≡ c.local_id
      → c'.msg.closed ≡ c.msg.closed
      → IsSound n s
      → IsSound n (put p c' s)
  put-IsSound c' same open_ h = record { room = h.room; at = found }
    where
      found :
          (id q : ℕ)
          → get_chan id s.chans ≡ some q
          → (d : Channel) × (get_elem? (set s.heap p c') q ≡ some d)
            × (d.local_id ≡ id)
            × (d.msg.closed ≡ false)
      found id q e =
          let (d, at_q, id_q, open_q) = h.at id q e in
          elim (ℕ_discrete p q) [
            | yes eq ↦
                let e_cd = get_elem?-same s.heap p q c d here at_q eq in
                (
                  c',
                  rw (← eq) (get_elem?-set_self s.heap p c' (get_elem?-lt s.heap p c here)),
                  same ∙ ap (λ (x : Channel). x.local_id) e_cd ∙ id_q,
                  open_ ∙ ap (λ (x : Channel). x.msg.closed) e_cd ∙ open_q,
                )
            | no ne ↦ (d, get_elem?-set_ne s.heap c' ne ∙ at_q, id_q, open_q)
          ]

  -- A channel that has no id any more may be changed at will.
  forget-IsSound :
      (c' : Channel)
      → IsSound n s
      → IsSound n (put p c' (record s { chans = remove c.local_id s.chans }))
  forget-IsSound c' h = record {
    room = omega (arith, h.room, length-remove c.local_id s.chans);
    at = found;
  }
    where
      found :
          (id q : ℕ)
          → get_chan id (remove c.local_id s.chans) ≡ some q
          → (d : Channel) × (get_elem? (set s.heap p c') q ≡ some d)
            × (d.local_id ≡ id)
            × (d.msg.closed ≡ false)
      found id q e =
          let (kept, other) =
            get_chan-remove-some c.local_id id q s.chans (omega (arith, h.room)) e in
          let (d, at_q, id_q, open_q) = h.at id q kept in
          let ne : p ≢ q = λ eq. other (
            sym id_q
            ∙ sym
                (ap (λ (x : Channel). x.local_id) (get_elem?-same s.heap p q c d here at_q eq))) in
          (d, get_elem?-set_ne s.heap c' ne ∙ at_q, id_q, open_q)

-- Fields that the invariant mentions, and these do not change.
send-id :
    (m : Message) (k : Conn)
    → ((send m k).1.ch.local_id ≡ k.ch.local_id) × ((send m k).1.ch.msg.closed ≡ k.ch.msg.closed)
unfolding send
send-id m k = ground arith

handle_data-id :
    (m : DataMessage) (c : Channel)
    → ((handle_data m c).1.local_id ≡ c.local_id) × ((handle_data m c).1.msg.closed ≡ c.msg.closed)
unfolding handle_data
handle_data-id m c = ground arith

-- An open mailbox is closed, or takes a message or waits; none of these panics.
pub close_channel_open :
    (p : ℕ) (c : Channel) (s : Session)
    → c.msg.closed ≡ false
    → close_channel p c s ≡ handled none (put p (shut c) s)
unfolding close_channel
close_channel_open p c s e = simp e

post-Safe :
    (n p : ℕ) (c : Channel) (m : Message) (s : Session)
    → c.msg.closed ≡ false
    → IsSound n (put p c s)
    → IsSound n (put p (record c { msg = record c.msg { queued = c.msg.queued ++ m ∷ [] } }) s)
    → Safe n (post p c m s)
post-Safe n p c m s e h k = elim (Bool-cases (leb chan_size (length c.msg.queued))) [
  | inl full ↦ simp (e, full) h
  | inr space ↦ simp (e, space) (simp e at k)
]

if_expected-Safe :
    (n : ℕ) (e : Option Error) (s : Session) (r : Handled)
    → IsSound n s
    → Safe n r
    → Safe n (if_expected e s r)
if_expected-Safe n none s r h k = k
if_expected-Safe n (some x) s r h k = h

module _ (n : ℕ) (s : Session) (p : ℕ) (c : Channel) (here : get_elem? s.heap p ≡ some c)
    (open_ : c.msg.closed ≡ false) (h : IsSound n s) where
  adjusted-Safe : (k : ℕ) (r : Window × Bool) → Safe n (adjusted k p c s r)
  adjusted-Safe k (w, true) = put-IsSound n s p c here _ refl refl h
  adjusted-Safe k (w, false) = put-IsSound n s p c here _ refl refl h

  closed-Safe :
      (k : Conn) (w : Writer)
      → k.ch.msg.closed ≡ false
      → Safe n (close_channel p k.ch (record s { enc = w; chans = remove c.local_id s.chans }))
  closed-Safe k w e =
      let done = forget-IsSound n s p c here (shut k.ch) h in
      rw (close_channel_open p k.ch _ e) (record { room = done.room; at = done.at })

  confirm-Safe : (m : OpenConfirmMessage) → Safe n (confirm m p c s)
  confirm-Safe m = elim (Bool-cases (bad_packet_size m.max_packet_size)) [
    | inl bad ↦ simp bad h
    | inr good ↦ simp good (
        post-Safe n p (confirmed m c) (open_confirm_message m) s open_
          (put-IsSound n s p c here _ refl refl h) (put-IsSound n s p c here _ refl refl h))
  ]

  refused-Safe : (m : OpenFailureMessage) → m.channel_id ≡ c.local_id → Safe n (refused m p c s)
  refused-Safe m e = rw e (
      post-Safe n p c _ _ open_ (forget-IsSound n s p c here c h) (forget-IsSound n s p c here _ h))

  pub handle-Safe : (m : Message) → (channel m).0 ≡ c.local_id → Safe n (handle p c m s)
  unfolding handle channel
  handle-Safe (data_message m) e =
      put-IsSound n s p c here _ (handle_data-id m c).0 (handle_data-id m c).1 h
  handle-Safe (close_message m) e =
      closed-Safe (said_close c s) _ ((send-id _ (record { ch = c; enc = s.enc })).1 ∙ open_)
  handle-Safe (eof_message m) e = put-IsSound n s p c here _ refl refl h
  handle-Safe (window_adjust_message m) e = adjusted-Safe _ _
  handle-Safe (open_confirm_message m) e =
      if_expected-Safe n (response_message_received c.direction) s (confirm m p c s) h
        (confirm-Safe m)
  handle-Safe (open_failure_message m) e =
      if_expected-Safe n (response_message_received c.direction) s (refused m p c s) h
        (refused-Safe m e)
  handle-Safe (open_message m) e = h

encode_on-Safe : (n : ℕ) (m : Message) (s : Session) → IsSound n s → Safe n (encode_on m s)
encode_on-Safe n m s h = record { room = h.room; at = h.at }

module _ (n : ℕ) (d : Direction) (s : Session) (h : IsSound (suc n) s) where
  new_channel-here :
      get_elem? (new_channel d s).2.heap (new_channel d s).0 ≡ some (fresh d (new_channel d s).1)
  unfolding new_channel
  new_channel-here = get_elem?-append_self s.heap _

  -- The id of a new channel was free, so it leads to the new channel and the others to theirs.
  new_channel-IsSound : IsSound n (new_channel d s).2
  unfolding new_channel
  new_channel-IsSound = record { room = omega (arith, h.room, length-add p s.chans); at = found }
    where
      p : ℕ
      p = length s.heap

      found :
          (id q : ℕ)
          → get_chan id (ChanList.add p s.chans).0 ≡ some q
          → (c : Channel) × (get_elem? (new_channel d s).2.heap q ≡ some c)
            × (c.local_id ≡ id)
            × (c.msg.closed ≡ false)
      found id q e = elim (get_chan-add_cases p id q s.chans (omega (arith, h.room)) e) [
        | inl (at_new, new) ↦ (
          fresh d (ChanList.add p s.chans).1,
          rw new (get_elem?-append_self s.heap _),
          sym at_new,
          refl,
        )
        | inr old ↦
            let (c, at_q, id_q, open_q) = h.at id q old in
            (c, get_elem?-append_left s.heap _ q c at_q, id_q, open_q)
      ]

offered-Safe :
    (n : ℕ) (accepts : Bool) (m : OpenMessage) (p id : ℕ) (s : Session)
    → IsSound n s
    → Safe n (offered accepts m p id s)
offered-Safe n true m p id s h = record { room = h.room; at = h.at }
offered-Safe n false m p id s h = record { room = h.room; at = h.at }

pub handle_open-Safe :
    (n : ℕ) (accepts : Bool) (m : OpenMessage) (s : Session)
    → IsSound (suc n) s
    → Safe n (handle_open accepts m s)
unfolding handle_open
handle_open-Safe n accepts m s h = elim (Bool-cases (bad_packet_size m.max_packet_size)) [
  | inl bad ↦ simp bad (encode_on-Safe n _ s (IsSound-weaken n s h))
  | inr good ↦ simp good (
      offered-Safe n accepts m _ _ _ (
        put-IsSound n _ _ _ (new_channel-here n channel_inbound s h) _ refl refl
          (new_channel-IsSound n channel_inbound s h)))
]
