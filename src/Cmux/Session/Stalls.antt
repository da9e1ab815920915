-- ===== src/Cmux/Session/Stalls.antt =====
-- What the answer to an Open of a session over CBOR frames comes to.
use qtalk_go.Base.{
  ℕ, ◌≡◌, ◌⊎◌, inl, inr, refl, ap, ◌∙◌, Bool, true, false, [], ◌∷◌, ◌++◌, Option, none, some, Error,
  cancelled, open_failed, ◌<◌, arith, length-set, length-append, length, get_elem?, ◌==◌,
  if◌then◌else◌, get_elem?-set_self, add_u32, lookup, insert, delete, lookup-insert,
}
use qtalk_go.Cmux.Channel.{
  Frame, Cbor, Channel, channel_open, channel_open_confirm, channel_open_failure,
}
use qtalk_go.Cmux.Session.{
  Session, Handled, handled, stuck, panicked, put, fresh, post, new_channel, handle, dispatch,
}
use qtalk_go.Cmux.Session.Calls.{
  requested, open_start, opened, not_opened, open_waits, Opened, open_finish,
}

abbrev pub asked_for : Session → Frame
asked_for s = record {
  type_of = channel_open;
  channel_id = 0;
  sender_id = add_u32 s.chan_counter 1;
  payload = [];
}

-- The session and the channel of an Open that waits in its select.
abbrev pub waiting : Session → Channel
waiting s = record (fresh (add_u32 s.chan_counter 1)) {
  frames = record { awaited = true; passed = none; closed = false };
}

-- The session of that Open.
abbrev pub asking : Cbor → Session → Session
asking cbor s = put (length s.heap) (waiting s) (record s {
  chan_counter = add_u32 s.chan_counter 1;
  chans = insert (add_u32 s.chan_counter 1) (length s.heap) s.chans;
  enc = (cbor.encode (asked_for s) s.enc).1;
  heap = s.heap ++ fresh (add_u32 s.chan_counter 1) ∷ [];
})

-- The answer of the peer to it.
abbrev pub IsAnswer : Session → Frame → Type 0
IsAnswer s f =
    (f.channel_id ≡ add_u32 s.chan_counter 1)
    × ((f.type_of ≡ channel_open_confirm) ⊎ (f.type_of ≡ channel_open_failure))

-- What Open returns for an answer.
abbrev pub answer_for : Session → Frame → Opened
answer_for s f =
    if f.type_of == channel_open_confirm then opened (length s.heap) else not_opened open_failed

-- The channel behind an answer, but for `frames`, and that behind one that Open has got.
abbrev confirmed : Frame → Channel → Channel
confirmed f c = record c {
  remote_id = if f.type_of == channel_open_confirm then f.sender_id else c.remote_id;
}

abbrev pub answered : Frame → Channel → Channel
answered f c = record (confirmed f c) {
  frames = record c.frames { awaited = false; passed = some f };
}

-- A failure takes the id of the channel.
abbrev without : Frame → Session → Session
without f s = record s {
  chans = if f.type_of == channel_open_confirm then s.chans else delete f.channel_id s.chans;
}

open_start-asking :
    (cbor : Cbor) (s : Session)
    → (cbor.encode (asked_for s) s.enc).0 ≡ none
    → open_start cbor s ≡ (length s.heap, none, asking cbor s)
unfolding open_start new_channel
open_start-asking cbor s sent =
    ap
      (λ (e : Option Error).
        requested (length s.heap) (add_u32 s.chan_counter 1)
          (e, (cbor.encode (asked_for s) s.enc).1) (new_channel s).2)
      sent

-- `post` on a channel that is not closed, by whether an Open waits.
abbrev post_by : ℕ → Channel → Frame → Session → Bool → Handled
post_by p c f s awaited =
    if awaited
    then handled none
        (put p (record c { frames = record c.frames { awaited = false; passed = some f } }) s)
    else stuck (put p c s)

post_open :
    (p : ℕ) (c : Channel) (f : Frame) (s : Session)
    → c.frames.closed ≡ false
    → post p c f s ≡ post_by p c f s c.frames.awaited
post_open p c f s e = ap (λ (b : Bool). if b then panicked else post_by p c f s c.frames.awaited) e

post_if :
    (p : ℕ) (c : Channel) (f : Frame) (s : Session) (b : Bool)
    → c.frames.awaited ≡ b
    → post_by p c f s c.frames.awaited ≡ post_by p c f s b
post_if p c f s b e = ap (post_by p c f s) e

-- A session in which the channel of the Open of `s` is at the end of the store.
module _ (cbor : Cbor) (s s' : Session) (c : Channel) (f : Frame) (accepts : Bool)
    (found : lookup (add_u32 s.chan_counter 1) s'.chans ≡ some (length s.heap))
    (here : get_elem? s'.heap (length s.heap) ≡ some c) (answer : IsAnswer s f) where
  dispatch_found : dispatch cbor accepts f s' ≡ handle cbor (length s.heap) c f s'
  unfolding dispatch
  dispatch_found = elim answer.1 [
    | inl e ↦ rw (e, answer.0, found, here) refl
    | inr e ↦ rw (e, answer.0, found, here) refl
  ]

  handle_answer :
      handle cbor (length s.heap) c f s' ≡ post (length s.heap) (confirmed f c) f (without f s')
  unfolding handle
  handle_answer = elim answer.1 [ inl e ↦ rw e refl | inr e ↦ rw e refl ]

  pub dispatch_awaited :
      c.frames.closed ≡ false
      → c.frames.awaited ≡ true
      → dispatch cbor accepts f s'
        ≡ handled none (put (length s.heap) (answered f c) (without f s'))
  dispatch_awaited open_ awaited =
      dispatch_found
      ∙ handle_answer
      ∙ post_open (length s.heap) (confirmed f c) f (without f s') open_
      ∙ post_if (length s.heap) (confirmed f c) f (without f s') true awaited

  pub dispatch_left :
      c.frames.closed ≡ false
      → c.frames.awaited ≡ false
      → dispatch cbor accepts f s' ≡ stuck (put (length s.heap) (confirmed f c) (without f s'))
  dispatch_left open_ left =
      dispatch_found
      ∙ handle_answer
      ∙ post_open (length s.heap) (confirmed f c) f (without f s') open_
      ∙ post_if (length s.heap) (confirmed f c) f (without f s') false left

-- The session once the context of the Open has ended.
abbrev pub given_up : Cbor → Session → Session
given_up cbor s = (open_finish true (length s.heap) (waiting s) (asking cbor s)).1

module _ (cbor : Cbor) (s : Session) (f : Frame) (accepts : Bool) (answer : IsAnswer s f) where
  in_store : length s.heap < length (asking cbor s).heap
  in_store = omega (
    arith,
    length-set (s.heap ++ fresh (add_u32 s.chan_counter 1) ∷ []) (length s.heap) (waiting s),
    length-append s.heap (fresh (add_u32 s.chan_counter 1) ∷ []),
  )

  at_end : get_elem? (asking cbor s).heap (length s.heap) ≡ some (waiting s)
  at_end =
      get_elem?-set_self (s.heap ++ fresh (add_u32 s.chan_counter 1) ∷ []) (length s.heap)
        (waiting s) (omega (arith, length-append s.heap (fresh (add_u32 s.chan_counter 1) ∷ [])))

  by_id : lookup (add_u32 s.chan_counter 1) (asking cbor s).chans ≡ some (length s.heap)
  by_id = lookup-insert (add_u32 s.chan_counter 1) (length s.heap) s.chans

  -- Where the open frame is sent, Open waits; the answer of the peer is then passed to it without an
  -- error, and decides what it returns, whether its context has ended since or not.
  pub open-answers :
      (done : Bool)
      → (cbor.encode (asked_for s) s.enc).0 ≡ none
      → (open_start cbor s ≡ (length s.heap, none, asking cbor s))
        × ((open_finish false (length s.heap) (waiting s) (asking cbor s)).0 ≡ open_waits)
        × ((s' : Session) × (c : Channel) × (dispatch cbor accepts f (asking cbor s)
              ≡ handled none s')
            × (get_elem? s'.heap (length s.heap) ≡ some c)
            × ((open_finish done (length s.heap) c s').0 ≡ answer_for s f))
  unfolding open_finish
  open-answers done sent = (
    open_start-asking cbor s sent,
    refl,
    (
      put (length s.heap) (answered f (waiting s)) (without f (asking cbor s)),
      answered f (waiting s),
      dispatch_awaited cbor s (asking cbor s) (waiting s) f accepts by_id at_end answer refl refl,
      get_elem?-set_self (asking cbor s).heap (length s.heap) (answered f (waiting s)) in_store,
      elim answer.1 [ inl e ↦ rw e refl | inr e ↦ rw e refl ],
    ),
  )

  -- Where the open frame is sent and the context of the Open ends before the answer, Open returns
  -- the error of the context, and the answer makes the loop wait for ever: no Open receives it.
  pub open-gives_up :
      (cbor.encode (asked_for s) s.enc).0 ≡ none
      → (open_start cbor s ≡ (length s.heap, none, asking cbor s))
        × ((open_finish true (length s.heap) (waiting s) (asking cbor s)).0 ≡ not_opened cancelled)
        × ((s' : Session) × (dispatch cbor accepts f (given_up cbor s) ≡ stuck s'))
  unfolding open_finish
  open-gives_up sent =
      let left = record (waiting s) {
        frames = record { awaited = false; passed = none; closed = false };
      } in
      (
        open_start-asking cbor s sent,
        refl,
        (
          put (length s.heap) (confirmed f left) (without f (given_up cbor s)),
          dispatch_left cbor s (given_up cbor s) left f accepts by_id
              (get_elem?-set_self (asking cbor s).heap (length s.heap) left in_store) answer refl
              refl,
        ),
      )
