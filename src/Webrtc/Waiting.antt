-- ===== src/Webrtc/Waiting.antt =====
-- Accept of a session over WebRTC.
use qtalk_go.Base.{
  ◌≡◌, refl, sym, ap, ◌∙◌, Bool, true, false, ◌&&◌, List, [], ◌∷◌, Option, Result, err, Error,
  session_closed, if◌then◌else◌, Bool-cases, inl, inr,
}
use qtalk_go.Rpc.Selector.{same}
use qtalk_go.Webrtc
use qtalk_go.Webrtc.{
  DataChannel, Session, session_label, Accepted, accepted, accept_waits, new, on_open, accept,
  from_done, select_channel, new_channel, close_session,
}

module _ {T P : Type 0} (close_peer : P → Option Error × P) where
  -- The states of a session: it is made, the peer opens data channels, channels are accepted, and it
  -- is closed, in any order and as often as wanted.
  pub data Reached : Session T P → Type 0 where
    made : (peer : P) → Reached (new peer)
    opened : {s : Session T P} → Reached s → (d : DataChannel T) → Reached (on_open d s)
    taken :
        {s s' : Session T P}
        → Reached s
        → (first : Bool) (r : Result (Webrtc.Channel T)) → accept first s ≡ accepted r s'
        → Reached s'
    closed : {s : Session T P} → Reached s → Reached (close_session close_peer s).1

  abbrev session_of : Session T P → Accepted T P → Session T P
  session_of s accept_waits = s
  session_of s (accepted r s') = s'

  on_open-done : (d : DataChannel T) (s : Session T P) → (on_open d s).done ≡ s.done
  unfolding on_open
  on_open-done d s = elim (Bool-cases (same d.label session_label)) [
    | inl b ↦ simp b
    | inr b ↦ simp b
  ]

  -- With `done` open, Accept takes the first channel, or waits.
  select-live :
      (first : Bool) (s : Session T P) (ds : List (DataChannel T))
      → s.done ≡ false
      → (session_of s (select_channel first s ds)).done ≡ false
  select-live first s [] h =
      ap
        (λ (b : Bool).
          (session_of s (if b then accepted (err session_closed) s else accept_waits)).done)
        h
      ∙ h
  select-live first s (d ∷ ds) h =
      ap
        (λ (b : Bool).
          (session_of s (
            if b && (if first then false else true)
            then accepted (err session_closed) s
            else accepted (new_channel d) (record s { channels = ds }))).done)
        h
      ∙ h

  close_session-done : (s : Session T P) → (close_session close_peer s).1.done ≡ s.done
  unfolding close_session
  close_session-done s = refl

  Reached-live : {s : Session T P} → Reached s → s.done ≡ false
  unfolding new accept
  Reached-live (made peer) = refl
  Reached-live (opened {s} r d) = on_open-done d s ∙ Reached-live r
  Reached-live (taken {s} {s'} r first x e) =
      sym (ap (λ (a : Accepted T P). (session_of s a).done) e)
      ∙ select-live first s s.channels (Reached-live r)
  Reached-live (closed {s} r) = close_session-done s ∙ Reached-live r

  -- In every state that a session comes to, also after it was closed, Accept waits as long as there
  -- is no channel to be accepted: it never returns an error of its own.
  pub accept-Waits :
      {s : Session T P}
      → Reached s
      → (first : Bool) → s.channels ≡ []
      → accept first s ≡ accept_waits
  unfolding accept
  accept-Waits {s} r first e =
      ap (select_channel first s) e
      ∙ ap (λ (b : Bool). if b then accepted (err session_closed) s else accept_waits)
          (Reached-live r)
