-- ===== src/Mux/Session/Reading.antt =====
-- Handling a message leaves the decoder alone.
use qtalk_go.Base.{
  ℕ, ◌≡◌, refl, Bool, true, false, Option, none, some, Error, Bool-cases, inl, inr, get_elem?, leb,
  length,
}
use qtalk_go.Frame.Message.{
  Message, open_message, open_confirm_message, open_failure_message, window_adjust_message,
  data_message, eof_message, close_message, channel, OpenMessage,
}
use qtalk_go.Frame.Decoder.{Reader}
use qtalk_go.Mux.ChanList.{get_chan}
use qtalk_go.Mux.Channel.{Channel, chan_size}
use qtalk_go.Mux.Window
use qtalk_go.Mux.Window.{Window}
use qtalk_go.Mux.Session.{
  Session, Handled, handled, stuck, panicked, new_channel, offered, bad_packet_size, post,
  close_channel, adjusted, if_expected, confirm, confirmed, said_close, refused, handle,
  handle_open, handle_at, to_channel, dispatch,
}

abbrev pub HasDec : Reader → Handled → Type 0
HasDec d (handled e s) = s.dec ≡ d
HasDec d (stuck s) = Unit
HasDec d panicked = Unit

HasDec-post : (p : ℕ) (c : Channel) (m : Message) (s : Session) → HasDec s.dec (post p c m s)
HasDec-post p c m s = elim (Bool-cases c.msg.closed) [
  | inl e ↦ simp e tt
  | inr e ↦ elim (Bool-cases (leb chan_size (length c.msg.queued))) [
    | inl f ↦ simp (e, f) tt
    | inr f ↦ simp (e, f)
  ]
]

HasDec-close_channel : (p : ℕ) (c : Channel) (s : Session) → HasDec s.dec (close_channel p c s)
unfolding close_channel
HasDec-close_channel p c s = elim (Bool-cases c.msg.closed) [ inl e ↦ simp e tt | inr e ↦ simp e ]

HasDec-if_expected :
    (e : Option Error) (s : Session) (r : Handled)
    → HasDec s.dec r
    → HasDec s.dec (if_expected e s r)
HasDec-if_expected none s r h = h
HasDec-if_expected (some x) s r h = refl

HasDec-adjusted :
    (n p : ℕ) (c : Channel) (s : Session) (x : Window × Bool) → HasDec s.dec (adjusted n p c s x)
HasDec-adjusted n p c s (w, true) = refl
HasDec-adjusted n p c s (w, false) = refl

HasDec-handle : (p : ℕ) (c : Channel) (m : Message) (s : Session) → HasDec s.dec (handle p c m s)
unfolding handle
HasDec-handle p c (data_message m) s = refl
HasDec-handle p c (close_message m) s = HasDec-close_channel p (said_close c s).ch _
HasDec-handle p c (eof_message m) s = refl
HasDec-handle p c (window_adjust_message m) s =
    HasDec-adjusted m.additional_bytes p c s (Window.add m.additional_bytes c.remote_win)
HasDec-handle p c (open_confirm_message m) s =
    HasDec-if_expected _ s (confirm m p c s)
      (elim (Bool-cases (bad_packet_size m.max_packet_size)) [
        | inl e ↦ simp e
        | inr e ↦ simp e (HasDec-post p (confirmed m c) (open_confirm_message m) s)
      ])
HasDec-handle p c (open_failure_message m) s =
    HasDec-if_expected _ s (refused m p c s) (HasDec-post p c _ _)
HasDec-handle p c (open_message m) s = refl

HasDec-offered :
    (accepts : Bool) (m : OpenMessage) (p id : ℕ) (s : Session)
    → HasDec s.dec (offered accepts m p id s)
HasDec-offered true m p id s = refl
HasDec-offered false m p id s = refl

HasDec-handle_open :
    (accepts : Bool) (m : OpenMessage) (s : Session) → HasDec s.dec (handle_open accepts m s)
unfolding handle_open new_channel
HasDec-handle_open accepts m s = elim (Bool-cases (bad_packet_size m.max_packet_size)) [
  | inl e ↦ simp e
  | inr e ↦ simp e (HasDec-offered accepts m _ _ _)
]

HasDec-to_channel :
    (id : ℕ) (o : Option ℕ) (m : Message) (s : Session) → HasDec s.dec (to_channel id o m s)
HasDec-to_channel id none m s = refl
HasDec-to_channel id (some p) m s = go (get_elem? s.heap p)
  where
    go : (c : Option Channel) → HasDec s.dec (handle_at p c m s)
    go none = tt
    go (some c) = HasDec-handle p c m s

pub HasDec-dispatch :
    (accepts : Bool) (m : Message) (s : Session) → HasDec s.dec (dispatch accepts m s)
unfolding dispatch
HasDec-dispatch accepts (open_message m) s = HasDec-handle_open accepts m s
HasDec-dispatch accepts m s = HasDec-to_channel (channel m).0 (get_chan (channel m).0 s.chans) m s
