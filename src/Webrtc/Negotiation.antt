-- ===== src/Webrtc/Negotiation.antt =====
-- Offer and Answer of x/webrtc/webrtc.go, over what the methods of a new peer connection do.
use qtalk_go.Base.{◌≡◌, Bool, true, false, Option, none, some, Result, ok, err, Error}

-- The methods: an error if there is one, and what the connection is then.
pub record Peer (P : Type 0) : Type 0 where
  pub create_data_channel : P → Option Error × P
  pub create_offer : P → Option Error × P
  pub create_answer : P → Option Error × P
  pub set_local_description : P → Option Error × P
  pub set_remote_description : P → Option Error × P
  pub close : P → Option Error × P

-- The connection that is returned, or the error, and the connection that was made before it.
pub data Negotiated (P : Type 0) : Type 0 where
  negotiated : P → Negotiated P
  failed : Error → Option P → Negotiated P

module _ {P : Type 0} (api : Peer P) where
  abbrev pub or_close : (P → Negotiated P) → Option Error × P → Negotiated P
  or_close next (none, p) = next p
  or_close next (some e, p) = failed e (some (api.close p).1)

  abbrev pub set_local : P → Negotiated P
  set_local p = or_close negotiated (api.set_local_description p)

  abbrev pub make_offer : P → Negotiated P
  make_offer p = or_close set_local (api.create_offer p)

  unfoldable pub offer : Result P → Negotiated P
  offer (err e) = failed e none
  offer (ok p) = or_close make_offer (api.create_data_channel p)

  abbrev pub make_answer : P → Negotiated P
  make_answer p = or_close set_local (api.create_answer p)

  unfoldable pub answer : Result P → Negotiated P
  answer (err e) = failed e none
  answer (ok p) = or_close make_answer (api.set_remote_description p)

  -- What is left of a connection: one that is returned is open, and one that is not is closed.
  module _ (is_closed : P → Bool) where
    abbrev pub IsSettled : Negotiated P → Type 0
    IsSettled (negotiated p) = is_closed p ≡ false
    IsSettled (failed e none) = Unit {0}
    IsSettled (failed e (some p)) = is_closed p ≡ true

    -- A method that does not close the connection.
    abbrev pub Keeps : (P → Option Error × P) → Type 0
    Keeps f = (p : P) → is_closed p ≡ false → is_closed (f p).1 ≡ false

    module _ (closes : (p : P) → is_closed (api.close p).1 ≡ true) where
      or_close-IsSettled :
          (next : P → Negotiated P) (r : Option Error × P)
          → is_closed r.1 ≡ false
          → ((p : P) → is_closed p ≡ false → IsSettled (next p))
          → IsSettled (or_close next r)
      or_close-IsSettled next (none, p) h k = k p h
      or_close-IsSettled next (some e, p) h k = closes p

      set_local-IsSettled :
          Keeps api.set_local_description → (p : P) → is_closed p ≡ false → IsSettled (set_local p)
      set_local-IsSettled l p h =
          or_close-IsSettled negotiated (api.set_local_description p) (l p h) (λ q k. k)

      -- Where Close closes a connection and no other method does, Offer and Answer return a new
      -- connection open, and close it whenever they return an error.
      pub offer-answer-IsSettled :
          (p : P)
          → is_closed p ≡ false
          → Keeps api.create_data_channel
          → Keeps api.create_offer
          → Keeps api.create_answer
          → Keeps api.set_local_description
          → Keeps api.set_remote_description
          → IsSettled (offer (ok p)) × IsSettled (answer (ok p))
      unfolding offer answer
      offer-answer-IsSettled p h d o a l r = (
        or_close-IsSettled make_offer (api.create_data_channel p) (d p h) (λ q k.
            or_close-IsSettled set_local (api.create_offer q) (o q k) (set_local-IsSettled l)),
        or_close-IsSettled make_answer (api.set_remote_description p) (r p h) (λ q k.
            or_close-IsSettled set_local (api.create_answer q) (a q k) (set_local-IsSettled l)),
      )
