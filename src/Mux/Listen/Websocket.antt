-- ===== src/Mux/Listen/Websocket.antt =====
-- mux/listen_ws.go: the listener over an HTTP server, whose handler makes a session of each connection
-- and waits to hand it over. The Go channel `accepted` has no buffer: its senders wait in `waiting`,
-- and those that find it closed panic, which ends their connection only. A session is a number.
use mathlib.Core.Path.{subst}
use qtalk_go.Base.{
  ℕ, ◌≡◌, ◌⊎◌, refl, sym, ap, ◌∙◌, Bool, true, false, List, [], ◌∷◌, ◌++◌, Option, none, some,
  Result, ok, err, eof, if◌then◌else◌, append_assoc, inl, inr,
}

pub record WsListener : Type 0 where
  pub handed : List ℕ
  pub waiting : List ℕ
  pub dropped : List ℕ
  pub is_closed : Bool

abbrev pub listen_ws : WsListener
listen_ws = record { handed = []; waiting = []; dropped = []; is_closed = false }

-- The handler of the server, up to its wait for the end of the session.
unfoldable pub connect : ℕ → WsListener → WsListener
connect s l =
    if l.is_closed
    then record l { dropped = l.dropped ++ (s ∷ []) }
    else record l { waiting = l.waiting ++ (s ∷ []) }

pub data Accepted : Type 0 where
  accepted : Result ℕ → WsListener → Accepted
  accept_waits : Accepted

abbrev pub receive : WsListener → List ℕ → Accepted
receive l (s ∷ ss) = accepted (ok s) (record l { handed = l.handed ++ (s ∷ []); waiting = ss })
receive l [] = if l.is_closed then accepted (err eof) l else accept_waits

unfoldable pub accept : WsListener → Accepted
accept l = receive l l.waiting

-- Close; a second one panics.
abbrev pub closed : WsListener → WsListener
closed l = record l { is_closed = true; waiting = []; dropped = l.dropped ++ l.waiting }

unfoldable pub close : WsListener → Option WsListener
close l = if l.is_closed then none else some (closed l)

-- The listener after connections, calls of Accept that return, and a Close, with the sessions that
-- were made so far.
pub data Reached : List ℕ → WsListener → Type 0 where
  listening : Reached [] listen_ws
  connected :
      {made : List ℕ} {l : WsListener}
      → Reached made l
      → (s : ℕ) → Reached (made ++ (s ∷ [])) (connect s l)
  taken :
      {made : List ℕ} {l l' : WsListener}
      → Reached made l
      → (r : Result ℕ) → accept l ≡ accepted r l'
      → Reached made l'
  shut : {made : List ℕ} {l l' : WsListener} → Reached made l → close l ≡ some l' → Reached made l'

-- While the listener is open, every session that was made is handed over or waits, in the order in
-- which they were made; once it is closed none waits, and the others were dropped.
abbrev pub IsKept : List ℕ → WsListener → Type 0
IsKept made l =
    ((l.is_closed ≡ false) × (l.dropped ≡ []) × (l.handed ++ l.waiting ≡ made))
    ⊎ ((l.is_closed ≡ true) × (l.waiting ≡ []) × (l.handed ++ l.dropped ≡ made))

pushed : (s : ℕ) (xs ys made : List ℕ) → xs ++ ys ≡ made → xs ++ (ys ++ (s ∷ [])) ≡ made ++ (s ∷ [])
pushed s xs ys made h = sym (append_assoc xs ys (s ∷ [])) ∙ ap (λ (x : List ℕ). x ++ (s ∷ [])) h

module _ (made : List ℕ) (l : WsListener) where
  connect-IsKept : (s : ℕ) → IsKept made l → IsKept (made ++ (s ∷ [])) (connect s l)
  unfolding connect
  connect-IsKept s (inl (o, d, h)) =
      let q =
        ap
          (λ (b : Bool).
            if b
            then record l { dropped = l.dropped ++ (s ∷ []) }
            else record l { waiting = l.waiting ++ (s ∷ []) })
          o in
      subst (IsKept (made ++ (s ∷ []))) (sym q) (inl (o, d, pushed s l.handed l.waiting made h))
  connect-IsKept s (inr (c, w, h)) =
      let q =
        ap
          (λ (b : Bool).
            if b
            then record l { dropped = l.dropped ++ (s ∷ []) }
            else record l { waiting = l.waiting ++ (s ∷ []) })
          c in
      subst (IsKept (made ++ (s ∷ []))) (sym q) (inr (c, w, pushed s l.handed l.dropped made h))

  abbrev state_of : Accepted → WsListener
  state_of (accepted r l') = l'
  state_of accept_waits = l

  receive-closed : (b : Bool) → state_of (if b then accepted (err eof) l else accept_waits) ≡ l
  receive-closed true = refl
  receive-closed false = refl

  receive-IsKept :
      (ws : List ℕ) → l.waiting ≡ ws → IsKept made l → IsKept made (state_of (receive l ws))
  receive-IsKept [] e k = subst (IsKept made) (sym (receive-closed l.is_closed)) k
  receive-IsKept (s ∷ ss) e (inl (o, d, h)) =
      inl (o, d, append_assoc l.handed (s ∷ []) ss ∙ ap (λ (w : List ℕ). l.handed ++ w) (sym e) ∙ h)
  receive-IsKept (s ∷ ss) e (inr (c, w, h)) = let stuck : s ∷ ss ≡ [] = sym e ∙ w in absurd (cc)

  abbrev left_open : Option WsListener → WsListener
  left_open none = l
  left_open (some l') = l'

  close-IsKept : IsKept made l → IsKept made (left_open (close l))
  unfolding close
  close-IsKept (inl (o, d, h)) =
      let q = ap (λ (b : Bool). left_open (if b then none else some (closed l))) o in
      subst (IsKept made) (sym q)
        (inr (refl, refl, ap (λ (x : List ℕ). l.handed ++ (x ++ l.waiting)) d ∙ h))
  close-IsKept (inr (c, w, h)) =
      let q = ap (λ (b : Bool). left_open (if b then none else some (closed l))) c in
      subst (IsKept made) (sym q) (inr (c, w, h))

Reached-IsKept : {made : List ℕ} {l : WsListener} → Reached made l → IsKept made l
unfolding accept
Reached-IsKept listening = inl (refl, refl, refl)
Reached-IsKept (connected {made} {l} r s) = connect-IsKept made l s (Reached-IsKept r)
Reached-IsKept (taken {made} {l} {l'} r x e) =
    subst (IsKept made) (ap (state_of made l) e)
      (receive-IsKept made l l.waiting refl (Reached-IsKept r))
Reached-IsKept (shut {made} {l} {l'} r e) =
    subst (IsKept made) (ap (left_open made l) e) (close-IsKept made l (Reached-IsKept r))

closed_twice :
    (made : List ℕ) (l : WsListener)
    → IsKept made l
    → l.is_closed ≡ true
    → (accept l ≡ accepted (err eof) l) × (close l ≡ none)
unfolding accept close
closed_twice made l (inl (o, d, h)) c = let b : true ≡ false = sym c ∙ o in absurd (cc)
closed_twice made l (inr (c, w, h)) c' = (
  ap (receive l) w ∙ ap (λ (b : Bool). if b then accepted (err eof) l else accept_waits) c,
  ap (λ (b : Bool). if b then none else some (closed l)) c,
)

-- In every state that the listener comes to, the sessions that were made are those that Accept handed
-- over and behind them, in order, those that wait for an Accept while it is open, or, once it is
-- closed, those that Close has dropped. On a closed listener Accept returns io.EOF and a second Close
-- panics.
pub listen_ws-Keeps :
    {made : List ℕ} {l : WsListener}
    → Reached made l
    → IsKept made l × (l.is_closed ≡ true → (accept l ≡ accepted (err eof) l) × (close l ≡ none))
listen_ws-Keeps {made} {l} r = (Reached-IsKept r, closed_twice made l (Reached-IsKept r))
