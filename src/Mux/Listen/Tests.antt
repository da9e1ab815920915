-- ===== src/Mux/Listen/Tests.antt =====
-- A listener over WebSockets: two connections, one Accept, a Close and a late connection.
use qtalk_go.Base.{◌≡◌, refl, true, false, [], ◌∷◌, none, ok, err, eof}
use qtalk_go.Mux.Listen.Websocket.{
  WsListener, IsKept, Reached, listening, connected, taken, shut, accept, accepted, connect, close,
  listen_ws-Keeps,
}

abbrev last : WsListener
last = record { handed = 7 ∷ []; waiting = []; dropped = 8 ∷ 9 ∷ []; is_closed = true }

abbrev open_listener : WsListener
open_listener = record { handed = 7 ∷ []; waiting = 8 ∷ []; dropped = []; is_closed = false }

abbrev closed_listener : WsListener
closed_listener = record { handed = 7 ∷ []; waiting = []; dropped = 8 ∷ []; is_closed = true }

reached : Reached (7 ∷ 8 ∷ 9 ∷ []) last
unfolding accept connect close
reached =
    connected
      (shut {l' = closed_listener}
        (taken {l' = open_listener} (connected (connected listening 7) 8) (ok 7) refl) refl)
      9

listen_ws-Keeps_example :
    IsKept (7 ∷ 8 ∷ 9 ∷ []) last
    × (last.is_closed ≡ true → (accept last ≡ accepted (err eof) last) × (close last ≡ none))
listen_ws-Keeps_example = listen_ws-Keeps reached
