-- ===== src/Talk.antt =====
-- talk/dial.go and talk/peer.go: the dialers by the names of their transports, and a peer, which is a
-- session with a client and a mux of handlers.
use qtalk_go.Base.{
  ℕ, Bool, true, false, List, [], ◌∷◌, Option, none, some, Result, ok, err, Error, if◌then◌else◌,
}
use qtalk_go.Frame.Encoder.{Writer}
use qtalk_go.Frame.Decoder.{Reader}
use qtalk_go.Mux.Session.{Session}
use qtalk_go.Mux.Listen.{Transport, tcp, unix, dial_tcp, dial_unix, dial_ws, dial_stdio}
use qtalk_go.Rpc.Selector.{Str, RespondMux, new_respond_mux, same}
pub mod Dialling

-- rpc.Client, and the peer.
pub record Client (S C : Type 0) : Type 0 where
  pub session : S
  pub codec : C

unfoldable pub new_client : {S C : Type 0} → S → C → Client S C
new_client session codec = record { session = session; codec = codec }

pub record Peer (S C : Type 0) : Type 0 where
  pub session : S
  pub client : Client S C
  pub mux : RespondMux
  pub codec : C

unfoldable pub new_peer : {S C : Type 0} → S → C → Peer S C
unfolding new_client
new_peer session codec = record {
  session = session;
  client = new_client session codec;
  mux = new_respond_mux;
  codec = codec;
}

-- Close closes the session of the client; Respond serves the session with the mux and the codec.
unfoldable pub close_peer : {S C R : Type 0} → (S → R) → Peer S C → R
close_peer close p = close p.client.session

unfoldable pub respond_peer : {S C R : Type 0} → (RespondMux → C → S → R) → Peer S C → R
respond_peer serve p = serve p.mux p.codec p.session

-- The Go map of dialers.
abbrev pub Dialers : Type 0 → Type 0
Dialers S = List (Str × (Str → Result S))

module _ {S : Type 0} where
  abbrev pub find : Str → Dialers S → Option (Str → Result S)
  find name [] = none
  find name ((n, d) ∷ ds) = if same n name then some d else find name ds

  abbrev pub without : Str → Dialers S → Dialers S
  without name [] = []
  without name ((n, d) ∷ ds) = if same n name then without name ds else (n, d) ∷ without name ds

  unfoldable pub register : Str → (Str → Result S) → Dialers S → Dialers S
  register name d ds = (name, d) ∷ without name ds

-- What Dial returns; `unavailable` is the error with the name of a transport that is not in the map.
pub data Dialled (S C : Type 0) : Type 0 where
  dialled : Peer S C → Dialled S C
  unavailable : Str → Dialled S C
  not_dialled : Error → Dialled S C

abbrev pub with_session : {S C : Type 0} → C → Result S → Dialled S C
with_session codec (ok s) = dialled (new_peer s codec)
with_session codec (err e) = not_dialled e

abbrev pub with_dialer : {S C : Type 0} → Str → Str → C → Option (Str → Result S) → Dialled S C
with_dialer transport addr codec none = unavailable transport
with_dialer transport addr codec (some d) = with_session codec (d addr)

unfoldable pub dial : {S C : Type 0} → Dialers S → Str → Str → C → Dialled S C
dial dialers transport addr codec = with_dialer transport addr codec (find transport dialers)

-- The dialers of init.
abbrev pub ws : Str
ws = b'w' ∷ b's' ∷ []

abbrev pub stdio : Str
stdio = b's' ∷ b't' ∷ b'd' ∷ b'i' ∷ b'o' ∷ []

abbrev pub builtin :
    (Str → Str → Result Transport)
    → (Str → Str → Str → Result Transport)
    → Writer
    → Reader
    → Dialers Session
builtin net_dial ws_dial stdout stdin =
    (tcp, dial_tcp net_dial)
    ∷ (unix, dial_unix net_dial)
    ∷ (ws, dial_ws ws_dial)
    ∷ (stdio, λ addr. dial_stdio stdout stdin)
    ∷ []
