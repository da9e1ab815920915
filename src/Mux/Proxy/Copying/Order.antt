-- ===== src/Mux/Proxy/Copying/Order.antt =====
-- The copying loses and reorders nothing, and comes to an end.
use qtalk_go.Base.{ℕ, ◌<◌, ◌≡◌, ◌≢◌, ◌⊎◌, List, [], ◌++◌, none, length}
use qtalk_go.Mux.Buffer
use qtalk_go.Mux.Buffer.Queue.{contents, joined}
use qtalk_go.Mux.Channel.{Conn}
use qtalk_go.Mux.Channel.Sending.{frames, Writes}
use qtalk_go.Mux.Channel.FlowControl.{IsBalanced}
use qtalk_go.Mux.Proxy.Copying.{Copied, copied, no_data, no_window, copy_again}

-- From two channels to two others: what was sent, what is in hand and what waits to be read is what
-- waited to be read, in order, and what was sent is in data frames of the other channel.
pub record Passes (src dst : Conn) (hand : List ℕ) (src' dst' : Conn) : Type 0 where
  pub chunks : List (List ℕ)
  pub in_order : joined chunks ++ (hand ++ contents src'.ch.pending) ≡ contents src.ch.pending
  pub written : dst'.enc.written ≡ dst.enc.written ++ frames dst.ch.remote_id chunks
  pub same_id : dst'.ch.remote_id ≡ dst.ch.remote_id
  pub same_limit : dst'.ch.max_remote_payload ≡ dst.ch.max_remote_payload
  pub balanced : IsBalanced src'.ch

-- What holds of the outcome; a round that goes on has left less to read.
abbrev pub Copies : Conn → Conn → Copied → Type 0
Copies src dst (copied e lost src' dst') =
    Passes src dst lost src' dst' × ((e ≢ none) ⊎ (lost ≡ []))
Copies src dst (no_data src' dst') = Passes src dst [] src' dst'
Copies src dst (no_window hand src' dst') = Passes src dst hand src' dst'
Copies src dst (copy_again src' dst') =
    Passes src dst [] src' dst'
    × (length (contents src'.ch.pending) < length (contents src.ch.pending))

-- The copying has come to a place where it ends or waits.
abbrev pub Rests : Copied → Type 0
Rests (copy_again src dst) = ⊥
Rests c = Unit
