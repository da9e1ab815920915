-- ===== src/Mux/Channel/Sending.antt =====
-- What a Write has sent, and what it promises.
use mathlib.Core.List.{flat_map}
use qtalk_go.Base.{
  ℕ, ◌+◌, ◌≤◌, ◌<◌, ◌≡◌, ◌⊎◌, inl, inr, refl, sym, ◌∙◌, arith, false, List, [], ◌∷◌, ◌++◌, none,
  some, Error, ok, err, All, length, append-nil, append_assoc, Option-cases,
}
use qtalk_go.Frame.Message.{Message, bytes}
use qtalk_go.Frame.Encoder.{Writer, encode}
use qtalk_go.Mux.Buffer.Queue.{joined}
use qtalk_go.Mux.Channel.{Conn, WriteResult, write_done, write_waits, write_again, data_frame}

abbrev pub frames : ℕ → List (List ℕ) → List ℕ
frames id = flat_map (λ c. bytes (data_frame id c))

-- From one state to another, a Write has sent some of its bytes: in frames for the peer's channel,
-- none of them empty or longer than the peer allows, in order, and all taken from the window.
pub record Sent (input : List ℕ) (k : Conn) (rest : List ℕ) (k' : Conn) : Type 0 where
  pub chunks : List (List ℕ)
  pub in_order : joined chunks ++ rest ≡ input
  pub sized : All (λ c. (0 < length c) × (length c ≤ k.ch.max_remote_payload)) chunks
  pub written : k'.enc.written ≡ k.enc.written ++ frames k.ch.remote_id chunks
  pub window : k'.ch.remote_win.win + length (joined chunks) ≤ k.ch.remote_win.win
  pub same_id : k'.ch.remote_id ≡ k.ch.remote_id
  pub same_limit : k'.ch.max_remote_payload ≡ k.ch.max_remote_payload

-- What Write promises of its result, with `n` bytes sent before.
abbrev pub Writes : ℕ → List ℕ → Conn → WriteResult → Type 0
Writes n input k (write_done n' e k') =
    (rest : List ℕ) × Sent input k rest k'
    × (n' + length rest ≡ n + length input)
    × (((e ≡ none) × (rest ≡ [])) ⊎ ((x : Error) × (e ≡ some x) × (0 < length rest)))
Writes n input k (write_waits n' rest k') =
    Sent input k rest k'
    × (n' + length rest ≡ n + length input)
    × (0 < length rest)
    × (k'.ch.remote_win.win ≡ 0)
    × (k'.ch.remote_win.closed ≡ false)
Writes n input k (write_again n' rest k') =
    Sent input k rest k' × (n' + length rest ≡ n + length input) × (length rest < length input)

pub frames-append :
    (id : ℕ) (cs ds : List (List ℕ)) → frames id (cs ++ ds) ≡ frames id cs ++ frames id ds
unfolding flat_map
frames-append id [] ds = refl
frames-append id (c ∷ cs) ds = rw (frames-append id cs ds, append_assoc)

pub frames-single : (id : ℕ) (c : List ℕ) → frames id (c ∷ []) ≡ bytes (data_frame id c)
unfolding flat_map
frames-single id c = append-nil (bytes (data_frame id c))

pub Sent-none :
    (input : List ℕ) (k k' : Conn)
    → k'.enc.written ≡ k.enc.written
    → k'.ch.remote_win.win ≤ k.ch.remote_win.win
    → k'.ch.remote_id ≡ k.ch.remote_id
    → k'.ch.max_remote_payload ≡ k.ch.max_remote_payload
    → Sent input k input k'
unfolding flat_map
Sent-none input k k' w l i m = record {
  chunks = [];
  in_order = refl;
  sized = tt;
  written = w ∙ sym (append-nil k.enc.written);
  window = omega arith;
  same_id = i;
  same_limit = m;
}

-- An encoder whose writer fails has written nothing.
pub encode_cases :
    (m : Message) (w : Writer)
    → (encode m w ≡ (ok tt, record { written = w.written ++ bytes m; fault = none }))
      ⊎ ((x : Error) × (encode m w ≡ (err x, w)))
unfolding encode
encode_cases m w = elim (Option-cases w.fault) [
  | inl e ↦ inl (rw (e, encode))
  | inr (x, e) ↦ inr (x, rw (e, encode))
]
