-- ===== src/Rpc/Framing.antt =====
-- rpc/frame.go. The codec that a frame wraps is a parameter: `enc` writes a value into a buffer,
-- `dec` reads one from a buffer. The lock-free encoder and decoder stand on the writer and the
-- reader of mux/frame's model.
use qtalk_go.Base.{
  ℕ, zero, suc, ◌+◌, ◌≤◌, ◌<◌, ◌≡◌, refl, sym, ap, ◌∙◌, arith, List, [], ◌∷◌, ◌++◌, Option, none,
  some, Result, ok, err, length, take, drop, u32, u32_mod, put_u32,
}
use qtalk_go.Frame.Encoder.{Writer, write}
use qtalk_go.Frame.Decoder.{Reader, Read, ◌>>=◌, lift, read_full, be_words, field}
pub mod Frames

-- The bytes of one frame: the length of the value as a uint32, then the value.
abbrev pub frame : List ℕ → List ℕ
frame b = put_u32 (u32 (length b)) ++ b

abbrev pub write_frame : Writer → Result (List ℕ) → Result (Unit {0}) × Writer
write_frame w (err e) = (err e, w)
write_frame w (ok b) = write w.fault w.written (frame b)

unfoldable pub encode :
    {A : Type 0} → (A → Result (List ℕ)) → A → Writer → Result (Unit {0}) × Writer
encode enc v w = write_frame w (enc v)

unfoldable pub decode : {A : Type 0} → (List ℕ → Result A) → Read A
decode dec = do prefix ← read_full 4; buf ← read_full (field (be_words prefix) 0); lift (dec buf)
