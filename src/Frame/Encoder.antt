-- ===== src/Frame/Encoder.antt =====
-- mux/frame/encoder.go. The lock makes an Encode one step; the writer is the list of what it was
-- given, and the error with which it refuses to write, if it does.
use qtalk_go.Base.{ℕ, List, ◌++◌, Option, none, some, Result, ok, err, Error}
use qtalk_go.Frame.Message.{Message, bytes}

pub record Writer : Type 0 where
  pub written : List ℕ
  pub fault : Option Error

-- w.Write of an io.Writer, by cases on its fault.
abbrev pub write : Option Error → List ℕ → List ℕ → Result (Unit {0}) × Writer
write none done p = (ok tt, record { written = done ++ p; fault = none })
write (some e) done p = (err e, record { written = done; fault = some e })

unfoldable pub encode : Message → Writer → Result (Unit {0}) × Writer
encode msg w = write w.fault w.written (bytes msg)
