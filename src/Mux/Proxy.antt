-- ===== src/Mux/Proxy.antt =====
-- The loop of Proxy in mux/proxy.go. Channels are numbers; `opens` is what dst.Open returns after a
-- channel was accepted. The copying between two channels runs in goroutines of its own.
use qtalk_go.Base.{ℕ, List, [], ◌∷◌, Option, none, some, Result, ok, err, Error, eof}
pub mod Pairs
pub mod Copying
pub mod Both
mod Tests

pub data ProxyEnd : Type 0 where
  waiting : ProxyEnd
  ended : Option Error → ProxyEnd

-- The pairs of channels that are proxied, and the accepted channel that was closed, if any.
pub record Proxied : Type 0 where
  pub pairs : List (ℕ × ℕ)
  pub closed : List ℕ
  pub end : ProxyEnd

abbrev pub eof_as_nil : Error → Option Error
eof_as_nil eof = none
eof_as_nil e = some e

abbrev pub after_open : ℕ → Proxied → Result ℕ → Proxied
after_open a rest (ok b) = record rest { pairs = (a, b) ∷ rest.pairs }
after_open a rest (err e) = record { pairs = []; closed = a ∷ []; end = ProxyEnd.ended (some e) }

unfoldable pub proxy : (ℕ → Result ℕ) → List (Result ℕ) → Proxied
proxy opens [] = record { pairs = []; closed = []; end = ProxyEnd.waiting }
proxy opens (err e ∷ later) = record {
  pairs = [];
  closed = [];
  end = ProxyEnd.ended (eof_as_nil e);
}
proxy opens (ok a ∷ later) = after_open a (proxy opens later) (opens a)
