-- ===== src/Mux/Proxy/Pairs.antt =====
-- Which channels a Proxy joins, and how it ends.
use qtalk_go.Base.{
  ℕ, ◌≡◌, refl, ap, ◌∙◌, List, [], ◌∷◌, ◌++◌, map, some, append-nil, Result, ok, err, Error, All,
}
use qtalk_go.Mux.Proxy.{Proxied, ended, eof_as_nil, after_open, proxy}

-- The channels that were accepted, each with the one that was opened for it.
abbrev pub joined : (ℕ → ℕ) → List ℕ → List (ℕ × ℕ)
joined f [] = []
joined f (a ∷ later) = (a, f a) ∷ joined f later

module _ (opens : ℕ → Result ℕ) (f : ℕ → ℕ) where
  proxy-append :
      (chs : List ℕ) (later : List (Result ℕ))
      → All (λ a. opens a ≡ ok (f a)) chs
      → proxy opens (map ok chs ++ later)
        ≡ record (proxy opens later) { pairs = joined f chs ++ (proxy opens later).pairs }
  unfolding proxy
  proxy-append [] later h = refl
  proxy-append (a ∷ chs) later h =
      ap (after_open a (proxy opens (map ok chs ++ later))) h.0
      ∙ ap (λ (p : Proxied). after_open a p (ok (f a))) (proxy-append chs later h.1)

  -- Where a channel can be opened for each accepted one until Accept fails, Proxy joins them all in
  -- pairs, closes none, and returns the error of Accept, or none for io.EOF.
  pub proxy-ended :
      (chs : List ℕ) (e : Error) (later : List (Result ℕ))
      → All (λ a. opens a ≡ ok (f a)) chs
      → proxy opens (map ok chs ++ (err e ∷ later))
        ≡ record { pairs = joined f chs; closed = []; end = ended (eof_as_nil e) }
  unfolding proxy
  proxy-ended chs e later h =
      proxy-append chs (err e ∷ later) h
      ∙ ap (λ (ps : List (ℕ × ℕ)). record { pairs = ps; closed = []; end = ended (eof_as_nil e) })
          (append-nil (joined f chs))

  -- Where a channel cannot be opened for an accepted one, Proxy closes that one and returns the
  -- error of Open; the pairs before it stay, and no channel is accepted after it.
  pub proxy-failed :
      (chs : List ℕ) (a : ℕ) (e : Error) (later : List (Result ℕ))
      → All (λ b. opens b ≡ ok (f b)) chs
      → opens a ≡ err e
      → proxy opens (map ok chs ++ (ok a ∷ later))
        ≡ record { pairs = joined f chs; closed = a ∷ []; end = ended (some e) }
  unfolding proxy
  proxy-failed chs a e later h w =
      proxy-append chs (ok a ∷ later) h
      ∙ ap
          (λ (r : Result ℕ). record (after_open a (proxy opens later) r) {
            pairs = joined f chs ++ (after_open a (proxy opens later) r).pairs;
          })
          w
      ∙ ap (λ (ps : List (ℕ × ℕ)). record { pairs = ps; closed = a ∷ []; end = ended (some e) })
          (append-nil (joined f chs))
