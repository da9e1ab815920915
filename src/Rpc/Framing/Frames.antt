-- ===== src/Rpc/Framing/Frames.antt =====
-- What a frame decoder reads back.
use qtalk_go.Base.{
  ℕ, zero, suc, ◌≤◌, ◌<◌, ◌≡◌, ◌⊎◌, inl, inr, refl, sym, ap, ◌∙◌, arith, List, [], ◌∷◌, ◌++◌, none,
  some, Result, ok, err, Error, eof, unexpected_eof, length, take, drop, u32, u32_mod, be_u32,
  be_u32-put_u32, length-append,
}
use qtalk_go.Frame.Decoder.{Reader, split, short, read_full, be_words, field, lift, after}
use qtalk_go.Rpc.Framing.{frame, encode, decode}

split-take :
    (n : ℕ) (b rest : List ℕ)
    → n ≤ length b
    → split n (b ++ rest) ≡ some (take n b, drop n b ++ rest)
split-take zero b rest h = refl
split-take (suc n) [] rest h = absurd (omega arith)
split-take (suc n) (x ∷ b) rest h = rw (split-take n b rest (omega arith))

split-none : (n : ℕ) (xs : List ℕ) → length xs < n → split n xs ≡ none
split-none zero xs h = absurd (omega arith)
split-none (suc n) [] h = refl
split-none (suc n) (x ∷ xs) h = rw (split-none n xs (omega arith))

read_full-take :
    (n : ℕ) (b rest : List ℕ) (e : Error)
    → n ≤ length b
    → read_full n (record { rest = b ++ rest; fault = e })
      ≡ (ok (take n b), record { rest = drop n b ++ rest; fault = e })
unfolding read_full
read_full-take n b rest e h = rw (split-take n b rest h, read_full) refl

read_full-short :
    (n : ℕ) (xs : List ℕ)
    → length xs < n
    → read_full n (record { rest = xs; fault = eof })
      ≡ (err (short xs eof), record { rest = []; fault = eof })
unfolding read_full
read_full-short n xs h = rw (split-none n xs h, read_full) refl

short_eof : (xs : List ℕ) → (short xs eof ≡ eof) ⊎ (short xs eof ≡ unexpected_eof)
short_eof [] = inl refl
short_eof (x ∷ xs) = inr refl

take_all : (n : ℕ) (b : List ℕ) → n ≡ length b → (take n b ≡ b) × (drop n b ≡ [])
take_all zero [] h = (refl, refl)
take_all zero (x ∷ b) h = absurd (omega arith)
take_all (suc n) [] h = (refl, refl)
take_all (suc n) (x ∷ b) h =
    let (t, d) = take_all n b (omega arith) in (ap (λ (y : List ℕ). x ∷ y) t, d)

module _ {A : Type 0} (dec : List ℕ → Result A) where
  -- A frame of any length, whatever follows it: the decoder sees as many of its bytes as its length
  -- is modulo 2^32, and what is over is left in front of what follows.
  pub decode-frame :
      (b rest : List ℕ) (e : Error)
      → decode dec (record { rest = frame b ++ rest; fault = e }) ≡ (
        dec (take (u32 (length b)) b),
        record { rest = drop (u32 (length b)) b ++ rest; fault = e },
      )
  unfolding decode read_full
  decode-frame b rest e =
      ap
        (λ (n : ℕ).
          after (λ (buf : List ℕ). lift (dec buf))
            (read_full n (record { rest = b ++ rest; fault = e })))
        (be_u32-put_u32 (u32 (length b)) (omega arith))
      ∙ ap (after (λ (buf : List ℕ). lift (dec buf)))
          (read_full-take (u32 (length b)) b rest e (omega arith))

  -- A frame of fewer than 2^32 bytes that the end of the stream cuts short is io.EOF or
  -- io.ErrUnexpectedEOF, and no value.
  pub decode_cut :
      (b front back : List ℕ) (x : ℕ)
      → length b < u32_mod
      → frame b ≡ front ++ (x ∷ back)
      → (e : Error) × (r : Reader) × (decode dec (record { rest = front; fault = eof })
          ≡ (err e, r))
        × ((e ≡ eof) ⊎ (e ≡ unexpected_eof))
  unfolding decode read_full
  decode_cut b [] back x h w = (eof, record { rest = []; fault = eof }, refl, inl refl)
  decode_cut b (p ∷ []) back x h w =
      (unexpected_eof, record { rest = []; fault = eof }, refl, inr refl)
  decode_cut b (p ∷ q ∷ []) back x h w =
      (unexpected_eof, record { rest = []; fault = eof }, refl, inr refl)
  decode_cut b (p ∷ q ∷ r ∷ []) back x h w =
      (unexpected_eof, record { rest = []; fault = eof }, refl, inr refl)
  decode_cut b (p ∷ q ∷ r ∷ s ∷ front) back x h w =
      let size : be_u32 p q r s ≡ length b =
        sym (ap (λ (l : List ℕ). field (be_words l) 0) w)
        ∙ be_u32-put_u32 (u32 (length b)) (omega arith)
        ∙ omega arith in
      let left : length b ≡ length (front ++ (x ∷ back)) =
        ap (λ (l : List ℕ). length (drop 4 l)) w in
      let few : length front < be_u32 p q r s = omega (arith, length-append front (x ∷ back)) in
      (
        short front eof,
        record { rest = []; fault = eof },
        ap (after (λ (buf : List ℕ). lift (dec buf))) (read_full-short (be_u32 p q r s) front few),
        short_eof front,
      )

-- A value that the codec writes in less than 2^32 bytes and reads back.
abbrev pub IsCarried : {A : Type 0} → (A → Result (List ℕ)) → (List ℕ → Result A) → A → Type 0
IsCarried enc dec v = (b : List ℕ) × (enc v ≡ ok b) × (length b < u32_mod) × (dec b ≡ ok v)

abbrev pub frame_of : Result (List ℕ) → List ℕ
frame_of (ok b) = frame b
frame_of (err e) = []

module _ {A : Type 0} (enc : A → Result (List ℕ)) (dec : List ℕ → Result A) where
  -- What a carried value puts on a writer that does not fail.
  pub encode-written :
      (v : A) (done : List ℕ)
      → IsCarried enc dec v
      → encode enc v (record { written = done; fault = none })
        ≡ (ok tt, record { written = done ++ frame_of (enc v); fault = none })
  unfolding encode
  encode-written v done (b, e, l, d) = rw e refl

  -- A value that the codec writes in fewer than 2^32 bytes and reads back comes back from its
  -- frame, and what follows the frame is left.
  pub decode-encode :
      (v : A) (rest : List ℕ) (e : Error)
      → IsCarried enc dec v
      → decode dec (record { rest = frame_of (enc v) ++ rest; fault = e })
        ≡ (ok v, record { rest = rest; fault = e })
  decode-encode v rest e (b, w, l, d) =
      let (t, u) = take_all (u32 (length b)) b (omega arith) in
      rw w (decode-frame dec b rest e ∙ rw (t, u, d) refl)
