-- ===== src/Frame/Truncation.antt =====
-- A stream that ends inside a frame never yields a message.
use qtalk_go.Base.{
  ℕ, zero, suc, ◌≡◌, ◌⊎◌, inl, inr, refl, sym, ap, ◌∙◌, arith, List, [], ◌∷◌, ◌++◌, some, length,
  length-append, append-nil, Error, Result, eof, unexpected_eof, ok, err, Option-cases,
}
use qtalk_go.Frame.Message.{Message, data_message, bytes, IsWellFormed}
use qtalk_go.Frame.Decoder.{
  Reader, Read, split, read_full, read_num, read_body, decode, ◌>>=◌, return, lift, after, short,
  first_byte, reset_as_eof, field,
}
use qtalk_go.Frame.RoundTrip.{decode-bytes}

-- The reader with more bytes behind what it holds.
abbrev extend : Reader → List ℕ → Reader
extend r ys = record r { rest = r.rest ++ ys }

-- What a step does with a reader that ends, beside what it does with more bytes behind it: it has
-- succeeded, or refused what it read, in the same way, or it was cut short.
data Outcome {A : Type 0} (m : Read A) (r : Reader) (ys : List ℕ) : Type 0 where
  good :
      (a : A) (r' : Reader)
      → m r ≡ (ok a, r')
      → m (extend r ys) ≡ (ok a, extend r' ys)
      → r'.fault ≡ eof
      → Outcome m r ys
  bad :
      (e : Error) (r' : Reader)
      → m r ≡ (err e, r')
      → m (extend r ys) ≡ (err e, extend r' ys)
      → Outcome m r ys
  cut :
      (e : Error) (r' : Reader)
      → m r ≡ (err e, r')
      → (e ≡ eof) ⊎ (e ≡ unexpected_eof)
      → Outcome m r ys

record Streams {A : Type 0} (m : Read A) : Type 0 where
  at : (r : Reader) (ys : List ℕ) → r.fault ≡ eof → Outcome m r ys

Streams-return : {A : Type 0} (a : A) → Streams (return a)
Streams-return a = record { at = λ r ys h. good a r refl refl h }

Outcome-after :
    {A B : Type 0} (m : Read A) (f : A → Read B) (r : Reader) (ys : List ℕ) (a : A) (r' : Reader)
    → m r ≡ (ok a, r')
    → m (extend r ys) ≡ (ok a, extend r' ys)
    → Outcome (f a) r' ys
    → Outcome (m >>= f) r ys
Outcome-after m f r ys a r' e e' (good b r'' x x' h) =
    good b r'' (ap (after f) e ∙ x) (ap (after f) e' ∙ x') h
Outcome-after m f r ys a r' e e' (bad b r'' x x') =
    bad b r'' (ap (after f) e ∙ x) (ap (after f) e' ∙ x')
Outcome-after m f r ys a r' e e' (cut b r'' x h) = cut b r'' (ap (after f) e ∙ x) h

Outcome-bind :
    {A B : Type 0} (m : Read A) (f : A → Read B) (r : Reader) (ys : List ℕ)
    → Outcome m r ys
    → ((a : A) → Streams (f a))
    → Outcome (m >>= f) r ys
Outcome-bind m f r ys (good a r' e e' h) k = Outcome-after m f r ys a r' e e' ((k a).at r' ys h)
Outcome-bind m f r ys (bad x r' e e') k = bad x r' (ap (after f) e) (ap (after f) e')
Outcome-bind m f r ys (cut x r' e h) k = cut x r' (ap (after f) e) h

Streams-bind :
    {A B : Type 0} (m : Read A) (f : A → Read B)
    → Streams m
    → ((a : A) → Streams (f a))
    → Streams (m >>= f)
Streams-bind m f s k = record { at = λ r ys h. Outcome-bind m f r ys (s.at r ys h) k }

split-extend :
    (n : ℕ) (xs ys bs rest : List ℕ)
    → split n xs ≡ some (bs, rest)
    → split n (xs ++ ys) ≡ some (bs, rest ++ ys)
split-extend zero xs ys bs rest h = ground arith
split-extend (suc n) [] ys bs rest h = ground arith
split-extend (suc n) (x ∷ xs) ys bs rest h = elim (Option-cases (split n xs)) [
  | inl e ↦ ground arith
  | inr (p, e) ↦ ground (arith, split-extend n xs ys p.0 p.1 e)
]

short_eof : (xs : List ℕ) → (short xs eof ≡ eof) ⊎ (short xs eof ≡ unexpected_eof)
short_eof [] = inl refl
short_eof (x ∷ xs) = inr refl

Streams-read_full : (n : ℕ) → Streams (read_full n)
unfolding read_full
Streams-read_full n = record {
  at = λ r ys h. elim (Option-cases (split n r.rest)) [
    | inl e ↦
        cut (short r.rest r.fault) (record r { rest = [] }) (rw (e, read_full))
          (rw h (short_eof r.rest))
    | inr (p, e) ↦
        good p.0 (record r { rest = p.1 }) (rw (e, read_full))
          (rw (split-extend n r.rest ys p.0 p.1 e, read_full)) h
  ];
}

Outcome-first_byte : (r : Reader) (ys : List ℕ) → Outcome (read_full 1) r ys → Outcome read_num r ys
unfolding read_num
Outcome-first_byte r ys (good bs r' e e' h) =
    good (field bs 0) r' (ap first_byte e) (ap first_byte e') h
Outcome-first_byte r ys (bad x r' e e') =
    bad (reset_as_eof x) r' (ap first_byte e) (ap first_byte e')
Outcome-first_byte r ys (cut x r' e (inl h)) =
    cut (reset_as_eof x) r' (ap first_byte e) (inl (ap reset_as_eof h))
Outcome-first_byte r ys (cut x r' e (inr h)) =
    cut (reset_as_eof x) r' (ap first_byte e) (inr (ap reset_as_eof h))

Streams-read_num : Streams read_num
Streams-read_num = record {
  at = λ r ys h. Outcome-first_byte r ys ((Streams-read_full 1).at r ys h);
}

Streams-lift : {A : Type 0} (a : Result A) → Streams (lift a)
Streams-lift (ok a) = record { at = λ r ys h. good a r refl refl h }
Streams-lift (err e) = record { at = λ r ys h. bad e r refl refl }

ruleset stream_rules =
    (Streams-return, Streams-bind, Streams-read_full, Streams-read_num, Streams-lift)

Streams-read_body : (m : Message) → Streams (read_body m)
unfolding read_body
Streams-read_body (data_message m) = search stream_rules
Streams-read_body _ = search stream_rules

Streams-decode : Streams decode
unfolding decode
Streams-decode = search (stream_rules, Streams-read_body)

cut_short :
    (m : Message) (front back : List ℕ) (x : ℕ)
    → decode (record { rest = front ++ x ∷ back; fault = eof })
      ≡ (ok m, record { rest = []; fault = eof })
    → Outcome decode (record { rest = front; fault = eof }) (x ∷ back)
    → (e : Error) × (r : Reader) × (decode (record { rest = front; fault = eof }) ≡ (err e, r))
      × ((e ≡ eof) ⊎ (e ≡ unexpected_eof))
cut_short m front back x whole (good a r e e' h) = absurd (
    omega (
      arith,
      ap (λ (p : Result Message × Reader). length p.1.rest) (sym whole ∙ e'),
      length-append r.rest (x ∷ back),
    ))
cut_short m front back x whole (bad b r e e') = cc
cut_short m front back x whole (cut b r e h) = (b, r, e, h)

-- Of the bytes of a well-formed message, every part that stops before the last one makes the decoder
-- of a stream that ends there return io.EOF or io.ErrUnexpectedEOF, and no message.
pub decode_truncated :
    (m : Message) (front back : List ℕ) (x : ℕ)
    → IsWellFormed m
    → bytes m ≡ front ++ x ∷ back
    → (e : Error) × (r : Reader) × (decode (record { rest = front; fault = eof }) ≡ (err e, r))
      × ((e ≡ eof) ⊎ (e ≡ unexpected_eof))
decode_truncated m front back x h e =
    cut_short m front back x (rw (← e, ← append-nil (bytes m)) (decode-bytes m [] eof h))
      (Streams-decode.at _ (x ∷ back) refl)
