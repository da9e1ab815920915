-- ===== src/Frame/Consumption.antt =====
-- A message takes at least its type byte from the stream, so decoding can not go on for ever.
use qtalk_go.Base.{
  ℕ, inl, inr, zero, suc, ◌+◌, ◌≤◌, ◌<◌, ◌≡◌, arith, List, [], ◌∷◌, some, length, Result, ok, err,
  Option-cases,
}
use qtalk_go.Frame.Message.{Message, data_message}
use qtalk_go.Frame.Decoder.{
  Reader, Read, split, read_full, read_num, first_byte, read_body, message_from, decode, ◌>>=◌,
  return, lift, after,
}

abbrev TakesFrom {ℓ} : {A : Type ℓ} → ℕ → Reader → Result A × Reader → Type 0
TakesFrom k r (ok a, r') = length r'.rest + k ≤ length r.rest
TakesFrom k r (err e, r') = Unit

-- A step that succeeds takes `k` bytes or more.
record Takes {A : Type 0} (k : ℕ) (m : Read A) : Type 0 where
  at : (r : Reader) → TakesFrom k r (m r)

Takes-return : {A : Type 0} (a : A) → Takes 0 (return a)
Takes-return a = record { at = λ r. omega arith }

Takes-lift : {A : Type 0} (a : Result A) → Takes 0 (lift a)
Takes-lift (ok a) = record { at = λ r. omega arith }
Takes-lift (err e) = record { at = λ r. tt }

TakesFrom-after :
    {A B : Type 0} (k : ℕ) (f : A → Read B) (r : Reader) (x : Result A × Reader)
    → TakesFrom k r x
    → ((a : A) → Takes 0 (f a))
    → TakesFrom k r (after f x)
TakesFrom-after k f r (err e, r') h t = tt
TakesFrom-after {B = B} k f r (ok a, r') h t = go (f a r') ((t a).at r')
  where
    go : (y : Result B × Reader) → TakesFrom {A = B} 0 r' y → TakesFrom {A = B} k r y
    go (ok b, r'') l = omega (arith, h, l)
    go (err e, r'') l = tt

Takes-bind :
    {A B : Type 0} {k : ℕ} (m : Read A) (f : A → Read B)
    → Takes k m
    → ((a : A) → Takes 0 (f a))
    → Takes k (m >>= f)
Takes-bind {k} m f s t = record { at = λ r. TakesFrom-after k f r (m r) (s.at r) t }

split-length :
    (n : ℕ) (xs bs rest : List ℕ) → split n xs ≡ some (bs, rest) → length rest + n ≤ length xs
split-length zero xs bs rest e = ground arith
split-length (suc n) [] bs rest e = ground arith
split-length (suc n) (x ∷ xs) bs rest e = elim (Option-cases (split n xs)) [
  | inl f ↦ ground arith
  | inr (p, f) ↦ ground (arith, split-length n xs p.0 p.1 f)
]

Takes-read_full : (n : ℕ) → Takes n (read_full n)
unfolding read_full
Takes-read_full n = record {
  at = λ r. elim (Option-cases (split n r.rest)) [
    | inl e ↦ rw (e, read_full) tt
    | inr (p, e) ↦ rw (e, read_full) (split-length n r.rest p.0 p.1 e)
  ];
}

Takes-read_full_any : (n : ℕ) → Takes 0 (read_full n)
Takes-read_full_any n = record { at = λ r. go r (read_full n r) ((Takes-read_full n).at r) }
  where
    go :
        (r : Reader) (x : Result (List ℕ) × Reader)
        → TakesFrom {A = List ℕ} n r x
        → TakesFrom {A = List ℕ} 0 r x
    go r (ok a, r') h = omega (arith, h)
    go r (err e, r') h = tt

Takes-bind_any :
    {A B : Type 0} (m : Read A) (f : A → Read B)
    → Takes 0 m
    → ((a : A) → Takes 0 (f a))
    → Takes 0 (m >>= f)
Takes-bind_any = Takes-bind {k = 0}

Takes-read_num : Takes 1 read_num
unfolding read_num
Takes-read_num = record { at = λ r. go r (read_full 1 r) ((Takes-read_full 1).at r) }
  where
    go :
        (r : Reader) (x : Result (List ℕ) × Reader) → TakesFrom 1 r x → TakesFrom 1 r (first_byte x)
    go r (ok bs, r') h = h
    go r (err e, r') h = tt

ruleset taking_rules = (Takes-return, Takes-lift, Takes-bind_any, Takes-read_full_any)

Takes-read_body : (m : Message) → Takes 0 (read_body m)
unfolding read_body
Takes-read_body (data_message m) = search taking_rules
Takes-read_body _ = search taking_rules

Takes-decode : Takes 1 decode
unfolding decode
Takes-decode =
    Takes-bind read_num _ Takes-read_num
      λ num. Takes-bind_any (lift (message_from num)) read_body (Takes-lift _) Takes-read_body

-- A message that was decoded has shortened the stream.
pub decode_shorter :
    (r r' : Reader) (m : Message) → decode r ≡ (ok m, r') → length r'.rest < length r.rest
decode_shorter r r' m e = omega (arith, rw e at (Takes-decode.at r))
