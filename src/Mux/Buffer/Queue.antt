-- ===== src/Mux/Buffer/Queue.antt =====
-- The buffer is a queue of bytes: Read takes what was written first, as much as it has room for.
use mathlib.Core.Path.{ap₂}
use qtalk_go.Base.{
  ℕ, zero, suc, ◌+◌, ◌*◌, ◌≤◌, ◌<◌, ◌≡◌, refl, sym, ap, ◌∙◌, arith, Bool, true, false, List, [],
  ◌∷◌, ◌++◌, none, some, eof, ltb, ◌==◌, if◌then◌else◌, length, take, drop, min, append-nil,
  append_assoc, take-append-drop, length-append, length-take, length-drop, ◌⊎◌, inl, inr,
  Bool-cases,
}
use qtalk_go.Mux.Buffer.{
  Buffer, Progress, Outcome, returned, blocked, again, write, copied, at_end, advance, continue,
  round, read_loop, read,
}

-- All bytes that are still to be read, in order.
abbrev pub joined : List (List ℕ) → List ℕ
joined [] = []
joined (x ∷ xs) = x ++ joined xs

abbrev pub contents : Buffer → List ℕ
contents b = b.head ++ joined b.behind

pub joined-append : (xs ys : List (List ℕ)) → joined (xs ++ ys) ≡ joined xs ++ joined ys
joined-append [] ys = refl
joined-append (x ∷ xs) ys = rw (joined-append xs ys, append_assoc)

-- Writing appends, and closing changes no data.
pub contents-write : (buf : List ℕ) (b : Buffer) → contents (write buf b) ≡ contents b ++ buf
unfolding write
contents-write buf b = rw (joined-append b.behind (buf ∷ []), append-nil buf, append_assoc)

-- The bytes that the Read began with, and its room then, at any point of the loop.
record Inv (all : List ℕ) (total : ℕ) (p : Progress) : Type 0 where
  kept : p.got ++ contents p.buffer ≡ all
  sized : length p.got + p.room ≡ total

-- What holds of a Read that has come to its end.
abbrev Final : List ℕ → ℕ → Bool → Outcome → Type 0
Final all total closed (returned got e b) =
    (got ++ contents b ≡ all)
    × (b.closed ≡ closed)
    × (((length got ≡ total) × (e ≡ none))
        ⊎ ((contents b ≡ []) × (length got ≤ total) × (0 < length got) × (e ≡ none))
        ⊎ ((contents b ≡ []) × (got ≡ []) × (closed ≡ true) × (0 < total) × (e ≡ some eof)))
Final all total closed (blocked b) =
    (0 < total) × (all ≡ []) × (closed ≡ false) × (contents b ≡ []) × (b.closed ≡ false)
Final all total closed (again p) = ⊥

-- How many rounds are still to come, the last one not counted.
abbrev rounds : Progress → ℕ
rounds p =
    2 * length p.buffer.behind
    + (if p.room == 0 then 0 else if ltb 0 (length p.buffer.head) then 1 else 0)

abbrev RoundOk : List ℕ → ℕ → Progress → Outcome → Type 0
RoundOk all total p (again p') =
    Inv all total p' × (rounds p' < rounds p) × (p'.buffer.closed ≡ p.buffer.closed)
RoundOk all total p o = Final all total p.buffer.closed o

copied-Inv : (all : List ℕ) (total : ℕ) (p : Progress) → Inv all total p → Inv all total (copied p)
copied-Inv all total p h = record {
  kept =
      append_assoc p.got (take n p.buffer.head) _
      ∙ ap (◌++◌ p.got) (
          sym (append_assoc (take n p.buffer.head) (drop n p.buffer.head) _)
          ∙ ap (λ (x : List ℕ). x ++ joined p.buffer.behind) (take-append-drop n p.buffer.head))
      ∙ h.kept;
  sized = omega (arith, length-append p.got (take n p.buffer.head), length-take n p.buffer.head);
}
  where
    n : ℕ
    n = min p.room (length p.buffer.head)

copied_shorter :
    (p : Progress) → 0 < p.room → 0 < length p.buffer.head → rounds (copied p) < rounds p
copied_shorter p h k = ground (arith, length-drop (min p.room (length p.buffer.head)) p.buffer.head)

length_zero : (xs : List ℕ) → ltb 0 (length xs) ≡ false → xs ≡ []
length_zero [] h = refl
length_zero (x ∷ xs) h = absurd (ground arith)

at_end-Final :
    (all : List ℕ) (total : ℕ) (p : Progress)
    → Inv all total p
    → 0 < p.room
    → contents p.buffer ≡ []
    → RoundOk all total p (at_end p)
at_end-Final all total p h r e = elim (Bool-cases (ltb 0 (length p.got))) [
  | inl some_data ↦ rw some_data (h.kept, refl, inr (inl (e, omega arith, ground arith, refl)))
  | inr no_data ↦
      let empty = length_zero p.got no_data in
      let all_empty : all ≡ [] = sym h.kept ∙ ap₂ ◌++◌ empty e in
      elim (Bool-cases p.buffer.closed) [
        | inl shut ↦
            rw (no_data, shut) (h.kept, refl, inr (inr (e, empty, refl, omega arith, refl)))
        | inr live ↦ rw (no_data, live) (omega arith, all_empty, refl, e, refl)
      ]
]

advance-RoundOk :
    (all : List ℕ) (total : ℕ) (p : Progress) (links : List (List ℕ))
    → Inv all total p
    → 0 < p.room
    → p.buffer.head ≡ []
    → p.buffer.behind ≡ links
    → RoundOk all total p (advance p links)
advance-RoundOk all total p [] h r e k = at_end-Final all total p h r (rw (e, k) refl)
advance-RoundOk all total p (next ∷ later) h r e k =
    (record { kept = rw (e, k) at h.kept; sized = h.sized }, ground arith, refl)

round-RoundOk :
    (all : List ℕ) (total : ℕ) (p : Progress) → Inv all total p → RoundOk all total p (round p)
unfolding round
round-RoundOk all total p h = elim (Bool-cases (p.room == 0)) [
  | inl full ↦ rw full (h.kept, refl, inl (ground arith, refl))
  | inr space ↦ elim (Bool-cases (ltb 0 (length p.buffer.head))) [
    | inl more ↦
        rw (space, more)
          (copied-Inv all total p h, copied_shorter p (ground arith) (ground arith), refl)
    | inr none_left ↦
        rw (space, none_left)
          (advance-RoundOk all total p p.buffer.behind h (ground arith)
            (length_zero p.buffer.head none_left) refl)
  ]
]

read_loop-Final :
    (fuel : ℕ) (all : List ℕ) (total : ℕ) (p : Progress)
    → Inv all total p
    → rounds p < fuel
    → Final all total p.buffer.closed (read_loop fuel p)
unfolding read_loop
read_loop-Final zero all total p h m = absurd (omega arith)
read_loop-Final (suc fuel) all total p h m =
    go (round p) (round-RoundOk all total p h) (read_loop-Final fuel all total)
  where
    go :
        (o : Outcome)
        → RoundOk all total p o
        → ((p' : Progress)
            → Inv all total p'
            → rounds p' < fuel
            → Final all total p'.buffer.closed (read_loop fuel p'))
        → Final all total p.buffer.closed (continue (read_loop fuel) o)
    go (returned got e b) k rec = k
    go (blocked b) k rec = k
    go (again p') k rec = rw (← k.2) (rec p' k.0 (omega arith))

-- What Read promises, with this much room, of the bytes that the buffer holds.
abbrev pub Reads : ℕ → Buffer → Outcome → Type 0
Reads room b (returned got e b') =
    (got ≡ take room (contents b))
    × (contents b' ≡ drop room (contents b))
    × (b'.closed ≡ b.closed)
    × (((e ≡ none) × ((room ≡ 0) ⊎ (0 < length (contents b))))
        ⊎ ((e ≡ some eof) × (0 < room) × (contents b ≡ []) × (b.closed ≡ true)))
Reads room b (blocked b') =
    (0 < room) × (contents b ≡ []) × (b.closed ≡ false) × (contents b' ≡ []) × (b'.closed ≡ false)
Reads room b (again p) = ⊥

take-append_exact : (xs ys : List ℕ) (n : ℕ) → length xs ≡ n → take n (xs ++ ys) ≡ xs
take-append_exact [] ys zero e = refl
take-append_exact [] ys (suc n) e = absurd (omega arith)
take-append_exact (x ∷ xs) ys zero e = absurd (omega arith)
take-append_exact (x ∷ xs) ys (suc n) e = ap (◌∷◌ x) (take-append_exact xs ys n (omega arith))

drop-append_exact : (xs ys : List ℕ) (n : ℕ) → length xs ≡ n → drop n (xs ++ ys) ≡ ys
drop-append_exact [] ys zero e = refl
drop-append_exact [] ys (suc n) e = absurd (omega arith)
drop-append_exact (x ∷ xs) ys zero e = absurd (omega arith)
drop-append_exact (x ∷ xs) ys (suc n) e = drop-append_exact xs ys n (omega arith)

take-all : (xs : List ℕ) (n : ℕ) → length xs ≤ n → take n xs ≡ xs
take-all [] zero h = refl
take-all [] (suc n) h = refl
take-all (x ∷ xs) zero h = absurd (omega arith)
take-all (x ∷ xs) (suc n) h = ap (◌∷◌ x) (take-all xs n (omega arith))

drop-all : (xs : List ℕ) (n : ℕ) → length xs ≤ n → drop n xs ≡ []
drop-all [] zero h = refl
drop-all [] (suc n) h = refl
drop-all (x ∷ xs) zero h = absurd (omega arith)
drop-all (x ∷ xs) (suc n) h = drop-all xs n (omega arith)

Final-Reads :
    (room : ℕ) (b : Buffer) (o : Outcome) → Final (contents b) room b.closed o → Reads room b o
Final-Reads room b (returned got e b') (k, c, inl (full, q)) = rw (← k) (
  sym (take-append_exact got _ room full),
  sym (drop-append_exact got _ room full),
  c,
  inl (q, ground (arith, length-append got (contents b'))),
)
Final-Reads room b (returned got e b') (k, c, inr (inl (z, l, s, q))) =
    let all_got : contents b ≡ got = sym k ∙ ap (◌++◌ got) z ∙ append-nil got in
    rw all_got (sym (take-all got room l), z ∙ sym (drop-all got room l), c, inl (q, inr s))
Final-Reads room b (returned got e b') (k, c, inr (inr (z, l, s, r, q))) =
    let empty : contents b ≡ [] = sym k ∙ ap₂ ◌++◌ l z in
    rw empty (
      l ∙ sym (take-all [] room (omega arith)),
      z ∙ sym (drop-all [] room (omega arith)),
      c,
      inr (q, r, refl, s),
    )
Final-Reads room b (blocked b') k = k
Final-Reads room b (again p) k = k

-- Read ends: with room it takes the bytes written first, all of them or as many as fit, and leaves
-- the others in order; it returns io.EOF exactly if nothing is left and the buffer is closed, and
-- waits exactly if nothing is left and it is open. Without room it returns at once.
pub read-Reads : (room : ℕ) (b : Buffer) → Reads room b (read room b)
unfolding read
read-Reads room b = Final-Reads room b (read room b) (
    read_loop-Final (2 * length b.behind + 3) (contents b) room
      (record { got = []; room = room; buffer = b }) (record { kept = refl; sized = omega arith })
      (ground arith))
