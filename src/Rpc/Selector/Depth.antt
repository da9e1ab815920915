-- ===== src/Rpc/Selector/Depth.antt =====
-- Muxes in muxes: where each mux holds only muxes of a smaller number, Match and RespondRPC end.
use qtalk_go.Base.{
  ℕ, zero, suc, ◌≤◌, ◌<◌, ◌≡◌, ◌≢◌, inl, inr, refl, arith, List, [], ◌∷◌, Option, none, some,
  Bool-cases,
}
use qtalk_go.Rpc.Selector.{
  Str, Handler, MuxEntry, RespondMux, has_prefix, clean_selector, lookup, first_prefix, match,
  match_in, match_prefix, match_exact, Found, Heap, trim_prefix, respond_rpc, respond_found,
  Answered,
}
use qtalk_go.Rpc.Selector.Longest.{IsIn}

-- A handler that is a function, or a mux of a number below n.
abbrev pub IsUnder : ℕ → Handler → Type 0
IsUnder n (Handler.func k) = Unit
IsUnder n (Handler.mux i) = i < n

-- What a mux holds lies under it.
abbrev pub IsLayered : Heap → Type 0
IsLayered heap =
    (i : ℕ)
    → ((e : MuxEntry) → IsIn e (heap i).es → IsUnder i e.h)
      × ((s : Str) (e : MuxEntry) → lookup s (heap i).m ≡ some e → IsUnder i e.h)

IsUnder-le : (n m : ℕ) (h : Handler) → n ≤ m → IsUnder n h → IsUnder m h
IsUnder-le n m (Handler.func k) l u = tt
IsUnder-le n m (Handler.mux i) l u = omega (arith, u)

abbrev pub EndsUnder : ℕ → Found → Type 0
EndsUnder n (Found.found h p) = IsUnder n h
EndsUnder n Found.no_handler = Unit
EndsUnder n Found.out_of_fuel = ⊥

EndsUnder-le : (n m : ℕ) (f : Found) → n ≤ m → EndsUnder n f → EndsUnder m f
EndsUnder-le n m (Found.found h p) l u = IsUnder-le n m h l u
EndsUnder-le n m Found.no_handler l u = tt
EndsUnder-le n m Found.out_of_fuel l u = u

-- The entry of a search is one of the slice.
abbrev IsFrom : List MuxEntry → Option MuxEntry → Type 0
IsFrom es none = Unit
IsFrom es (some e) = IsIn e es

IsFrom-later :
    (x : MuxEntry) (xs : List MuxEntry) (o : Option MuxEntry) → IsFrom xs o → IsFrom (x ∷ xs) o
IsFrom-later x xs none h = tt
IsFrom-later x xs (some e) h = inr h

first_prefix-IsFrom : (s : Str) (es : List MuxEntry) → IsFrom es (first_prefix s es)
first_prefix-IsFrom s [] = tt
first_prefix-IsFrom s (x ∷ xs) = elim (Bool-cases (has_prefix s x.pattern)) [
  | inl b ↦ simp b (inl refl)
  | inr b ↦ simp b (IsFrom-later x xs (first_prefix s xs) (first_prefix-IsFrom s xs))
]

match_in-EndsUnder :
    (n : ℕ) (within : ℕ → Str → Found) (s : Str) (h : Handler) (p : Str)
    → IsUnder n h
    → ((i : ℕ) (t : Str) → i < n → EndsUnder i (within i t))
    → EndsUnder n (match_in within s (record { h = h; pattern = p }))
match_in-EndsUnder n within s (Handler.func k) p u w = tt
match_in-EndsUnder n within s (Handler.mux i) p u w =
    EndsUnder-le i n (within i (trim_prefix s p)) (omega (arith, u)) (w i _ u)

match_prefix-EndsUnder :
    (n : ℕ) (within : ℕ → Str → Found) (s : Str) (es : List MuxEntry) (o : Option MuxEntry)
    → IsFrom es o
    → ((e : MuxEntry) → IsIn e es → IsUnder n e.h)
    → ((i : ℕ) (t : Str) → i < n → EndsUnder i (within i t))
    → EndsUnder n (match_prefix within s o)
match_prefix-EndsUnder n within s es none f u w = tt
match_prefix-EndsUnder n within s es (some e) f u w =
    match_in-EndsUnder n within s e.h e.pattern (u e f) w

match_exact-EndsUnder :
    (n : ℕ) (within : ℕ → Str → Found) (s : Str) (x : RespondMux) (o : Option MuxEntry)
    → ((e : MuxEntry) → IsIn e x.es → IsUnder n e.h)
    → ((e : MuxEntry) → o ≡ some e → IsUnder n e.h)
    → ((i : ℕ) (t : Str) → i < n → EndsUnder i (within i t))
    → EndsUnder n (match_exact within s x o)
match_exact-EndsUnder n within s x none u v w =
    match_prefix-EndsUnder n within s x.es _ (first_prefix-IsFrom s x.es) u w
match_exact-EndsUnder n within s x (some e) u v w = v e refl

-- With more fuel than the mux's number Match ends, and what it finds lies under the mux.
pub match-EndsUnder :
    (fuel : ℕ) (heap : Heap) (i : ℕ) (selector : Str)
    → IsLayered heap
    → i < fuel
    → EndsUnder i (match fuel heap i selector)
unfolding match
match-EndsUnder zero heap i selector h l = absurd (omega arith)
match-EndsUnder (suc fuel) heap i selector h l =
    match_exact-EndsUnder i (match fuel heap) (clean_selector selector) (heap i) _ (h i).0
      ((h i).1 (clean_selector selector)) (λ j t k. match-EndsUnder fuel heap j t h (omega arith))

respond_found-Stops :
    (n : ℕ) (respond : Handler → Answered) (f : Found)
    → EndsUnder n f
    → ((g : Handler) → IsUnder n g → respond g ≢ Answered.never)
    → respond_found respond f ≢ Answered.never
respond_found-Stops n respond (Found.found g p) u w = w g u
respond_found-Stops n respond Found.no_handler u w = λ e. absurd (cc)
respond_found-Stops n respond Found.out_of_fuel u w = absurd u

-- Where each mux holds only muxes of a smaller number, RespondRPC of a function, or of a mux below
-- n, with more fuel than n, comes to a function or to "not found".
pub respond_rpc-Stops :
    (fuel : ℕ) (heap : Heap) (h : Handler) (s : Str) (n : ℕ)
    → IsLayered heap
    → IsUnder n h
    → n < fuel
    → respond_rpc fuel heap h s ≢ Answered.never
unfolding respond_rpc
respond_rpc-Stops zero heap h s n k u l = absurd (omega arith)
respond_rpc-Stops (suc fuel) heap (Handler.func j) s n k u l = λ e. absurd (cc)
respond_rpc-Stops (suc fuel) heap (Handler.mux i) s n k u l =
    respond_found-Stops i (λ g. respond_rpc fuel heap g s) (match fuel heap i s)
      (match-EndsUnder fuel heap i s k (omega (arith, u)))
      (λ g v. respond_rpc-Stops fuel heap g s i k v (omega (arith, u)))
