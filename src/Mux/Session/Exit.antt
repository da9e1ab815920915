-- ===== src/Mux/Session/Exit.antt =====
-- What the loop of a session does at its end.
use qtalk_go.Base.{
  ℕ, zero, suc, ◌+◌, ◌≡◌, ◌≢◌, refl, sym, ap, ◌∙◌, arith, true, false, List, [], ◌∷◌, Option, none,
  some, Error, get_elem?, get_or, set, get_elem?-set_self, get_elem?-set_ne, get_elem?-lt,
  get_elem?-same,
}
use qtalk_go.Mux.ChanList.{get_chan, live}
use qtalk_go.Mux.ChanList.Slots.{get_chan-eq-get_or}
use qtalk_go.Mux.Channel.{Channel, shut}
use qtalk_go.Mux.Session.{Session, handled, put, close_all, close_at, and_then, close, exit}
use qtalk_go.Mux.Session.Safety.{IsSound, close_channel_open}

-- The channels of the slots, counted from `k` on, are in the store, open and under their ids.
Open : ℕ → List (Option ℕ) → List Channel → Type 0
Open k cs heap =
    (i p : ℕ)
    → get_or cs i none ≡ some p
    → (c : Channel) × (get_elem? heap p ≡ some c) × (c.local_id ≡ k + i) × (c.msg.closed ≡ false)

-- Closing the channels of the slots shuts these and no others.
record Closes (k : ℕ) (cs : List (Option ℕ)) (s : Session) : Type 0 where
  heap : List Channel
  result : close_all (live cs) s ≡ handled none (record s { heap = heap })
  shuts :
      (i p : ℕ) (c : Channel)
      → get_or cs i none ≡ some p
      → get_elem? s.heap p ≡ some c
      → get_elem? heap p ≡ some (shut c)
  keeps : (p : ℕ) → ((i : ℕ) → get_or cs i none ≢ some p) → get_elem? heap p ≡ get_elem? s.heap p

-- Past a nil, only the later slots count.
past_nil {ℓ} :
    {G : ℕ → Type ℓ} (cs : List (Option ℕ))
    → ((i p : ℕ) → get_or cs i none ≡ some p → G p)
    → (i p : ℕ) → get_or (none ∷ cs) i none ≡ some p
    → G p
past_nil cs g zero p e = absurd (cc)
past_nil cs g (suc i) p e = g i p e

module _ (k : ℕ) (p : ℕ) (cs : List (Option ℕ)) (s : Session) (h : Open k (some p ∷ cs) s.heap)
    (c : Channel) (here : get_elem? s.heap p ≡ some c) (at_k : c.local_id ≡ k + 0)
    (open_ : c.msg.closed ≡ false) where
  shut_here : Session
  shut_here = put p (shut c) s

  -- The later slots hold other channels, since those have other ids.
  later_other : (i q : ℕ) → get_or cs i none ≡ some q → p ≢ q
  unfolding Open
  later_other i q e eq =
      let (d, x, y, z) = h (suc i) q e in
      let same = ap (λ (a : Channel). a.local_id) (get_elem?-same s.heap p q c d here x eq) in
      omega (arith, same, y, at_k)

  later_Open : Open (suc k) cs (set s.heap p (shut c))
  unfolding Open
  later_Open i q e =
      let (d, x, y, z) = h (suc i) q e in
      (d, get_elem?-set_ne s.heap (shut c) (later_other i q e) ∙ x, omega (arith, y), z)

  close_first : Closes (suc k) cs (put p (shut c) s) → Closes k (some p ∷ cs) s
  unfolding close_all
  close_first rest = record {
    heap = rest.heap;
    result =
        ap (λ o. and_then (close_at p s o) (close_all (live cs))) here
        ∙ ap (λ r. and_then r (close_all (live cs))) (close_channel_open p c s open_)
        ∙ rest.result;
    shuts = shuts;
    keeps = λ q e.
        rest.keeps q (λ i. e (suc i)) ∙ get_elem?-set_ne s.heap (shut c) (λ eq. e 0 (ap some eq));
  }
    where
      shuts :
          (i q : ℕ) (d : Channel)
          → get_or (some p ∷ cs) i none ≡ some q
          → get_elem? s.heap q ≡ some d
          → get_elem? rest.heap q ≡ some (shut d)
      shuts zero q d e f =
          let eq : p ≡ q = cc in
          let cd = get_elem?-same s.heap p q c d here f eq in
          rw (← eq, ← cd)
            (rest.keeps p (λ i e'. later_other i p e' refl)
              ∙ get_elem?-set_self s.heap p (shut c) (get_elem?-lt s.heap p c here))
      shuts (suc i) q d e f =
          rest.shuts i q d e (get_elem?-set_ne s.heap (shut c) (later_other i q e) ∙ f)

close_live : (k : ℕ) (cs : List (Option ℕ)) (s : Session) → Open k cs s.heap → Closes k cs s
unfolding Open close_all
close_live k [] s h = record {
  heap = s.heap;
  result = refl;
  shuts = λ i p c e f. absurd (cc);
  keeps = λ p e. refl;
}
close_live k (none ∷ cs) s h =
    let rest =
      close_live (suc k) cs s
        (λ i p e. let (c, x, y, z) = h (suc i) p e in (c, x, omega (arith, y), z)) in
    record {
      heap = rest.heap;
      result = rest.result;
      shuts = λ i p c e f.
          past_nil {G = λ q. get_elem? s.heap q ≡ some c → get_elem? rest.heap q ≡ some (shut c)} cs
            (λ j q e' f'. rest.shuts j q c e' f') i p e f;
      keeps = λ p e. rest.keeps p (λ i. e (suc i));
    }
close_live k (some p ∷ cs) s h =
    let (c, here, at_k, open_) = h 0 p refl in
    close_first k p cs s h c here at_k open_
      (close_live (suc k) cs (put p (shut c) s) (later_Open k p cs s h c here at_k open_))

pub exit_shuts :
    (e : Error) (s : Session)
    → IsSound 0 s
    → (s' : Session) × (exit e s ≡ handled (some e) s')
      × ((id p : ℕ) (c : Channel)
          → get_chan id s.chans ≡ some p
          → get_elem? s.heap p ≡ some c
          → get_elem? s'.heap p ≡ some (shut c))
      × ((p : ℕ)
          → ((id : ℕ) → get_chan id s.chans ≢ some p)
          → get_elem? s'.heap p ≡ get_elem? s.heap p)
      × ((id : ℕ) → get_chan id s'.chans ≡ none)
      × (s'.error ≡ some e)
      × (s'.close_ch ≡ true)
      × (s'.enc.fault ≡ some Error.closed)
unfolding exit close
exit_shuts e s h = (
  record (close forgotten) { heap = r.heap; close_ch = true; error = some e },
  ap
      (λ x.
        and_then x (λ s'. handled (some e) (record (close s') { close_ch = true; error = some e })))
      r.result,
  λ id p c f g. r.shuts id p c (sym (as_slot id) ∙ f) g,
  λ p f. r.keeps p (λ id g. f id (as_slot id ∙ g)),
  λ id. get_chan-eq-get_or id (record { chans = [] }) (omega arith),
  refl,
  refl,
  refl,
)
  where
    forgotten : Session
    forgotten = record s { chans = record { chans = [] } }

    as_slot : (id : ℕ) → get_chan id s.chans ≡ get_or s.chans.chans id none
    as_slot id = get_chan-eq-get_or id s.chans (omega (arith, h.room))

    r : Closes 0 s.chans.chans forgotten
    r = close_live 0 s.chans.chans forgotten (
        unfold Open in
        λ i p f. let (c, x, y, z) = h.at i p (as_slot i ∙ f) in (c, x, omega (arith, y), z))
