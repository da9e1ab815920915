-- ===== src/Cmux/Session/Exit.antt =====
-- What the loop of a session over CBOR frames does at its end.
use qtalk_go.Base.{
  ℕ, ◌≡◌, ◌≢◌, refl, sym, ap, ◌∙◌, true, false, List, [], ◌∷◌, none, some, Error, get_elem?,
  get_elem?-set_self, get_elem?-set_ne, get_elem?-lt, All, Entry, Distinct, All-weaken,
}
use qtalk_go.Cmux.Channel.{Channel, shut}
use qtalk_go.Cmux.Session.{Session, handled, put, close_all, close_at, and_then, close, exit}
use qtalk_go.Cmux.Session.Sound.{Leads, Leads-other, Leads-set_other, IsSound, close_channel_open}

-- The entry leads to a channel of the first store that is shut in the second.
abbrev pub Shuts : List Channel → List Channel → Entry ℕ → Type 0
Shuts before after x =
    (c : Channel) × (get_elem? before x.value ≡ some c) × (get_elem? after x.value ≡ some (shut c))

record Closes (xs : List (Entry ℕ)) (s : Session) : Type 0 where
  heap : List Channel
  result : close_all xs s ≡ handled none (record s { heap = heap })
  shuts : All (Shuts s.heap heap) xs
  keeps : (p : ℕ) → All (λ (x : Entry ℕ). x.value ≢ p) xs → get_elem? heap p ≡ get_elem? s.heap p

-- Both hold of each entry.
All-both :
    (P Q : Entry ℕ → Type 0) (xs : List (Entry ℕ))
    → All P xs
    → All Q xs
    → All (λ (x : Entry ℕ). P x × Q x) xs
All-both P Q [] h k = tt
All-both P Q (x ∷ xs) h k = ((h.0, k.0), All-both P Q xs h.1 k.1)

module _ (x : Entry ℕ) (xs : List (Entry ℕ)) (s : Session) (c : Channel)
    (here : get_elem? s.heap x.value ≡ some c) (same : c.local_id ≡ x.key)
    (open_ : c.frames.closed ≡ false)
    (later : All (λ (y : Entry ℕ). (x.key ≢ y.key) × Leads s.heap y) xs) where
  abbrev next : Session
  next = put x.value (shut c) s

  by_id : (y : Entry ℕ) → (x.key ≢ y.key) × Leads s.heap y → (c.local_id ≢ y.key) × Leads s.heap y
  by_id y h = ((λ e. h.0 (sym same ∙ e)), h.1)

  pub later-Leads : All (Leads next.heap) xs
  later-Leads =
      All-weaken (λ y. (x.key ≢ y.key) × Leads s.heap y) (Leads next.heap)
        (λ y h. Leads-set_other s.heap x.value c here (shut c) y (by_id y h)) xs later

  later_other : All (λ (y : Entry ℕ). x.value ≢ y.value) xs
  later_other =
      All-weaken (λ y. (x.key ≢ y.key) × Leads s.heap y) (λ y. x.value ≢ y.value)
        (λ y h. Leads-other s.heap x.value c here (shut c) y (by_id y h).0 h.1) xs later

  close_first : Closes xs next → Closes (x ∷ xs) s
  unfolding close_all
  close_first rest = record {
    heap = rest.heap;
    result =
        ap (λ o. and_then (close_at x.value s o) (close_all xs)) here
        ∙ ap (λ r. and_then r (close_all xs)) (close_channel_open x.value c s open_)
        ∙ rest.result;
    shuts = (
      (
        c,
        here,
        rest.keeps x.value (
              All-weaken (λ y. x.value ≢ y.value) (λ y. y.value ≢ x.value) (λ y n e. n (sym e)) xs
                later_other)
            ∙ get_elem?-set_self s.heap x.value (shut c) (get_elem?-lt s.heap x.value c here),
      ),
      All-weaken (λ y. (x.value ≢ y.value) × Shuts next.heap rest.heap y) (Shuts s.heap rest.heap)
          (λ y h. (h.1.0, sym (get_elem?-set_ne s.heap (shut c) h.0) ∙ h.1.1, h.1.2)) xs
          (All-both (λ y. x.value ≢ y.value) (Shuts next.heap rest.heap) xs later_other rest.shuts),
    );
    keeps = λ p n. rest.keeps p n.1 ∙ get_elem?-set_ne s.heap (shut c) n.0;
  }

close_entries :
    (xs : List (Entry ℕ)) (s : Session) → All (Leads s.heap) xs → Distinct xs → Closes xs s
unfolding close_all
close_entries [] s h d = record { heap = s.heap; result = refl; shuts = tt; keeps = λ p n. refl }
close_entries (x ∷ xs) s h d =
    let (c, here, same, open_) = h.0 in
    let later = All-both (λ y. x.key ≢ y.key) (Leads s.heap) xs d.0 h.1 in
    close_first x xs s c here same open_ later
      (close_entries xs (put x.value (shut c) s) (later-Leads x xs s c here same open_ later) d.1)

pub exit-Shuts :
    (e : Error) (s : Session)
    → IsSound s
    → (s' : Session) × (exit e s ≡ handled (some e) s')
      × All (Shuts s.heap s'.heap) s.chans
      × ((p : ℕ)
          → All (λ (x : Entry ℕ). x.value ≢ p) s.chans
          → get_elem? s'.heap p ≡ get_elem? s.heap p)
      × (s'.chans ≡ [])
      × (s'.chan_counter ≡ 0)
      × (s'.error ≡ some e)
      × (s'.close_ch ≡ true)
      × (s'.enc.fault ≡ some Error.closed)
unfolding exit close
exit-Shuts e s h =
    let r = close_entries s.chans s h.leads h.distinct in
    (
      record (close (record s { heap = r.heap })) {
        chans = [];
        chan_counter = 0;
        close_ch = true;
        error = some e;
      },
      ap
          (λ x. and_then x (λ s'.
            handled (some e) (record (close s') {
              chans = [];
              chan_counter = 0;
              close_ch = true;
              error = some e;
            })))
          r.result,
      r.shuts,
      r.keeps,
      refl,
      refl,
      refl,
      refl,
      refl,
    )
