-- ===== src/Talk/Dialling.antt =====
-- Which dialer Dial takes.
use qtalk_go.Base.{
  ◌≡◌, refl, ap, ◌∙◌, false, [], ◌∷◌, Option, some, Result, Bool-cases, inl, inr, if◌then◌else◌,
}
use qtalk_go.Rpc.Selector.{Str, same}
use qtalk_go.Rpc.Selector.Longest.{same-eq}
use qtalk_go.Talk.{Dialers, find, without, register, with_session, with_dialer, dial}

find-without :
    {S : Type 0} (name t : Str) (ds : Dialers S)
    → same name t ≡ false
    → find t (without name ds) ≡ find t ds
find-without name t [] h = refl
find-without {S} name t ((n, d) ∷ ds) h = elim (Bool-cases (same n name)) [
  | inl b ↦
      let other : same n t ≡ false = ap (λ (m : Str). same m t) (same-eq n name b) ∙ h in
      simp (b, other) (find-without name t ds h)
  | inr b ↦ simp b (
      ap (λ (r : Option (Str → Result S)). if same n t then some d else r)
        (find-without name t ds h))
]

-- A dialer that is registered under a name is the one that Dial takes for this name, in the place of
-- any that was there, and the other transports are dialled as before.
pub dial-register :
    {S C : Type 0} (name t addr : Str) (d : Str → Result S) (ds : Dialers S) (codec : C)
    → dial (register name d ds) t addr codec
      ≡ (if same name t then with_session codec (d addr) else dial ds t addr codec)
unfolding dial register
dial-register name t addr d ds codec = elim (Bool-cases (same name t)) [
  | inl b ↦ simp b
  | inr b ↦ simp b (ap (with_dialer t addr codec) (find-without name t ds b))
]
