-- ===== src/Cli/Help/Usages.antt =====
-- The text on the flags of a command.
use qtalk_go.Base.{
  ◌<◌, ◌≤◌, ◌≡◌, sym, ap, ◌∙◌, arith, Bool, List, [], ◌∷◌, ◌++◌, ltb, lt→ltb, if◌then◌else◌, length,
  length-append, append-nil, map, append_assoc,
}
use qtalk_go.Cli.{Str}
use qtalk_go.Cli.Help.{
  Flag, FlagPackage, tab, indent, head_text, tail_text, without_usage, add_flag, usages_from,
  flag_usages,
}

module _ (flags : FlagPackage) where
  -- The lines of a flag whose usage stands below it.
  abbrev pub below_text : Flag → Str
  below_text f = head_text flags f ++ (indent ++ tail_text flags f)

  abbrev pub all_below : List Flag → Str
  all_below [] = []
  all_below (f ∷ fs) = below_text f ++ all_below fs

  -- The text on the first flag: its usage stands behind it if it is short.
  abbrev pub first_text : Flag → Str
  first_text f =
      head_text flags f
      ++ ((if ltb 4 (length (head_text flags f)) then indent else tab ∷ []) ++ tail_text flags f)

  abbrev pub emptied : List Flag → List Flag
  emptied fs = map (without_usage flags) fs

  abbrev with_flag : Flag → Str × List Flag → Str × List Flag
  with_flag f r = (r.0, without_usage flags f ∷ r.1)

  add_flag-below : (sb : Str) (f : Flag) → 2 ≤ length sb → add_flag flags sb f ≡ sb ++ below_text f
  unfolding add_flag
  add_flag-below sb f h =
      let long : 4 < length (sb ++ head_text flags f) =
        omega (arith, length-append sb (head_text flags f)) in
      ap
        (λ (b : Bool).
          (sb ++ head_text flags f) ++ ((if b then indent else tab ∷ []) ++ tail_text flags f))
        (lt→ltb 4 (length (sb ++ head_text flags f)) long)
      ∙ append_assoc sb (head_text flags f) (indent ++ tail_text flags f)

  usages_from-below :
      (sb : Str) (fs : List Flag)
      → 2 ≤ length sb
      → usages_from flags sb fs ≡ (sb ++ all_below fs, emptied fs)
  unfolding usages_from
  usages_from-below sb [] h = ap (λ (x : Str). (x, emptied [])) (sym (append-nil sb))
  usages_from-below sb (f ∷ fs) h =
      ap (λ (t : Str). with_flag f (usages_from flags t fs)) (add_flag-below sb f h)
      ∙ ap (with_flag f) (
          usages_from-below (sb ++ below_text f) fs
            (omega (arith, length-append sb (below_text f))))
      ∙ ap (λ (x : Str). (x, emptied (f ∷ fs))) (append_assoc sb (below_text f) (all_below fs))

  -- The text on the flags: the usage of a flag that is not the first always stands below it, however
  -- short its name is, and that of the first only if its name is long; and the flags are left
  -- without their usage.
  pub flag_usages-below :
      (f : Flag) (fs : List Flag)
      → flag_usages flags (f ∷ fs) ≡ (first_text f ++ all_below fs, emptied (f ∷ fs))
  unfolding flag_usages usages_from add_flag
  flag_usages-below f fs = ap (with_flag f) (usages_from-below (first_text f) fs (omega arith))
