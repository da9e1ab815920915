-- ===== src/Cli/Help.antt =====
-- cmd/qtalk/cli/help.go, but for the template, which the template package expands: what it asks of a
-- command, and the text on its flags. What the flag and fmt packages make of a flag is a parameter.
use qtalk_go.Base.{
  ℕ, zero, suc, Bool, true, false, ◌||◌, not, List, [], ◌∷◌, ◌++◌, ◌==◌, ltb, if◌then◌else◌, length,
}
use qtalk_go.Cli.{Str, Command, Heap, same, space, name, has_any}
pub mod Shown
pub mod Usages
mod Tests

abbrev pub not_empty : Str → Bool
not_empty [] = false
not_empty (c ∷ s) = true

abbrev pub runnable : Command → Bool
runnable c = c.runs

abbrev pub has_description : Command → Bool
has_description c = not_empty c.short || not_empty c.long

abbrev pub description : Command → Str
description c = if not_empty c.long then c.long else c.short

abbrev pub any_of : (ℕ → Bool) → List ℕ → Bool
any_of test [] = false
any_of test (c ∷ cs) = test c || any_of test cs

-- Available, on fuel for the levels of commands; HasSubCommands goes over the children with it.
unfoldable pub available : ℕ → Heap → ℕ → Bool
available zero heap c = false
available (suc fuel) heap c =
    let subs = any_of (available fuel heap) (heap c).commands in
    if (heap c).hidden then false else runnable (heap c) || subs

unfoldable pub has_sub_commands : ℕ → Heap → ℕ → Bool
unfolding available
has_sub_commands fuel heap c = any_of (available fuel heap) (heap c).commands

-- strings.Join with ", ".
abbrev pub joined : Str → List Str → Str
joined s [] = s
joined s (t ∷ ts) = s ++ (b',' ∷ space ∷ joined t ts)

unfoldable pub name_and_aliases : Command → Str
unfolding name
name_and_aliases c = joined (name c.usage) c.aliases

abbrev pub has_example : Command → Bool
has_example c = ltb 0 (length c.example)

abbrev pub name_padding : ℕ
name_padding = 16

-- A flag of the flag package; `kind` stands for the type of its value.
pub record Flag : Type 0 where
  pub name : Str
  pub usage : Str
  pub def_value : Str
  pub kind : ℕ

abbrev pub has_flags : List Flag → Bool
has_flags [] = false
has_flags (f ∷ fs) = true

-- UnquoteUsage, the text of the zero value of a type, and the %q of a text.
pub record FlagPackage : Type 0 where
  pub unquote_usage : Flag → Str × Str
  pub zero_text : ℕ → Str
  pub quoted : Str → Str

abbrev pub newline : ℕ
newline = 10

abbrev pub tab : ℕ
tab = 9

abbrev pub indent : Str
indent = newline ∷ space ∷ space ∷ space ∷ space ∷ tab ∷ []

abbrev pub replace_newlines : Str → Str
replace_newlines [] = []
replace_newlines (c ∷ s) =
    if c == newline then indent ++ replace_newlines s else c ∷ replace_newlines s

abbrev string_word : Str
string_word = b's' ∷ b't' ∷ b'r' ∷ b'i' ∷ b'n' ∷ b'g' ∷ []

abbrev default_word : Str
default_word = space ∷ b'(' ∷ b'd' ∷ b'e' ∷ b'f' ∷ b'a' ∷ b'u' ∷ b'l' ∷ b't' ∷ space ∷ []

module _ (flags : FlagPackage) where
  -- The name of the flag and that of its value.
  abbrev pub head_text : Flag → Str
  head_text f =
      let value = (flags.unquote_usage f).0 in
      space ∷ space ∷ b'-' ∷ f.name ++ (if not_empty value then space ∷ value else [])

  abbrev pub is_zero_value : Flag → Bool
  is_zero_value f = same f.def_value (flags.zero_text f.kind)

  abbrev pub without_usage : Flag → Flag
  without_usage f = record f { usage = [] }

  abbrev pub default_text : Flag → Str
  default_text f =
      if is_zero_value f
      then []
      else default_word
        ++ ((if same (flags.unquote_usage (without_usage f)).0 string_word
              then flags.quoted f.def_value
              else f.def_value)
            ++ (b')' ∷ []))

  -- What follows the separator.
  abbrev pub tail_text : Flag → Str
  tail_text f = replace_newlines (flags.unquote_usage f).1 ++ (default_text f ++ (newline ∷ []))

  -- The text `sb` with that of one more flag: the length of all of it decides the separator.
  unfoldable pub add_flag : Str → Flag → Str
  add_flag sb f =
      let start = sb ++ head_text f in
      start ++ ((if ltb 4 (length start) then indent else tab ∷ []) ++ tail_text f)

  -- FlagUsages: the text, and the flags that it leaves, without their usage.
  unfoldable pub usages_from : Str → List Flag → Str × List Flag
  unfolding add_flag
  usages_from sb [] = (sb, [])
  usages_from sb (f ∷ fs) =
      let (text, left) = usages_from (add_flag sb f) fs in (text, without_usage f ∷ left)

  unfoldable pub flag_usages : List Flag → Str × List Flag
  unfolding usages_from
  flag_usages fs = usages_from [] fs
