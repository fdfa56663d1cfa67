-- ===== src/Observability.antt =====
-- internal/observability: the level of the log and the metadata of the build. slog and
-- runtime/debug are parameters.
use hoodalpha.Prelude.{
  if◌then◌else◌, Bool-cases, String, ◌≡◌, refl, sym, ◌∙◌, inl, inr, Bool, ◌||◌, Option, none, some,
  List, [], ◌∷◌, arith,
}
use hoodalpha.Go.Text.{Text, codes, text_eq, trim_space, to_lower}

-- The levels of slog that are used.
pub data Level : Type 0 where
  debug info warn error : Level

-- `parseLevel`
unfoldable pub parse_level : Text → Level
parse_level s =
    let t = to_lower (trim_space s) in
    if text_eq t (codes "debug")
    then debug
    else if text_eq t (codes "warn") || text_eq t (codes "warning")
    then warn
    else if text_eq t (codes "error")
    then error
    else info

-- `Info`
pub record Info : Type 0 where
  pub version : Text
  pub commit : Text
  pub date : Text
  pub go_version : Text

abbrev is_key : String → Text × Text → Bool
is_key key setting = text_eq setting.0 (codes key)

-- A field that is empty takes the value.
abbrev or_value : Text → Text → Text
or_value old value = if text_eq old [] then value else old

-- One round of the loop of `Get` over the settings.
unfoldable pub with_setting : Info → Text × Text → Info
with_setting i setting =
    if is_key "vcs.revision" setting
    then record i { commit = or_value i.commit setting.1 }
    else if is_key "vcs.time" setting
    then record i { date = or_value i.date setting.1 }
    else i

unfoldable pub with_settings : Info → List (Text × Text) → Info
with_settings i [] = i
with_settings i (x ∷ xs) = with_settings (with_setting i x) xs

-- `Get`, with what was set at link time, and what `ReadBuildInfo` gives: the version of Go and the
-- settings of the build.
unfoldable pub build_info : Info → Option (Text × List (Text × Text)) → Info
unfolding with_settings with_setting
build_info linked none = linked
build_info linked (some (go_version, settings)) =
    with_settings (record linked { go_version = go_version }) settings

-- The first of some texts that is not empty.
abbrev pub first_text : List Text → Text
first_text [] = []
first_text (t ∷ ts) = or_value t (first_text ts)

-- The values of a key, in order.
abbrev pub values_under : String → List (Text × Text) → List Text
values_under key [] = []
values_under key (x ∷ xs) = if is_key key x then x.1 ∷ values_under key xs else values_under key xs

or_value_assoc : (a b c : Text) → or_value (or_value a b) c ≡ or_value a (or_value b c)
or_value_assoc a b c = ground arith

or_value_nil : (a : Text) → or_value a [] ≡ a
unfolding text_eq
or_value_nil [] = refl
or_value_nil (x ∷ a) = refl

with_setting-commit :
    (i : Info) (x : Text × Text)
    → (with_setting i x).commit
      ≡ (if is_key "vcs.revision" x then or_value i.commit x.1 else i.commit)
unfolding with_setting
with_setting-commit i x = ground arith

with_settings-commit :
    (i : Info) (settings : List (Text × Text))
    → (with_settings i settings).commit
      ≡ or_value i.commit (first_text (values_under "vcs.revision" settings))
unfolding with_settings
with_settings-commit i [] = sym (or_value_nil i.commit)
with_settings-commit i (x ∷ xs) =
    with_settings-commit (with_setting i x) xs ∙ elim (Bool-cases (is_key "vcs.revision" x)) [
      | inl e ↦
          rw (with_setting-commit i x, e)
            (or_value_assoc i.commit x.1 (first_text (values_under "vcs.revision" xs)))
      | inr e ↦ rw (with_setting-commit i x, e)
    ]

-- The commit that is reported is the one that was set at link time, or, where that is empty, the first revision
-- among the settings of the build that is not; without settings, it is the former.
build_info-commit :
    (linked : Info) (go_version : Text) (settings : List (Text × Text))
    → ((build_info linked none).commit ≡ linked.commit)
      × ((build_info linked (some (go_version, settings))).commit
          ≡ first_text (linked.commit ∷ values_under "vcs.revision" settings))
unfolding build_info
build_info-commit linked go_version settings =
    (refl, with_settings-commit (record linked { go_version = go_version }) settings)
