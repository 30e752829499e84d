-- ===== src/OutputRoot/PortableNames.antt =====
-- packages/core/src/config/outputRoot.ts: which names every host accepts.
use openapi_to.Common.{
  last_is, ℕ, Bool, true, false, ◌&&◌, ◌||◌, not, Option, none, some, List, [], ◌∷◌, Text, text,
  text_equality, nat_equality, contains, any, leb, nat_eq, if◌then◌else◌, to_lower_case,
}

abbrev pub reserved_devices : List Text
reserved_devices =
    text "con"
    ∷ text "prn"
    ∷ text "aux"
    ∷ text "nul"
    ∷ text "clock$"
    ∷ text "com1"
    ∷ text "com2"
    ∷ text "com3"
    ∷ text "com4"
    ∷ text "com5"
    ∷ text "com6"
    ∷ text "com7"
    ∷ text "com8"
    ∷ text "com9"
    ∷ text "lpt1"
    ∷ text "lpt2"
    ∷ text "lpt3"
    ∷ text "lpt4"
    ∷ text "lpt5"
    ∷ text "lpt6"
    ∷ text "lpt7"
    ∷ text "lpt8"
    ∷ text "lpt9"
    ∷ []

-- What `trim` takes away.
unfoldable pub is_space : ℕ → Bool
is_space c =
    (leb 9 c && leb c 13)
    || (contains (32 ∷ 160 ∷ 5760 ∷ 8232 ∷ 8233 ∷ 8239 ∷ 8287 ∷ 12288 ∷ 65279 ∷ []) c
        || (leb 8192 c && leb c 8202))

-- `t.trim().length === 0`
unfoldable pub is_blank : Text → Bool
unfolding is_space
is_blank t = not (any (λ c. not (is_space c)) t)

-- `/^(?:[a-zA-Z]:|\\\\)/`
unfoldable pub is_windows_absolute : Text → Bool
is_windows_absolute (c ∷ d ∷ _) =
    (((leb b'a' c && leb c b'z') || (leb b'A' c && leb c b'Z')) && nat_eq d b':')
    || (nat_eq c b'\\' && nat_eq d b'\\')
is_windows_absolute _ = false

-- A Windows-reserved or a control character.
unfoldable pub is_reserved_unit : ℕ → Bool
is_reserved_unit c = contains (text "<>:\"|?*") c || (leb c 31 || nat_eq c 127)

-- The text in front of the first period.
unfoldable pub before_period : Text → Text
before_period [] = []
before_period (c ∷ cs) = elim (nat_eq c b'.') [ true ↦ [] | false ↦ c ∷ before_period cs ]

-- The reason to refuse a segment.
unfoldable pub segment_reason : Text → Option Text
unfolding before_period
segment_reason segment =
    if last_is b'.' segment || last_is b' ' segment
    then some (text "segments may not end in a period or space")
    else if any is_reserved_unit segment
    then some (text "segments may not contain Windows-reserved or control characters")
    else if contains reserved_devices (to_lower_case (before_period segment))
    then some (text "segments may not use a Windows reserved device name")
    else if contains segment b'/' || contains segment b'\\'
    then some (text "Unicode normalization may not introduce a path separator")
    else none
