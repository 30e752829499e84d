-- ===== src/Common/RelativePaths.antt =====
-- `path.posix.normalize` of `node:path`.
use mathlib.Core.Bool.{Bool, false, ◌||◌}
use mathlib.Core.List.{List, [], ◌∷◌, ◌++◌, reverse}
use Prim.Native.Nat.{ℕ}
use openapi_to.Common.Tests.{if◌then◌else◌, nat_eq}
use openapi_to.Common.Strings.{Text, text, text_eq, split_all, nat_equality}
use openapi_to.Common.Paths.{join, is_absolute, walk_segments}

abbrev pub last_is : ℕ → Text → Bool
last_is u [] = false
last_is u (c ∷ []) = nat_eq c u
last_is u (c ∷ d ∷ ds) = last_is u (d ∷ ds)

-- `..` behind segments that are in reverse: it takes the last away, unless that is `..` or missing.
unfoldable pub go_up : List Text → List Text
go_up [] = text ".." ∷ []
go_up (t ∷ ts) = if text_eq t (text "..") then text ".." ∷ t ∷ ts else ts

-- `normalizeString(p, true)` of `path.posix.normalize`, on segments: the ones so far are in reverse.
unfoldable pub enter_relative : List Text → Text → List Text
unfolding go_up
enter_relative above s =
    if text_eq s [] || text_eq s (text ".")
    then above
    else if text_eq s (text "..")
    then go_up above
    else s ∷ above

unfoldable pub relative_walk : List Text → List Text → List Text
unfolding enter_relative
relative_walk above [] = reverse above
relative_walk above (s ∷ ss) = relative_walk (enter_relative above s) ss

-- The text of a relative walk.
abbrev pub walked_text : List Text → Text → Text
walked_text [] trailing = text "." ++ trailing
walked_text (s ∷ ss) trailing = join (text "/") (s ∷ ss) ++ trailing

abbrev pub slash_if : Bool → Text
slash_if slash = if slash then text "/" else []

-- `path.posix.normalize(p)`: a slash at the end stays.
unfoldable pub posix_normalize : Text → Text
unfolding relative_walk
posix_normalize p =
    if is_absolute p
    then b'/' ∷ join (text "/") (walk_segments [] (split_all p)) ++ slash_if (last_is b'/' p)
    else walked_text (relative_walk [] (split_all p)) (slash_if (last_is b'/' p))
