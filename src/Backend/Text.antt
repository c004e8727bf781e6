-- ===== src/Backend/Text.antt =====
-- The functions of Go's `strings` that the server calls.
pub mod Contains
use sample_grpc_service.Prelude.{
  String, Bool, true, false, ◌||◌, Option, none, some, ◌==◌, if◌then◌else◌,
}
use Prim.Native.Char.{code}

-- The rest of a text behind a prefix, if it has the prefix.
unfoldable pub strip_prefix : String → String → Option String
strip_prefix String.[] s = some s
strip_prefix (String.◌∷◌ c p) String.[] = none
strip_prefix (String.◌∷◌ c p) (String.◌∷◌ d s) =
    let rest = strip_prefix p s in if code c == code d then rest else none

abbrev or_self : String → Option String → String
or_self s none = s
or_self s (some t) = t

-- `strings.TrimPrefix(s, p)`
unfoldable pub trim_prefix : String → String → String
unfolding strip_prefix
trim_prefix s p = or_self s (strip_prefix p s)

abbrev is_some : Option String → Bool
is_some none = false
is_some (some t) = true

-- `strings.Contains(s, p)`
unfoldable pub contains : String → String → Bool
unfolding strip_prefix
contains String.[] p = is_some (strip_prefix p String.[])
contains (String.◌∷◌ c s) p = is_some (strip_prefix p (String.◌∷◌ c s)) || contains s p
