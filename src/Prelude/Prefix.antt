-- ===== src/Prelude/Prefix.antt =====
-- strings.CutPrefix and strings.TrimPrefix.
use Prim.Native.Char.{code}
use Prim.Native.String.{String}
use mathlib.Core.Option.{Option, none, some}
use vessel.Prelude.Tests.{◌==◌, if◌then◌else◌}

-- what is left of the text, where the prefix is there
unfoldable pub drop_prefix : String → String → Option String
drop_prefix String.[] s = some s
drop_prefix (String.◌∷◌ c p) String.[] = none
drop_prefix (String.◌∷◌ c p) (String.◌∷◌ d s) =
    let rest = drop_prefix p s in if code c == code d then rest else none
