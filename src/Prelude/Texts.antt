-- ===== src/Prelude/Texts.antt =====
-- Lists of texts.
use mathlib.Core.Bool.{Bool}
use mathlib.Core.List.{List}
use Prim.Native.String.{String}
use text.Mathlib.Text.{◌==◌}
use shamarx_app.Prelude.Lists.{any}

-- `tags.includes(tag)`.
unfoldable pub includes : List String → String → Bool
includes tags tag = any (λ t. t == tag) tags
