-- ===== src/Prelude/Texts.antt =====
-- The parts of Go's `strings` and `fmt` packages that the code uses, over native texts.
use Prim.Native.String.{String, ◌++◌}
use mathlib.Core.Logic.{◌≢◌}
use mathlib.Core.List.{List, [], ◌∷◌}
use text.Mathlib.TextLemmas.{append-eq-nil_iff}

infixr 65 ◌<>◌
abbrev pub ◌<>◌ : String → String → String
s <> t = s ++ t

-- `strings.Join`.
unfoldable pub join : String → List String → String
join sep [] = ""
join sep (s ∷ []) = s
join sep (s ∷ t ∷ rest) = s <> sep <> join sep (t ∷ rest)

-- A text that begins with a text that is not empty is not empty.
pub append-ne_empty : (s t : String) → s ≢ "" → s <> t ≢ ""
append-ne_empty s t h e = h ((append-eq-nil_iff {p = s} {q = t}).0 e).0

pub join-ne_empty : (sep s : String) (rest : List String) → s ≢ "" → join sep (s ∷ rest) ≢ ""
unfolding join
join-ne_empty sep s [] h = h
join-ne_empty sep s (t ∷ rest) h = append-ne_empty s (sep <> join sep (t ∷ rest)) h
