-- ===== src/Prelude/Text/Keys.antt =====
-- Texts that are built from a prefix: they differ where the prefixes differ.
use Prim.Native.String.{String, ◌++◌, count}
use mathlib.Core.Path.{◌≡◌, sym, ◌∙◌}
use mathlib.Core.Bool.{false}
use native.Mathlib.Omega.{arith}
use text.Mathlib.Text.{◌==◌}
use text.Mathlib.TextEquality.{eq_iff}
use text.Mathlib.TextLemmas.{append_assoc, append_inj}

-- Two texts whose beginnings, of the same length, differ.
pub prefixes_differ :
    (p p' q q' a b : String)
    → count p ≡ count q
    → (p == q) ≡ false
    → (((p ++ p') ++ a) == ((q ++ q') ++ b)) ≡ false
prefixes_differ p p' q q' a b same differ =
    ground (arith, eq_iff ((p ++ p') ++ a) ((q ++ q') ++ b), eq_iff p q, heads)
  where
    heads : (p ++ p') ++ a ≡ (q ++ q') ++ b → p ≡ q
    heads e = (append_inj (sym (append_assoc p p' a) ∙ e ∙ append_assoc q q' b) same).0
