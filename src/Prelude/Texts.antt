-- ===== src/Prelude/Texts.antt =====
-- The order of texts.
use Prim.Native.Nat.{Ordering}
use Prim.Native.String.{String, [], ◌∷◌, compare}
use Prim.Native.String.compare
use mathlib.Core.Path.{◌≡◌}
use mathlib.Core.Bool.{true, false}
use native.Mathlib.Omega.{arith}
use evernight_ai.Prelude.Tests.{text_ltb}

compare_swap : (s t : String) → compare s t ≡ Ordering.lt → compare t s ≡ Ordering.gt
compare_swap [] [] h = ground (arith, compare.nil-nil)
compare_swap [] (d ∷ t) h = compare.cons-nil d t
compare_swap (c ∷ s) [] h = ground (arith, compare.cons-nil c s)
compare_swap (c ∷ s) (d ∷ t) h =
    ground (arith, compare.cons-cons c d s t, compare.cons-cons d c t s, compare_swap s t)

pub text_ltb_asym : (s t : String) → text_ltb s t ≡ true → text_ltb t s ≡ false
text_ltb_asym s t h = ground (arith, compare_swap s t)

-- `≤` on texts is transitive.
pub text_le_trans :
    (s t u : String) → text_ltb t s ≡ false → text_ltb u t ≡ false → text_ltb u s ≡ false
text_le_trans [] [] [] h k = k
text_le_trans [] [] (e ∷ u) h k = k
text_le_trans [] (d ∷ t) [] h k = ground (arith, compare.nil-nil)
text_le_trans [] (d ∷ t) (e ∷ u) h k = ground (arith, compare.cons-nil e u)
text_le_trans (c ∷ s) [] [] h k = ground (arith, compare.nil-cons c s)
text_le_trans (c ∷ s) [] (e ∷ u) h k = ground (arith, compare.nil-cons c s)
text_le_trans (c ∷ s) (d ∷ t) [] h k = ground (arith, compare.nil-cons d t)
text_le_trans (c ∷ s) (d ∷ t) (e ∷ u) h k = ground (
  arith,
  compare.cons-cons d c t s,
  compare.cons-cons e d u t,
  compare.cons-cons e c u s,
  text_le_trans s t u,
)
