-- ===== src/Memory/Query/Order.antt =====
-- The order of the selected memories.
use evernight_ai.Prelude.{
  String, ◌≡◌, refl, true, false, List, [], ◌∷◌, arith, nat_eq, string_eq, option_eq, pair_eq,
  text_ltb_asym, text_le_trans, ℤ, int_ltb_asym, int_le_trans,
}
use evernight_ai.Memory.{MemoryItem}
use evernight_ai.Memory.Query.{MemoryQuery, sort_key, key_ltb, before}

key_ltb_asym :
    (xs ys : List ℤ) (s t : String)
    → key_ltb (xs, s) (ys, t) ≡ true
    → key_ltb (ys, t) (xs, s) ≡ false
unfolding key_ltb
key_ltb_asym [] [] s t h = text_ltb_asym s t h
key_ltb_asym [] (y ∷ ys) s t h = refl
key_ltb_asym (x ∷ xs) [] s t h = ground (arith, h)
key_ltb_asym (x ∷ xs) (y ∷ ys) s t h = ground (arith, h, int_ltb_asym x y, key_ltb_asym xs ys s t)

key_le_trans :
    (xs ys zs : List ℤ) (s t u : String)
    → key_ltb (ys, t) (xs, s) ≡ false
    → key_ltb (zs, u) (ys, t) ≡ false
    → key_ltb (zs, u) (xs, s) ≡ false
unfolding key_ltb
key_le_trans [] [] [] s t u h k = text_le_trans s t u h k
key_le_trans [] [] (z ∷ zs) s t u h k = k
key_le_trans [] (y ∷ ys) [] s t u h k = ground (arith, h, k)
key_le_trans [] (y ∷ ys) (z ∷ zs) s t u h k = refl
key_le_trans (x ∷ xs) [] [] s t u h k = ground (arith, h, k)
key_le_trans (x ∷ xs) [] (z ∷ zs) s t u h k = ground (arith, h, k)
key_le_trans (x ∷ xs) (y ∷ ys) [] s t u h k = ground (arith, h, k)
key_le_trans (x ∷ xs) (y ∷ ys) (z ∷ zs) s t u h k = ground (
  arith,
  h,
  k,
  int_le_trans x y z,
  int_le_trans y z x,
  int_le_trans z x y,
  key_le_trans xs ys zs s t u,
)

pub before_asym : (q : MemoryQuery) (m n : MemoryItem) → before q m n ≡ true → before q n m ≡ false
unfolding before
before_asym q m n h = key_ltb_asym (sort_key q m).0 (sort_key q n).0 _ _ h

pub before_trans :
    (q : MemoryQuery) (l m n : MemoryItem)
    → before q m l ≡ false
    → before q n m ≡ false
    → before q n l ≡ false
unfolding before
before_trans q l m n h k = key_le_trans (sort_key q l).0 (sort_key q m).0 (sort_key q n).0 _ _ _ h k
