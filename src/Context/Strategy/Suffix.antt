-- ===== src/Context/Strategy/Suffix.antt =====
-- What the summarizing strategy takes from the end of a history.
use evernight_ai.Prelude.{
  ℕ, suc, ◌+◌, ◌-◌, ◌≤◌, ◌≡◌, refl, sym, ap, ◌∙◌, ◌⊎◌, inl, inr, not, ◌&&◌, List, [], ◌∷◌, ◌++◌,
  reverse, arith, ltb, leb, ◌==◌, nat_eq, string_eq, option_eq, pair_eq, Bool-cases, length, take,
  length-append,
}
use mathlib.Core.List.{append_assoc, reverse_aux, reverse_aux-eq, reverse-reverse}
use evernight_ai.Content.{Content}
use evernight_ai.Context.Groups.{tail_loop, tail_groups, flat}

abbrev pub Groups : Type 0
Groups = List (List Content)

pub flat-append : (xs ys : Groups) → flat (xs ++ ys) ≡ flat xs ++ flat ys
flat-append [] ys = refl
flat-append (x ∷ xs) ys = rw (flat-append xs ys) (sym (append_assoc x (flat xs) (flat ys)))

tail_loop_suffix :
    (max_items count : ℕ) (selected gs : Groups)
    → (rest : Groups) × (reverse_aux gs selected ≡ rest ++ tail_loop max_items count selected gs)
unfolding tail_loop
tail_loop_suffix max_items count selected [] = ([], refl)
tail_loop_suffix max_items count selected (g ∷ gs) =
    let (more, e) = tail_loop_suffix max_items (count + length g) (g ∷ selected) gs in
    let whole = reverse_aux-eq gs (g ∷ selected) in
    elim (Bool-cases (not (length selected == 0) && ltb max_items (count + length g))) [
      | inl t ↦
          rw t (reverse gs ++ g ∷ [], whole ∙ sym (append_assoc (reverse gs) (g ∷ []) selected))
      | inr t ↦ elim (Bool-cases (leb max_items (count + length g))) [
        | inl u ↦ rw (t, u) (reverse gs, whole)
        | inr u ↦ rw (t, u) (more, e)
      ]
    ]

-- The recent groups are a suffix of the groups.
pub tail_groups_suffix :
    (groups : Groups) (n : ℕ) → (rest : Groups) × (groups ≡ rest ++ tail_groups groups n)
unfolding tail_groups
tail_groups_suffix groups n =
    let (rest, e) = tail_loop_suffix n 0 [] (reverse groups) in
    (rest, sym (reverse-reverse groups) ∙ e)

take_part : (xs ys : Groups) → take (length (xs ++ ys) - length ys) (xs ++ ys) ≡ xs
take_part [] ys = let e : length ys - length ys ≡ 0 = omega arith in rw e refl
take_part (x ∷ xs) ys =
    let e : length (x ∷ (xs ++ ys)) - length ys ≡ suc (length (xs ++ ys) - length ys) =
      omega (arith, length-append xs ys) in
    rw e (ap (◌∷◌ x) (take_part xs ys))

-- The removed groups and the recent ones are the groups.
pub removed_and_recent :
    (groups : Groups) (n : ℕ)
    → let recent = tail_groups groups n in
      flat (take (length groups - length recent) groups) ++ flat recent ≡ flat groups
removed_and_recent groups n =
    let recent = tail_groups groups n in
    let (rest, e) = tail_groups_suffix groups n in
    let removed : take (length groups - length recent) groups ≡ rest =
      ap (λ gs. take (length gs - length recent) gs) e ∙ take_part rest recent in
    cc (removed, flat-append rest recent, e)

tail_loop_bound :
    (n count : ℕ) (selected gs : Groups)
    → count ≡ length (flat selected)
    → count ≤ n
    → (length (flat (tail_loop n count selected gs)) ≤ n)
      ⊎ (length (tail_loop n count selected gs) ≤ 1)
unfolding tail_loop
tail_loop_bound n count selected [] h k = inl (omega arith)
tail_loop_bound n count selected (g ∷ gs) h k =
    ground (
      arith,
      length-append g (flat selected),
      tail_loop_bound n (count + length g) (g ∷ selected) gs,
    )

-- The recent groups have at most `n` messages, or there is one only.
pub tail_groups_bound :
    (groups : Groups) (n : ℕ)
    → (length (flat (tail_groups groups n)) ≤ n) ⊎ (length (tail_groups groups n) ≤ 1)
unfolding tail_groups
tail_groups_bound groups n = tail_loop_bound n 0 [] (reverse groups) refl (omega arith)
