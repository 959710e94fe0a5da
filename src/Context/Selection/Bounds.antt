-- ===== src/Context/Selection/Bounds.antt =====
-- The cost of what is selected, and the limit.
use evernight_ai.Prelude.{
  ℕ, zero, suc, ◌+◌, ◌≤◌, ◌<◌, ◌≡◌, refl, ◌∙◌, ◌≢◌, inl, inr, true, false, some, List, [], ◌∷◌,
  ◌++◌, arith, if◌then◌else◌, nat_eq, string_eq, option_eq, pair_eq, Bool-cases, get_elem?,
}
use evernight_ai.Content.{Content}
use evernight_ai.Context.Groups.{group_contains_protected}
use evernight_ai.Context.Selection.{has_index, pick, protect}

pub has_index_ne : (i j : ℕ) (l : List ℕ) → i ≢ j → has_index i (j ∷ l) ≡ has_index i l
unfolding has_index
has_index_ne i j l h = ground arith

pub has_index_self : (i : ℕ) (l : List ℕ) → has_index i (i ∷ l) ≡ true
unfolding has_index
has_index_self i l = ground arith

-- An index below the offset is never looked at.
pub pick_below :
    (j i : ℕ) (chosen : List ℕ) (gs : List (List Content))
    → j < i
    → pick (j ∷ chosen) i gs ≡ pick chosen i gs
unfolding pick
pick_below j i chosen [] h = refl
pick_below j i chosen (g ∷ gs) h =
    rw (has_index_ne i j chosen (omega arith), pick_below j (suc i) chosen gs (omega arith))

-- Later groups do not change whether an earlier one is chosen.
pub protect_below :
    (cost : List Content → ℕ) (ids : List ℕ) (i j : ℕ) (chosen : List ℕ) (used : ℕ)
    (gs : List (List Content))
    → j < i
    → has_index j (protect cost ids i chosen used gs).0 ≡ has_index j chosen
unfolding protect
protect_below cost ids i j chosen used [] h = refl
protect_below cost ids i j chosen used (g ∷ gs) h =
    elim (Bool-cases (group_contains_protected ids g)) [
      | inl t ↦
          rw (t, protect)
            (protect_below cost ids (suc i) j (i ∷ chosen) (used + cost g) gs (omega arith)
              ∙ has_index_ne j i chosen (omega arith))
      | inr t ↦ rw (t, protect) (protect_below cost ids (suc i) j chosen used gs (omega arith))
    ]

module _ (cost : List Content → ℕ) (cost_nil : cost [] ≡ 0)
    (cost_append : (xs ys : List Content) → cost (xs ++ ys) ≡ cost xs + cost ys) where
  -- One more group costs as much more.
  pub cost-pick :
      (k i j : ℕ) (chosen : List ℕ) (gs : List (List Content)) (g : List Content)
      → j ≡ i + k
      → has_index j chosen ≡ false
      → get_elem? gs k ≡ some g
      → cost (pick (j ∷ chosen) i gs) ≡ cost (pick chosen i gs) + cost g
  unfolding pick
  cost-pick k i j chosen [] g' p h e = cc
  cost-pick zero i j chosen (g ∷ gs) g' p h e =
      let at : j ≡ i = omega arith in
      ground (arith, at, cost_append g (pick chosen (suc i) gs), pick_below j (suc i) chosen gs)
  cost-pick (suc k) i j chosen (g ∷ gs) g' p h e =
      rw (has_index_ne i j chosen (omega arith)) (elim (Bool-cases (has_index i chosen)) [
        | inl t ↦ rw t (
            omega (
              arith,
              cost_append g (pick (j ∷ chosen) (suc i) gs),
              cost_append g (pick chosen (suc i) gs),
              cost-pick k (suc i) j chosen gs g' (omega arith) h e,
            ))
        | inr t ↦ rw t (cost-pick k (suc i) j chosen gs g' (omega arith) h e)
      ])

  -- Indexes from the offset on are not chosen yet.
  abbrev pub Above : ℕ → List ℕ → Type 0
  Above i chosen = (k : ℕ) → i ≤ k → has_index k chosen ≡ false

  Above-cons : (i : ℕ) (chosen : List ℕ) → Above i chosen → Above (suc i) (i ∷ chosen)
  Above-cons i chosen h k p = rw (has_index_ne k i chosen (omega arith)) (h k (omega arith))

  cost-pick_cons :
      (chosen : List ℕ) (i : ℕ) (g : List Content) (gs : List (List Content))
      → cost (pick chosen i (g ∷ gs))
        ≡ (if has_index i chosen then cost g else 0) + cost (pick chosen (suc i) gs)
  unfolding pick
  cost-pick_cons chosen i g gs =
      ground (arith, cost_append g (pick chosen (suc i) gs), has_index i chosen)

  -- What `protect` chose, it paid for.
  pub protect_cost :
      (ids : List ℕ) (i : ℕ) (chosen : List ℕ) (used : ℕ) (gs : List (List Content))
      → Above i chosen
      → (protect cost ids i chosen used gs).1 + cost (pick chosen i gs)
        ≡ used + cost (pick (protect cost ids i chosen used gs).0 i gs)
  unfolding protect
  protect_cost ids i chosen used [] h = unfold pick in omega arith
  protect_cost ids i chosen used (g ∷ gs) h = elim (Bool-cases (group_contains_protected ids g)) [
    | inl t ↦
        rw (t, protect)
          (ground (
            arith,
            cost-pick_cons chosen i g gs,
            cost-pick_cons (protect cost ids (suc i) (i ∷ chosen) (used + cost g) gs).0 i g gs,
            protect_below cost ids (suc i) i (i ∷ chosen) (used + cost g) gs,
            has_index_self i chosen,
            pick_below i (suc i) chosen gs,
            h i,
            protect_cost ids (suc i) (i ∷ chosen) (used + cost g) gs (Above-cons i chosen h),
          ))
    | inr t ↦
        rw (t, protect)
          (ground (
            arith,
            cost-pick_cons chosen i g gs,
            cost-pick_cons (protect cost ids (suc i) chosen used gs).0 i g gs,
            protect_below cost ids (suc i) i chosen used gs,
            h i,
            protect_cost ids (suc i) chosen used gs (λ k p. h k (omega arith)),
          ))
  ]
