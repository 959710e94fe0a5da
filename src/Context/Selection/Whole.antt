-- ===== src/Context/Selection/Whole.antt =====
-- Where everything fits, the selection keeps everything.
use evernight_ai.Prelude.{
  ℕ, zero, suc, ◌+◌, ◌-◌, ◌≤◌, ◌<◌, ◌≡◌, refl, sym, ap, ◌∙◌, inl, inr, Bool, true, false, not, ◌&&◌,
  Option, none, some, List, [], ◌∷◌, ◌++◌, map, arith, ltb, ◌==◌, nat_eq, string_eq, option_eq,
  pair_eq, Bool-cases, length, get_elem?, length-append,
}
use evernight_ai.Content.{Content}
use evernight_ai.Context.Groups.{system_prefix, message_groups, flat}
use evernight_ai.Context.Groups.Partition.{system_prefix_append, flat-message_groups}
use evernight_ai.Context.Selection.{
  Reason, Chosen, has_index, pick, protect, offer, offer_at, elastic, select, noted, degradation,
  preserve_system_prefix, fits_messages, within_budget, fits_tokens, estimate_all,
}
use evernight_ai.Context.Selection.Bounds.{cost-pick, protect_cost}
use evernight_ai.Context.Selection.Limit.{cost-pick_none, cost-estimate_all}

module _ (cost : List Content → ℕ) (cost_nil : cost [] ≡ 0)
    (cost_append : (xs ys : List Content) → cost (xs ++ ys) ≡ cost xs + cost ys) where
  cost-pick-le :
      (chosen : List ℕ) (i : ℕ) (gs : List (List Content))
      → cost (pick chosen i gs) ≤ cost (flat gs)
  unfolding pick
  cost-pick-le chosen i [] = omega arith
  cost-pick-le chosen i (g ∷ gs) = ground (
    arith,
    cost_append g (pick chosen (suc i) gs),
    cost_append g (flat gs),
    cost-pick-le chosen (suc i) gs,
  )

  module _ (limit prefix_cost used start : ℕ) (fits : ℕ → ℕ → Bool)
      (fits_complete : (spent size : ℕ) → used + (spent + size) ≤ limit → fits spent size ≡ true)
      (groups : List (List Content)) (used_lem : used ≡ prefix_cost + start)
      (all_fit : prefix_cost + cost (flat groups) ≤ limit) where
    -- All groups from the index on are chosen, paid for, and none was let in over the limit.
    record IsFull (i : ℕ) (c : Chosen) : Type 0 where
      full : (k : ℕ) → i ≤ k → k < length groups → has_index k c.indexes ≡ true
      paid : cost (pick c.indexes 0 groups) ≡ start + c.spent
      fine : c.over ≡ false

    full_cons :
        (i : ℕ) (c : Chosen) (l : List ℕ)
        → ((k : ℕ) → suc i ≤ k → k < length groups → has_index k l ≡ true)
        → (k : ℕ) → i ≤ k
        → k < length groups
        → has_index k (i ∷ l) ≡ true
    unfolding has_index
    full_cons i c l h k p q = ground (arith, h k)

    get_elem?_below {ℓ} :
        {A : Type ℓ} (xs : List A) (i : ℕ) → get_elem? xs i ≡ none → i < length xs → ⊥
    get_elem?_below [] i e h = omega arith
    get_elem?_below (x ∷ xs) zero e h = cc
    get_elem?_below (x ∷ xs) (suc i) e h = get_elem?_below xs i e (omega arith)

    full_from :
        (i : ℕ) (l : List ℕ)
        → has_index i l ≡ true
        → ((k : ℕ) → suc i ≤ k → k < length groups → has_index k l ≡ true)
        → (k : ℕ) → i ≤ k
        → k < length groups
        → has_index k l ≡ true
    full_from i l here h k p q = ground (arith, h k)

    offer_at-IsFull :
        (i : ℕ) (c : Chosen) (o : Option (List Content))
        → get_elem? groups i ≡ o
        → i < length groups
        → IsFull (suc i) c
        → IsFull i (offer_at cost fits (length groups) i c o)
    unfolding offer_at
    offer_at-IsFull i c none e p h = absurd (get_elem?_below groups i e p)
    offer_at-IsFull i c (some g) e p h = elim (Bool-cases (has_index i c.indexes)) [
      | inl t ↦
          rw (t, offer_at)
            (record { full = full_from i c.indexes t h.full; paid = h.paid; fine = h.fine })
      | inr t ↦
          let grown =
            cost-pick cost cost_nil cost_append i 0 i c.indexes groups g (omega arith) t e in
          let room : fits c.spent (cost g) ≡ true =
            fits_complete c.spent (cost g)
              (omega (arith, grown, h.paid, cost-pick-le (i ∷ c.indexes) 0 groups)) in
          rw (t, offer_at)
            (rw (room, offer)
              (record {
                full = full_cons i c c.indexes h.full;
                paid = omega (arith, grown, h.paid);
                fine = h.fine;
              }))
    ]

    elastic-IsFull :
        (n : ℕ) (c : Chosen)
        → n ≤ length groups
        → IsFull n c
        → IsFull 0 (elastic cost fits groups n c)
    unfolding elastic
    elastic-IsFull zero c p h = h
    elastic-IsFull (suc i) c p h =
        elastic-IsFull i _ (omega arith)
          (offer_at-IsFull i c (get_elem? groups i) refl (omega arith) h)

pick_full :
    (chosen : List ℕ) (i : ℕ) (gs : List (List Content))
    → ((k : ℕ) → i ≤ k → k < i + length gs → has_index k chosen ≡ true)
    → pick chosen i gs ≡ flat gs
unfolding pick
pick_full chosen i [] h = refl
pick_full chosen i (g ∷ gs) h = rw (
  h i (omega arith) (omega arith),
  pick_full chosen (suc i) gs (λ k p q. h k (omega arith) (omega arith)),
)

no_reasons :
    (limit prefix_cost used : ℕ) (guarded : List ℕ) (c : Chosen) (messages selected : List Content)
    → prefix_cost ≤ limit
    → used ≤ limit
    → c.over ≡ false
    → selected ≡ messages
    → let dropped = length messages - length selected in
      (noted (ltb limit prefix_cost) Reason.system_prefix_exceeds
        ++ (noted (ltb limit used && not (length guarded == 0)) Reason.protected_messages_exceed
            ++ (noted c.over Reason.newest_group_exceeds
                ++ noted (not (dropped == 0)) Reason.dropped_messages)))
      ≡ []
unfolding noted
no_reasons limit prefix_cost used guarded c messages selected p q r e =
    rw e (ground (arith, p, q, r))

module _ (cost : List Content → ℕ) (cost_nil : cost [] ≡ 0)
    (cost_append : (xs ys : List Content) → cost (xs ++ ys) ≡ cost xs + cost ys) (limit : ℕ)
    (fits : ℕ → ℕ → ℕ → Bool)
    (fits_complete : (used spent size : ℕ)
      → used + (spent + size) ≤ limit
      → fits used spent size ≡ true) where
  pub select_whole :
      (ids : List ℕ) (messages : List Content)
      → cost messages ≤ limit
      → let s = select cost limit fits (cost (system_prefix messages).0) ids messages in
        (s.messages ≡ messages) × (s.reasons ≡ [])
  unfolding select degradation
  select_whole ids messages h =
      let prefix = (system_prefix messages).0 in
      let remainder = (system_prefix messages).1 in
      let groups = message_groups remainder in
      let guard = protect cost ids 0 [] (cost prefix) groups in
      let first : Chosen = record { indexes = guard.0; spent = 0; over = false } in
      let c = elastic cost (fits guard.1) groups (length groups) first in
      let start = cost (pick guard.0 0 groups) in
      let whole : cost prefix + cost (flat groups) ≡ cost messages =
        rw (flat-message_groups remainder)
          (sym (cost_append prefix remainder) ∙ ap cost (system_prefix_append messages)) in
      let used_lem : guard.1 ≡ cost prefix + start = omega (
        arith,
        protect_cost cost cost_nil cost_append ids 0 [] (cost prefix) groups
            (unfold has_index in λ k p. refl),
        cost-pick_none cost cost_nil 0 groups,
      ) in
      let full =
        elastic-IsFull cost cost_nil cost_append limit (cost prefix) guard.1 start (fits guard.1)
          (fits_complete guard.1) groups used_lem (omega (arith, whole)) (length groups) first
          (omega arith)
          (record { full = λ k p q. absurd (omega arith); paid = omega arith; fine = refl }) in
      let kept_all : prefix ++ pick c.indexes 0 groups ≡ messages =
        rw
          (
            pick_full c.indexes 0 groups (λ k p q. full.full k p (omega arith)),
            flat-message_groups remainder,
          )
          (system_prefix_append messages) in
      (
        kept_all,
        no_reasons limit (cost prefix) guard.1 guard.0 c messages
            (prefix ++ pick c.indexes 0 groups) (omega (arith, whole))
            (omega
              (arith, whole, used_lem, cost-pick-le cost cost_nil cost_append guard.0 0 groups))
            full.fine kept_all,
      )

-- A history of at most `max_items` messages is kept as it is, and nothing is reported.
pub preserve_system_prefix_whole :
    (max_items : ℕ) (ids : List ℕ) (messages : List Content)
    → length messages ≤ max_items
    → let s = preserve_system_prefix max_items ids messages in
      (s.messages ≡ messages) × (s.reasons ≡ [])
unfolding preserve_system_prefix
preserve_system_prefix_whole max_items ids messages h =
    select_whole length refl (λ xs ys. length-append xs ys) max_items (fits_messages max_items)
      (unfold fits_messages in λ used spent size p. ground arith) ids messages h

-- A history whose estimated tokens are at most `max_tokens` is kept as it is, and nothing is
-- reported.
pub within_budget_whole :
    (estimate : Content → ℕ) (max_tokens : ℕ) (ids : List ℕ) (messages : List Content)
    → estimate_all estimate messages ≤ max_tokens
    → let s = within_budget estimate max_tokens ids messages in
      (s.messages ≡ messages) × (s.reasons ≡ [])
unfolding within_budget
within_budget_whole estimate max_tokens ids messages h =
    select_whole (estimate_all estimate) (unfold estimate_all in refl) (cost-estimate_all estimate)
      max_tokens (fits_tokens max_tokens) (unfold fits_tokens in λ used spent size p. ground arith)
      (ids ++ map (λ m. m.address) (system_prefix messages).0) messages h
