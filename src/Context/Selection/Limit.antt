-- ===== src/Context/Selection/Limit.antt =====
-- A selection is within its limit, or says which limit it exceeds.
use evernight_ai.Prelude.{
  ℕ, zero, suc, ◌+◌, ◌≤◌, ◌≡◌, refl, ◌⊎◌, inr, Bool, true, false, not, ◌&&◌, Option, none, some,
  List, [], ◌∷◌, ◌++◌, map, arith, ltb, ◌==◌, nat_eq, string_eq, option_eq, pair_eq, length, any,
  get_elem?, length-append,
}
use evernight_ai.Content.{Content}
use evernight_ai.Context.Groups.{system_prefix, message_groups}
use evernight_ai.Context.Selection.{
  Chosen, Reason, system_prefix_exceeds, protected_messages_exceed, newest_group_exceeds,
  dropped_messages, has_index, pick, protect, offer_at, elastic, select, noted, degradation,
  preserve_system_prefix, fits_messages, within_budget, fits_tokens, estimate_all,
}
use evernight_ai.Context.Selection.Bounds.{cost-pick, protect_cost}

module _ (cost : List Content → ℕ) (cost_nil : cost [] ≡ 0)
    (cost_append : (xs ys : List Content) → cost (xs ++ ys) ≡ cost xs + cost ys) (limit base : ℕ)
    (fits : ℕ → ℕ → Bool)
    (fits_sound : (spent size : ℕ) → fits spent size ≡ true → base + (spent + size) ≤ limit)
    (groups : List (List Content)) where
  -- The elastic part is paid for, and is within the limit unless the newest group was let in.
  record IsPaid (start : ℕ) (c : Chosen) : Type 0 where
    paid : cost (pick c.indexes 0 groups) ≡ start + c.spent
    within : (c.over ≡ true) ⊎ ((base + c.spent ≤ limit) ⊎ (c.spent ≡ 0))

  offer_at-IsPaid :
      (start i : ℕ) (c : Chosen) (o : Option (List Content))
      → get_elem? groups i ≡ o
      → IsPaid start c
      → IsPaid start (offer_at cost fits (length groups) i c o)
  unfolding offer_at
  offer_at-IsPaid start i c none e h = h
  offer_at-IsPaid start i c (some g) e h = ground (
    arith,
    e,
    fits_sound c.spent (cost g),
    cost-pick cost cost_nil cost_append i 0 i c.indexes groups g,
  )

  elastic-IsPaid :
      (start n : ℕ) (c : Chosen) → IsPaid start c → IsPaid start (elastic cost fits groups n c)
  unfolding elastic
  elastic-IsPaid start zero c h = h
  elastic-IsPaid start (suc i) c h =
      elastic-IsPaid start i _ (offer_at-IsPaid start i c (get_elem? groups i) refl h)

pub cost-pick_none :
    (cost : List Content → ℕ)
    → cost [] ≡ 0
    → (i : ℕ) (gs : List (List Content)) → cost (pick [] i gs) ≡ 0
unfolding pick has_index
cost-pick_none cost cost_nil i [] = cost_nil
cost-pick_none cost cost_nil i (g ∷ gs) = cost-pick_none cost cost_nil (suc i) gs

-- The reasons that tell of a limit that is exceeded.
abbrev pub is_overrun : Reason → Bool
is_overrun system_prefix_exceeds = true
is_overrun protected_messages_exceed = true
is_overrun newest_group_exceeds = true
is_overrun dropped_messages = false

module _ (cost : List Content → ℕ) (cost_nil : cost [] ≡ 0)
    (cost_append : (xs ys : List Content) → cost (xs ++ ys) ≡ cost xs + cost ys) (limit : ℕ)
    (fits : ℕ → ℕ → ℕ → Bool)
    (fits_sound : (used spent size : ℕ)
      → fits used spent size ≡ true
      → used + (spent + size) ≤ limit) where
  -- The reasons that `select` notes, and the cost they are noted for.
  overrun_noted :
      (prefix_cost used start spent total dropped : ℕ) (guarded : List ℕ) (over : Bool)
      → used ≡ prefix_cost + start
      → total ≡ used + spent
      → (guarded ≡ [] → start ≡ 0)
      → (over ≡ true) ⊎ ((used + spent ≤ limit) ⊎ (spent ≡ 0))
      → (total ≤ limit)
        ⊎ (any is_overrun (
              noted (ltb limit prefix_cost) system_prefix_exceeds
              ++ (noted (ltb limit used && not (length guarded == 0)) protected_messages_exceed
                  ++ (noted over newest_group_exceeds
                      ++ noted (not (dropped == 0)) dropped_messages)))
            ≡ true)
  unfolding noted
  overrun_noted prefix_cost used start spent total dropped [] over p q r h = ground (arith, r refl)
  overrun_noted prefix_cost used start spent total dropped (i ∷ guarded) over p q r h = ground arith

  pub select_limit :
      (ids : List ℕ) (messages : List Content)
      → let s = select cost limit fits (cost (system_prefix messages).0) ids messages in
        (cost s.messages ≤ limit) ⊎ (any is_overrun s.reasons ≡ true)
  unfolding select degradation
  select_limit ids messages =
      let prefix = (system_prefix messages).0 in
      let groups = message_groups (system_prefix messages).1 in
      let guard = protect cost ids 0 [] (cost prefix) groups in
      let first : Chosen = record { indexes = guard.0; spent = 0; over = false } in
      let c = elastic cost (fits guard.1) groups (length groups) first in
      let start = cost (pick guard.0 0 groups) in
      let paid =
        elastic-IsPaid cost cost_nil cost_append limit guard.1 (fits guard.1) (fits_sound guard.1)
          groups start (length groups) first
          (record { paid = omega arith; within = inr (inr refl) }) in
      let protected_paid =
        protect_cost cost cost_nil cost_append ids 0 [] (cost prefix) groups
          (unfold has_index in λ k p. refl) in
      overrun_noted (cost prefix) guard.1 start c.spent (cost (prefix ++ pick c.indexes 0 groups)) _
        guard.0 c.over (omega (arith, protected_paid, cost-pick_none cost cost_nil 0 groups))
        (omega (
          arith,
          protected_paid,
          cost-pick_none cost cost_nil 0 groups,
          paid.paid,
          cost_append prefix (pick c.indexes 0 groups),
        ))
        (λ e. rw e (cost-pick_none cost cost_nil 0 groups)) paid.within

pub cost-estimate_all :
    (estimate : Content → ℕ) (xs ys : List Content)
    → estimate_all estimate (xs ++ ys) ≡ estimate_all estimate xs + estimate_all estimate ys
unfolding estimate_all
cost-estimate_all estimate [] ys = omega arith
cost-estimate_all estimate (x ∷ xs) ys = omega (arith, cost-estimate_all estimate xs ys)

-- The messages that the window keeps are at most `max_items`, or the reasons say that the system
-- prefix, the protected messages or the newest group exceeds it.
pub preserve_system_prefix_limit :
    (max_items : ℕ) (ids : List ℕ) (messages : List Content)
    → let s = preserve_system_prefix max_items ids messages in
      (length s.messages ≤ max_items) ⊎ (any is_overrun s.reasons ≡ true)
unfolding preserve_system_prefix
preserve_system_prefix_limit max_items ids messages =
    select_limit length refl (λ xs ys. length-append xs ys) max_items (fits_messages max_items)
      (unfold fits_messages in λ used spent size h. ground arith) ids messages

-- The estimated tokens of the messages that the budget keeps are at most `max_tokens`, or the
-- reasons say that the system prefix, the protected messages or the newest group exceeds it.
pub within_budget_limit :
    (estimate : Content → ℕ) (max_tokens : ℕ) (ids : List ℕ) (messages : List Content)
    → let s = within_budget estimate max_tokens ids messages in
      (estimate_all estimate s.messages ≤ max_tokens) ⊎ (any is_overrun s.reasons ≡ true)
unfolding within_budget
within_budget_limit estimate max_tokens ids messages =
    select_limit (estimate_all estimate) (unfold estimate_all in refl) (cost-estimate_all estimate)
      max_tokens (fits_tokens max_tokens) (unfold fits_tokens in λ used spent size h. ground arith)
      (ids ++ map (λ m. m.address) (system_prefix messages).0) messages
