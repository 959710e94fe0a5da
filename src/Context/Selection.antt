-- ===== src/Context/Selection.antt =====
-- `_preserve_system_prefix` and `TokenBudgetContextStrategy._within_budget` of
-- core/domain/context.py: which messages are kept when a request is too large.
pub mod Bounds
pub mod Limit
pub mod Whole
pub mod Protocol
pub mod Protection
use evernight_ai.Prelude.{
  ℕ, zero, suc, ◌+◌, ◌-◌, ◌*◌, ◌/◌, ◌≤◌, ◌<◌, max, String, ◌≡◌, refl, sym, ap, ◌∙◌, ◌≢◌, ◌↔◌, ◌⊎◌,
  inl, inr, Bool, true, false, not, ◌&&◌, ◌||◌, Option, none, some, List, [], ◌∷◌, ◌++◌, map,
  reverse, arith, eq_iff, ltb, leb, eqb, if◌then◌else◌, text_ltb, Eq, ◌==◌, nat_eq, nat_beq_iff,
  string_eq, option_eq, pair_eq, Bool-cases, Option-cases, is_some, or_else, when, text_ltb_asym,
  text_le_trans, length, keep, any, all, take, drop, get_elem?, All, length-append, length-keep-le,
  length-take, All-append, All-keep, All-take, keep_sound, keep-append, keep_none, length-drop-le,
  All-keep_both, All-map, Result, ok, err, Error, ◌>>=◌, ◌>>◌, require, >>=-eq-ok,
}
use evernight_ai.Content.{Content}
use evernight_ai.Context.Groups.{system_prefix, message_groups, group_contains_protected}

-- The strings of `degradation_reasons`; the first three name the limit, `max_messages` or
-- `token_budget`, in the source.
pub data Reason : Type 0 where
  system_prefix_exceeds protected_messages_exceed newest_group_exceeds dropped_messages : Reason

-- The messages that are kept, with `_degradation_metadata`.
pub record Selection : Type 0 where
  pub messages : List Content
  pub degraded : Bool
  pub reasons : List Reason
  pub dropped : ℕ

-- `selected_indexes`, what its elastic part costs, and whether the newest group was let in over
-- the limit.
pub record Chosen : Type 0 where
  pub indexes : List ℕ
  pub spent : ℕ
  pub over : Bool

unfoldable pub has_index : ℕ → List ℕ → Bool
has_index i l = any (λ j. i == j) l

-- `[message for index, group in enumerate(groups) if index in selected for message in group]`
unfoldable pub pick : List ℕ → ℕ → List (List Content) → List Content
unfolding has_index
pick chosen i [] = []
pick chosen i (g ∷ gs) = (if has_index i chosen then g else []) ++ pick chosen (suc i) gs

-- The selection is the same code twice, but for what a group costs and when it fits.
module _ (cost : List Content → ℕ) where
  -- `for index, group in enumerate(groups)`: the groups with a protected message, and their cost.
  unfoldable pub protect : List ℕ → ℕ → List ℕ → ℕ → List (List Content) → List ℕ × ℕ
  protect ids i chosen used [] = (chosen, used)
  protect ids i chosen used (g ∷ gs) =
      let hit = group_contains_protected ids g in
      protect ids (suc i) (if hit then i ∷ chosen else chosen) (if hit then used + cost g else used)
        gs

  -- The body of `for index in reversed(range(len(groups)))`, at a group not chosen so far.
  offer : (ℕ → ℕ → Bool) → ℕ → ℕ → Chosen → List Content → Chosen
  offer fits count i c g =
      if fits c.spent (cost g)
      then record c { indexes = i ∷ c.indexes; spent = c.spent + cost g }
      else if (length c.indexes == 0) && ((c.spent == 0) && (suc i == count))
      then record { indexes = i ∷ c.indexes; spent = c.spent + cost g; over = true }
      else c

  offer_at : (ℕ → ℕ → Bool) → ℕ → ℕ → Chosen → Option (List Content) → Chosen
  unfolding offer
  offer_at fits count i c none = c
  offer_at fits count i c (some g) = if has_index i c.indexes then c else offer fits count i c g

  unfoldable pub elastic : (ℕ → ℕ → Bool) → List (List Content) → ℕ → Chosen → Chosen
  unfolding offer_at
  elastic fits groups zero c = c
  elastic fits groups (suc i) c =
      elastic fits groups i (offer_at fits (length groups) i c (get_elem? groups i))

-- `reasons.append(...)` where the test holds.
noted : Bool → Reason → List Reason
noted true r = r ∷ []
noted false r = []

-- `_degradation_metadata`; every reason is given once, so `dict.fromkeys` drops none.
degradation : List Content → List Reason → ℕ → Selection
degradation messages reasons dropped = record {
  messages = messages;
  degraded = not (length reasons == 0);
  reasons = reasons;
  dropped = dropped;
}

-- What both functions do once the prefix, its cost, the cost of a group and the test are given.
-- `prefix_cost` is what the prefix takes of the limit.
unfoldable pub select :
    (List Content → ℕ) → ℕ → (ℕ → ℕ → ℕ → Bool) → ℕ → List ℕ → List Content → Selection
unfolding protect elastic pick noted degradation
select cost limit fits prefix_cost ids messages =
    let (prefix, remainder) = system_prefix messages in
    let groups = message_groups remainder in
    let (guarded, used) = protect cost ids 0 [] prefix_cost groups in
    let c =
      elastic cost (fits used) groups (length groups)
        (record { indexes = guarded; spent = 0; over = false }) in
    let selected = prefix ++ pick c.indexes 0 groups in
    let dropped = length messages - length selected in
    degradation selected
      (noted (ltb limit prefix_cost) system_prefix_exceeds
        ++ (noted (ltb limit used && not (length guarded == 0)) protected_messages_exceed
            ++ (noted c.over newest_group_exceeds ++ noted (not (dropped == 0)) dropped_messages)))
      dropped

-- `remaining >= 0 and selected_count + len(group) <= remaining`
unfoldable pub fits_messages : ℕ → ℕ → ℕ → ℕ → Bool
fits_messages max_items protected_count count size =
    leb protected_count max_items && leb (count + size) (max_items - protected_count)

-- `_preserve_system_prefix`
unfoldable pub preserve_system_prefix : ℕ → List ℕ → List Content → Selection
unfolding select fits_messages
preserve_system_prefix max_items ids messages =
    select length max_items (fits_messages max_items) (length (system_prefix messages).0) ids
      messages

-- `sum(estimator.estimate(message) for message in group)`
unfoldable pub estimate_all : (Content → ℕ) → List Content → ℕ
estimate_all estimate [] = 0
estimate_all estimate (m ∷ ms) = estimate m + estimate_all estimate ms

-- `used + elastic_used + cost > max_tokens`, negated.
unfoldable pub fits_tokens : ℕ → ℕ → ℕ → ℕ → Bool
fits_tokens max_tokens used elastic_used size = leb (used + elastic_used + size) max_tokens

-- `_within_budget`; the messages of the prefix are protected too.
unfoldable pub within_budget : (Content → ℕ) → ℕ → List ℕ → List Content → Selection
unfolding select fits_tokens estimate_all
within_budget estimate max_tokens ids messages =
    let prefix = (system_prefix messages).0 in
    select (estimate_all estimate) max_tokens (fits_tokens max_tokens)
      (estimate_all estimate prefix) (ids ++ map (λ m. m.address) prefix) messages
