-- ===== src/Context/Selection/Protection.antt =====
-- No protected message is dropped.
use evernight_ai.Prelude.{
  ℕ, zero, suc, ◌+◌, ◌≡◌, refl, sym, ap, ◌∙◌, ◌⊎◌, inl, inr, Bool, true, false, Option, none, some,
  List, [], ◌∷◌, ◌++◌, map, arith, if◌then◌else◌, ◌==◌, nat_eq, string_eq, option_eq, pair_eq,
  Bool-cases, length, keep, any, get_elem?, keep-append,
}
use evernight_ai.Content.{Content}
use evernight_ai.Context.Groups.{system_prefix, message_groups, flat, group_contains_protected}
use evernight_ai.Context.Groups.Partition.{system_prefix_append, flat-message_groups}
use evernight_ai.Context.Selection.{
  Chosen, has_index, pick, protect, offer_at, elastic, select, degradation, preserve_system_prefix,
  within_budget, fits_messages, fits_tokens, estimate_all,
}
use evernight_ai.Context.Selection.Bounds.{protect_below, has_index_self}

-- `id(message) in protected_ids`
abbrev pub is_protected : List ℕ → Content → Bool
is_protected ids m = any (λ j. m.address == j) ids

-- Every group that holds a protected message is chosen.
Guarded : List ℕ → List ℕ → ℕ → List (List Content) → Type 0
Guarded ids chosen i [] = Unit
Guarded ids chosen i (g ∷ gs) =
    ((group_contains_protected ids g ≡ false) ⊎ (has_index i chosen ≡ true))
    × Guarded ids chosen (suc i) gs

keep_unprotected :
    (ids : List ℕ) (g : List Content)
    → group_contains_protected ids g ≡ false
    → keep (is_protected ids) g ≡ []
unfolding group_contains_protected
keep_unprotected ids [] h = refl
keep_unprotected ids (m ∷ g) h = ground (arith, keep_unprotected ids g)

keep-pick :
    (ids chosen : List ℕ) (i : ℕ) (gs : List (List Content))
    → Guarded ids chosen i gs
    → keep (is_protected ids) (pick chosen i gs) ≡ keep (is_protected ids) (flat gs)
unfolding pick Guarded
keep-pick ids chosen i [] h = refl
keep-pick ids chosen i (g ∷ gs) h = ground (
  arith,
  h.0,
  keep_unprotected ids g,
  keep-append (is_protected ids) g (flat gs),
  keep-append (is_protected ids) g (pick chosen (suc i) gs),
  keep-append (is_protected ids) [] (pick chosen (suc i) gs),
  keep-pick ids chosen (suc i) gs h.1,
)

Guarded-mono :
    (ids c c' : List ℕ) (i : ℕ) (gs : List (List Content))
    → ((k : ℕ) → has_index k c ≡ true → has_index k c' ≡ true)
    → Guarded ids c i gs
    → Guarded ids c' i gs
unfolding Guarded
Guarded-mono ids c c' i [] f h = tt
Guarded-mono ids c c' i (g ∷ gs) f h =
    (ground (arith, h.0, f i), Guarded-mono ids c c' (suc i) gs f h.1)

protect-Guarded :
    (cost : List Content → ℕ) (ids : List ℕ) (i : ℕ) (chosen : List ℕ) (used : ℕ)
    (gs : List (List Content))
    → Guarded ids (protect cost ids i chosen used gs).0 i gs
unfolding protect Guarded
protect-Guarded cost ids i chosen used [] = tt
protect-Guarded cost ids i chosen used (g ∷ gs) =
    let hit = group_contains_protected ids g in
    let chosen' = if hit then i ∷ chosen else chosen in
    let used' = if hit then used + cost g else used in
    (
      elim (Bool-cases hit) [
        | inr t ↦ inl t
        | inl t ↦ inr (
            protect_below cost ids (suc i) i chosen' used' gs (omega arith)
            ∙ rw t (has_index_self i chosen))
      ],
      protect-Guarded cost ids (suc i) chosen' used' gs,
    )

offer_at_mono :
    (cost : List Content → ℕ) (fits : ℕ → ℕ → Bool) (n i k : ℕ) (c : Chosen)
    (o : Option (List Content))
    → has_index k c.indexes ≡ true
    → has_index k (offer_at cost fits n i c o).indexes ≡ true
unfolding offer_at has_index
offer_at_mono cost fits n i k c none h = h
offer_at_mono cost fits n i k c (some g) h = ground (arith, h)

elastic_mono :
    (cost : List Content → ℕ) (fits : ℕ → ℕ → Bool) (groups : List (List Content)) (n k : ℕ)
    (c : Chosen)
    → has_index k c.indexes ≡ true
    → has_index k (elastic cost fits groups n c).indexes ≡ true
unfolding elastic
elastic_mono cost fits groups zero k c h = h
elastic_mono cost fits groups (suc i) k c h =
    elastic_mono cost fits groups i k _
      (offer_at_mono cost fits (length groups) i k c (get_elem? groups i) h)

select_protected :
    (cost : List Content → ℕ) (limit : ℕ) (fits : ℕ → ℕ → ℕ → Bool) (prefix_cost : ℕ) (ids : List ℕ)
    (messages : List Content)
    → keep (is_protected ids) (select cost limit fits prefix_cost ids messages).messages
      ≡ keep (is_protected ids) messages
unfolding select degradation
select_protected cost limit fits prefix_cost ids messages =
    let (prefix, remainder) = system_prefix messages in
    let groups = message_groups remainder in
    let guard = protect cost ids 0 [] prefix_cost groups in
    let first : Chosen = record { indexes = guard.0; spent = 0; over = false } in
    let c = elastic cost (fits guard.1) groups (length groups) first in
    let guarded =
      Guarded-mono ids guard.0 c.indexes 0 groups
        (λ k. elastic_mono cost (fits guard.1) groups (length groups) k first)
        (protect-Guarded cost ids 0 [] prefix_cost groups) in
    keep-append (is_protected ids) prefix (pick c.indexes 0 groups)
    ∙ (ap (λ l. keep (is_protected ids) prefix ++ l) (keep-pick ids c.indexes 0 groups guarded)
        ∙ (rw (flat-message_groups remainder) (
            sym (keep-append (is_protected ids) prefix remainder)
            ∙ ap (keep (is_protected ids)) (system_prefix_append messages))))

-- Every protected message is kept by the window, in its place among these.
pub preserve_system_prefix_protected :
    (max_items : ℕ) (ids : List ℕ) (messages : List Content)
    → keep (is_protected ids) (preserve_system_prefix max_items ids messages).messages
      ≡ keep (is_protected ids) messages
unfolding preserve_system_prefix
preserve_system_prefix_protected max_items ids messages =
    select_protected length max_items (fits_messages max_items) (length (system_prefix messages).0)
      ids messages

keep-keep :
    (p q : Content → Bool) (l : List Content)
    → ((m : Content) → p m ≡ true → q m ≡ true)
    → keep p (keep q l) ≡ keep p l
keep-keep p q [] h = refl
keep-keep p q (m ∷ l) h = ground (arith, h m, keep-keep p q l h)

any_append : (p : ℕ → Bool) (xs ys : List ℕ) → any p xs ≡ true → any p (xs ++ ys) ≡ true
any_append p [] ys h = cc
any_append p (x ∷ xs) ys h = ground (arith, any_append p xs ys)

-- Every protected message is kept by the token budget, in its place among these.
pub within_budget_protected :
    (estimate : Content → ℕ) (max_tokens : ℕ) (ids : List ℕ) (messages : List Content)
    → keep (is_protected ids) (within_budget estimate max_tokens ids messages).messages
      ≡ keep (is_protected ids) messages
unfolding within_budget
within_budget_protected estimate max_tokens ids messages =
    let prefix = (system_prefix messages).0 in
    let all_ids = ids ++ map (λ m. m.address) prefix in
    let wider =
      λ (m : Content). any_append (λ j. m.address == j) ids (map (λ m. m.address) prefix) in
    let kept_all =
      select_protected (estimate_all estimate) max_tokens (fits_tokens max_tokens)
        (estimate_all estimate prefix) all_ids messages in
    sym (keep-keep (is_protected ids) (is_protected all_ids) _ wider)
    ∙ (ap (keep (is_protected ids)) kept_all
        ∙ keep-keep (is_protected ids) (is_protected all_ids) messages wider)
