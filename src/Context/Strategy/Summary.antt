-- ===== src/Context/Strategy/Summary.antt =====
-- What the summarizing strategy replaces.
use evernight_ai.Prelude.{
  ℕ, ◌≤◌, ◌<◌, ◌≡◌, refl, sym, ap, ◌∙◌, ◌⊎◌, inl, inr, List, ◌∷◌, ◌++◌, arith, leb, ◌==◌, nat_eq,
  string_eq, option_eq, pair_eq, Bool-cases, length, length-append,
}
use evernight_ai.Content.{Content}
use evernight_ai.Context.Groups.{system_prefix, message_groups, tail_groups, flat}
use evernight_ai.Context.Groups.Partition.{system_prefix_append, flat-message_groups}
use evernight_ai.Context.Strategy.{ChatRequest, summarize_old, removed_groups}
use evernight_ai.Context.Strategy.Suffix.{removed_and_recent, tail_groups_bound}

-- All groups are recent: they fit, or there is one only.
all_recent :
    (ms : List Content) (n : ℕ)
    → let groups = message_groups ms in
      length (flat (removed_groups groups (length (tail_groups groups n)))) ≡ 0
      → (length ms ≤ n) ⊎ (length (tail_groups groups n) ≤ 1)
unfolding removed_groups
all_recent ms n h =
    let groups = message_groups ms in
    let recent = flat (tail_groups groups n) in
    let removed = flat (removed_groups groups (length (tail_groups groups n))) in
    ground (
      arith,
      ap length (removed_and_recent groups n ∙ flat-message_groups ms),
      length-append removed recent,
      tail_groups_bound groups n,
    )

-- A request is left as it is only if its messages are at most `after`, or its messages behind the
-- system prefix are at most `n`, or a single group of these is recent. Otherwise the messages
-- behind the prefix are split in two, and one summary stands for the first part, which is not empty;
-- the second part has at most `n` messages or is a single group.
pub summarize_old_exact :
    (f : List Content → Content) (after n : ℕ) (q : ChatRequest)
    → let (prefix, remainder) = system_prefix q.messages in
      let recent_groups = tail_groups (message_groups remainder) n in
      let replaced = summarize_old f after n q in
      ((replaced ≡ q)
        × ((length q.messages ≤ after) ⊎ ((length remainder ≤ n) ⊎ (length recent_groups ≤ 1))))
      ⊎ ((removed : List Content) × (q.messages ≡ prefix ++ (removed ++ flat recent_groups))
          × (replaced.messages ≡ prefix ++ f removed ∷ flat recent_groups)
          × (0 < length removed)
          × ((length (flat recent_groups) ≤ n) ⊎ (length recent_groups ≤ 1)))
unfolding summarize_old
summarize_old_exact f after n q =
    let prefix = (system_prefix q.messages).0 in
    let remainder = (system_prefix q.messages).1 in
    let groups = message_groups remainder in
    let removed = flat (removed_groups groups (length (tail_groups groups n))) in
    let parts : prefix ++ (removed ++ flat (tail_groups groups n)) ≡ q.messages =
      ap (λ ms. prefix ++ ms)
        (unfold removed_groups in removed_and_recent groups n ∙ flat-message_groups remainder)
      ∙ system_prefix_append q.messages in
    elim (Bool-cases (leb (length q.messages) after)) [
      | inl t ↦ rw t (inl (refl, inl (ground arith)))
      | inr t ↦ elim (Bool-cases (leb (length remainder) n)) [
        | inl u ↦ rw (t, u) (inl (refl, inr (inl (ground arith))))
        | inr u ↦ elim (Bool-cases (length removed == 0)) [
          | inl v ↦ rw (t, u, v) (inl (refl, inr (all_recent remainder n (ground arith))))
          | inr v ↦
              rw (t, u, v)
                (inr (removed, sym parts, refl, ground arith, tail_groups_bound groups n))
        ]
      ]
    ]
