-- ===== src/Memory/Query/Chosen.antt =====
-- What a query selects: matching memories, in order, each once, and what it reports of the others.
use evernight_ai.Prelude.{
  ℕ, zero, suc, ◌+◌, String, ◌≡◌, refl, ap, inl, inr, Bool, true, false, Option, none, some, List,
  [], ◌∷◌, arith, ◌==◌, nat_eq, string_eq, option_eq, pair_eq, Bool-cases, length, keep, any, take,
  All, length-append, All-take, keep_sound, All-map, sorted_by, All-sorted_by, Sorted,
  sorted_by-Sorted, length-sorted_by,
}
use evernight_ai.Memory.{MemoryItem}
use evernight_ai.Memory.Query.{
  Texts, MemoryQuery, filter_reasons, matches, before, same_memory, rejections, deduplicated,
  deduplicated_if, up_to, select_memories,
}
use evernight_ai.Memory.Query.Order.{before_asym, before_trans}

module _ (tx : Texts) (q : MemoryQuery) where
  All-deduplicated {κ} :
      (P : MemoryItem → Type κ) (seen ms : List MemoryItem)
      → All P ms
      → All P (deduplicated tx q seen ms).0
  unfolding deduplicated
  All-deduplicated P seen [] h = tt
  All-deduplicated P seen (m ∷ ms) h = elim (Bool-cases (any (same_memory tx q m) seen)) [
    | inl e ↦ rw e (All-deduplicated P seen ms h.1)
    | inr e ↦ rw e (h.0, All-deduplicated P (m ∷ seen) ms h.1)
  ]

  deduplicated-Sorted :
      (seen ms : List MemoryItem)
      → Sorted (before q) ms
      → Sorted (before q) (deduplicated tx q seen ms).0
  unfolding deduplicated
  deduplicated-Sorted seen [] h = tt
  deduplicated-Sorted seen (m ∷ ms) h = elim (Bool-cases (any (same_memory tx q m) seen)) [
    | inl e ↦ rw e (deduplicated-Sorted seen ms h.1)
    | inr e ↦ rw e (
      All-deduplicated (λ n. before q n m ≡ false) (m ∷ seen) ms h.0,
      deduplicated-Sorted (m ∷ seen) ms h.1,
    )
  ]

  -- No later memory has the key of an earlier one.
  abbrev pub NoTwins : List MemoryItem → Type 0
  NoTwins [] = Unit {0}
  NoTwins (m ∷ ms) = All (λ n. same_memory tx q n m ≡ false) ms × NoTwins ms

  -- What is kept has the key of nothing seen.
  deduplicated_unseen :
      (seen ms : List MemoryItem)
      → All (λ n. any (same_memory tx q n) seen ≡ false) (deduplicated tx q seen ms).0
  unfolding deduplicated
  deduplicated_unseen seen [] = tt
  deduplicated_unseen seen (m ∷ ms) = elim (Bool-cases (any (same_memory tx q m) seen)) [
    | inl e ↦ rw e (deduplicated_unseen seen ms)
    | inr e ↦ rw e (
      e,
      All-map (λ n. any (same_memory tx q n) (m ∷ seen) ≡ false) _ _
          (λ n unseen. ground (arith, unseen)) (deduplicated_unseen (m ∷ seen) ms),
    )
  ]

  deduplicated-NoTwins : (seen ms : List MemoryItem) → NoTwins (deduplicated tx q seen ms).0
  unfolding deduplicated
  deduplicated-NoTwins seen [] = tt
  deduplicated-NoTwins seen (m ∷ ms) = elim (Bool-cases (any (same_memory tx q m) seen)) [
    | inl e ↦ rw e (deduplicated-NoTwins seen ms)
    | inr e ↦ rw e (
      All-map (λ n. any (same_memory tx q n) (m ∷ seen) ≡ false) _ _
          (λ n unseen. ground (arith, unseen)) (deduplicated_unseen (m ∷ seen) ms),
      deduplicated-NoTwins (m ∷ seen) ms,
    )
  ]

  length-deduplicated :
      (seen ms : List MemoryItem)
      → length (deduplicated tx q seen ms).0 + length (deduplicated tx q seen ms).1 ≡ length ms
  unfolding deduplicated
  length-deduplicated seen [] = refl
  length-deduplicated seen (m ∷ ms) = elim (Bool-cases (any (same_memory tx q m) seen)) [
    | inl e ↦ rw e (omega (arith, length-deduplicated seen ms))
    | inr e ↦ rw e (omega (arith, length-deduplicated (m ∷ seen) ms))
  ]

  length-rejections :
      (now : ℕ) (ms : List MemoryItem)
      → length (keep (matches tx now q) ms) + length (rejections tx now q ms) ≡ length ms
  unfolding rejections
  length-rejections now [] = refl
  length-rejections now (m ∷ ms) = elim (Bool-cases (matches tx now q m)) [
    | inl e ↦ rw e (omega (arith, length-rejections now ms))
    | inr e ↦ rw e (omega (arith, length-rejections now ms))
  ]

  take-Sorted :
      (n : ℕ) (ms : List MemoryItem) → Sorted (before q) ms → Sorted (before q) (take n ms)
  take-Sorted zero ms h = tt
  take-Sorted (suc n) [] h = tt
  take-Sorted (suc n) (m ∷ ms) h = (All-take _ n ms h.0, take-Sorted n ms h.1)

  take-NoTwins : (n : ℕ) (ms : List MemoryItem) → NoTwins ms → NoTwins (take n ms)
  take-NoTwins zero ms h = tt
  take-NoTwins (suc n) [] h = tt
  take-NoTwins (suc n) (m ∷ ms) h = (All-take _ n ms h.0, take-NoTwins n ms h.1)

  up_to-Sorted :
      (limit : Option ℕ) (ms : List MemoryItem)
      → Sorted (before q) ms
      → Sorted (before q) (up_to limit ms)
  unfolding up_to
  up_to-Sorted none ms h = h
  up_to-Sorted (some n) ms h = take-Sorted n ms h

  up_to-NoTwins : (limit : Option ℕ) (ms : List MemoryItem) → NoTwins ms → NoTwins (up_to limit ms)
  unfolding up_to
  up_to-NoTwins none ms h = h
  up_to-NoTwins (some n) ms h = take-NoTwins n ms h

  All-up_to {κ} :
      (P : MemoryItem → Type κ) (limit : Option ℕ) (ms : List MemoryItem)
      → All P ms
      → All P (up_to limit ms)
  unfolding up_to
  All-up_to P none ms h = h
  All-up_to P (some n) ms h = All-take P n ms h

  deduplicated_if-Sorted :
      (b : Bool) (ms : List MemoryItem)
      → Sorted (before q) ms
      → Sorted (before q) (deduplicated_if b tx q ms).0
  unfolding deduplicated_if
  deduplicated_if-Sorted false ms h = h
  deduplicated_if-Sorted true ms h = deduplicated-Sorted [] ms h

  All-deduplicated_if {κ} :
      (P : MemoryItem → Type κ) (b : Bool) (ms : List MemoryItem)
      → All P ms
      → All P (deduplicated_if b tx q ms).0
  unfolding deduplicated_if
  All-deduplicated_if P false ms h = h
  All-deduplicated_if P true ms h = All-deduplicated P [] ms h

  length-deduplicated_if :
      (b : Bool) (ms : List MemoryItem)
      → length (deduplicated_if b tx q ms).0 + length (deduplicated_if b tx q ms).1 ≡ length ms
  unfolding deduplicated_if
  length-deduplicated_if false ms = omega arith
  length-deduplicated_if true ms = length-deduplicated [] ms

  no_reasons :
      (now : ℕ) (m : MemoryItem) → matches tx now q m ≡ true → filter_reasons tx now m q ≡ []
  unfolding matches
  no_reasons now m h = empty_list (filter_reasons tx now m q) h
    where
      empty_list : (l : List String) → (length l == 0) ≡ true → l ≡ []
      empty_list [] e = refl
      empty_list (x ∷ xs) e = ground (arith, e)

-- The selected memories have nothing against them, and stand in the order of the query's sort key.
pub select_memories-Sorted :
    (tx : Texts) (now : ℕ) (memories : List MemoryItem) (q : MemoryQuery)
    → All (λ m. filter_reasons tx now m q ≡ []) (select_memories tx now memories q).memories
      × Sorted (before q) (select_memories tx now memories q).memories
unfolding select_memories
select_memories-Sorted tx now memories q =
    let matching = keep (matches tx now q) memories in
    let scored = sorted_by (before q) matching in
    (
      All-up_to tx q _ q.limit _ (
          All-deduplicated_if tx q _ q.deduplicate scored (
            All-sorted_by _ (before q) matching (
              All-map _ _ matching (λ m h. no_reasons tx q now m h)
                (keep_sound (matches tx now q) memories)))),
      up_to-Sorted tx q q.limit _ (
          deduplicated_if-Sorted tx q q.deduplicate scored
            (sorted_by-Sorted (before q) (before_asym q) (before_trans q) matching)),
    )

-- With deduplication, no two selected memories have the same key.
pub select_memories-NoTwins :
    (tx : Texts) (now : ℕ) (memories : List MemoryItem) (q : MemoryQuery)
    → q.deduplicate ≡ true
    → NoTwins tx q (select_memories tx now memories q).memories
unfolding select_memories deduplicated_if
select_memories-NoTwins tx now memories q h =
    let scored = sorted_by (before q) (keep (matches tx now q) memories) in
    rw h (up_to-NoTwins tx q q.limit _ (deduplicated-NoTwins tx q [] scored))

-- Without a limit, the number of the selected memories and the number of those reported as filtered
-- add up to the number of candidates: no memory is lost silently.
pub select_memories_counts :
    (tx : Texts) (now : ℕ) (memories : List MemoryItem) (q : MemoryQuery)
    → q.limit ≡ none
    → (select_memories tx now memories q).selected_count
        + (select_memories tx now memories q).filtered_count
      ≡ (select_memories tx now memories q).total_candidates
unfolding select_memories up_to
select_memories_counts tx now memories q h =
    let matching = keep (matches tx now q) memories in
    let scored = sorted_by (before q) matching in
    let unique = (deduplicated_if q.deduplicate tx q scored).0 in
    let whole : up_to q.limit unique ≡ unique = ap (λ l. up_to l unique) h in
    omega (
      arith,
      ap length whole,
      length-append (rejections tx now q memories) (deduplicated_if q.deduplicate tx q scored).1,
      length-deduplicated_if tx q q.deduplicate scored,
      length-sorted_by (before q) matching,
      length-rejections tx q now memories,
    )
