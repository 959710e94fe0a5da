-- ===== src/Context/Selection/Protocol.antt =====
-- Trimming a history that follows the tool protocol leaves one that follows it.
use mathlib.Core.Path.{subst}
use mathlib.Core.List.{append_assoc, append-nil}
use evernight_ai.Prelude.{
  ℕ, zero, suc, String, ◌≡◌, refl, sym, ap, ◌∙◌, inl, inr, Bool, true, false, ◌&&◌, List, [], ◌∷◌,
  ◌++◌, map, arith, nat_eq, string_eq, option_eq, pair_eq, Bool-cases, length, All,
}
use evernight_ai.Content.{Content, system, tool, has_role, tool_calls_of}
use evernight_ai.Context.Organizer.{answers, call_ids}
use evernight_ai.Context.Organizer.Safety.{IsSafe, done, plain, round, Replies, calls_tools}
use evernight_ai.Context.Groups.{system_prefix, span_answers, groups_from, message_groups}
use evernight_ai.Context.Selection.{
  pick, select, degradation, preserve_system_prefix, within_budget, fits_messages, fits_tokens,
  estimate_all, has_index,
}

pub IsSafe-append : (xs ys : List Content) → IsSafe xs → IsSafe ys → IsSafe (xs ++ ys)
IsSafe-append xs ys done k = k
IsSafe-append xs ys (plain t c h) k = plain t c (IsSafe-append _ ys h k)
IsSafe-append xs ys (round m replies ms c r h e) k =
    round m replies (ms ++ ys) c r (IsSafe-append ms ys h k)
      (ap (λ l. l ++ ys) e ∙ ap (◌∷◌ m) (append_assoc replies ms ys))

IsSafe-pick :
    (chosen : List ℕ) (i : ℕ) (gs : List (List Content)) → All IsSafe gs → IsSafe (pick chosen i gs)
unfolding pick
IsSafe-pick chosen i [] h = done
IsSafe-pick chosen i (g ∷ gs) h = elim (Bool-cases (has_index i chosen)) [
  | inl t ↦ rw t (IsSafe-append g _ h.0 (IsSafe-pick chosen (suc i) gs h.1))
  | inr t ↦ rw t (IsSafe-pick chosen (suc i) gs h.1)
]

caller_is_no_tool : (m : Content) → calls_tools m ≡ true → has_role tool m ≡ false
unfolding has_role
caller_is_no_tool m h = ground arith

-- How a safe history begins: with a plain message, or with a whole round.
data Begins (m : Content) (ms : List Content) : Type 0 where
  plainly : has_role tool m ≡ false → calls_tools m ≡ false → IsSafe ms → Begins m ms
  round_of :
      (replies rest : List Content)
      → calls_tools m ≡ true
      → Replies (tool_calls_of m) replies
      → IsSafe rest
      → ms ≡ replies ++ rest
      → Begins m ms

cons_injective : {m n : Content} {ms ns : List Content} → m ∷ ms ≡ n ∷ ns → (m ≡ n) × (ms ≡ ns)
cons_injective e = (cc, cc)

begins : (l : List Content) (m : Content) (ms : List Content) → IsSafe l → l ≡ m ∷ ms → Begins m ms
begins l m ms done e = cc
begins l m ms (plain {m = n} {ms = ns} t c h) e =
    let (p, q) = cons_injective e in plainly (rw p at t) (rw p at c) (subst IsSafe q h)
begins l m ms (round n replies rest c r h e') e =
    let (p, q) = cons_injective (sym e' ∙ e) in
    round_of replies rest (rw p at c) (rw p at r) h (sym q)

-- A safe history does not begin with a tool message, so a span of answers stops there.
span_of_IsSafe :
    (ids : List String) (ms : List Content) → IsSafe ms → span_answers ids ms ≡ ([], ms)
unfolding span_answers
span_of_IsSafe ids [] h = refl
span_of_IsSafe ids (m ∷ ms) h = elim (begins (m ∷ ms) m ms h refl) [
  | plainly t c k ↦ rw t
  | round_of replies rest c r k e ↦ rw (caller_is_no_tool m c)
]

span_of_replies :
    (ids : List String) (replies rest : List Content)
    → All (λ m. (has_role tool m && answers ids m) ≡ true) replies
    → IsSafe rest
    → span_answers ids (replies ++ rest) ≡ (replies, rest)
unfolding span_answers
span_of_replies ids [] rest a h = span_of_IsSafe ids rest h
span_of_replies ids (m ∷ replies) rest a h =
    ground (arith, a.0, span_of_replies ids replies rest a.1 h)

pub groups_from-IsSafe :
    (fuel : ℕ) (ms : List Content) → IsSafe ms → All IsSafe (groups_from fuel ms)
unfolding groups_from
groups_from-IsSafe zero ms h = tt
groups_from-IsSafe (suc fuel) [] h = tt
groups_from-IsSafe (suc fuel) (m ∷ ms) h = elim (begins (m ∷ ms) m ms h refl) [
  | plainly t c k ↦ rw (c, groups_from) (plain t c done, groups_from-IsSafe fuel ms k)
  | round_of replies rest c r k e ↦
      let split : span_answers (call_ids (tool_calls_of m)) ms ≡ (replies, rest) =
        rw e (span_of_replies (call_ids (tool_calls_of m)) replies rest r.0 k) in
      rw (c, split, groups_from)
        (
          round m replies [] c r done (ap (◌∷◌ m) (sym (append-nil replies))),
          groups_from-IsSafe fuel rest k,
        )
]

pub system_not_tool :
    (m : Content) → has_role system m ≡ true → (has_role tool m ≡ false) × (calls_tools m ≡ false)
unfolding has_role
system_not_tool m h = ground arith

pub system_prefix-IsSafe :
    (ms : List Content) → IsSafe ms → IsSafe (system_prefix ms).0 × IsSafe (system_prefix ms).1
unfolding system_prefix
system_prefix-IsSafe [] h = (done, done)
system_prefix-IsSafe (m ∷ ms) h = elim (Bool-cases (has_role system m)) [
  | inr f ↦ rw (f, system_prefix) (done, h)
  | inl t ↦
      let (no_tool, no_calls) = system_not_tool m t in
      elim (begins (m ∷ ms) m ms h refl) [
        | plainly u c k ↦
            let (p, q) = system_prefix-IsSafe ms k in rw (t, system_prefix) (plain u c p, q)
        | round_of replies rest c r k e ↦ cc
      ]
]

select-IsSafe :
    (cost : List Content → ℕ) (limit : ℕ) (fits : ℕ → ℕ → ℕ → Bool) (prefix_cost : ℕ) (ids : List ℕ)
    (messages : List Content)
    → IsSafe messages
    → IsSafe (select cost limit fits prefix_cost ids messages).messages
unfolding select degradation message_groups
select-IsSafe cost limit fits prefix_cost ids messages h =
    let (p, r) = system_prefix-IsSafe messages h in
    IsSafe-append _ _ p (
      IsSafe-pick _ 0 _
        (groups_from-IsSafe (length (system_prefix messages).1) (system_prefix messages).1 r))

-- From a history that follows the tool protocol the window takes one that follows it: no call is
-- parted from its answers.
pub preserve_system_prefix-IsSafe :
    (max_items : ℕ) (ids : List ℕ) (messages : List Content)
    → IsSafe messages
    → IsSafe (preserve_system_prefix max_items ids messages).messages
unfolding preserve_system_prefix
preserve_system_prefix-IsSafe max_items ids messages h =
    select-IsSafe length max_items (fits_messages max_items) (length (system_prefix messages).0) ids
      messages h

-- From a history that follows the tool protocol the token budget takes one that follows it.
pub within_budget-IsSafe :
    (estimate : Content → ℕ) (max_tokens : ℕ) (ids : List ℕ) (messages : List Content)
    → IsSafe messages
    → IsSafe (within_budget estimate max_tokens ids messages).messages
unfolding within_budget
within_budget-IsSafe estimate max_tokens ids messages h =
    let prefix = (system_prefix messages).0 in
    select-IsSafe (estimate_all estimate) max_tokens (fits_tokens max_tokens)
      (estimate_all estimate prefix) (ids ++ map (λ m. m.address) prefix) messages h
