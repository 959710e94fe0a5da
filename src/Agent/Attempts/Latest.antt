-- ===== src/Agent/Attempts/Latest.antt =====
-- Which attempt is the latest of a tool call, and which number the next one gets.
use evernight_ai.Prelude.{
  ℕ, ◌≤◌, String, ◌≡◌, refl, ◌⊎◌, inl, inr, Bool, true, false, ◌&&◌, Option, none, some, [], ◌∷◌,
  arith, eq_iff, ltb, leb, if◌then◌else◌, ◌==◌, nat_eq, string_eq, option_eq, pair_eq, Bool-cases,
  keep, All, All-map,
}
use mathlib.Core.List.{Mem, mem-cons_self, mem-cons_of_mem}
use evernight_ai.Dict.{Dict, lookup}
use evernight_ai.Dict.Laws.{lookup-insert}
use evernight_ai.Agent.{ToolExecutionAttempt}
use evernight_ai.Agent.Attempts.{
  Attempts, newer, note_attempt, latest_from, latest_tool_execution_attempts,
  next_tool_execution_attempt, highest,
}

abbrev pub of_call : String → ToolExecutionAttempt → Bool
of_call k a = a.tool_call_id == k

-- An attempt of the call that comes after the number.
abbrev pub is_beyond : String → ℕ → ToolExecutionAttempt → Bool
is_beyond k n a = of_call k a && ltb n a.attempt

-- The loop, for one call.
best : Option ToolExecutionAttempt → Attempts → Option ToolExecutionAttempt
best current [] = current
best current (a ∷ l) = best (if newer current a then some a else current) l

lookup-note_attempt :
    (k : String) (d : Dict String ToolExecutionAttempt) (a : ToolExecutionAttempt)
    → lookup k (note_attempt d a)
      ≡ (if of_call k a && newer (lookup k d) a then some a else lookup k d)
unfolding note_attempt
lookup-note_attempt k d a = elim (Bool-cases (newer (lookup a.tool_call_id d) a)) [
  | inl e ↦ rw e (ground (arith, e, lookup-insert a.tool_call_id k a d, eq_iff a.tool_call_id k))
  | inr e ↦ rw e (ground (arith, e, eq_iff a.tool_call_id k))
]

lookup-latest_from :
    (k : String) (d : Dict String ToolExecutionAttempt) (l : Attempts)
    → lookup k (latest_from d l) ≡ best (lookup k d) (keep (of_call k) l)
unfolding latest_from best
lookup-latest_from k d [] = refl
lookup-latest_from k d (a ∷ l) = elim (Bool-cases (of_call k a)) [
  | inl e ↦ rw (lookup-latest_from k (note_attempt d a) l, lookup-note_attempt k d a, e) refl
  | inr e ↦ rw (lookup-latest_from k (note_attempt d a) l, lookup-note_attempt k d a, e) refl
]

-- What the loop returns: nothing, or an attempt of the call that none of the list is beyond.
abbrev pub IsLatest : String → Attempts → Option ToolExecutionAttempt → Type 0
IsLatest k l none = All (λ a. of_call k a ≡ false) l
IsLatest k l (some a) =
    Mem a l × (of_call k a ≡ true) × All (λ b. is_beyond k a.attempt b ≡ false) l

-- What the loop returns where it has an attempt of the call.
Reaches : String → ToolExecutionAttempt → Attempts → ToolExecutionAttempt → Type 0
Reaches k c l a =
    ((a ≡ c) ⊎ Mem a l)
    × (of_call k a ≡ true)
    × (c.attempt ≤ a.attempt)
    × All (λ b. is_beyond k a.attempt b ≡ false) l

best-some :
    (k : String) (c : ToolExecutionAttempt) (l : Attempts)
    → of_call k c ≡ true
    → (a : ToolExecutionAttempt) × (best (some c) (keep (of_call k) l) ≡ some a) × Reaches k c l a
unfolding best Reaches newer
best-some k c [] h = (c, refl, (inl refl, h, omega arith, tt))
best-some k c (b ∷ l) h = elim (Bool-cases (of_call k b)) [
  | inl e ↦ elim (Bool-cases (ltb c.attempt b.attempt)) [
    | inl m ↦
        let (a, eq, (from, same, le, beyond)) = best-some k b l e in
        (
          a,
          ground (arith, e, m, eq),
          (
            inr (elim from [ inl p ↦ rw p mem-cons_self | inr p ↦ mem-cons_of_mem b p ]),
            same,
            ground (arith, m, le),
            (ground (arith, le), beyond),
          ),
        )
    | inr m ↦
        let (a, eq, (from, same, le, beyond)) = best-some k c l h in
        (
          a,
          ground (arith, e, m, eq),
          (
            elim from [ inl p ↦ inl p | inr p ↦ inr (mem-cons_of_mem b p) ],
            same,
            le,
            (ground (arith, m, le), beyond),
          ),
        )
  ]
  | inr e ↦
      let (a, eq, (from, same, le, beyond)) = best-some k c l h in
      (
        a,
        rw e eq,
        (
          elim from [ inl p ↦ inl p | inr p ↦ inr (mem-cons_of_mem b p) ],
          same,
          le,
          (ground (arith, e), beyond),
        ),
      )
]

best_skip :
    (k : String) (b : ToolExecutionAttempt) (l : Attempts)
    → of_call k b ≡ false
    → (o : Option ToolExecutionAttempt) → IsLatest k l o
    → IsLatest k (b ∷ l) o
best_skip k b l e none h = (e, h)
best_skip k b l e (some a) h = (mem-cons_of_mem b h.0, h.1, (ground (arith, e), h.2))

best-none : (k : String) (l : Attempts) → IsLatest k l (best none (keep (of_call k) l))
unfolding best newer Reaches
best-none k [] = tt
best-none k (b ∷ l) = elim (Bool-cases (of_call k b)) [
  | inl e ↦
      let (a, eq, (from, same, le, beyond)) = best-some k b l e in
      rw (e, eq)
        (
          elim from [ inl p ↦ rw p mem-cons_self | inr p ↦ mem-cons_of_mem b p ],
          same,
          (ground (arith, le), beyond),
        )
  | inr e ↦ rw e (best_skip k b l e (best none (keep (of_call k) l)) (best-none k l))
]

-- For every tool call, `_latest_tool_execution_attempts` has an attempt of the list that is of
-- this call and that no attempt of the call has a higher number than, and nothing where the list
-- has no attempt of the call.
pub latest_tool_execution_attempts-IsLatest :
    (l : Attempts) (k : String) → IsLatest k l (lookup k (latest_tool_execution_attempts l))
unfolding latest_tool_execution_attempts lookup
latest_tool_execution_attempts-IsLatest l k = rw (lookup-latest_from k [] l) (best-none k l)

All-beyond-le :
    (k : String) (m n : ℕ) (l : Attempts)
    → m ≤ n
    → All (λ a. is_beyond k m a ≡ false) l
    → All (λ a. is_beyond k n a ≡ false) l
All-beyond-le k m n l h = All-map _ _ l (λ a beyond. ground (arith, h, beyond))

highest-All : (k : String) (l : Attempts) → All (λ a. is_beyond k (highest k l) a ≡ false) l
unfolding highest
highest-All k [] = tt
highest-All k (a ∷ l) = (
  ground arith,
  All-beyond-le k (highest k l) (highest k (a ∷ l)) l (ground arith) (highest-All k l),
)

-- The next attempt of a call has a number above those of all its attempts in the list.
pub next_tool_execution_attempt_fresh :
    (l : Attempts) (k : String)
    → All (λ a. of_call k a && leb (next_tool_execution_attempt l k) a.attempt ≡ false) l
unfolding next_tool_execution_attempt
next_tool_execution_attempt_fresh l k =
    All-map (λ a. is_beyond k (highest k l) a ≡ false) _ l (λ a h. ground (arith, h))
      (highest-All k l)
