-- ===== src/Agent/Trace/Contiguous.antt =====
-- No event is missing from the part of a trace that is replayed.
use evernight_ai.Prelude.{
  ℕ, zero, suc, ◌≡◌, refl, inl, inr, true, none, some, List, [], ◌∷◌, arith, ◌==◌, nat_eq,
  string_eq, option_eq, pair_eq, Option-cases, length, keep, ok, Result-cases,
}
use evernight_ai.Agent.{AgentTraceEvent, AgentRunState}
use evernight_ai.Agent.Trace.{
  follows, require_contiguous_trace, watermark_of, checkpoint_trace_tail, tail_behind, is_ahead,
}

-- The numbers of the events that have one.
abbrev pub numbers : List AgentTraceEvent → List ℕ
numbers [] = []
numbers (e ∷ events) =
    let rest = numbers events in elim e.sequence [ none ↦ rest | some n ↦ n ∷ rest ]

-- `range(n, n + k)`
abbrev pub upfrom : ℕ → ℕ → List ℕ
upfrom n zero = []
upfrom n (suc k) = n ∷ upfrom (suc n) k

pub require_contiguous-numbers :
    (events : List AgentTraceEvent) (w : ℕ)
    → require_contiguous_trace events (some w) ≡ ok tt
    → numbers events ≡ upfrom (suc w) (length (numbers events))
unfolding require_contiguous_trace follows
require_contiguous-numbers [] w h = refl
require_contiguous-numbers (e ∷ events) w h = elim (Option-cases e.sequence) [
  | inl none_e ↦ rw none_e (require_contiguous-numbers events w (ground (arith, h, none_e)))
  | inr (n, some_n) ↦
      let first : n ≡ suc w = ground (arith, h, some_n) in
      let rest = require_contiguous-numbers events (suc w) (ground (arith, h, some_n, first)) in
      rw some_n (ground (arith, first, rest))
]

pub numbers-require_contiguous :
    (events : List AgentTraceEvent) (w : ℕ)
    → numbers events ≡ upfrom (suc w) (length (numbers events))
    → require_contiguous_trace events (some w) ≡ ok tt
unfolding require_contiguous_trace follows
numbers-require_contiguous [] w h = refl
numbers-require_contiguous (e ∷ events) w h = elim (Option-cases e.sequence) [
  | inl none_e ↦ rw none_e (numbers-require_contiguous events w (ground (arith, h, none_e)))
  | inr (n, some_n) ↦
      let first : n ≡ suc w = ground (arith, h, some_n) in
      let rest = numbers-require_contiguous events (suc w) (ground (arith, h, some_n, first)) in
      let in_order : (n == suc w) ≡ true = ground (arith, first) in
      rw (some_n, in_order, first) rest
]

tail_behind_exact :
    (events tail : List AgentTraceEvent) (w : ℕ)
    → tail_behind events w ≡ ok tail
    → (tail ≡ keep (is_ahead w) events) × (numbers tail ≡ upfrom (suc w) (length (numbers tail)))
unfolding tail_behind
tail_behind_exact events tail w h =
    elim (Result-cases (require_contiguous_trace (keep (is_ahead w) events) (some w))) [
      | inl (r, p) ↦
          let same : tail ≡ keep (is_ahead w) events = ground (arith, h, p) in
          (same, rw same (require_contiguous-numbers (keep (is_ahead w) events) w p))
      | inr (x, p) ↦ ground (arith, h, p)
    ]

-- Of a run with a watermark, the part of the trace that is replayed is the events without a number
-- and those with a number above the watermark, in their order, and it is accepted only if these
-- numbers count up from the watermark without a gap.
pub checkpoint_trace_tail_exact :
    (state : AgentRunState) (events tail : List AgentTraceEvent) (w : ℕ)
    → watermark_of state ≡ some w
    → checkpoint_trace_tail state events ≡ ok tail
    → (tail ≡ keep (is_ahead w) events) × (numbers tail ≡ upfrom (suc w) (length (numbers tail)))
unfolding checkpoint_trace_tail tail_behind
checkpoint_trace_tail_exact state events tail w mark h =
    let behind : tail_behind events w ≡ ok tail = ground (arith, mark, h) in
    tail_behind_exact events tail w behind
