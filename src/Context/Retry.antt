-- ===== src/Context/Retry.antt =====
-- application/retry.py: marking the messages that a retry replaces.
use evernight_ai.Prelude.{
  ℕ, zero, suc, String, ◌≡◌, refl, sym, ap, ◌∙◌, Option, none, some, List, [], ◌∷◌, arith, eq_iff,
  nat_eq, string_eq, option_eq, pair_eq, keep, take, get_elem?, Result, ok, err, Error, ◌>>=◌, ◌>>◌,
  require, >>=-eq-ok, ok-injective,
}
use mathlib.Core.Path.{subst}
use evernight_ai.Dict.{lookup, insert}
use evernight_ai.Dict.Laws.{lookup-insert}
use evernight_ai.Auth.{PrincipalScope}
use evernight_ai.Registry
use evernight_ai.Registry.{register}
use evernight_ai.Registry.Laws.{get_found}
use evernight_ai.Registry.Listing.{IsKeyed, IsKeyed-lookup}
use evernight_ai.Content.{Content, Context, assistant, has_role, is_active, rejected}
use evernight_ai.Context.{Contexts, context_item, replace}
use evernight_ai.Context.Organizer.{active_messages, tool_protocol_safe_messages}

-- `message.model_copy(update={"status": MessageStatus.REJECTED})`
abbrev pub reject : Content → Content
reject m = record m { status = some rejected }

-- The messages of `_mark_context_retry_messages`.
unfoldable pub marked_from : ℕ → List Content → List Content
marked_from i [] = []
marked_from zero (m ∷ ms) = reject m ∷ marked_from zero ms
marked_from (suc i) (m ∷ ms) = m ∷ marked_from i ms

-- `_mark_context_retry_messages`
unfoldable pub mark_context_retry_messages : Context → ℕ → Context
unfolding marked_from
mark_context_retry_messages c i = record c { messages = marked_from i c.messages }

-- `_ensure_retry_target`
unfoldable pub ensure_retry_target : Content → Result (Unit {0})
unfolding has_role is_active
ensure_retry_target m = do
  require (has_role assistant m) Error.chat_input
  require (is_active m) Error.chat_input

-- `context.messages[i]`, where the code has tested the index.
unfoldable pub target_at : List Content → ℕ → Result Content
target_at ms i = elim (get_elem? ms i) [ none ↦ err Error.chat_input | some m ↦ ok m ]

-- `mark_retry_messages`
unfoldable pub mark_retry_messages :
    Contexts → String → Option ℕ → Option PrincipalScope → Result Contexts
unfolding target_at ensure_retry_target mark_context_retry_messages
mark_retry_messages d context_id none scope = ok d
mark_retry_messages d context_id (some i) scope = do
  c ← Registry.get d context_id scope
  m ← target_at c.messages i
  ensure_retry_target m
  (d', replaced) ← replace d (mark_context_retry_messages c i) scope
  ok d'

active-marked_from :
    (i : ℕ) (ms : List Content) → keep is_active (marked_from i ms) ≡ keep is_active (take i ms)
unfolding marked_from is_active
active-marked_from zero [] = refl
active-marked_from (suc i) [] = refl
active-marked_from zero (m ∷ ms) = active-marked_from zero ms
active-marked_from (suc i) (m ∷ ms) = ground (arith, active-marked_from i ms)

replace_writes :
    (d d' : Contexts) (c r : Context) (scope : Option PrincipalScope)
    → replace d c scope ≡ ok (d', r)
    → d' ≡ insert c.context_id c d
unfolding replace register
replace_writes d d' c r scope h = ground arith

lookup_inserted : (k : String) (c : Context) (d : Contexts) → lookup k (insert k c d) ≡ some c
lookup_inserted k c d = ground (arith, lookup-insert k k c d, eq_iff k k)

-- In contexts stored under their own ids, marking the messages for a retry from an index, where it
-- returns, stores the context with these messages rejected, and of the stored messages the organizer
-- then sends on what it would send of the messages in front of the index.
pub mark_retry_messages_forgets :
    (d d' : Contexts) (k : String) (i : ℕ) (scope : Option PrincipalScope)
    → IsKeyed d
    → mark_retry_messages d k (some i) scope ≡ ok d'
    → (c : Context) × (lookup k d ≡ some c)
      × (lookup k d' ≡ some (mark_context_retry_messages c i))
      × (active_messages (mark_context_retry_messages c i).messages
          ≡ active_messages (take i c.messages))
unfolding mark_retry_messages mark_context_retry_messages active_messages
mark_retry_messages_forgets d d' k i scope keyed h =
    let (c, read, targeted) = >>=-eq-ok (Registry.get d k scope) _ h in
    let (m, target, checked) = >>=-eq-ok (target_at c.messages i) _ targeted in
    let (u, fine, replaced) = >>=-eq-ok (ensure_retry_target m) _ checked in
    let ((e, r), wrote, same) =
      >>=-eq-ok (replace d (mark_context_retry_messages c i) scope) _ replaced in
    let found = (get_found d k scope c read).0 in
    let id : c.context_id ≡ k = IsKeyed-lookup k c d keyed found in
    let stored : e ≡ insert c.context_id (mark_context_retry_messages c i) d =
      replace_writes d e (mark_context_retry_messages c i) r scope wrote in
    let whole : d' ≡ insert k (mark_context_retry_messages c i) d =
      sym (ok-injective same)
      ∙ (stored ∙ ap (λ j. insert j (mark_context_retry_messages c i) d) id) in
    (
      c,
      found,
      subst (λ t. lookup k t ≡ some (mark_context_retry_messages c i)) (sym whole)
          (lookup_inserted k (mark_context_retry_messages c i) d),
      ap tool_protocol_safe_messages (active-marked_from i c.messages),
    )
