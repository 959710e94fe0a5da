-- ===== src/Session/Listing.antt =====
-- What `list_sessions` returns.
use evernight_ai.Prelude.{
  String, ◌≡◌, Bool, true, Option, none, some, List, ◌==◌, nat_eq, string_eq, option_eq, pair_eq,
  All-map,
}
use evernight_ai.Auth.{PrincipalScope}
use evernight_ai.Registry.Listing.{IsKeyed}
use evernight_ai.Registry.Sound.{Listing, Passes, keep-Listing, all-Listing, list_items-Listing}
use evernight_ai.Session.{
  Session, SessionStatus, Sessions, SessionFilter, session_item, same_status, with_status,
  with_provider, with_model, list_sessions,
}

-- A filter that is not set passes everything.
abbrev pub optional {ℓ} : {B : Type ℓ} → (B → Session → Bool) → Option B → Session → Bool
optional p none s = true
optional p (some b) s = p b s

abbrev pub Selected : SessionFilter → Session → Type 0
Selected f s =
    (optional (λ p t. same_status t.status p) f.status s ≡ true)
    × (optional (λ p t. t.provider_id == some p) f.provider_id s ≡ true)
    × (optional (λ p t. t.model_id == some p) f.model_id s ≡ true)

with_status-Listing :
    (P : Session → Type 0) (o : Option SessionStatus) (l : List Session)
    → Listing P l
    → Listing (λ s. P s × (optional (λ st t. same_status t.status st) o s ≡ true)) (with_status o l)
unfolding with_status
with_status-Listing P none l h = all-Listing P l h
with_status-Listing P (some st) l h = keep-Listing P _ l h

with_provider-Listing :
    (P : Session → Type 0) (o : Option String) (l : List Session)
    → Listing P l
    → Listing
        (λ s. P s × (optional (λ p t. t.provider_id == some p) o s ≡ true))
        (with_provider o l)
unfolding with_provider
with_provider-Listing P none l h = all-Listing P l h
with_provider-Listing P (some st) l h = keep-Listing P _ l h

with_model-Listing :
    (P : Session → Type 0) (o : Option String) (l : List Session)
    → Listing P l
    → Listing (λ s. P s × (optional (λ p t. t.model_id == some p) o s ≡ true)) (with_model o l)
unfolding with_model
with_model-Listing P none l h = all-Listing P l h
with_model-Listing P (some st) l h = keep-Listing P _ l h

selects :
    (f : SessionFilter) (P : Session → Type 0) (l : List Session)
    → Listing P l
    → Listing
        (λ s. P s × Selected f s)
        (with_model f.model_id (with_provider f.provider_id (with_status f.status l)))
selects f P l h =
    let all_three =
      with_model-Listing _ f.model_id _
        (with_provider-Listing _ f.provider_id _ (with_status-Listing P f.status l h)) in
    (All-map _ _ _ (λ s p. (p.0.0.0, (p.0.0.1, p.0.1, p.1))) all_three.0, all_three.1)

-- In a register that keeps each session under its own id, every listed session is stored, is
-- permitted by the scope and passes every filter that is set, and the listing is in the order of
-- ids.
pub list_sessions-Listing :
    (d : Sessions) (f : SessionFilter) (scope : Option PrincipalScope)
    → IsKeyed d
    → Listing (λ s. Passes d f.cursor f.owner_id scope s × Selected f s) (list_sessions d f scope)
unfolding list_sessions
list_sessions-Listing d f scope h =
    list_items-Listing (Selected f) _ (selects f) d f.cursor f.limit f.owner_id scope h
