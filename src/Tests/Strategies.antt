-- ===== src/Tests/Strategies.antt =====
-- The context strategies, at concrete inputs.
use evernight_ai.Prelude.{
  ◌≡◌, refl, none, some, List, [], ◌∷◌, nat_eq, string_eq, option_eq, pair_eq, keep,
}
use evernight_ai.Content
use evernight_ai.Content.{Content, Context, has_role}
use evernight_ai.Context.Organizer.Safety.{IsSafe}
use evernight_ai.Context.Groups.{protected_message_ids}
use evernight_ai.Context.Selection.Protection.{is_protected}
use evernight_ai.Context.Strategy.{
  ChatRequest, Request, Strategy, basic, window, budget, summary, compose,
}
use evernight_ai.Context.Strategy.Pipeline.{compose-IsSafe, compose_protected}
use evernight_ai.Tests.Contexts.{message_of, history}

abbrev chat : Context
chat = record { context_id = "c"; owner_id = none; revision = 0; messages = history }

abbrev question : Content
question = message_of 9 Content.user none none

abbrev asks : Request
asks = record {
  model_id = "m";
  messages = some (question ∷ []);
  memories = none;
  tools = none;
  address = 10;
}

abbrev summarizer : List Content → Content
summarizer ms = message_of 11 Content.system none none

abbrev pipeline : Strategy
pipeline = budget (window (summary basic summarizer 3 2) 4) 100 (λ m. 7)

compose-IsSafe_example : IsSafe (compose pipeline chat asks).messages
unfolding has_role
compose-IsSafe_example = compose-IsSafe pipeline chat asks (tt, λ ms. (refl, refl))

abbrev trims : Strategy
trims = budget (window basic 2) 5 (λ m. 7)

compose_protected_example :
    keep (is_protected (protected_message_ids asks.messages)) (compose trims chat asks).messages
    ≡ keep (is_protected (protected_message_ids asks.messages)) (compose basic chat asks).messages
compose_protected_example = compose_protected trims chat asks tt

abbrev long_request : ChatRequest
long_request = record { model_id = "m"; messages = history; tools = none; steps = [] }
