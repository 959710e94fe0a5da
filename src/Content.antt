-- ===== src/Content.antt =====
-- core/schema/content.py and core/schema/context.py: messages and contexts.
use evernight_ai.Prelude.{
  ℕ, String, Bool, true, false, Option, none, some, List, [], nat_eq, string_eq, option_eq, pair_eq,
  or_else,
}
use evernight_ai.Tool.{ToolCall}

pub data MessageRole : Type 0 where
  user assistant tool system : MessageRole

pub MessageRole-discrete : Discrete MessageRole
MessageRole-discrete = hlevel

pub data MessageStatus : Type 0 where
  active rejected error : MessageStatus

pub data ContentPartType : Type 0 where
  text image video audio file embed link table code function_call : ContentPartType

pub record ContentPart : Type 0 where
  pub part_type : ContentPartType
  pub text : Option String

-- `Content`. `address` is Python's `id(message)`: the strategies compare messages by identity.
pub record Content : Type 0 where
  pub address : ℕ
  pub role : MessageRole
  pub content : Option (List ContentPart)
  pub status : Option MessageStatus
  pub tool_call_id : Option String
  pub tool_calls : Option (List ToolCall)

-- `Context`, without its free-form metadata.
pub record Context : Type 0 where
  pub context_id : String
  pub owner_id : Option String
  pub revision : ℕ
  pub messages : List Content

is_role : MessageRole → MessageRole → Bool
is_role user user = true
is_role assistant assistant = true
is_role tool tool = true
is_role system system = true
is_role _ _ = false

-- `message.role is MessageRole.TOOL`, and so on.
unfoldable pub has_role : MessageRole → Content → Bool
unfolding is_role
has_role r m = is_role m.role r

is_active_status : Option MessageStatus → Bool
is_active_status none = true
is_active_status (some active) = true
is_active_status (some rejected) = false
is_active_status (some error) = false

-- `message.status in {None, MessageStatus.ACTIVE}`
unfoldable pub is_active : Content → Bool
unfolding is_active_status
is_active m = is_active_status m.status

-- `message.tool_calls or []`
unfoldable pub tool_calls_of : Content → List ToolCall
tool_calls_of m = or_else m.tool_calls []
