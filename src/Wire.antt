-- ===== src/Wire.antt =====
-- The AG-UI wire models that django_ag_ui/agent and django_ag_ui/persistence read and write: the
-- message and event classes of the `ag_ui.core` package, with the fields the code uses.
use django_ag_ui.Base.{
  String, Text, List, Option, Bool, true, false, none, some, [], ◌∷◌, ◌&&◌, ◌==◌, length, nat_eq,
}
use django_ag_ui.Base.Dict.{Dict, lookup}

-- A JSON value. The code compares values and tells texts from the rest; a value that is no text
-- is named by a canonical form, which two values share exactly when Python's `==` holds.
pub data Value : Type 0 where
  null : Value
  str : String → Value
  other : String → Value

abbrev same_value : Value → Value → Bool
same_value null null = true
same_value (str a) (str b) = a == b
same_value (other a) (other b) = a == b
same_value _ _ = false

-- A `dict[str, Any]`: a content, a `metadata` or the undeclared fields of a model.
abbrev pub Fields : Type 0
Fields = Dict Value

abbrev holds_value : Value → Option Value → Bool
holds_value v none = false
holds_value v (some w) = same_value v w

-- Every entry of the first is an entry of the second.
covered : Fields → Fields → Bool
covered [] b = true
covered ((k, v) ∷ a) b = holds_value v (lookup k b) && covered a b

-- `a == b` on dicts: the same keys with the same values, in whatever order.
unfoldable pub same_fields : Fields → Fields → Bool
unfolding covered
same_fields a b = nat_eq (length a) (length b) && covered a b

-- `ToolCall`, with the name and arguments of its `FunctionCall`.
pub record ToolCall : Type 0 where
  pub id : String
  pub name : String
  pub arguments : Text

-- A part of a user message: text, or a medium with its source.
pub data Source : Type 0 where
  inline_bytes : Text → Source
  url : Text → Source
  file : Text → Source

pub data Part : Type 0 where
  text : Text → Part
  media : String → Source → Part

pub data Content : Type 0 where
  plain : Text → Content
  parts : List Part → Content

-- What each message class holds beside the fields all of them share.
pub data Body : Type 0 where
  user : Content → Body
  system : Text → Body
  assistant : Option Text → Option (List ToolCall) → Body
  tool : String → Text → Body
  reasoning : Text → Body
  activity : String → Fields → Body

-- `extra` are the undeclared keys that a model keeps (`extra="allow"`).
pub record Message : Type 0 where
  pub id : String
  pub body : Body
  pub metadata : Option Fields
  pub extra : Fields

-- `message.model_copy(update={"id": new})`
abbrev pub with_id : String → Message → Message
with_id new m = record m { id = new }

-- `TOOL_CALL_RESULT`
pub record ToolResult : Type 0 where
  pub message_id : String
  pub tool_call_id : String
  pub content : Text
  pub metadata : Option Fields
  pub extra : Fields

-- The event classes that the code tells apart; every other one is `other`, by its type.
pub data Event : Type 0 where
  text_start : String → Event
  text_content : String → Text → Event
  call_start : String → String → Option String → Event
  call_args : String → Text → Event
  call_end : String → Event
  call_result : ToolResult → Event
  reasoning_start : String → Event
  reasoning_content : String → Text → Event
  activity_snapshot : String → String → Fields → Bool → Event
  activity_delta : String → String → Event
  run_error : Text → Event
  other : String → Event
