-- ===== src/Outcome/Tests.antt =====
-- A call that was refused once it was retried (django_ag_ui/agent/outcome_agui_adapter.py).
use django_ag_ui.Base.{List, none, [], ◌∷◌, codes}
use django_ag_ui.Wire.{Message, tool, ToolResult}
use django_ag_ui.Outcome.{ModelPart, ModelPart.tool_return, ModelPart.retry_prompt}

abbrev result : Message
result = record { id = "m1"; body = tool "c1" (codes "no"); metadata = none; extra = [] }

abbrev parts : List ModelPart
parts = retry_prompt "c1" ∷ tool_return "c1" "denied" ∷ tool_return "c2" "success" ∷ []

abbrev live_result : ToolResult
live_result = record {
  message_id = "m1";
  tool_call_id = "c1";
  content = codes "no";
  metadata = none;
  extra = [];
}
