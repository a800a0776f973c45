-- ===== src/Outcome/Stamped.antt =====
-- Which outcome a stored tool result and a live one carry
-- (django_ag_ui/agent/stamp_outcome.py and outcome_agui_adapter.py).
use django_ag_ui.Base.{
  String, Text, List, Option, none, some, [], ◌∷◌, ◌==◌, ◌≡◌, refl, ap, sym, ◌∙◌, subst,
  if◌then◌else◌, Bool-cases, inl, inr, eq_refl,
}
use django_ag_ui.Base.Dict.{Dict, lookup, insert, lookup-insert}
use django_ag_ui.Wire.{Value, str, Body, Message, Body.tool, ToolResult, call_result}
use django_ag_ui.Outcome.{
  fields_or_empty, stamp_outcome, stamp_result, ModelPart, tool_return, native_return, retry_prompt,
  other_part, forwardable, put_outcome, outcomes_by_call, stamped, stored, with_stored_outcome,
  with_outcome, forwardable_outcome,
}

abbrev newer : Option String → Option String → Option String
newer none o = o
newer (some outcome) o = some outcome

-- The last outcome worth forwarding that a tool's return gives for a call.
abbrev last_outcome : String → Option String → List ModelPart → Option String
last_outcome call o [] = o
last_outcome call o (tool_return c outcome ∷ ps) =
    last_outcome call (if c == call then newer (forwardable outcome) o else o) ps
last_outcome call o (p ∷ ps) = last_outcome call o ps

put_outcome_lem :
    (c call : String) (o : Option String) (d : Dict String)
    → lookup call (put_outcome c o d)
      ≡ (if c == call then newer o (lookup call d) else lookup call d)
put_outcome_lem c call none d = elim (Bool-cases (c == call)) [
  | inl b ↦ rw b refl
  | inr b ↦ rw b refl
]
put_outcome_lem c call (some o) d = lookup-insert c call o d

outcomes_lem :
    (call : String) (ps : List ModelPart) (d : Dict String)
    → lookup call (outcomes_by_call d ps) ≡ last_outcome call (lookup call d) ps
unfolding outcomes_by_call forwardable_outcome
outcomes_lem call [] d = refl
outcomes_lem call (tool_return c outcome ∷ ps) d =
    outcomes_lem call ps (put_outcome c (forwardable outcome) d)
    ∙ ap (λ o. last_outcome call o ps) (put_outcome_lem c call (forwardable outcome) d)
outcomes_lem call (native_return c outcome ∷ ps) d = outcomes_lem call ps d
outcomes_lem call (retry_prompt c ∷ ps) d = outcomes_lem call ps d
outcomes_lem call (other_part ∷ ps) d = outcomes_lem call ps d

abbrev as_value : Option String → Option Value → Option Value
as_value none v = v
as_value (some o) v = some (str o)

-- What a message carries under a key of its metadata.
abbrev metadata_of : String → Message → Option Value
metadata_of key m = lookup key (fields_or_empty m.metadata)

stamped_lem :
    (m : Message) (o : Option String) (key : String)
    → metadata_of key (stamped m o)
      ≡ (if "outcome" == key then as_value o (metadata_of key m) else metadata_of key m)
unfolding stamp_outcome
stamped_lem m none key = elim (Bool-cases ("outcome" == key)) [
  | inl b ↦ rw b refl
  | inr b ↦ rw b refl
]
stamped_lem m (some o) key = lookup-insert "outcome" key (str o) (fields_or_empty m.metadata)

stored_lem :
    (m : Message) (b : Body) (call : String) (content : Text) (outcomes : Dict String)
    → b ≡ tool call content
    → stored m b outcomes ≡ stamped m (lookup call outcomes)
stored_lem m b call content outcomes e =
    subst (λ z. stored m z outcomes ≡ stamped m (lookup call outcomes)) (sym e) refl

-- A stored tool result carries as its outcome the last one worth forwarding that its call's returns
-- gave, and what it carried before where there is none; the rest of its metadata stays.
with_stored_outcome_lem :
    (ps : List ModelPart) (m : Message) (call key : String) (content : Text)
    → m.body ≡ tool call content
    → metadata_of key (with_stored_outcome (outcomes_by_call [] ps) m) ≡ (
        if "outcome" == key
        then as_value (last_outcome call none ps) (metadata_of key m)
        else metadata_of key m)
unfolding with_stored_outcome
with_stored_outcome_lem ps m call key content e =
    ap (metadata_of key) (stored_lem m m.body call content (outcomes_by_call [] ps) e)
    ∙ stamped_lem m (lookup call (outcomes_by_call [] ps)) key
    ∙ ap (λ o. if "outcome" == key then as_value o (metadata_of key m) else metadata_of key m)
        (outcomes_lem call ps [])

stamped_same :
    (o : Option String) (e : ToolResult) (m : Message) (call : String)
    → e.metadata ≡ m.metadata
    → (live : ToolResult) × (with_outcome o (call_result e ∷ []) ≡ call_result live ∷ [])
      × (live.metadata ≡ (stamped m (lookup call (put_outcome call o []))).metadata)
unfolding with_outcome stamp_result stamp_outcome lookup insert
stamped_same none e m call h = (e, refl, h)
stamped_same (some o) e m call h = (
  stamp_result e (str o),
  refl,
  ap (λ z. some (insert "outcome" (str o) (fields_or_empty z))) h ∙ rw eq_refl refl,
)

-- A live tool result and the stored one of the same return are given the same outcome: if the two
-- carry the same metadata before, they do after.
same_outcome :
    (e : ToolResult) (m : Message) (call outcome : String) (content : Text)
    → m.body ≡ tool call content
    → e.metadata ≡ m.metadata
    → (live : ToolResult) × (with_outcome
          (forwardable_outcome (tool_return call outcome))
          (call_result e ∷ [])
        ≡ call_result live ∷ [])
      × (live.metadata
          ≡ (with_stored_outcome (outcomes_by_call [] (tool_return call outcome ∷ [])) m).metadata)
unfolding with_outcome with_stored_outcome outcomes_by_call forwardable_outcome stamp_result
same_outcome e m call outcome content b h =
    let s = stamped_same (forwardable outcome) e m call h in
    (
      s.0,
      s.1,
      s.2
          ∙ ap (λ z. z.metadata)
              (sym
                (stored_lem m m.body call content (put_outcome call (forwardable outcome) []) b)),
    )
