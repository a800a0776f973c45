-- ===== src/StoredIds/Tests.antt =====
-- A resumed history of two equal answers against its stored row
-- (django_ag_ui/agent/lend_stored_ids.py).
use django_ag_ui.Base.{String, List, Option, false, none, some, [], ◌∷◌, ◌≡◌, refl, codes, contains}
use django_ag_ui.Wire.{Message, assistant, tool}
use django_ag_ui.Relabel.{relabel, apply_ids, Fresh, Lent, message_ids, Distinct}
use django_ag_ui.StoredIds.{lend_stored_ids}
use django_ag_ui.StoredIds.Held.{StoredAs}
use django_ag_ui.StoredIds.Lending.{lend_stored_ids-StoredAs, lend_stored_ids-Distinct}

abbrev answer : String → String → Message
answer id text = record {
  id = id;
  body = assistant (some (codes text)) none;
  metadata = none;
  extra = [];
}

abbrev result : String → String → Message
result id call = record { id = id; body = tool call (codes "1"); metadata = none; extra = [] }

abbrev dumped : List Message
dumped = answer "d1" "ok" ∷ result "d2" "c1" ∷ answer "d3" "ok" ∷ []

abbrev row : List Message
row = answer "s1" "o\nk" ∷ answer "s2" "no" ∷ result "s3" "c1" ∷ answer "s4" "ok" ∷ []

lend_stored_ids-row :
    lend_stored_ids dumped row ("s3" ∷ [])
    ≡ answer "s1" "ok" ∷ result "d2" "c1" ∷ answer "s4" "ok" ∷ []
unfolding lend_stored_ids relabel
lend_stored_ids-row = refl

lend_stored_ids-StoredAs_example :
    (gs : List (Option String)) × (lend_stored_ids dumped row ("s3" ∷ []) ≡ apply_ids gs dumped)
    × Lent (λ m x. StoredAs row m.body x × (contains (message_ids dumped) x ≡ false)) dumped gs
    × Fresh ("s3" ∷ []) gs
lend_stored_ids-StoredAs_example = lend_stored_ids-StoredAs dumped row ("s3" ∷ [])

lend_stored_ids-Distinct_example : Distinct (message_ids (lend_stored_ids dumped row []))
lend_stored_ids-Distinct_example = lend_stored_ids-Distinct dumped row [] (refl, (refl, (refl, tt)))
