-- ===== src/Transcript/Said.antt =====
-- The text that a transcript's items hold under one id, and what a change of one draft does to it
-- (`RunTranscript._draft_for` of django_ag_ui/agent/run_transcript.py).
use django_ag_ui.Base.{
  String, Text, List, true, [], ◌∷◌, ◌++◌, ◌==◌, ◌≡◌, refl, ap, ◌∙◌, join, arith, eq_iff,
  append-nil, append_assoc, if◌then◌else◌, Bool-cases, Option, none, some, inl, inr,
}
use django_ag_ui.Wire.{Event, text_content, ToolCall, Body, Message, assistant}
use django_ag_ui.Transcript.{
  changed, message_of, none_if_empty, found_or_new, empty_draft, Draft, Item, draft, result,
  change_last, draft_for,
}

abbrev pub body_text : Body → Text
body_text (assistant (some content) calls) = content
body_text b = []

-- The text of the assistant messages stored under an id.
abbrev pub answer_text : String → List Message → Text
answer_text k [] = []
answer_text k (m ∷ ms) = (if m.id == k then body_text m.body else []) ++ answer_text k ms

abbrev pub delta_of : String → Event → Text
delta_of k (text_content j delta) = if j == k then delta else []
delta_of k e = []

-- What the events stream for an id.
abbrev pub deltas : String → List Event → Text
deltas k [] = []
deltas k (e ∷ es) = delta_of k e ++ deltas k es

pub answer_text-append :
    (k : String) (xs ys : List Message)
    → answer_text k (xs ++ ys) ≡ answer_text k xs ++ answer_text k ys
answer_text-append k [] ys = refl
answer_text-append k (m ∷ xs) ys = simp (answer_text-append k xs ys, append_assoc)

abbrev draft_text : String → Draft → Text
draft_text k d = if d.message_id == k then join d.text else []

pub message_answer :
    (k : String) (d : Draft) (t : Text) (cs : List ToolCall)
    → answer_text k (message_of d (none_if_empty t) (none_if_empty cs))
      ≡ (if d.message_id == k then t else [])
message_answer k d [] [] = ground arith
message_answer k d [] (c ∷ cs) = ground arith
message_answer k d (x ∷ t) [] = rw append-nil
message_answer k d (x ∷ t) (c ∷ cs) = rw append-nil

pub join-append : (xs ys : List Text) → join (xs ++ ys) ≡ join xs ++ join ys
join-append [] ys = refl
join-append (x ∷ xs) ys = simp (join-append xs ys, append_assoc)

-- The text of the drafts of an id.
abbrev pub said : String → List Item → Text
said k [] = []
said k (result m ∷ is) = said k is
said k (draft d ∷ is) = draft_text k d ++ said k is

pub said-append : (k : String) (xs ys : List Item) → said k (xs ++ ys) ≡ said k xs ++ said k ys
said-append k [] ys = refl
said-append k (result m ∷ xs) ys = said-append k xs ys
said-append k (draft d ∷ xs) ys = simp (said-append k xs ys, append_assoc)

-- A change to the last draft of an id adds its text behind all that the id already had.
module _ (k j : String) (f : Draft → Draft) (delta : Text)
    (same_id : (d : Draft) → (f d).message_id ≡ d.message_id)
    (grows : (d : Draft) → join (f d).text ≡ join d.text ++ delta) where
  abbrev gain : Text
  gain = if j == k then delta else []

  abbrev Changed : List Item → Option (List Item) → Type 0
  Changed is none = said j is ≡ []
  Changed is (some is') = said k is' ≡ said k is ++ gain

  grown : (d : Draft) → d.message_id ≡ j → draft_text k (f d) ≡ draft_text k d ++ gain
  grown d e = elim (Bool-cases (j == k)) [
    | inl same ↦ rw (same_id d, grows d, e, same)
    | inr differ ↦ rw (same_id d, e, differ)
  ]

  nothing_after :
      (is : List Item) (t : Text)
      → said j is ≡ []
      → (t ++ gain) ++ said k is ≡ (t ++ said k is) ++ gain
  nothing_after is t h = elim (Bool-cases (j == k)) [
    | inl same ↦
        let gone : said k is ≡ [] = rw ((eq_iff j k).0 same) at h in
        rw (same, gone) (simp append-nil)
    | inr differ ↦ rw differ (simp append-nil)
  ]

  here_said :
      (d : Draft) (is : List Item)
      → (d.message_id == j) ≡ true
      → said j is ≡ []
      → said k (draft (f d) ∷ is) ≡ said k (draft d ∷ is) ++ gain
  here_said d is e h =
      rw (grown d ((eq_iff d.message_id j).0 e)) (nothing_after is (draft_text k d) h)

  changed-Changed :
      (i : Item) (is : List Item) (o : Option (List Item))
      → Changed is o
      → Changed (i ∷ is) (changed j f i is o)
  changed-Changed (result m) is none h = h
  changed-Changed (result m) is (some is') h = h
  changed-Changed (draft d) is (some is') h = simp (h, append_assoc)
  changed-Changed (draft d) is none h = elim (Bool-cases (d.message_id == j)) [
    | inl e ↦ rw e (here_said d is e h)
    | inr e ↦ rw (e, e) h
  ]

  change_last-Changed : (is : List Item) → Changed is (change_last j f is)
  unfolding change_last
  change_last-Changed [] = refl
  change_last-Changed (i ∷ is) = changed-Changed i is (change_last j f is) (change_last-Changed is)

  new_gain : draft_text k (empty_draft j) ++ gain ≡ gain
  new_gain = elim (Bool-cases (j == k)) [ inl e ↦ rw e | inr e ↦ rw e ]

  found_said :
      (is : List Item) (o : Option (List Item))
      → Changed is o
      → said k (found_or_new j f is o) ≡ said k is ++ gain
  found_said is (some is') h = h
  found_said is none h =
      said-append k is (draft (f (empty_draft j)) ∷ [])
      ∙ ap (λ t. said k is ++ t) (append-nil _ ∙ grown (empty_draft j) refl ∙ new_gain)

  pub draft_for-said : (is : List Item) → said k (draft_for j f is) ≡ said k is ++ gain
  unfolding draft_for
  draft_for-said is = found_said is (change_last j f is) (change_last-Changed is)
