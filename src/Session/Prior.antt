-- ===== src/Session/Prior.antt =====
-- What a session saves in front of its run's own messages, and what it saves of a completed run
-- (django_ag_ui/agent/agent_session.py, `_prior_messages` and `_on_complete`).
use django_ag_ui.Base.{
  String, List, Option, false, none, some, [], ◌∷◌, ◌++◌, ◌≡◌, refl, sym, ap, subst, contains, All,
}
use django_ag_ui.Wire.{Message}
use django_ag_ui.Relabel.{apply_ids, apply_id, Fresh, Lent, message_ids}
use django_ag_ui.StoredIds.{lend_stored_ids}
use django_ag_ui.StoredIds.Held.{StoredAs}
use django_ag_ui.StoredIds.Lending.{lend_stored_ids-StoredAs}
use django_ag_ui.History.{ModelMessage, strip_binary_content, continued_history}
use django_ag_ui.History.Stripped.{Clean, strip_binary_content-Clean}
use django_ag_ui.History.Continued.{spoken, turn_of, continued_history-Continues}
use django_ag_ui.Transcript.{RunTranscript}
use django_ag_ui.Transcript.StreamedIds.Announced.{Announced}
use django_ag_ui.Transcript.StreamedIds.Lending.{with_streamed_ids-Announced}
use django_ag_ui.Session.{
  AgentSession, lent, older, prior_of, prior_messages, save_messages, on_complete,
}

apply_id-Clean : (g : Option String) (m : Message) → Clean m → Clean (apply_id g m)
apply_id-Clean none m h = h
apply_id-Clean (some x) m h = h

apply_ids-Clean :
    (gs : List (Option String)) (ms : List Message) → All Clean ms → All Clean (apply_ids gs ms)
apply_ids-Clean [] [] h = tt
apply_ids-Clean [] (m ∷ ms) h = h
apply_ids-Clean (g ∷ gs) [] h = tt
apply_ids-Clean (g ∷ gs) (m ∷ ms) h = (apply_id-Clean g m h.0, apply_ids-Clean gs ms h.1)

module _ {Response World : Type 0} (s : AgentSession Response World) where
  -- The row that the run continued from.
  abbrev pub row : Option (List Message) → List Message
  row none = []
  row (some ms) = ms

  -- Some messages, each under its own id or under the id of the stored message that it is; none of
  -- the ids of the new turn is lent, and none twice.
  abbrev Older : Option (List Message) → List Message → List Message → List Message → Type 0
  Older source kept new_turn result =
      (gs : List (Option String)) × (result ≡ apply_ids gs kept)
      × Lent (λ m x. StoredAs (row source) m.body x × (contains (message_ids kept) x ≡ false)) kept
          gs
      × Fresh (message_ids new_turn) gs

  none-Lent :
      (P : Message → String → Type 0) (taken : List String) (ms : List Message)
      → (gs : List (Option String)) × (ms ≡ apply_ids gs ms) × Lent P ms gs × Fresh taken gs
  none-Lent P taken [] = ([], refl, tt, tt)
  none-Lent P taken (m ∷ ms) =
      let (gs, e, l, f) = none-Lent P taken ms in (none ∷ gs, ap (λ z. m ∷ z) e, l, f)

  lent-Older :
      (source : Option (List Message)) (kept new_turn : List Message)
      → Older source kept new_turn (lent s source kept new_turn)
  unfolding lent
  lent-Older none kept new_turn = none-Lent _ (message_ids new_turn) kept
  lent-Older (some []) kept new_turn = none-Lent _ (message_ids new_turn) kept
  lent-Older (some (m ∷ ms)) kept new_turn =
      lend_stored_ids-StoredAs kept (m ∷ ms) (message_ids new_turn)

  -- With a row to continue from, what was kept is lent the ids of the row; without one, or with an
  -- empty one, it stays as it is.
  abbrev FromRow : Option (List Message) → List Message → List Message → List Message → Type 0
  FromRow none kept new_turn result = result ≡ kept
  FromRow (some []) kept new_turn result = result ≡ kept
  FromRow (some (m ∷ ms)) kept new_turn result =
      result ≡ lend_stored_ids kept (m ∷ ms) (message_ids new_turn)

  lent-FromRow :
      (source : Option (List Message)) (kept new_turn : List Message)
      → FromRow source kept new_turn (lent s source kept new_turn)
  unfolding lent
  lent-FromRow none kept new_turn = refl
  lent-FromRow (some []) kept new_turn = refl
  lent-FromRow (some (m ∷ ms)) kept new_turn = refl

  -- What a run puts in front of its own messages.
  abbrev pub Prior : Option (List (ModelMessage Response)) → List Message → Type 0
  Prior none prior = prior ≡ s.posted
  Prior (some history) prior =
      let p = continued_history s.adapter history s.posted in
      (before : List Message) × (prior ≡ before ++ p.1)
      × All Clean before
      × Older s.source_messages (strip_binary_content (s.dump_messages p.0)) p.1 before
      × FromRow s.source_messages (strip_binary_content (s.dump_messages p.0)) p.1 before
      × (spoken s.adapter p.1 ≡ spoken s.adapter (turn_of s.adapter s.posted))

  prior_of-Prior : (h : Option (List (ModelMessage Response))) → Prior h (prior_of s h)
  unfolding prior_of older
  prior_of-Prior none = refl
  prior_of-Prior (some history) =
      let p = continued_history s.adapter history s.posted in
      let kept = strip_binary_content (s.dump_messages p.0) in
      let o = lent-Older s.source_messages kept p.1 in
      let c = (strip_binary_content-Clean (s.dump_messages p.0)).0 in
      (
        lent s s.source_messages kept p.1,
        refl,
        subst (All Clean) (sym o.1) (apply_ids-Clean o.0 kept c),
        o,
        lent-FromRow s.source_messages kept p.1,
        (continued_history-Continues s.adapter history s.posted).3,
      )

  -- A plain run puts what was posted in front of its own messages, verbatim. A resumed run puts
  -- what it continued from, without inlined files, and behind it the new turn, of which every
  -- message that is no tool result is there, in order. What it continued from is lent the ids of the
  -- stored conversation, where that is there and not empty: it is what `lend_stored_ids` gives of the
  -- two, so each message stands under its own id or under that of the stored message it is, none of
  -- them lent twice or held by the new turn; else every message stands under its own id.
  pub prior_messages-Prior : Prior s.message_history (prior_messages s)
  unfolding prior_messages
  prior_messages-Prior = prior_of-Prior s.message_history

  -- A completed run saves once: the prior messages and behind them what the run's result dumps to,
  -- with inlined files dropped, each message under its own id or under one that the stream
  -- announced for that very message, none of them lent twice.
  pub on_complete-Announced :
      (t : RunTranscript) (dumped : List Message) (w : World)
      → (gs : List (Option String)) × (on_complete s t dumped w
          ≡ save_messages s (prior_messages s ++ strip_binary_content (apply_ids gs dumped)) w)
        × All Clean (strip_binary_content (apply_ids gs dumped))
        × Lent (λ m x. Announced t m.body x) dumped gs
        × Fresh [] gs
  unfolding on_complete
  on_complete-Announced t dumped w =
      let a = with_streamed_ids-Announced t dumped in
      (
        a.0,
        ap (λ ms. save_messages s (prior_messages s ++ strip_binary_content ms) w) a.1,
        (strip_binary_content-Clean (apply_ids a.0 dumped)).0,
        a.2,
        a.3,
      )
