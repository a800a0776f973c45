-- ===== src/Context/Built.antt =====
-- The block that a run is given of its client's context and its files
-- (django_ag_ui/agent/build_untrusted_context.py).
use mathlib.Core.List.{map-append}
use django_ag_ui.Base.{
  ℕ, ◌≤◌, String, List, Option, Bool, true, false, none, some, [], ◌∷◌, ◌++◌, ◌==◌, ◌≡◌, refl, sym,
  subst, contains, length, All, if◌then◌else◌, eq_iff,
}
use django_ag_ui.Relabel.{Distinct}
use django_ag_ui.AgentView.Names.{Distinct-append}
use django_ag_ui.Context.{ContextItem, sections}
use django_ag_ui.Context.Rendered.{FencedBlock, value_chars, render_untrusted_context-Fenced}
use django_ag_ui.Context.Attachments.{
  Entry, Refs, refs, other_refs, Posted, Mention, attachment_refs, parse_mention, ids_of, mentioned,
  entries_mentioned, refs_mentioned, message_mentioned, mentions_of, context_items,
  build_untrusted_context,
}

abbrev Once : List Mention → Type 0
Once mentions = Distinct (ids_of mentions)

unless_known :
    (mentions : List Mention) (m : Mention) (b : Bool)
    → contains (ids_of mentions) m.id ≡ b
    → Once mentions
    → Once (if b then mentions else mentions ++ m ∷ [])
unless_known mentions m true h d = d
unless_known mentions m false h d =
    subst Distinct (sym (map-append (λ n. n.id) mentions (m ∷ []))) (
      Distinct-append (ids_of mentions) (m.id ∷ []) d (refl, tt)
        (λ k c. new_name k c (m.id == k) refl))
  where
    new_name :
        (k : String)
        → contains (ids_of mentions) k ≡ true
        → (b : Bool) → (m.id == k) ≡ b
        → contains (m.id ∷ []) k ≡ false
    new_name k c true e =
        let q : m.id ≡ k = (eq_iff m.id k).0 e in
        absurd (cc (subst (λ z. contains (ids_of mentions) z ≡ false) q h, c))
    new_name k c false e = rw e

mentioned-Once :
    (mentions : List Mention) (o : Option Mention) → Once mentions → Once (mentioned mentions o)
unfolding mentioned
mentioned-Once mentions none d = d
mentioned-Once mentions (some m) d =
    unless_known mentions m (contains (ids_of mentions) m.id) refl d

entries_mentioned-Once :
    (mentions : List Mention) (entries : List Entry)
    → Once mentions
    → Once (entries_mentioned mentions entries)
unfolding entries_mentioned
entries_mentioned-Once mentions [] d = d
entries_mentioned-Once mentions (e ∷ entries) d =
    entries_mentioned-Once (mentioned mentions (parse_mention e)) entries
      (mentioned-Once mentions (parse_mention e) d)

refs_mentioned-Once :
    (mentions : List Mention) (o : Option Refs) → Once mentions → Once (refs_mentioned mentions o)
unfolding refs_mentioned
refs_mentioned-Once mentions (some (refs entries)) d = entries_mentioned-Once mentions entries d
refs_mentioned-Once mentions (some other_refs) d = d
refs_mentioned-Once mentions none d = d

message_mentioned-Once :
    (mentions : List Mention) (b : Bool) (m : Posted)
    → Once mentions
    → Once (message_mentioned mentions b m)
unfolding message_mentioned
message_mentioned-Once mentions true m d =
    refs_mentioned-Once mentions (attachment_refs m.metadata m.extra) d
message_mentioned-Once mentions false m d = d

mentions_of-Once :
    (mentions : List Mention) (ms : List Posted) → Once mentions → Once (mentions_of mentions ms)
unfolding mentions_of
mentions_of-Once mentions [] d = d
mentions_of-Once mentions (m ∷ ms) d =
    mentions_of-Once (message_mentioned mentions m.by_user m) ms
      (message_mentioned-Once mentions m.by_user m d)

-- Whatever the client sends as its context and whatever its messages say of files: the marker word
-- stands in the block that the run is given, in whatever casing, only in the opening and the closing
-- marker; the values shown have together at most as many characters as the limit, and each label at
-- most 120; and the manifest has each file's id once.
pub build_untrusted_context-Fenced :
    (client_context attachment_manifest : Bool) (context : List ContextItem)
    (messages : List Posted) (max_chars : ℕ)
    → FencedBlock
        (build_untrusted_context client_context attachment_manifest context messages max_chars)
      × (value_chars
            (sections
              (context_items client_context attachment_manifest context messages)
              max_chars).0
          ≤ max_chars)
      × All
          (λ s. length s.label ≤ 120)
          (sections (context_items client_context attachment_manifest context messages) max_chars).0
      × Distinct (ids_of (mentions_of [] messages))
unfolding build_untrusted_context
build_untrusted_context-Fenced b c context messages max_chars =
    let f = render_untrusted_context-Fenced (context_items b c context messages) max_chars in
    (f.0, f.1, f.2, mentions_of-Once [] messages tt)
