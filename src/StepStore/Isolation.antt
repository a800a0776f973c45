-- ===== src/StepStore/Isolation.antt =====
-- Two scopes of one step store do not see each other's runs
-- (django_ag_ui/persistence/scoped_step_store.py), as long as no scope's name holds a colon.
use django_ag_ui.Base.{
  Text, Bool, true, false, some, List, [], ◌∷◌, ◌++◌, ◌≡◌, ◌≢◌, refl, sym, ap, ◌∙◌, codes, drop,
  length, nat_eq_iff, text_eq, text_eq_refl, text_eq_sound, arith, if◌then◌else◌, append_assoc,
  Bool-cases, inl, inr, All, starts_with,
}
use django_ag_ui.StepStore.{
  prefix_of, key, mine, unkey, scoped_in, own_runs, register_run, get_run, save_snapshot,
  latest_snapshot,
}
use django_ag_ui.StepStore.Inner.{Entry, StepStore, KeepsByRun}

-- No character is a colon.
abbrev NoColon : Text → Type 0
NoColon t = All (λ c. c ≢ 58) t

starts_with-append : (p t : Text) → starts_with (p ++ t) p ≡ true
unfolding starts_with
starts_with-append [] [] = refl
starts_with-append [] (c ∷ t) = refl
starts_with-append (c ∷ p) t = ground (arith, starts_with-append p t)

drop-append : (p t : Text) → drop (length p) (p ++ t) ≡ t
drop-append [] t = refl
drop-append (c ∷ p) t = drop-append p t

starts_with_split : (t p : Text) → starts_with t p ≡ true → t ≡ p ++ drop (length p) t
unfolding starts_with
starts_with_split t [] h = refl
starts_with_split [] (c ∷ p) h = cc
starts_with_split (d ∷ t) (c ∷ p) h = ground (arith, starts_with_split t p, nat_eq_iff d c)

-- Undoing the prefix gives the run id back, whatever it is.
unkey-key : (scope run_id : Text) → unkey scope (key scope run_id) ≡ run_id
unfolding unkey key
unkey-key scope run_id =
    rw (starts_with-append (prefix_of scope) run_id) (drop-append (prefix_of scope) run_id)

dropped-key : (scope run_id : Text) → drop (length (prefix_of scope)) (key scope run_id) ≡ run_id
unfolding key
dropped-key scope run_id = drop-append (prefix_of scope) run_id

prefix_injective :
    (a b x y : Text) → NoColon a → NoColon b → a ++ 58 ∷ x ≡ b ++ 58 ∷ y → (a ≡ b) × (x ≡ y)
prefix_injective [] [] x y na nb e = (refl, cc e)
prefix_injective [] (d ∷ b) x y na nb e = absurd (nb.0 (cc e))
prefix_injective (c ∷ a) [] x y na nb e = absurd (na.0 (cc e))
prefix_injective (c ∷ a) (d ∷ b) x y na nb e =
    let heads : c ≡ d = cc e in
    let tails : a ++ 58 ∷ x ≡ b ++ 58 ∷ y = cc e in
    let rest = prefix_injective a b x y na.1 nb.1 tails in (cc (heads, rest.0), rest.1)

key_colon : (a x : Text) → key a x ≡ a ++ 58 ∷ x
unfolding key
key_colon a x = append_assoc a (codes ":") x

-- A storage key says which scope and which run it is.
key-injective : (a b x y : Text) → NoColon a → NoColon b → key a x ≡ key b y → (a ≡ b) × (x ≡ y)
key-injective a b x y na nb e =
    prefix_injective a b x y na nb (sym (key_colon a x) ∙ e ∙ key_colon b y)

mine-key : (a x : Text) → mine a (key a x) ≡ true
unfolding mine key
mine-key a x = starts_with-append (prefix_of a) x

mine_other : (a b x : Text) → NoColon a → NoColon b → a ≢ b → mine a (key b x) ≡ false
unfolding mine
mine_other a b x na nb differ = elim (Bool-cases (starts_with (key b x) (prefix_of a))) [
  | inr e ↦ e
  | inl e ↦
      let split : key b x ≡ key a (drop (length (prefix_of a)) (key b x)) =
        unfold key in starts_with_split (key b x) (prefix_of a) e in
      absurd (differ (sym (key-injective b a x _ nb na split).0))
]

keys_differ : (a b x y : Text) → NoColon a → NoColon b → a ≢ b → text_eq (key b y) (key a x) ≡ false
keys_differ a b x y na nb differ = elim (Bool-cases (text_eq (key b y) (key a x))) [
  | inr e ↦ e
  | inl e ↦ absurd (differ (sym (key-injective b a y x nb na (text_eq_sound _ _ e)).0))
]

module _ (inner : StepStore) (laws : KeepsByRun inner) where
  open inner use {State, Run, Snapshot}

  -- What is registered through a scope is read back through it as it was.
  get_run-register_run_self :
      (scope : Text) (r : Entry Run) (s : State)
      → get_run inner scope r.run_id (register_run inner scope r s) ≡ some r
  unfolding get_run register_run
  get_run-register_run_self scope r s =
      rw (laws.get_run-register_run (scoped_in scope r) (key scope r.run_id) s)
        (rw text_eq_refl (ap (λ i. some (record r { run_id = i })) (unkey-key scope r.run_id)))

  -- A run or a checkpoint written through one scope changes nothing that another scope finds.
  pub scopes_isolated :
      (a b : Text) (r : Entry Run) (p : Entry Snapshot) (run_id : Text) (interrupted : Bool)
      (s : State)
      → NoColon a
      → NoColon b
      → a ≢ b
      → (get_run inner a run_id (register_run inner b r s) ≡ get_run inner a run_id s)
        × (latest_snapshot inner a run_id interrupted (save_snapshot inner b p s)
            ≡ latest_snapshot inner a run_id interrupted s)
  unfolding get_run register_run latest_snapshot save_snapshot
  scopes_isolated a b r p run_id interrupted s na nb differ = (
    rw (laws.get_run-register_run (scoped_in b r) (key a run_id) s)
        (rw (keys_differ a b run_id r.run_id na nb differ)),
    rw (
        laws.latest_snapshot-save_snapshot (scoped_in b p) (key a run_id) s
          (keys_differ a b run_id p.run_id na nb differ) interrupted),
  )

  -- A scope whose name holds a colon is open to the scope of the name's first half: any run
  -- registered in `a:b` is found from `a`, under the run id with `b:` before it.
  pub colon_breaks_isolation :
      (a b : Text) (r : Entry Run) (s : State)
      → get_run inner a (b ++ 58 ∷ r.run_id) (register_run inner (a ++ 58 ∷ b) r s)
        ≡ some (record r { run_id = b ++ 58 ∷ r.run_id })
  unfolding get_run register_run
  colon_breaks_isolation a b r s =
      let same : key (a ++ 58 ∷ b) r.run_id ≡ key a (b ++ 58 ∷ r.run_id) =
        key_colon (a ++ 58 ∷ b) r.run_id
        ∙ append_assoc a (58 ∷ b) (58 ∷ r.run_id)
        ∙ sym (key_colon a (b ++ 58 ∷ r.run_id)) in
      let r' : Entry Run = record r { run_id = b ++ 58 ∷ r.run_id } in
      ap (λ k. get_run inner a r'.run_id (inner.register_run (record r { run_id = k }) s)) same
      ∙ get_run-register_run_self a r' s

module _ {Rest : Type 0} where
  -- Records written through several scopes.
  abbrev pub written : List (Text × Entry Rest) → List (Entry Rest)
  written [] = []
  written ((scope, r) ∷ l) = scoped_in scope r ∷ written l

  abbrev pub written_in : Text → List (Text × Entry Rest) → List (Entry Rest)
  written_in a [] = []
  written_in a ((scope, r) ∷ l) = if text_eq scope a then r ∷ written_in a l else written_in a l

  -- Of runs registered through scopes whose names hold no colon, a scope whose name holds none lists
  -- exactly its own, in order, each as it was registered.
  pub own_runs-written :
      (a : Text) (l : List (Text × Entry Rest))
      → NoColon a
      → All (λ w. NoColon w.0) l
      → own_runs a (written l) ≡ written_in a l
  unfolding own_runs
  own_runs-written a [] na nl = refl
  own_runs-written a ((scope, r) ∷ l) na nl = elim (Bool-cases (text_eq scope a)) [
    | inl e ↦
        let same : scope ≡ a = text_eq_sound scope a e in
        rw e (
          rw same (
            rw (mine-key a r.run_id)
              (rw (dropped-key a r.run_id) (ap (λ rs. r ∷ rs) (own_runs-written a l na nl.1)))))
    | inr e ↦ rw e (
        rw (mine_other a scope r.run_id na nl.0 (λ h. cc (e, h, text_eq_refl a)))
          (own_runs-written a l na nl.1))
  ]
