-- ===== src/Lockstep/InStep.antt =====
-- How far the pump and the consumer can be apart (django_ag_ui/agent/utils.py and
-- heartbeat_stream.py).
use django_ag_ui.Base.{
  ℕ, suc, List, Option, Bool, true, false, none, some, [], ◌∷◌, ◌≡◌, refl, ap, arith,
}
use django_ag_ui.Lockstep.{
  Entry, item, stream_end, failure, Pump, reading, joining, finished, Consumer, waiting, yielding,
  ended, raised,
}

module _ {A : Type 0} where
  -- How far the tasks are apart: the pump reads on only when all it queued is finished.
  abbrev pub InStep : Pump → Option (Entry A) → ℕ → Consumer → List A → Bool → Type 0
  InStep reading none u waiting xs b = u ≡ 0
  InStep joining (some (item x)) u waiting xs b = u ≡ 1
  InStep joining none u yielding xs b = u ≡ 1
  InStep joining none u waiting xs b = u ≡ 0
  InStep finished (some stream_end) u waiting xs b = (xs ≡ []) × (b ≡ false)
  InStep finished (some failure) u waiting xs b = (xs ≡ []) × (b ≡ true)
  InStep finished none u ended xs b = (xs ≡ []) × (b ≡ false)
  InStep finished none u raised xs b = (xs ≡ []) × (b ≡ true)
  InStep _ _ _ _ _ _ = ⊥

  pub put-InStep :
      (x : A) (xs : List A) (b : Bool) (u : ℕ) (c : Consumer)
      → InStep reading none u c (x ∷ xs) b
      → InStep joining (some (item x)) (suc u) c xs b
  put-InStep x xs b u waiting h = ap suc h
  put-InStep x xs b u _ h = absurd h

  pub join-InStep :
      (xs : List A) (b : Bool) (q : Option (Entry A)) (c : Consumer)
      → InStep joining q 0 c xs b
      → InStep reading q 0 c xs b
  join-InStep xs b none waiting h = h
  join-InStep xs b none yielding h = let clash : ⊥ = omega (arith, h) in clash
  join-InStep xs b (some (item x)) waiting h = let clash : ⊥ = omega (arith, h) in clash
  join-InStep xs b _ _ h = absurd h

  pub end_InStep :
      (xs : List A) (b : Bool) (u : ℕ) (c : Consumer)
      → b ≡ false
      → InStep reading none u c xs b
      → InStep finished (some stream_end) (suc u) c [] b
  end_InStep xs b u waiting e h = (refl, e)
  end_InStep xs b u _ e h = absurd h

  pub error_InStep :
      (xs : List A) (b : Bool) (u : ℕ) (c : Consumer)
      → b ≡ true
      → InStep reading none u c xs b
      → InStep finished (some failure) (suc u) c [] b
  error_InStep xs b u waiting e h = (refl, e)
  error_InStep xs b u _ e h = absurd h

  pub take_InStep :
      (x : A) (xs : List A) (b : Bool) (p : Pump) (u : ℕ)
      → InStep p (some (item x)) u waiting xs b
      → InStep p none u yielding xs b
  take_InStep x xs b joining u h = h
  take_InStep x xs b _ u h = absurd h

  pub done_InStep :
      (xs : List A) (b : Bool) (p : Pump) (q : Option (Entry A)) (u : ℕ)
      → InStep p q (suc u) yielding xs b
      → InStep p q u waiting xs b
  done_InStep xs b joining none u h = omega (arith, h)
  done_InStep xs b reading none u h = absurd h
  done_InStep xs b finished none u h = absurd h
  done_InStep xs b reading (some (item x)) u h = absurd h
  done_InStep xs b joining (some (item x)) u h = absurd h
  done_InStep xs b finished (some (item x)) u h = absurd h
  done_InStep xs b reading (some stream_end) u h = absurd h
  done_InStep xs b joining (some stream_end) u h = absurd h
  done_InStep xs b finished (some stream_end) u h = absurd h
  done_InStep xs b reading (some failure) u h = absurd h
  done_InStep xs b joining (some failure) u h = absurd h
  done_InStep xs b finished (some failure) u h = absurd h

  pub ended-InStep :
      (xs : List A) (b : Bool) (p : Pump) (u : ℕ)
      → InStep p (some stream_end) u waiting xs b
      → InStep p none u ended xs b
  ended-InStep xs b finished u h = h
  ended-InStep xs b _ u h = absurd h

  pub raised-InStep :
      (xs : List A) (b : Bool) (p : Pump) (u : ℕ)
      → InStep p (some failure) u waiting xs b
      → InStep p none u raised xs b
  raised-InStep xs b finished u h = h
  raised-InStep xs b _ u h = absurd h
