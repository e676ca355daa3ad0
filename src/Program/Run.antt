-- ===== src/Program/Run.antt =====
-- Histories: transactions in the order in which the chain takes them. One that fails changes nothing.
use vow_protocol.Prelude.{◌≡◌, refl, List, [], ◌∷◌}
use vow_protocol.State.Errors.{Result, ok, err}
use vow_protocol.State.Runtime.{Clock, Runtime}
use vow_protocol.Program.World.{World}
use vow_protocol.Program.Process.{Instruction, process}
use vow_protocol.Program.Steps.{Steps}
use vow_protocol.Program.Steps.Process.{process-Steps}

module _ {B : Type 0} (rt : Runtime B) where
  abbrev pub History : Type 0
  History = List (Clock × Instruction B)

  abbrev pub or_unchanged : World B → Result (World B) → World B
  or_unchanged w (ok w') = w'
  or_unchanged w (err _) = w

  unfoldable pub apply : Clock → Instruction B → World B → World B
  apply clock i w = or_unchanged w (process rt clock i w)

  unfoldable pub run : List (Clock × Instruction B) → World B → World B
  run [] w = w
  run ((clock, i) ∷ is) w = run is (apply clock i w)

  -- `P` holds at every state of the history, the first and the last included.
  abbrev pub Throughout : (World B → Type 0) → List (Clock × Instruction B) → World B → Type 0
  Throughout P [] w = P w
  Throughout P ((clock, i) ∷ is) w = P w × Throughout P is (apply clock i w)

  -- What a successful step keeps, a transaction keeps.
  pub apply_inv :
      (P : World B → Type 0) (clock : Clock) (i : Instruction B) (w : World B)
      → ((w' : World B) → w' ≡ apply clock i w → Steps rt clock w w' → P w')
      → P w
      → P (apply clock i w)
  unfolding apply
  apply_inv P clock i w keep h = by_result (process rt clock i w) refl
    where
      by_result :
          (r : Result (World B))
          → process rt clock i w ≡ r
          → P (or_unchanged w (process rt clock i w))
      by_result (ok w') e = rw e (keep w' (rw e) (process-Steps rt clock i w w' e))
      by_result (err x) e = rw e h

  pub Throughout-first :
      (P : World B → Type 0) (is : List (Clock × Instruction B)) (w : World B)
      → Throughout P is w
      → P w
  Throughout-first P [] w h = h
  Throughout-first P (_ ∷ is) w h = h.0
