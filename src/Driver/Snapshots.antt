-- ===== src/Driver/Snapshots.antt =====
-- The data that a connection sees and the snapshots that it can go back to.
use squeuelite_rs.Common.{◌≡◌, refl, sym, ap, ◌∙◌, Text}

-- The data that the connection sees, with the snapshots that it can go back to: none in
-- autocommit mode, the one of BEGIN in a transaction, and that of a named savepoint inside it.
pub data State (D : Type 0) : Type 0 where
  idle : D → State D
  in_tx : D → D → State D
  in_savepoint : Text → D → D → D → State D

module _ {D : Type 0} where
  abbrev pub data_of : State D → D
  data_of (idle x) = x
  data_of (in_tx x o) = x
  data_of (in_savepoint name x o p) = x

  abbrev pub with_data : State D → D → State D
  with_data (idle x) y = idle y
  with_data (in_tx x o) y = in_tx y o
  with_data (in_savepoint name x o p) y = in_savepoint name y o p

  -- A transaction is open.
  abbrev pub IsOpen : State D → Type 0
  IsOpen (idle x) = ⊥
  IsOpen _ = Unit {0}

  pub data_of-with_data : (s : State D) (y : D) → data_of (with_data s y) ≡ y
  data_of-with_data (idle x) y = refl
  data_of-with_data (in_tx x o) y = refl
  data_of-with_data (in_savepoint n x o p) y = refl

  pub with_data-with_data : (s : State D) (y z : D) → with_data (with_data s y) z ≡ with_data s z
  with_data-with_data (idle x) y z = refl
  with_data-with_data (in_tx x o) y z = refl
  with_data-with_data (in_savepoint n x o p) y z = refl

  pub with_data_back : (s : State D) → with_data s (data_of s) ≡ s
  with_data_back (idle x) = refl
  with_data_back (in_tx x o) = refl
  with_data_back (in_savepoint n x o p) = refl

  pub with_data_back_from : (s : State D) (y : D) → with_data (with_data s y) (data_of s) ≡ s
  with_data_back_from (idle x) y = refl
  with_data_back_from (in_tx x o) y = refl
  with_data_back_from (in_savepoint n x o p) y = refl

  pub IsOpen-with_data : (s : State D) (y : D) → IsOpen s → IsOpen (with_data s y)
  IsOpen-with_data (idle x) y h = h
  IsOpen-with_data (in_tx x o) y h = h
  IsOpen-with_data (in_savepoint n x o p) y h = h

  -- What a step has left goes back to the frame that was there before the step.
  pub with_data_through :
      (s t : State D) (y : D)
      → with_data t (data_of (with_data s y)) ≡ with_data s y
      → with_data t (data_of s) ≡ s
  with_data_through s t y h =
      sym (with_data-with_data t (data_of (with_data s y)) (data_of s))
      ∙ ap (λ u. with_data u (data_of s)) h
      ∙ with_data_back_from s y

  -- A frame is known by its snapshots.
  pub frame_in_tx : (t : State D) (x o : D) → with_data t x ≡ in_tx x o → t ≡ in_tx (data_of t) o
  frame_in_tx (idle y) x o h = cc
  frame_in_tx (in_tx y p) x o h = cc
  frame_in_tx (in_savepoint n y p q) x o h = cc

  pub frame_in_savepoint :
      (t : State D) (n : Text) (x o p : D)
      → with_data t x ≡ in_savepoint n x o p
      → t ≡ in_savepoint n (data_of t) o p
  frame_in_savepoint (idle y) n x o p h = cc
  frame_in_savepoint (in_tx y q) n x o p h = cc
  frame_in_savepoint (in_savepoint m y q u) n x o p h = cc
