-- ===== src/Writer/Tracks.antt =====
-- Code inside a transaction against a function on the data: the relation, and a rule for each way
-- to build a block.
use squeuelite_rs.Common.{◌≡◌, refl, Text, Result, ok, err, ◌>>=◌ as ◌>>>=◌}
use squeuelite_rs.Driver.{Driver}
use squeuelite_rs.Driver.Snapshots.{
  State, data_of, with_data, with_data-with_data, with_data_through,
}
use squeuelite_rs.Driver.Laws.{Semantics, Laws}
use squeuelite_rs.Effect.{Tx, pure, continue}

module _ {C D : Type 0} {driver : Driver C} {meaning : Semantics D} {IsPlain : Text → Type 0}
    (laws : Laws driver meaning IsPlain) where
  -- The connection is at the data that the promise gives, under the same snapshots; after an error
  -- the data may be any, and the message is the promised one.
  abbrev pub Tracks : {A : Type 0} → State D → Result A Text × C → Result D Text → Type 0
  Tracks s (ok a, c) (ok y) = laws.state c ≡ with_data s y
  Tracks s (err m, c) (err n) = (m ≡ n) × (with_data (laws.state c) (data_of s) ≡ s)
  Tracks s _ _ = ⊥

  -- The same with the value that the code returns.
  abbrev pub TracksValue : {A : Type 0} → State D → Result A Text × C → Result (A × D) Text → Type 0
  TracksValue s (ok a, c) (ok (b, y)) = (a ≡ b) × (laws.state c ≡ with_data s y)
  TracksValue s (err m, c) (err n) = (m ≡ n) × (with_data (laws.state c) (data_of s) ≡ s)
  TracksValue s _ _ = ⊥

  Tracks-with_data :
      {A : Type 0} (s : State D) (y : D) (r : Result A Text × C) (q : Result D Text)
      → Tracks (with_data s y) r q
      → Tracks s r q
  Tracks-with_data s y (ok a, c) (ok z) h = rw (with_data-with_data s y z) at h
  Tracks-with_data s y (err m, c) (err n) h = (h.0, with_data_through s (laws.state c) y h.1)
  Tracks-with_data s y (ok a, c) (err n) h = h
  Tracks-with_data s y (err m, c) (ok z) h = h

  -- One step of a block after another.
  pub Tracks-bind :
      {A B : Type 0} (s : State D) (m : Result A Text × C) (q : Result D Text) (k : A → Tx C B)
      (f : D → Result D Text)
      → Tracks s m q
      → ((a : A) (c : C) (y : D)
          → laws.state c ≡ with_data s y
          → Tracks (with_data s y) (k a c) (f y))
      → Tracks s (continue m.0 k m.1) (q >>>= f)
  Tracks-bind s (ok a, c) (ok y) k f h rest = Tracks-with_data s y (k a c) (f y) (rest a c y h)
  Tracks-bind s (err m, c) (err n) k f h rest = h
  Tracks-bind s (ok a, c) (err n) k f h rest = absurd h
  Tracks-bind s (err m, c) (ok y) k f h rest = absurd h

  TracksValue-with_data :
      {A : Type 0} (s : State D) (y : D) (r : Result A Text × C) (q : Result (A × D) Text)
      → TracksValue (with_data s y) r q
      → TracksValue s r q
  TracksValue-with_data s y (ok a, c) (ok (b, z)) h = (h.0, rw (with_data-with_data s y z) at (h.1))
  TracksValue-with_data s y (err m, c) (err n) h = (h.0, with_data_through s (laws.state c) y h.1)
  TracksValue-with_data s y (ok a, c) (err n) h = h
  TracksValue-with_data s y (err m, c) (ok z) h = h

  pub Tracks-bind_value :
      {A B : Type 0} (s : State D) (m : Result A Text × C) (q : Result D Text) (k : A → Tx C B)
      (f : D → Result (B × D) Text)
      → Tracks s m q
      → ((a : A) (c : C) (y : D)
          → laws.state c ≡ with_data s y
          → TracksValue (with_data s y) (k a c) (f y))
      → TracksValue s (continue m.0 k m.1) (q >>>= f)
  Tracks-bind_value s (ok a, c) (ok y) k f h rest =
      TracksValue-with_data s y (k a c) (f y) (rest a c y h)
  Tracks-bind_value s (err m, c) (err n) k f h rest = h
  Tracks-bind_value s (ok a, c) (err n) k f h rest = absurd h
  Tracks-bind_value s (err m, c) (ok y) k f h rest = absurd h

  pub TracksValue-bind :
      {A B : Type 0} (s : State D) (m : Result A Text × C) (q : Result (A × D) Text)
      (k : A → Tx C B) (f : A × D → Result (B × D) Text)
      → TracksValue s m q
      → ((a : A) (c : C) (y : D)
          → laws.state c ≡ with_data s y
          → TracksValue (with_data s y) (k a c) (f (a, y)))
      → TracksValue s (continue m.0 k m.1) (q >>>= f)
  TracksValue-bind s (ok a, c) (ok (b, y)) k f h rest =
      rw (← h.0) (TracksValue-with_data s y (k a c) (f (a, y)) (rest a c y h.1))
  TracksValue-bind s (err m, c) (err n) k f h rest = h
  TracksValue-bind s (ok a, c) (err n) k f h rest = absurd h
  TracksValue-bind s (err m, c) (ok y) k f h rest = absurd h

  -- A last step whose own value is dropped.
  pub Tracks-drop :
      {A : Type 0} (s : State D) (m : Result A Text × C) (q : Result D Text)
      → Tracks s m q
      → Tracks s (continue m.0 (λ _. pure tt) m.1) q
  Tracks-drop s (ok a, c) (ok y) h = h
  Tracks-drop s (err m, c) (err n) h = h
  Tracks-drop s (ok a, c) (err n) h = h
  Tracks-drop s (err m, c) (ok y) h = h

  pub Tracks-return :
      {A B : Type 0} (s : State D) (b : B) (m : Result A Text × C) (q : Result D Text)
      → Tracks s m q
      → TracksValue s (continue m.0 (λ _. pure b) m.1) (q >>>= λ u. ok (b, u))
  Tracks-return s b (ok a, c) (ok y) h = (refl, h)
  Tracks-return s b (err m, c) (err n) h = h
  Tracks-return s b (ok a, c) (err n) h = h
  Tracks-return s b (err m, c) (ok y) h = h
