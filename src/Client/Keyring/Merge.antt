-- ===== src/Client/Keyring/Merge.antt =====
-- What adopting keys does to the ring of packages/client/src/keyring.ts, in whatever order they come.
use sendself.Base.{ℕ, max, List, [], ◌∷◌}
use sendself.Client.Keyring.{Keyring, with_epoch}

module _ {Key : Type 0} where
  -- The keys of a space, as they arrive after the first.
  pub adopt : Keyring Key → List (ℕ × Key) → Keyring Key
  unfolding with_epoch
  adopt ring [] = ring
  adopt ring (e ∷ es) = adopt (with_epoch ring e.0 e.1) es

  -- The newest epoch of all.
  pub newest : ℕ → List (ℕ × Key) → ℕ
  newest n [] = n
  newest n (e ∷ es) = newest (max n e.0) es
