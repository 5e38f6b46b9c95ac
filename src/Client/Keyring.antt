-- ===== src/Client/Keyring.antt =====
-- packages/client/src/keyring.ts: a device's keys by epoch. `Key` stands for `CryptoKey`. A `Map` is
-- the list of its entries, newest first, each key once.
pub mod Merge
pub mod Examples
use sendself.Base.{ℕ, max, Bool, not, Option, none, some, List, [], ◌∷◌, find, filter, ◌==◌}

pub record Keyring (Key : Type 0) : Type 0 where
  pub current : ℕ
  pub keys : List (ℕ × Key)

module _ {Key : Type 0} where
  -- `Map.get`
  pub lookup : ℕ → List (ℕ × Key) → Option Key
  lookup epoch keys = elim (find (λ (e : ℕ × Key). e.0 == epoch) keys) [
    | none ↦ none
    | some e ↦ some e.1
  ]

  pub create_keyring : Key → ℕ → Keyring Key
  create_keyring key epoch = record { current = epoch; keys = (epoch, key) ∷ [] }

  pub key_for_epoch : Keyring Key → ℕ → Option Key
  unfolding lookup
  key_for_epoch ring epoch = lookup epoch ring.keys

  -- Nothing where the source throws.
  pub current_key : Keyring Key → Option Key
  unfolding lookup
  current_key ring = lookup ring.current ring.keys

  pub with_epoch : Keyring Key → ℕ → Key → Keyring Key
  with_epoch ring epoch key = record {
    current = max ring.current epoch;
    keys = (epoch, key) ∷ filter (λ (e : ℕ × Key). not (e.0 == epoch)) ring.keys;
  }
