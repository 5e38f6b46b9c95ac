-- ===== src/Worker/Db/Shrink.antt =====
-- What no deletion of messages in apps/worker/src/db.ts touches, its failures included.
use sendself.Base.{
  ℕ, zero, suc, ◌≡◌, refl, ◌∙◌, inl, inr, Bool, false, not, List, [], ◌∷◌, map, arith, Text, any,
  filter, length, batch_loop, Bool-cases,
}
use sendself.Errors.{Result, ok, err}
use sendself.Worker.Tables.{Server, World, Message, Delivery}
use sendself.Worker.Action.{Action, ◌>>◌}
use sendself.Worker.Db.{
  Target, target_of, listed, forget_rows, drop_files, has_file, delete_batch, delete_batches,
  delete_messages, purge_round, purge_delivered, purge_delivered_messages, oldest, is_delivered,
}

-- The tables of spaces, devices, keys and push endpoints are the same, and no delivery is new.
pub record IsShrunk (s t : Server) : Type 0 where
  pub same_groups : t.groups ≡ s.groups
  pub same_devices : t.devices ≡ s.devices
  pub same_keys : t.keys ≡ s.keys
  pub same_pushes : t.pushes ≡ s.pushes
  pub fewer : (p : Delivery → Bool) → any p s.deliveries ≡ false → any p t.deliveries ≡ false

IsShrunk-refl : (s : Server) → IsShrunk s s
IsShrunk-refl s = record {
  same_groups = refl;
  same_devices = refl;
  same_keys = refl;
  same_pushes = refl;
  fewer = λ p h. h;
}

IsShrunk-trans : {r s t : Server} → IsShrunk r s → IsShrunk s t → IsShrunk r t
IsShrunk-trans h k = record {
  same_groups = k.same_groups ∙ h.same_groups;
  same_devices = k.same_devices ∙ h.same_devices;
  same_keys = k.same_keys ∙ h.same_keys;
  same_pushes = k.same_pushes ∙ h.same_pushes;
  fewer = λ p e. k.fewer p (h.fewer p e);
}

any-filter_none :
    {A : Type 0} (p q : A → Bool) (xs : List A) → any p xs ≡ false → any p (filter q xs) ≡ false
any-filter_none p q [] h = refl
any-filter_none p q (x ∷ xs) h = ground (arith, any-filter_none p q xs)

forget_rows-IsShrunk : (b : List Target) (s : Server) → IsShrunk s (forget_rows b s)
unfolding forget_rows
forget_rows-IsShrunk b s = record {
  same_groups = refl;
  same_devices = refl;
  same_keys = refl;
  same_pushes = refl;
  fewer = λ p h. any-filter_none p (λ (d : Delivery). not (listed b d.message_id)) s.deliveries h;
}

-- One step and then another, which only a success reaches.
>>-IsShrunk :
    {A : Type 0} (m : Action (Unit {0})) (k : Action A) (s : Server)
    → IsShrunk s (m s).1
    → IsShrunk (m s).1 (k (m s).1).1
    → IsShrunk s ((m >> k) s).1
>>-IsShrunk {A} m k s h l = go (m s) h l
  where
    go :
        (r : Result (Unit {0}) × Server)
        → IsShrunk s r.1
        → IsShrunk r.1 (k r.1).1
        → IsShrunk s
            (elim (r.0) as (λ _. Result A × Server) [ ok a ↦ k r.1 | err c ↦ (err c, r.1) ]).1
    go (ok a, t) h l = IsShrunk-trans h l
    go (err c, t) h l = h

module _ (w : World) where
  delete_batch-IsShrunk : (b : List Target) (s : Server) → IsShrunk s (delete_batch w b s).1
  unfolding delete_batch drop_files
  delete_batch-IsShrunk b s = elim (Bool-cases (any has_file b)) [
    | inr e ↦ rw e (forget_rows-IsShrunk b s)
    | inl e ↦ elim (Bool-cases w.bucket_up) [
      | inl up ↦
          let k = forget_rows-IsShrunk b s in
          rw (e, up)
            (record {
              same_groups = k.same_groups;
              same_devices = k.same_devices;
              same_keys = k.same_keys;
              same_pushes = k.same_pushes;
              fewer = k.fewer;
            })
      | inr down ↦ rw (e, down) (forget_rows-IsShrunk b s)
    ]
  ]

  delete_batches-IsShrunk :
      (bs : List (List Target)) (s : Server) → IsShrunk s (delete_batches w bs s).1
  unfolding delete_batches
  delete_batches-IsShrunk [] s = IsShrunk-refl s
  delete_batches-IsShrunk (b ∷ bs) s =
      >>-IsShrunk (delete_batch w b) (delete_batches w bs) s (delete_batch-IsShrunk b s)
        (delete_batches-IsShrunk bs (delete_batch w b s).1)

  delete_messages-IsShrunk : (ts : List Target) (s : Server) → IsShrunk s (delete_messages w ts s).1
  unfolding delete_messages
  delete_messages-IsShrunk ts s = delete_batches-IsShrunk (batch_loop (length ts) 99 ts) s

  purge_round-IsShrunk :
      (rows : List Message) (rest : Action (Unit {0}))
      → ((t : Server) → IsShrunk t (rest t).1)
      → (s : Server) → IsShrunk s (purge_round w rows rest s).1
  unfolding purge_round
  purge_round-IsShrunk [] rest h s = IsShrunk-refl s
  purge_round-IsShrunk (m ∷ ms) rest h s =
      >>-IsShrunk (delete_messages w (map target_of (m ∷ ms))) rest s
        (delete_messages-IsShrunk (map target_of (m ∷ ms)) s) (h _)

  purge_delivered-IsShrunk :
      (fuel : ℕ) (group : Text) (s : Server) → IsShrunk s (purge_delivered w fuel group s).1
  unfolding purge_delivered
  purge_delivered-IsShrunk zero group s = IsShrunk-refl s
  purge_delivered-IsShrunk (suc fuel) group s =
      purge_round-IsShrunk (oldest (is_delivered s group) s.messages) (purge_delivered w fuel group)
        (purge_delivered-IsShrunk fuel group) s

  -- The purge of delivered messages is such a deletion, whether it succeeds or not.
  pub purge_delivered_messages-IsShrunk :
      (group : Text) (s : Server) → IsShrunk s (purge_delivered_messages w group s).1
  unfolding purge_delivered_messages
  purge_delivered_messages-IsShrunk group s =
      purge_delivered-IsShrunk (suc (length s.messages)) group s
