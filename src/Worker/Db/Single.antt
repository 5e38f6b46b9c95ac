-- ===== src/Worker/Db/Single.antt =====
-- The deletion of one message in apps/worker/src/db.ts.
use sendself.Base.{
  ◌≡◌, refl, ◌∙◌, inl, inr, Bool, true, ◌&&◌, none, List, [], ◌∷◌, Text, str_eq, str_eq_iff, find,
  find-true, any, Bool-cases, Option-cases, and-true,
}
use sendself.Errors.{Result, ok, err}
use sendself.Worker.Tables.{Server, World, Message, Object}
use sendself.Worker.Action.{Action, pure, ◌>>◌}
use sendself.Worker.Db.{
  Target, target_of, forget_rows, drop_files, delete_batch, delete_batches, delete_messages,
  has_file, delete_message_by_id, delete_group_message,
}

-- The tables after a deletion: as they were, or without one message and what belongs to it.
pub data IsWithout (p : Message → Bool) (id : Text) (s t : Server) : Type 0 where
  absent : find p s.messages ≡ none → t ≡ s → IsWithout p id s t
  deleted :
      (target : Target) (fs : List Object)
      → target.id ≡ id
      → t ≡ record (forget_rows (target ∷ []) s) { files = fs }
      → IsWithout p id s t

module _ (w : World) where
  delete_batch_state :
      (b : List Target) (s : Server)
      → (fs : List Object) × ((delete_batch w b s).1 ≡ record (forget_rows b s) { files = fs })
  unfolding delete_batch
  delete_batch_state b s = elim (Bool-cases (any has_file b)) [
    | inr e ↦ ((forget_rows b s).files, rw e refl)
    | inl e ↦ elim (Bool-cases w.bucket_up) [
      | inl up ↦ ((drop_files b (forget_rows b s)).files, rw (e, up) refl)
      | inr down ↦ ((forget_rows b s).files, rw (e, down) refl)
    ]
  ]

  -- A step that writes nothing more leaves the tables as they are.
  state-then :
      {A : Type 0} (m : Action (Unit {0})) (a : A) (s : Server) → ((m >> pure a) s).1 ≡ (m s).1
  state-then {A} m a s = go (m s)
    where
      go :
          (r : Result (Unit {0}) × Server)
          → (elim (r.0) as (λ x. Result A × Server) [ ok u ↦ (ok a, r.1) | err e ↦ (err e, r.1) ]).1
            ≡ r.1
      go (ok u, t) = refl
      go (err e, t) = refl

  delete_messages_state :
      {A : Type 0} (target : Target) (a : A) (s : Server)
      → (fs : List Object) × (((delete_messages w (target ∷ []) >> pure a) s).1
          ≡ record (forget_rows (target ∷ []) s) { files = fs })
  unfolding delete_messages delete_batches
  delete_messages_state target a s =
      let (fs, e) = delete_batch_state (target ∷ []) s in
      (
        fs,
        state-then (delete_messages w (target ∷ [])) a s
            ∙ (state-then (delete_batch w (target ∷ [])) tt s ∙ e),
      )

  -- Whether or not the bucket deletes the file, the message's rows are gone.
  pub delete_message_by_id-IsWithout :
      (id : Text) (s : Server)
      → IsWithout (λ (m : Message). str_eq m.id id) id s (delete_message_by_id w id s).1
  unfolding delete_message_by_id
  delete_message_by_id-IsWithout id s =
      elim (Option-cases (find (λ (m : Message). str_eq m.id id) s.messages)) [
        | inl e ↦ absent e (rw (e, delete_message_by_id) refl)
        | inr (m, e) ↦
            let (fs, d) = delete_messages_state (target_of m) true s in
            deleted (target_of m) fs ((str_eq_iff _ _).0 (find-true _ s.messages m e))
              (rw (e, delete_message_by_id) d)
      ]

  pub delete_group_message-IsWithout :
      (group id : Text) (s : Server)
      → IsWithout
          (λ (m : Message). str_eq m.id id && str_eq m.group_id group)
          id
          s
          (delete_group_message w group id s).1
  unfolding delete_group_message
  delete_group_message-IsWithout group id s =
      elim (Option-cases
        (find (λ (m : Message). str_eq m.id id && str_eq m.group_id group) s.messages)) [
          | inl e ↦ absent e (rw (e, delete_group_message) refl)
          | inr (m, e) ↦
              let (fs, d) = delete_messages_state (target_of m) true s in
              deleted (target_of m) fs
                ((str_eq_iff _ _).0 (and-true _ _ (find-true _ s.messages m e)).0)
                (rw (e, delete_group_message) d)
        ]
