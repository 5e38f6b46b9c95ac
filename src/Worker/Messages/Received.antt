-- ===== src/Worker/Messages/Received.antt =====
-- From a send to a poll of apps/worker/src/routes/messages.ts: what is stored for a device is in the
-- answers to its polls, until it has acknowledged it.
use sendself.Base.{
  ℕ, ◌≡◌, Bool, true, ◌&&◌, ◌||◌, not, Option, some, List, [], ◌∷◌, ◌++◌, map, Text, str_eq, any,
  is_some, if◌then◌else◌,
}
use sendself.Errors.{Result, ok, bad_request, refuse_if}
use sendself.Worker.Tables.{Server, World, Delivery}
use sendself.Worker.Action.{Action, checked, pure}
use sendself.Worker.Auth.{AuthContext}
use sendself.Worker.Messages.Request.{Draft, has_message}
use sendself.Worker.Messages.{Notice, pending_delivery, stored, is_waiting_for, is_uploaded}
use sendself.Worker.Messages.Waiting.{is_sent}

module _ (w : World) (auth : AuthContext) (m : Draft) where
  abbrev is_taken : Server → List Text → Bool
  is_taken s rs =
      has_message s m.id
      || any (λ (d : Delivery). str_eq d.message_id m.id && any (str_eq d.device_id) rs)
          s.deliveries

  abbrev upload_check : Action (Unit {0})
  upload_check = checked (λ s. refuse_if (not (is_uploaded w auth m s)) bad_request)

  abbrev notice_for : List Text → Action (Option Notice)
  notice_for rs = pure (
      some (record {
        group_id = auth.group_id;
        exclude = auth.device_id;
        push = if is_some m.deletes_message_id then [] else rs;
      }))

  abbrev with_message : Server → List Text → Server
  with_message s rs = record s {
    messages = s.messages ++ stored auth m w.now ∷ [];
    deliveries = s.deliveries ++ map (pending_delivery m.id) rs;
  }

  abbrev push_of : Result (Option Notice) → List Text
  push_of (ok (some n)) = n.push
  push_of _ = []

  abbrev Waits : Text → ℕ → Server → Type 0
  Waits device since t =
      any (λ x. is_waiting_for t device since x && is_sent auth m x) t.messages ≡ true
