-- ===== src/Worker/Messages/Sent.antt =====
-- What the server still holds after a send
-- (apps/worker/src/routes/messages.ts).
use sendself.Base.{
  ℕ, ◌≡◌, All-map, All-append, inl, inr, Bool, true, ◌&&◌, ◌||◌, not, Option, none, List, [], ◌∷◌,
  ◌++◌, map, arith, Text, str_eq, str_eq_refl, any, All, is_none, Bool-cases, Option-cases,
  any-append,
}
use sendself.Errors.{bad_request, refuse_if}
use sendself.Worker.Tables.{Server, World, Message, Delivery}
use sendself.Worker.Auth.{AuthContext}
use sendself.Worker.Action.{guarded_keeps, >>=-keeps, pure, checked, ◌>>◌}
use sendself.Worker.Messages.Request.{Draft, SendMessageRequest, has_message, check_send}
use sendself.Worker.Db.Single.{delete_group_message-IsWithout}
use sendself.Worker.Messages.{
  Notice, delete_target, drop_upload, drop_upload_of, deliver, pending_delivery, insert_message,
  store, send_message,
}
use sendself.Worker.Db.{delete_group_message, message_recipients}
use sendself.Worker.Messages.{is_uploaded}
use sendself.Worker.Messages.Delivered.{IsOutstanding, pending_in, IsOutstanding-IsWithout}

-- A message that is inserted has its recipients waiting for it.
pending_in-append :
    (ds : List Delivery) (id : Text) (rs : List Text) (ms : List Message)
    → All (λ (m : Message). pending_in ds m.id ≡ true) ms
    → All (λ (m : Message). pending_in (ds ++ map (pending_delivery id) rs) m.id ≡ true) ms
pending_in-append ds id rs ms h =
    All-map _ _
      (λ m k. ground (
        arith,
        any-append (λ (d : Delivery). str_eq d.message_id m.id && is_none d.downloaded_at) ds
            (map (pending_delivery id) rs),
      ))
      ms h

insert_message-IsOutstanding :
    (auth : AuthContext) (m : Draft) (now : ℕ) (r : Text) (rs : List Text) (s : Server)
    → IsOutstanding s
    → IsOutstanding (insert_message auth m now (r ∷ rs) s).1
unfolding insert_message
insert_message-IsOutstanding auth m now r rs s h =
    elim (Bool-cases (
      has_message s m.id
      || any (λ (d : Delivery). str_eq d.message_id m.id && any (str_eq d.device_id) (r ∷ rs))
          s.deliveries)) [
            | inl e ↦ rw e h
            | inr e ↦ rw e (
                All-append _ s.messages _
                  (pending_in-append s.deliveries m.id (r ∷ rs) s.messages h)
                  (
                    ground (
                      arith,
                      str_eq_refl m.id,
                      any-append
                          (λ (d : Delivery). str_eq d.message_id m.id && is_none d.downloaded_at)
                          s.deliveries (map (pending_delivery m.id) (r ∷ rs)),
                    ),
                    tt,
                  ))
          ]

module _ (w : World) (auth : AuthContext) (m : Draft) where
  drop_upload_of-IsOutstanding :
      (s : Server) → IsOutstanding s → IsOutstanding (drop_upload_of w auth m s).1
  unfolding drop_upload_of drop_upload
  drop_upload_of-IsOutstanding s h = elim (Option-cases m.file_r2_key) [
    | inl e ↦ rw e h
    | inr (key, e) ↦ elim (Bool-cases w.bucket_up) [
      | inl up ↦ rw (e, up) h
      | inr down ↦ rw (e, down) h
    ]
  ]

  delete_target-IsOutstanding :
      (s : Server) → IsOutstanding s → IsOutstanding (delete_target w auth m s).1
  unfolding delete_target
  delete_target-IsOutstanding s h = elim (Option-cases m.deletes_message_id) [
    | inl e ↦ rw e h
    | inr (id, e) ↦ rw e (
        >>=-keeps {A = Bool} {B = Unit {0}} IsOutstanding (delete_group_message w auth.group_id id)
          (λ _. pure tt) s
          (IsOutstanding-IsWithout h (delete_group_message-IsWithout w auth.group_id id s))
          (λ _ t k. k))
  ]

  store-IsOutstanding :
      (rs : List Text) (s : Server) → IsOutstanding s → IsOutstanding (store w auth m rs s).1
  unfolding store
  store-IsOutstanding [] s h =
      >>=-keeps {A = Unit {0}} {B = Option Notice} IsOutstanding (drop_upload_of w auth m)
        (λ _. pure none) s (drop_upload_of-IsOutstanding s h) (λ _ t k. k)
  store-IsOutstanding (r ∷ rs) s h =
      >>=-keeps {A = Unit {0}} {B = Option Notice} IsOutstanding
        (checked (λ s. refuse_if (not (is_uploaded w auth m s)) bad_request))
        (λ _. insert_message auth m w.now (r ∷ rs) >> pure _) s h
        (λ _ t k.
          >>=-keeps {A = Unit {0}} {B = Option Notice} IsOutstanding
            (insert_message auth m w.now (r ∷ rs)) (λ _. pure _) t
            (insert_message-IsOutstanding auth m w.now r rs t k) (λ _ u l. l))

  deliver-IsOutstanding : (s : Server) → IsOutstanding s → IsOutstanding (deliver w auth m s).1
  unfolding deliver
  deliver-IsOutstanding s h =
      store-IsOutstanding (message_recipients s auth.group_id auth.device_id) s h

-- Where every stored message has a pending delivery, it is so after a request to send too, on
-- every branch: a stored text or file, a tombstone, a message without recipients, a refusal, a
-- bucket that fails.
pub send_message-IsOutstanding :
    (w : World) (header : Text) (body : SendMessageRequest) (s : Server)
    → IsOutstanding s
    → IsOutstanding (send_message w header body s).1
unfolding send_message
send_message-IsOutstanding w header body s h =
    guarded_keeps {A = AuthContext × Draft} {B = Option Notice} IsOutstanding
      (check_send w header body s) (λ a. delete_target w a.0 a.1 >> deliver w a.0 a.1) s h
      λ a e.
        >>=-keeps {A = Unit {0}} {B = Option Notice} IsOutstanding (delete_target w a.0 a.1)
          (λ _. deliver w a.0 a.1) s (delete_target-IsOutstanding w a.0 a.1 s h)
          (λ _ t k. deliver-IsOutstanding w a.0 a.1 t k)
