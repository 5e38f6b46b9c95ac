-- ===== src/Worker/Messages/Delivered.antt =====
-- What the server still holds after an acknowledgement
-- (apps/worker/src/routes/messages.ts).
use sendself.Base.{
  ℕ, ◌≡◌, refl, sym, ap, ◌∙◌, ◌⊎◌, All-map, str_eq_comm, subst, inl, inr, Bool, true, false, ◌&&◌,
  not, none, some, List, [], ◌∷◌, arith, Text, str_eq, str_eq_iff, find, filter, any, All,
  update_where, is_none, Bool-cases, and-true, any-filter_implied,
}
use sendself.Http.{Value}
use sendself.Worker.Tables.{Server, World, Message, Delivery}
use sendself.Worker.Auth.{AuthContext}
use sendself.Worker.Action.{guarded_keeps}
use sendself.Worker.Db.{Target, listed, forget_rows, is_pending}
use sendself.Worker.Db.Single.{IsWithout, absent, deleted, delete_message_by_id-IsWithout}
use sendself.Worker.Messages.{check_ack, mark_downloaded, settle, ack_message}

-- Every stored message has a recipient that has not downloaded it.
abbrev pub IsOutstanding : Server → Type 0
IsOutstanding s = All (λ (m : Message). is_pending s m.id ≡ true) s.messages

-- The ids that a table of deliveries leaves pending.
abbrev pub pending_in : List Delivery → Text → Bool
pending_in ds id = any (λ (d : Delivery). str_eq d.message_id id && is_none d.downloaded_at) ds

-- Forgetting a batch leaves pending what was pending, and takes what may not have been with it.
All-forget :
    (b : List Target) (ds : List Delivery) (ms : List Message)
    → All (λ (m : Message). (listed b m.id ≡ true) ⊎ (pending_in ds m.id ≡ true)) ms
    → All
        (λ (m : Message).
          pending_in (filter (λ (d : Delivery). not (listed b d.message_id)) ds) m.id ≡ true)
        (filter (λ (m : Message). not (listed b m.id)) ms)
All-forget b ds [] h = tt
All-forget b ds (m ∷ ms) h = elim (Bool-cases (listed b m.id)) [
  | inl gone ↦ rw gone (All-forget b ds ms h.1)
  | inr kept ↦
      let was : pending_in ds m.id ≡ true = elim (h.0) [ inl e ↦ cc | inr p ↦ p ] in
      rw kept (
        any-filter_implied (λ (d : Delivery). not (listed b d.message_id))
              (λ (d : Delivery). str_eq d.message_id m.id && is_none d.downloaded_at)
              (λ d e.
                subst (λ x. not (listed b x) ≡ true)
                  (sym ((str_eq_iff d.message_id m.id).0 (and-true _ _ e).0)) (ap not kept))
              ds
            ∙ was,
        All-forget b ds ms h.1,
      )
]

-- Only the message that was acknowledged can lose its last pending delivery.
pending_in-mark :
    (now : ℕ) (device id other : Text) (ds : List Delivery)
    → str_eq id other ≡ false
    → pending_in
        (update_where
          (λ (d : Delivery).
            str_eq d.message_id id && str_eq d.device_id device && is_none d.downloaded_at)
          (λ (d : Delivery). record d { downloaded_at = some now })
          ds)
        other
      ≡ pending_in ds other
pending_in-mark now device id other [] ne = refl
pending_in-mark now device id other (d ∷ ds) ne =
    ground (arith, same, pending_in-mark now device id other ds)
  where
    same : str_eq d.message_id id ≡ true → str_eq d.message_id other ≡ false
    same e = subst (λ x. str_eq x other ≡ false) (sym ((str_eq_iff _ _).0 e)) ne

pub IsOutstanding-IsWithout :
    {p : Message → Bool} {id : Text} {s t : Server}
    → IsOutstanding s
    → IsWithout p id s t
    → IsOutstanding t
unfolding forget_rows
IsOutstanding-IsWithout h (absent _ e) = subst IsOutstanding (sym e) h
IsOutstanding-IsWithout {s} h (deleted target fs _ e) =
    subst IsOutstanding (sym e)
      (All-forget (target ∷ []) s.deliveries s.messages (All-map _ _ (λ m k. inr k) s.messages h))

-- All but the messages of one id are pending; the deletion of that id mends it.
abbrev IsOutstandingBut : Text → Server → Type 0
IsOutstandingBut id s =
    All (λ (m : Message). (str_eq id m.id ≡ true) ⊎ (is_pending s m.id ≡ true)) s.messages

-- Where no row has the id, there is no exception.
without_exception :
    (id : Text) (ds : List Delivery) (ms : List Message)
    → find (λ (m : Message). str_eq m.id id) ms ≡ none
    → All (λ (m : Message). (str_eq id m.id ≡ true) ⊎ (pending_in ds m.id ≡ true)) ms
    → All (λ (m : Message). pending_in ds m.id ≡ true) ms
without_exception id ds [] e h = tt
without_exception id ds (m ∷ ms) e h = elim (Bool-cases (str_eq m.id id)) [
  | inl same ↦ cc (rw same at e)
  | inr other ↦ (
    elim (h.0) [ inl same ↦ cc (str_eq_comm id m.id) | inr p ↦ p ],
    without_exception id ds ms (rw other at e) h.1,
  )
]

IsOutstandingBut-IsWithout :
    {id : Text} {s t : Server}
    → IsOutstandingBut id s
    → IsWithout (λ (m : Message). str_eq m.id id) id s t
    → IsOutstanding t
unfolding forget_rows
IsOutstandingBut-IsWithout {id} {s} h (absent none_there e) =
    subst IsOutstanding (sym e) (without_exception id s.deliveries s.messages none_there h)
IsOutstandingBut-IsWithout {s} h (deleted target fs same e) = subst IsOutstanding (sym e) (
    All-forget (target ∷ []) s.deliveries s.messages (
      All-map _ _ (λ m k. elim k [ inl q ↦ inl (rw same (ground arith)) | inr p ↦ inr p ])
        s.messages h))

mark_downloaded-IsOutstandingBut :
    (w : World) (device id : Text) (s : Server)
    → IsOutstanding s
    → IsOutstandingBut id (mark_downloaded w device id s)
unfolding mark_downloaded
mark_downloaded-IsOutstandingBut w device id s h =
    All-map _ _
      (λ m k. elim (Bool-cases (str_eq id m.id)) [
        | inl same ↦ inl same
        | inr other ↦ inr (pending_in-mark w.now device id m.id s.deliveries other ∙ k)
      ])
      s.messages h

settle-IsOutstanding :
    (w : World) (id : Text) (s : Server) → IsOutstandingBut id s → IsOutstanding (settle w id s).1
unfolding settle
settle-IsOutstanding w id s h = elim (Bool-cases (is_pending s id)) [
  | inr done ↦ rw done (IsOutstandingBut-IsWithout h (delete_message_by_id-IsWithout w id s))
  | inl still ↦ rw still (
      All-map _ _
        (λ m k. elim k [
          | inl same ↦ subst (λ x. is_pending s x ≡ true) ((str_eq_iff id m.id).0 same) still
          | inr p ↦ p
        ])
        s.messages h)
]

-- Where every stored message has a pending delivery, it is so after an acknowledgement too,
-- whatever its answer is and also where the bucket fails: the server holds no message that
-- everybody has.
pub ack_message-IsOutstanding :
    (w : World) (header : Text) (param : Value) (s : Server)
    → IsOutstanding s
    → IsOutstanding (ack_message w header param s).1
unfolding ack_message
ack_message-IsOutstanding w header param s h =
    guarded_keeps {A = AuthContext × Text} {B = Bool} IsOutstanding (check_ack w header param s)
      (λ a t. settle w a.1 (mark_downloaded w a.0.device_id a.1 t)) s h
      λ a e.
        settle-IsOutstanding w a.1 (mark_downloaded w a.0.device_id a.1 s)
          (mark_downloaded-IsOutstandingBut w a.0.device_id a.1 s h)
