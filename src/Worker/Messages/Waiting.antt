-- ===== src/Worker/Messages/Waiting.antt =====
-- The query of a poll of apps/worker/src/routes/messages.ts: what is in its answer.
use sendself.Base.{
  ℕ, suc, zero, ◌≤◌, ◌≡◌, refl, sym, ap, ◌∙◌, inl, inr, Bool, true, false, ◌&&◌, List, [], ◌∷◌, map,
  arith, Text, str_eq, str_eq_refl, str_eq_iff, any, filter, take, length, order_by, opt_eq,
  is_none, Bool-cases, any-filter, any-order_by, insert_sorted, any-take,
}
use sendself.Worker.Tables.{Server, Message, Delivery}
use sendself.Worker.Auth.{AuthContext}
use sendself.Worker.Messages.Request.{Draft}
use sendself.Worker.Messages.{
  PendingMessage, pending_delivery, waiting_messages, is_waiting_for, created_before,
}

-- A message with the id, the sender and the encrypted text of what was sent.
abbrev pub is_sent : AuthContext → Draft → Message → Bool
is_sent auth m x =
    str_eq x.id m.id
    && str_eq x.sender_device_id auth.device_id
    && opt_eq x.encrypted_payload m.encrypted_payload

abbrev pub is_among : (Message → Bool) → List PendingMessage → Bool
is_among q = any λ (p : PendingMessage). q p.message

length-insert_sorted :
    (x : Message) (xs : List Message) → length (insert_sorted created_before x xs) ≡ suc (length xs)
unfolding insert_sorted
length-insert_sorted x [] = refl
length-insert_sorted x (y ∷ ys) = ground (arith, length-insert_sorted x ys)

length-order_by : (xs : List Message) → length (order_by created_before xs) ≡ length xs
unfolding order_by
length-order_by [] = refl
length-order_by (x ∷ xs) =
    length-insert_sorted x (order_by created_before xs) ∙ ap suc (length-order_by xs)

take_short : (n : ℕ) (xs : List Message) → length xs ≤ n → take n xs ≡ xs
take_short zero [] h = refl
take_short zero (x ∷ xs) h = absurd (omega (arith, h))
take_short (suc n) [] h = refl
take_short (suc n) (x ∷ xs) h = ap (λ ys. x ∷ ys) (take_short n xs (omega (arith, h)))

any-map :
    (q : Message → Bool) (f : Message → PendingMessage)
    → ((x : Message) → (f x).message ≡ x)
    → (xs : List Message) → is_among q (map f xs) ≡ any q xs
any-map q f e [] = refl
any-map q f e (x ∷ xs) = rw (e x, any-map q f e xs) refl

module _ (s : Server) (device : Text) (since : ℕ) where
  -- What waits for a device is in the answer, where that is not cut off.
  pub answered :
      (q : Message → Bool)
      → length (filter (is_waiting_for s device since) s.messages) ≤ 200
      → any (λ x. is_waiting_for s device since x && q x) s.messages ≡ true
      → is_among q (waiting_messages s device since) ≡ true
  unfolding waiting_messages
  answered q few h =
      let found : List Message = filter (is_waiting_for s device since) s.messages in
      let all : take 200 (order_by created_before found) ≡ order_by created_before found =
        take_short 200 (order_by created_before found)
          (omega (arith, few, length-order_by found)) in
      any-map q _ (λ x. refl) (take 200 (order_by created_before found))
      ∙ ap (any q) all
      ∙ any-order_by created_before q found
      ∙ any-filter q (is_waiting_for s device since) s.messages
      ∙ h

  -- What is in the answer waits for the device.
  pub not_answered :
      (q : Message → Bool)
      → any (λ x. is_waiting_for s device since x && q x) s.messages ≡ false
      → is_among q (waiting_messages s device since) ≡ false
  unfolding waiting_messages
  not_answered q h =
      let found : List Message = filter (is_waiting_for s device since) s.messages in
      elim (Bool-cases (is_among q (waiting_messages s device since))) [
        | inr hidden ↦ hidden
        | inl shown ↦
            let there : any q (order_by created_before found) ≡ true =
              any-take q 200 (order_by created_before found) (
                sym (any-map q _ (λ x. refl) (take 200 (order_by created_before found))) ∙ shown) in
            cc (
              sym h
              ∙ sym (any-filter q (is_waiting_for s device since) s.messages)
              ∙ sym (any-order_by created_before q found)
              ∙ there)
      ]

pub any-pending :
    (id device : Text) (rs : List Text)
    → any (str_eq device) rs ≡ true
    → any
        (λ (d : Delivery).
          str_eq d.message_id id && str_eq d.device_id device && is_none d.downloaded_at)
        (map (pending_delivery id) rs)
      ≡ true
any-pending id device [] h = cc
any-pending id device (r ∷ rs) h = elim (Bool-cases (str_eq device r)) [
  | inl e ↦
      let r_eq : str_eq r device ≡ true =
        (str_eq_iff r device).1 (sym ((str_eq_iff device r).0 e)) in
      rw (str_eq_refl id, r_eq) refl
  | inr e ↦ ground (arith, any-pending id device rs (rw e at h))
]
