-- ===== src/Worker/Db/Purge.antt =====
-- `purgeDeliveredMessages` of apps/worker/src/db.ts ends, and leaves nothing delivered behind.
use sendself.Base.{
  ℕ, zero, suc, ◌≤◌, ◌<◌, ◌≡◌, refl, sym, ap, ◌∙◌, subst, inl, inr, Bool, true, false, ◌&&◌, not,
  List, [], ◌∷◌, map, arith, Text, str_eq, str_eq_refl, str_eq_iff, filter, any, count, take, drop,
  length, is_none, order_by, batch_loop, any-order_by, any-take, any-filter, any_mono,
  count-filter-lt, Bool-cases, count-filter_congr, count-le-length, length-map, any_of_take_nil,
  count-eq-zero_of_any, filter-filter_congr, length-take, and-true, filter-filter_implied,
  any-filter_implied,
}
use sendself.Errors.{Result, ok}
use sendself.Worker.Tables.{Server, World, Message, Delivery, Object}
use sendself.Worker.Action.{>>-ok}
use sendself.Worker.Db.{
  Target, target_of, listed, forget_rows, delete_batch, delete_messages, is_pending, is_delivered,
  purge_round, oldest, purge_delivered, purge_delivered_messages, delete_batch_size, message_before,
  delete_batches, has_file, drop_files,
}

module _ {ℓ} {A : Type ℓ} where
  batch_loop_nil : (fuel n : ℕ) → batch_loop {A = A} fuel n [] ≡ []
  unfolding batch_loop
  batch_loop_nil zero n = refl
  batch_loop_nil (suc fuel) n = refl

  take-eq_self : (n : ℕ) (xs : List A) → length xs ≤ n → take n xs ≡ xs
  take-eq_self zero [] h = refl
  take-eq_self zero (x ∷ xs) h = absurd (omega arith)
  take-eq_self (suc n) [] h = refl
  take-eq_self (suc n) (x ∷ xs) h = ap (λ ys. x ∷ ys) (take-eq_self n xs (omega arith))

  drop-eq-nil : (n : ℕ) (xs : List A) → length xs ≤ n → drop n xs ≡ []
  drop-eq-nil zero [] h = refl
  drop-eq-nil zero (x ∷ xs) h = absurd (omega arith)
  drop-eq-nil (suc n) [] h = refl
  drop-eq-nil (suc n) (x ∷ xs) h = drop-eq-nil n xs (omega arith)

  -- What fits in one batch is one batch.
  batch_loop_one :
      (n : ℕ) (x : A) (xs : List A)
      → length xs ≤ n
      → batch_loop (length (x ∷ xs)) n (x ∷ xs) ≡ (x ∷ xs) ∷ []
  unfolding batch_loop
  batch_loop_one n x xs h =
      rw (take-eq_self n xs h, drop-eq-nil n xs h, batch_loop_nil (length xs) n)

module _ (w : World) (up : w.bucket_up ≡ true) where
  delete_batch_up :
      (b : List Target) (s : Server)
      → (fs : List Object) × (delete_batch w b s ≡ (ok tt, record (forget_rows b s) { files = fs }))
  unfolding delete_batch
  delete_batch_up b s = elim (Bool-cases (any has_file b)) [
    | inl e ↦ ((drop_files b (forget_rows b s)).files, rw (e, up) refl)
    | inr e ↦ ((forget_rows b s).files, rw e refl)
  ]

  delete_messages_batch :
      (t : Target) (ts : List Target) (s : Server)
      → length ts ≤ 99
      → delete_messages w (t ∷ ts) s ≡ delete_batches w ((t ∷ ts) ∷ []) s
  unfolding delete_messages
  delete_messages_batch t ts s h = ap (λ bs. delete_batches w bs s) (batch_loop_one 99 t ts h)

  -- With the bucket up, a deletion of up to 100 messages changes nothing but the rows that the
  -- batch forgets and the files.
  pub delete_messages_one :
      (t : Target) (ts : List Target) (s : Server)
      → length ts ≤ 99
      → (fs : List Object) × (delete_messages w (t ∷ ts) s
          ≡ (ok tt, record (forget_rows (t ∷ ts) s) { files = fs }))
  unfolding delete_batches
  delete_messages_one t ts s h =
      let (fs, e) = delete_batch_up (t ∷ ts) s in
      (
        fs,
        delete_messages_batch t ts s h
            ∙ >>-ok (delete_batch w (t ∷ ts)) (delete_batches w []) s _ e,
      )

-- A message that a deletion keeps is pending exactly when it was.
pub is_pending-forget_rows :
    (b : List Target) (s : Server) (id : Text)
    → not (listed b id) ≡ true
    → is_pending (forget_rows b s) id ≡ is_pending s id
unfolding forget_rows
is_pending-forget_rows b s id h =
    any-filter_implied (λ (d : Delivery). not (listed b d.message_id))
      (λ (d : Delivery). str_eq d.message_id id && is_none d.downloaded_at)
      (λ d e.
        subst (λ x. not (listed b x) ≡ true)
          (sym ((str_eq_iff d.message_id id).0 (and-true _ _ e).0)) h)
      s.deliveries

-- Deleting a batch that holds a delivered message makes the number of delivered messages fall.
count-is_delivered-forget_rows :
    (b : List Target) (s : Server) (group : Text)
    → any (λ (m : Message). is_delivered s group m && listed b m.id) s.messages ≡ true
    → count (is_delivered (forget_rows b s) group) (forget_rows b s).messages
      < count (is_delivered s group) s.messages
unfolding forget_rows
count-is_delivered-forget_rows b s group h =
    let kept : Message → Bool = λ m. not (listed b m.id) in
    let same =
      count-filter_congr (is_delivered (forget_rows b s) group) (is_delivered s group) kept
        (λ m e. ap (λ p. str_eq m.group_id group && not p) (is_pending-forget_rows b s m.id e))
        s.messages in
    let fewer =
      count-filter-lt (is_delivered s group) kept s.messages
        (any_mono _ _ (λ m e. ground arith) s.messages h) in
    omega (arith, same, fewer)

-- What a round's rows satisfy, some delivered message of the table satisfies.
any-oldest :
    (p q : Message → Bool) (xs : List Message)
    → any q (oldest p xs) ≡ true
    → any (λ x. p x && q x) xs ≡ true
any-oldest p q xs h =
    let ordered = any-take q delete_batch_size (order_by message_before (filter p xs)) h in
    sym (any-filter q p xs) ∙ (sym (any-order_by message_before q (filter p xs)) ∙ ordered)

-- A round that finds nothing leaves nothing to find.
oldest-eq-nil : (p : Message → Bool) (xs : List Message) → oldest p xs ≡ [] → any p xs ≡ false
oldest-eq-nil p xs e =
    let none_left = any_of_take_nil p 99 (order_by message_before (filter p xs)) e in
    let filtered = sym (any-order_by message_before p (filter p xs)) ∙ none_left in
    sym (any-filter_implied p p (λ a h. h) xs) ∙ filtered

listed_self : (m : Message) (ms : List Message) → listed (map target_of (m ∷ ms)) m.id ≡ true
listed_self m ms = ground (arith, str_eq_refl m.id)

-- A property of ids that no row of the batch has, no listed id has.
not_of_listed :
    (P : Text → Bool) (rows : List Message) (id : Text)
    → any (λ (m : Message). P m.id) rows ≡ false
    → listed (map target_of rows) id ≡ true
    → P id ≡ false
not_of_listed P [] id h k = cc
not_of_listed P (m ∷ ms) id h k = ground (arith, str_eq_iff m.id id, not_of_listed P ms id)

any_never :
    (q : Message → Bool) → ((m : Message) → q m ≡ false) → (xs : List Message) → any q xs ≡ false
any_never q h [] = refl
any_never q h (x ∷ xs) = ground (arith, h x, any_never q h xs)

length-oldest : (p : Message → Bool) (xs : List Message) → length (oldest p xs) ≤ 100
length-oldest p xs =
    let rows = order_by message_before (filter p xs) in omega (arith, length-take 100 rows)

-- The batch of a round holds no pending message.
oldest-pending :
    (s : Server) (group : Text)
    → any (λ (m : Message). is_pending s m.id) (oldest (is_delivered s group) s.messages) ≡ false
oldest-pending s group =
    let q : Message → Bool = λ m. is_pending s m.id in
    let rows = oldest (is_delivered s group) s.messages in
    elim (Bool-cases (any q rows)) [
      | inl e ↦
          let clash = any-oldest (is_delivered s group) q s.messages e in
          let nothing =
            any_never (λ m. is_delivered s group m && q m) (λ m. ground arith) s.messages in
          cc
      | inr e ↦ e
    ]

abbrev pub Purged : Text → Server → Result (Unit {0}) × Server → Type 0
Purged group s r =
    (r.0 ≡ ok tt)
    × (count (is_delivered r.1 group) r.1.messages ≡ 0)
    × (filter (λ (m : Message). is_pending r.1 m.id) r.1.messages
        ≡ filter (λ (m : Message). is_pending s m.id) s.messages)
    × (r.1.devices ≡ s.devices)

-- A deletion of delivered messages keeps the pending ones.
pending-forget_rows :
    (s : Server) (rows : List Message)
    → any (λ (m : Message). is_pending s m.id) rows ≡ false
    → filter
        (λ (m : Message). is_pending (forget_rows (map target_of rows) s) m.id)
        (forget_rows (map target_of rows) s).messages
      ≡ filter (λ (m : Message). is_pending s m.id) s.messages
unfolding forget_rows
pending-forget_rows s rows h =
    let b = map target_of rows in
    let kept : Message → Bool = λ m. not (listed b m.id) in
    let pending : Message → Bool = λ m. is_pending s m.id in
    filter-filter_congr (λ m. is_pending (forget_rows b s) m.id) pending kept
      (λ m e. is_pending-forget_rows b s m.id e) s.messages
    ∙ filter-filter_implied kept pending
        (λ m e. ground (arith, not_of_listed (is_pending s) rows m.id)) s.messages

module _ (w : World) (up : w.bucket_up ≡ true) (group : Text) where
  purge_round-Purged :
      (rest : Server → Result (Unit {0}) × Server) (fuel : ℕ)
      → ((t : Server) → count (is_delivered t group) t.messages < fuel → Purged group t (rest t))
      → (s : Server) (rows : List Message) → oldest (is_delivered s group) s.messages ≡ rows
      → count (is_delivered s group) s.messages < suc fuel
      → Purged group s (purge_round w rows rest s)
  unfolding purge_round forget_rows
  purge_round-Purged rest fuel ih s [] e h =
      (refl, count-eq-zero_of_any _ s.messages (oldest-eq-nil _ s.messages e), refl, refl)
  purge_round-Purged rest fuel ih s (m ∷ ms) e h =
      let rows : List Message = m ∷ ms in
      let short : length (map target_of ms) ≤ 99 = omega (
        arith,
        length-map ms target_of,
        ap length e,
        length-oldest (is_delivered s group) s.messages,
      ) in
      let (fs, deleted) = delete_messages_one w up (target_of m) (map target_of ms) s short in
      let t : Server = record (forget_rows (map target_of rows) s) { files = fs } in
      let quiet =
        subst (λ r. any (λ (x : Message). is_pending s x.id) r ≡ false) e
          (oldest-pending s group) in
      let found =
        any-oldest (is_delivered s group) (λ x. listed (map target_of rows) x.id) s.messages
          (subst (λ r. any (λ (x : Message). listed (map target_of rows) x.id) r ≡ true) (sym e)
            (ground (arith, listed_self m ms))) in
      let fewer = count-is_delivered-forget_rows (map target_of rows) s group found in
      let later = ih t (omega arith) in
      subst (Purged group s) (sym (>>-ok (delete_messages w (map target_of rows)) rest s t deleted))
        (later.0, later.1, later.2 ∙ pending-forget_rows s rows quiet, later.3)

  purge_delivered-Purged :
      (fuel : ℕ) (s : Server)
      → count (is_delivered s group) s.messages < fuel
      → Purged group s (purge_delivered w fuel group s)
  unfolding purge_delivered
  purge_delivered-Purged zero s h = absurd (omega arith)
  purge_delivered-Purged (suc fuel) s h =
      purge_round-Purged (purge_delivered w fuel group) fuel (purge_delivered-Purged fuel) s _ refl
        h

  -- With the bucket up, the purge of a space's delivered messages ends without an error, leaves no
  -- delivered message of the space, keeps every message with a pending delivery as it is, and
  -- touches no device.
  pub purge_delivered_messages-Purged :
      (s : Server) → Purged group s (purge_delivered_messages w group s)
  unfolding purge_delivered_messages
  purge_delivered_messages-Purged s =
      purge_delivered-Purged (suc (length s.messages)) s
        (omega (arith, count-le-length (is_delivered s group) s.messages))
