-- ===== src/Worker/Pairing/Slot/Reservation.antt =====
-- A pairing slot of apps/worker/src/routes/pairing.ts belongs to the device that came first.
use sendself.Base.{
  ℕ, ◌≡◌, refl, sym, ap, ◌∙◌, subst, inl, inr, Bool, true, false, Option, none, some, List, [], ◌∷◌,
  ◌++◌, arith, Text, str_eq, str_eq_refl, str_eq_iff, opt_eq_sound, find, if◌then◌else◌, Bool-cases,
  Option-cases,
}
use sendself.Errors.{Result, ok, err, conflict}
use sendself.Worker.Tables.{Server, Slot, SlotDevice}
use sendself.Worker.Pairing.Slot.{
  same_bool, same_device, slot_of, device_of, holds_device, new_slot, reserve_slot,
}

same_bool-eq : (a b : Bool) → same_bool a b ≡ true → a ≡ b
same_bool-eq true true h = refl
same_bool-eq true false h = cc
same_bool-eq false true h = cc
same_bool-eq false false h = refl

same_device_sound : (a b : SlotDevice) → same_device a b ≡ true → a ≡ b
same_device_sound a b h i = record {
  id = ids i;
  public_key = keys i;
  signing_public_key = signing_keys i;
  send_only = modes i;
  invite = invites i;
}
  where
    ids : a.id ≡ b.id
    ids = (str_eq_iff _ _).0 (ground arith)

    keys : a.public_key ≡ b.public_key
    keys = (str_eq_iff _ _).0 (ground arith)

    signing_keys : a.signing_public_key ≡ b.signing_public_key
    signing_keys = opt_eq_sound _ _ (ground arith)

    modes : a.send_only ≡ b.send_only
    modes = same_bool-eq _ _ (ground arith)

    invites : a.invite ≡ b.invite
    invites = opt_eq_sound _ _ (ground arith)

find-append_none :
    {A : Type 0} (p : A → Bool) (xs : List A) (a : A)
    → find p xs ≡ none
    → p a ≡ true
    → find p (xs ++ a ∷ []) ≡ some a
find-append_none p [] a e h = rw h refl
find-append_none p (x ∷ xs) a e h = elim (Bool-cases (p x)) [
  | inl k ↦ cc (rw k at e)
  | inr k ↦ rw k (find-append_none p xs a (rw k at e) h)
]

module _ (id : Text) (d : SlotDevice) (now : ℕ) where
  holds : (o : Option SlotDevice) → holds_device d o ≡ true → o ≡ some d
  holds none h = cc
  holds (some e) h = ap some (same_device_sound e d h)

  -- A reservation that succeeds has the slot hold the device.
  reserve_slot-device_of :
      (s t : Server) → reserve_slot id d now s ≡ (ok tt, t) → device_of (slot_of t id) ≡ some d
  unfolding reserve_slot
  reserve_slot-device_of s t h = elim (Option-cases (slot_of s id)) [
    | inl e ↦
        let same : record s { slots = s.slots ++ new_slot id d now ∷ [] } ≡ t =
          ap (λ (r : Result (Unit {0}) × Server). r.1) (rw (e, reserve_slot) at h) in
        subst (λ (x : Server). device_of (slot_of x id) ≡ some d) same
          (ap device_of (
            find-append_none (λ (p : Slot). str_eq p.pairing_id id) s.slots (new_slot id d now) e
              (str_eq_refl id)))
    | inr (p, e) ↦ elim (Bool-cases (holds_device d (device_of (some p)))) [
      | inl k ↦
          let same : s ≡ t =
            ap (λ (r : Result (Unit {0}) × Server). r.1) (rw (e, k, reserve_slot) at h) in
          subst (λ (x : Server). device_of (slot_of x id) ≡ some d) same
            (ap device_of e ∙ holds (device_of (some p)) k)
      | inr k ↦ cc (rw (e, k, reserve_slot) at h)
    ]
  ]

  -- A device whose reservation succeeded keeps the slot: a later request for it is answered as a
  -- success where it describes that same device and refused as a conflict otherwise, and neither
  -- changes anything.
  pub reserve_slot-first :
      (s t : Server) (other : SlotDevice) (later : ℕ)
      → reserve_slot id d now s ≡ (ok tt, t)
      → reserve_slot id other later t ≡ (if same_device d other then ok tt else err conflict, t)
  unfolding reserve_slot
  reserve_slot-first s t other later h = elim (Option-cases (slot_of t id)) [
    | inl e ↦ cc (ap device_of e, reserve_slot-device_of s t h)
    | inr (p, e) ↦
        let held : device_of (some p) ≡ some d =
          sym (ap device_of e) ∙ reserve_slot-device_of s t h in
        elim (Bool-cases (same_device d other)) [
          | inl k ↦ rw (e, held, k, reserve_slot) refl
          | inr k ↦ rw (e, held, k, reserve_slot) refl
        ]
  ]
