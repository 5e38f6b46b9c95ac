-- ===== src/Worker/Spaces/Founding.antt =====
-- The device that founds a space is its owner, and its token is what it comes in with.
use sendself.Base.{
  Bool, true, false, ◌≡◌, refl, ap, subst, inl, inr, some, List, [], ◌∷◌, ◌++◌, Text, str_eq,
  str_eq_refl, any, find, is_some, Bool-cases, arith,
}
use sendself.Errors.{Result, ok, conflict, ok_inj, when_bound, when_passed}
use sendself.Worker.Tables.{Server, World, Group, Device, owner, group_of}
use sendself.Worker.Auth.{AuthContext, authenticate, bearer, rate_limit}
use sendself.Worker.Spaces.{
  Challenge, CreateGroupRequest, NewSpace, founded_group, founding_device, clashes, insert_space,
  check_new_space, create_group, verify_space_challenge, parse_new_space,
}

find_last {ℓ} :
    {A : Type ℓ} (p : A → Bool) (xs : List A) (a : A)
    → any p xs ≡ false
    → p a ≡ true
    → find p (xs ++ a ∷ []) ≡ some a
find_last p [] a h k = rw k refl
find_last p (x ∷ xs) a h k = elim (Bool-cases (p x)) [
  | inl e ↦ cc (rw e at h)
  | inr e ↦ rw e (find_last p xs a (rw e at h) k)
]

no_clash :
    (n : NewSpace) (ds : List Device)
    → any (clashes n) ds ≡ false
    → any (λ (d : Device). str_eq d.auth_token_hash n.token_hash) ds ≡ false
no_clash n [] h = refl
no_clash n (d ∷ ds) h = ground (arith, no_clash n ds, h)

-- A request that is let through names a space that is not there yet.
check_new_space-free :
    (w : World) (c : Challenge) (body : CreateGroupRequest) (s : Server) (n : NewSpace)
    → check_new_space w c body s ≡ ok n
    → any (λ (g : Group). str_eq g.id n.group_id) s.groups ≡ false
unfolding check_new_space
check_new_space-free w c body s n h = when_bound (rate_limit w) h λ _ _ h.
    when_bound (parse_new_space body) h λ m _ h.
      when_bound (verify_space_challenge c body.challenge_token) h λ _ _ h.
        when_passed (is_some (group_of s m.group_id)) conflict h λ q h.
          subst (λ (k : NewSpace). any (λ (g : Group). str_eq g.id k.group_id) s.groups ≡ false)
            (ok_inj h) (absent m s.groups q)
  where
    absent :
        (m : NewSpace) (gs : List Group)
        → is_some (find (λ (g : Group). str_eq g.id m.group_id) gs) ≡ false
        → any (λ (g : Group). str_eq g.id m.group_id) gs ≡ false
    absent m [] q = refl
    absent m (g ∷ gs) q = ground (arith, absent m gs, q)

-- The context of the first device's requests.
abbrev pub founder : NewSpace → AuthContext
founder n = record {
  group_id = n.group_id;
  device_id = n.device_id;
  role = owner;
  key_epoch = 1;
  group_key_epoch = 1;
  rotation_pending = false;
  has_signing_key = is_some n.signing_public_key;
  vault_seq = 0;
}

abbrev founded : World → NewSpace → Server → Server
founded w n s = record s {
  groups = s.groups ++ founded_group w.now n ∷ [];
  devices = s.devices ++ founding_device w.now n ∷ [];
}

founded-authenticate :
    (w : World) (s : Server) (n : NewSpace) (header token : Text)
    → any (λ (g : Group). str_eq g.id n.group_id) s.groups ≡ false
    → any (λ (d : Device). str_eq d.auth_token_hash n.token_hash) s.devices ≡ false
    → bearer header ≡ some token
    → w.sha256_hex token ≡ n.token_hash
    → authenticate w (founded w n s) header ≡ ok (founder n)
unfolding authenticate
founded-authenticate w s n header token free unused b e =
    let device =
      find_last (λ (d : Device). str_eq d.auth_token_hash n.token_hash) s.devices
        (founding_device w.now n) unused (str_eq_refl n.token_hash) in
    let group =
      find_last (λ (g : Group). str_eq g.id n.group_id) s.groups (founded_group w.now n) free
        (str_eq_refl n.group_id) in
    rw (b, e, device, group) refl

-- A space that was created lets its first device in: the request that carries the token whose hash was
-- sent is its owner's, in the new space, at the first epoch.
pub create_group-authenticate :
    (w : World) (c : Challenge) (body : CreateGroupRequest) (s t : Server) (n : NewSpace)
    (header token : Text)
    → check_new_space w c body s ≡ ok n
    → create_group w c body s ≡ (ok tt, t)
    → bearer header ≡ some token
    → w.sha256_hex token ≡ n.token_hash
    → authenticate w t header ≡ ok (founder n)
unfolding create_group insert_space
create_group-authenticate w c body s t n header token h k b e =
    elim (Bool-cases (any (clashes n) s.devices)) [
      | inl q ↦ cc (rw (h, q) at k)
      | inr q ↦
          subst (λ u. authenticate w u header ≡ ok (founder n))
            (ap (λ (r : Result (Unit {0}) × Server). r.1) (rw (h, q) at k))
            (founded-authenticate w s n header token (check_new_space-free w c body s n h)
              (no_clash n s.devices q) b e)
    ]
