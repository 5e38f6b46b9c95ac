-- ===== src/Worker/Space/Naming.antt =====
-- A space's name as apps/worker/src/routes/space.ts writes it and reads it back.
use sendself.Base.{
  ◌≡◌, refl, ap, ◌∙◌, subst, inl, inr, not, some, List, [], ◌∷◌, arith, Text, str_eq, is_some, find,
  update_where, ◌==◌, Bool-cases,
}
use sendself.Errors.{ok, bad_request, key_rotated, when_bound, when_passed, ok_inj}
use sendself.Http.{optional_string, require_int}
use sendself.Worker.Tables.{Server, World, Group, SpaceName, group_of}
use sendself.Worker.Auth.{AuthContext, authenticate, rate_limit}
use sendself.Worker.Auth.Access.{authenticate-IsDeviceOf}
use sendself.Worker.Messages.{space_name_record}
use sendself.Worker.Messages.Request.{max_safe_integer}
use sendself.Worker.Space.{
  UpdateSpaceNameRequest, is_half, check_space_name, set_space_name, update_space_name,
}

-- A name that the server takes: a ciphertext with its IV or neither, under the space's key, from one
-- of the space's devices.
pub record IsName (w : World) (s : Server) (header : Text) (auth : AuthContext) (name : SpaceName)
    : Type 0 where
  pub authentic : authenticate w s header ≡ ok auth
  pub whole : is_some name.encrypted_name ≡ is_some name.name_iv
  pub current : name.name_key_epoch ≡ auth.group_key_epoch
  pub timed : name.updated_at ≡ w.now

module _ (w : World) (header : Text) (body : UpdateSpaceNameRequest) (s : Server)
    (auth : AuthContext) (name : SpaceName) where
  check_space_name-IsName :
      check_space_name w header body s ≡ ok (auth, name) → IsName w s header auth name
  unfolding check_space_name
  check_space_name-IsName h = when_bound (authenticate w s header) h λ a e₁ h₁.
      when_bound (rate_limit w) h₁ λ _ _ h₂.
        when_bound (optional_string body.encrypted_name 1024) h₂ λ n _ h₃.
          when_bound (optional_string body.name_iv 128) h₃ λ iv _ h₄.
            when_bound (require_int body.name_key_epoch 1 max_safe_integer) h₄ λ epoch _ h₅.
              when_passed (is_half n iv) bad_request h₅ λ e₂ h₆.
                when_passed (not (epoch == a.group_key_epoch)) key_rotated h₆ λ e₃ h₇.
                  subst (λ (x : AuthContext × SpaceName). IsName w s header x.0 x.1) (ok_inj h₇)
                    (record {
                      authentic = e₁;
                      whole = ground arith;
                      current = ground arith;
                      timed = refl;
                    })

  named :
      (group : Text) (g : Group) (gs : List Group)
      → find (λ (x : Group). str_eq x.id group) gs ≡ some g
      → find
          (λ (x : Group). str_eq x.id group)
          (update_where
            (λ (x : Group). str_eq x.id group)
            (λ (x : Group). record x { space_name = some name })
            gs)
        ≡ some (record g { space_name = some name })
  named group g [] e = cc
  named group g (x ∷ xs) e = elim (Bool-cases (str_eq x.id group)) [
    | inl k ↦
        let same : x ≡ g = cc (rw k at e) in
        rw (k, k) (ap (λ (y : Group). some (record y { space_name = some name })) same)
    | inr k ↦ rw (k, k) (named group g xs (rw k at e))
  ]

  read_back :
      (t : Server) (group : Text) (g : Group)
      → group_of t group ≡ some (record g { space_name = some name })
      → space_name_record t group ≡ some name
  unfolding space_name_record
  read_back t group g e = rw (e, space_name_record) refl

  -- A name that is let through is whole or cleared, under the space's current key and of the time
  -- of the request, and on the tables that the request leaves it is the name that the space's
  -- devices read.
  pub update_space_name-record :
      check_space_name w header body s ≡ ok (auth, name)
      → IsName w s header auth name
        × (space_name_record (update_space_name w header body s).1 auth.group_id ≡ some name)
  unfolding update_space_name set_space_name
  update_space_name-record h =
      let taken = check_space_name-IsName h in
      let k = authenticate-IsDeviceOf w s header auth taken.authentic in
      let there : group_of s auth.group_id ≡ some k.group =
        ap (group_of s) k.same_group ∙ k.grouped in
      (
        taken,
        rw (h, update_space_name)
            (read_back (set_space_name auth.group_id name s) auth.group_id k.group
              (named auth.group_id k.group s.groups there)),
      )
