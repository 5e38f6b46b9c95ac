-- ===== src/Worker/Space.antt =====
-- apps/worker/src/routes/space.ts: the name that every device of a space calls it by. `updateSpaceName`
-- writes it; its reading, `space_name_record`, is beside the poll that it is a part of.
pub mod Naming
pub mod Examples
use sendself.Base.{
  ℕ, Bool, true, false, ◌&&◌, ◌||◌, not, Option, none, some, List, [], ◌∷◌, Text, str_eq, is_some,
  is_none, ◌==◌, update_where,
}
use sendself.Errors.{Result, ok, err, bad_request, key_rotated, ◌>>=◌, ◌>>◌, refuse_if}
use sendself.Http.{Value, optional_string, require_int}
use sendself.Worker.Tables.{Server, World, Group, SpaceName}
use sendself.Worker.Action.{Action, guarded}
use sendself.Worker.Auth.{AuthContext, authenticate, rate_limit}
use sendself.Worker.Messages.Request.{max_safe_integer}

pub record UpdateSpaceNameRequest : Type 0 where
  pub encrypted_name : Value
  pub name_iv : Value
  pub name_key_epoch : Value

-- `Boolean(encryptedName) !== Boolean(nameIv)`
abbrev pub is_half : Option Text → Option Text → Bool
is_half name iv = (is_some name && is_none iv) || (is_none name && is_some iv)

-- The UPDATE.
pub set_space_name : Text → SpaceName → Server → Server
set_space_name group name s = record s {
  groups =
      update_where (λ (g : Group). str_eq g.id group)
        (λ (g : Group). record g { space_name = some name }) s.groups;
}

module _ (w : World) where
  pub check_space_name : Text → UpdateSpaceNameRequest → Server → Result (AuthContext × SpaceName)
  check_space_name header body s = do
    auth ← authenticate w s header
    rate_limit w
    encrypted_name ← optional_string body.encrypted_name 1024
    name_iv ← optional_string body.name_iv 128
    name_key_epoch ← require_int body.name_key_epoch 1 max_safe_integer
    refuse_if (is_half encrypted_name name_iv) bad_request
    refuse_if (not (name_key_epoch == auth.group_key_epoch)) key_rotated
    ok (
      auth,
      record {
        encrypted_name = encrypted_name;
        name_iv = name_iv;
        name_key_epoch = name_key_epoch;
        updated_at = w.now;
      },
    )

  -- The answer is the time of the change.
  pub update_space_name : Text → UpdateSpaceNameRequest → Action ℕ
  unfolding check_space_name set_space_name
  update_space_name header body s =
      guarded (check_space_name header body s)
        (λ (auth, name) t. (ok w.now, set_space_name auth.group_id name t)) s
