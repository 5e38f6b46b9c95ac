-- ===== src/Worker/Keys.antt =====
-- apps/worker/src/routes/keys.ts: rotating the space's key and adopting it. A rotation reads the
-- tables, and later runs one batch on what they are then: `check_rotation` and `rotate` are these.
pub mod Reach
pub mod Race
pub mod Examples
use sendself.Base.{
  ℕ, zero, suc, ◌+◌, Bool, true, false, ◌&&◌, ◌||◌, not, Option, none, some, List, [], ◌∷◌, ◌++◌,
  map, Text, str_eq, filter, any, is_none, ltb, leb, ◌==◌, if◌then◌else◌, update_where, length,
}
use sendself.Errors.{
  Result, ok, err, bad_request, conflict, internal, ◌>>=◌, ◌>>◌, refuse_if, or_fail,
}
use sendself.Http.{Value, require_int, require_id, require_string}
use sendself.Worker.Tables.{Server, World, Device, Group, KeyRow, is_active_in}
use sendself.Worker.Action.{Action, guarded, modify}
use sendself.Worker.Auth.{AuthContext, authenticate, rate_limit}
use sendself.Worker.Db.{active_devices}
use sendself.Worker.Messages.Request.{max_safe_integer}

-- An entry of `wraps` before and after its check.
pub record WrapBody : Type 0 where
  pub device_id : Value
  pub wrapped_key : Value
  pub ephemeral_public_key : Value

pub record KeyWrap : Type 0 where
  pub device_id : Text
  pub wrapped_key : Text
  pub ephemeral_public_key : Text

-- `wraps` is nothing where it is not an array.
pub record RotateKeyRequest : Type 0 where
  pub epoch : Value
  pub wraps : Option (List WrapBody)

-- `MAX_WRAPPED_KEY` is 2048.
parse_wrap : WrapBody → Result KeyWrap
parse_wrap b = do
  device_id ← require_id b.device_id
  wrapped_key ← require_string b.wrapped_key 2048
  ephemeral_public_key ← require_string b.ephemeral_public_key 2048
  ok (record {
    device_id = device_id;
    wrapped_key = wrapped_key;
    ephemeral_public_key = ephemeral_public_key;
  })

parse_wraps : List WrapBody → Result (List KeyWrap)
unfolding parse_wrap
parse_wraps [] = ok []
parse_wraps (b ∷ bs) = do wrap ← parse_wrap b; wraps ← parse_wraps bs; ok (wrap ∷ wraps)

-- `new Set(ids).size !== ids.length`
unfoldable pub has_duplicate : List Text → Bool
has_duplicate [] = false
has_duplicate (x ∷ xs) = any (str_eq x) xs || has_duplicate xs

abbrev pub wrapped_ids : List KeyWrap → List Text
wrapped_ids = map λ (k : KeyWrap). k.device_id

-- The active devices but the caller.
abbrev pub rotation_recipients : Server → AuthContext → List Text
rotation_recipients s auth =
    filter (λ id. not (str_eq id auth.device_id))
      (map (λ (d : Device). d.id) (active_devices s auth.group_id))

abbrev pub same_set : List Text → List Text → Bool
same_set wrapped recipients =
    length wrapped == length recipients
    && not (any (λ id. not (any (str_eq id) wrapped)) recipients)

-- What the batch is built from.
pub record Rotation : Type 0 where
  pub group_id : Text
  pub device_id : Text
  pub previous : ℕ
  pub wraps : List KeyWrap
  pub now : ℕ

abbrev pub group_epoch_is : Text → ℕ → List Group → Bool
group_epoch_is group epoch groups =
    any (λ (g : Group). str_eq g.id group && g.key_epoch == epoch) groups

abbrev pub same_key_row : Text → ℕ → Text → KeyRow → Bool
same_key_row group epoch device k =
    str_eq k.group_id group && k.epoch == epoch && str_eq k.device_id device

abbrev pub key_row : Rotation → KeyWrap → KeyRow
key_row r k = record {
  group_id = r.group_id;
  epoch = r.previous + 1;
  device_id = k.device_id;
  wrapped_key = k.wrapped_key;
  ephemeral_public_key = k.ephemeral_public_key;
  created_at = r.now;
}

-- The INSERTs, one for each wrap: guarded by the previous epoch and by the device's being active.
-- Nothing where a row is there already, which fails the batch.
pub insert_wraps : Rotation → Server → List KeyWrap → List KeyRow → Option (List KeyRow)
insert_wraps r s [] keys = some keys
insert_wraps r s (k ∷ ks) keys =
    let skip = insert_wraps r s ks keys in
    let insert = insert_wraps r s ks (keys ++ key_row r k ∷ []) in
    if group_epoch_is r.group_id r.previous s.groups
      && any (λ (d : Device). str_eq d.id k.device_id && is_active_in r.group_id d) s.devices
    then (if any (same_key_row r.group_id (r.previous + 1) k.device_id) keys then none else insert)
    else skip

-- The caller's own row.
abbrev pub is_rotating_device : Rotation → ℕ → Device → Bool
is_rotating_device r epoch d =
    str_eq d.id r.device_id && is_active_in r.group_id d && d.key_epoch == epoch

-- Every other active device has a wrapped key of the new epoch.
abbrev pub all_reached : Rotation → List Device → List KeyRow → Bool
all_reached r devices keys = not (
    any
      (λ (d : Device).
        is_active_in r.group_id d
        && not (str_eq d.id r.device_id)
        && not (any (same_key_row r.group_id (r.previous + 1) d.id) keys))
      devices)

abbrev pub swaps : Rotation → List Device → List KeyRow → Group → Bool
swaps r devices keys g =
    str_eq g.id r.group_id
    && g.key_epoch == r.previous
    && g.rotation_pending
    && any (is_rotating_device r (r.previous + 1)) devices
    && all_reached r devices keys

-- The UPDATE of the caller's row.
abbrev pub adopters : Rotation → List Device → List Device
adopters r =
    update_where (is_rotating_device r r.previous)
      (λ (d : Device). record d { key_epoch = r.previous + 1 })

-- The UPDATE of the group, the last statement.
abbrev pub swapped : Rotation → List Device → List KeyRow → List Group → List Group
swapped r devices keys =
    update_where (swaps r devices keys)
      (λ (g : Group). record g { key_epoch = r.previous + 1; rotation_pending = false })

-- What follows the INSERTs. An UPDATE that matches no row is no error of the batch: what the
-- statements before it wrote stays.
pub exchange : Rotation → List KeyRow → Action (Unit {0})
exchange r keys s = (
  if any (swaps r (adopters r s.devices) keys) s.groups then ok tt else err conflict,
  record s {
    keys = keys;
    devices = adopters r s.devices;
    groups = swapped r (adopters r s.devices) keys s.groups;
  },
)

-- The batch over the tables as they are when it runs.
pub rotate : Rotation → Action (Unit {0})
unfolding insert_wraps exchange
rotate r s = elim (insert_wraps r s r.wraps s.keys) [
  | none ↦ (err internal, s)
  | some keys ↦ exchange r keys s
]

module _ (w : World) where
  pub check_rotation : Text → RotateKeyRequest → Server → Result Rotation
  unfolding parse_wraps has_duplicate
  check_rotation header body s = do
    auth ← authenticate w s header
    rate_limit w
    refuse_if (not auth.rotation_pending) conflict
    refuse_if (not (auth.key_epoch == auth.group_key_epoch)) conflict
    epoch ← require_int body.epoch 1 max_safe_integer
    refuse_if (not (epoch == auth.group_key_epoch + 1)) conflict
    bodies ← or_fail body.wraps bad_request
    wraps ← parse_wraps bodies
    refuse_if (has_duplicate (wrapped_ids wraps)) bad_request
    refuse_if (not (same_set (wrapped_ids wraps) (rotation_recipients s auth))) conflict
    ok (record {
      group_id = auth.group_id;
      device_id = auth.device_id;
      previous = auth.group_key_epoch;
      wraps = wraps;
      now = w.now;
    })

  -- The handler where nothing else runs between its reads and its batch.
  pub rotate_key : Text → RotateKeyRequest → Action (Unit {0})
  unfolding check_rotation rotate
  rotate_key header body s = guarded (check_rotation header body s) rotate s

  -- `Number(c.params.epoch)` is nothing where it is not an integer of at least 1.
  check_ack_key : Text → Option ℕ → Server → Result (AuthContext × ℕ)
  check_ack_key header param s = do
    auth ← authenticate w s header
    epoch ← or_fail param bad_request
    refuse_if (ltb epoch 1) bad_request
    refuse_if (ltb auth.group_key_epoch epoch) bad_request
    ok (auth, epoch)

  -- The batch of `ackKey`: the epoch is adopted and its wrapped keys dropped.
  pub adopt_epoch : Text → Text → ℕ → Server → Server
  adopt_epoch group device epoch s = record s {
    devices =
        update_where (λ (d : Device). str_eq d.id device && ltb d.key_epoch epoch)
          (λ (d : Device). record d { key_epoch = epoch }) s.devices;
    keys =
        filter
          (λ (k : KeyRow).
            not (str_eq k.device_id device && str_eq k.group_id group && leb k.epoch epoch))
          s.keys;
  }

  pub ack_key : Text → Option ℕ → Action (Unit {0})
  unfolding check_ack_key adopt_epoch
  ack_key header param s =
      guarded (check_ack_key header param s)
        (λ (auth, epoch). modify (adopt_epoch auth.group_id auth.device_id epoch)) s
