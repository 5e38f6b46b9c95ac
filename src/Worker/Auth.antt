-- ===== src/Worker/Auth.antt =====
-- apps/worker/src/auth.ts and `rateLimit` of apps/worker/src/security.ts: who a request comes from,
-- and what its role allows.
pub mod Access
use sendself.Base.{
  ℕ, Bool, true, false, ◌&&◌, ◌||◌, not, Option, none, some, List, [], ◌∷◌, ◌++◌, Text, txt, str_eq,
  find, is_some, leb, ◌==◌, if◌then◌else◌, any,
}
use sendself.Errors.{
  Result, ok, err, unauthorized, device_revoked, forbidden, rate_limited, ◌>>=◌, ◌>>◌, refuse_if,
  or_fail,
}
use sendself.Worker.Tables.{
  Server, World, Device, Group, DeviceRole, owner, admin, member, group_of,
}

pub record AuthContext : Type 0 where
  pub group_id : Text
  pub device_id : Text
  pub role : DeviceRole
  pub key_epoch : ℕ
  pub group_key_epoch : ℕ
  pub rotation_pending : Bool
  pub has_signing_key : Bool
  pub vault_seq : ℕ

-- `\s` and what `trim` removes.
unfoldable pub is_space : ℕ → Bool
is_space c =
    (leb 9 c && leb c 13)
    || c == 32
    || c == 0xa0
    || c == 0x1680
    || (leb 0x2000 c && leb c 0x200a)
    || c == 0x2028
    || c == 0x2029
    || c == 0x202f
    || c == 0x205f
    || c == 0x3000
    || c == 0xfeff

-- What `.` of a regular expression does not match.
unfoldable pub is_line_end : ℕ → Bool
is_line_end c = c == 10 || c == 13 || c == 0x2028 || c == 0x2029

unfoldable pub trim_start : Text → Text
unfolding is_space
trim_start [] = []
trim_start (c ∷ cs) = let rest = trim_start cs in if is_space c then rest else c ∷ cs

unfoldable pub trim_end : Text → Text
unfolding is_space
trim_end [] = []
trim_end (c ∷ cs) = elim (trim_end cs) [
  | [] ↦ if is_space c then [] else c ∷ []
  | d ∷ ds ↦ c ∷ d ∷ ds
]

unfoldable pub strip_prefix : Text → Text → Option Text
strip_prefix [] t = some t
strip_prefix (p ∷ ps) [] = none
strip_prefix (p ∷ ps) (c ∷ cs) = let rest = strip_prefix ps cs in if p == c then rest else none

-- The last of a run of white space that has nothing behind it is what `(.+)` takes.
unfoldable pub last_matches : Text → Bool
unfolding is_line_end
last_matches [] = false
last_matches (c ∷ []) = not (is_line_end c)
last_matches (c ∷ d ∷ ds) = last_matches (d ∷ ds)

-- `/^Bearer\s+(.+)$/`, and `match[1].trim()`.
unfoldable pub bearer : Text → Option Text
unfolding is_space is_line_end trim_start trim_end strip_prefix last_matches
bearer header = elim (strip_prefix (txt "Bearer") header) [
  | none ↦ none
  | some [] ↦ none
  | some (c ∷ cs) ↦
      if is_space c
      then elim (trim_start cs) [
        | [] ↦ if last_matches cs then some [] else none
        | d ∷ ds ↦ if any is_line_end (d ∷ ds) then none else some (trim_end (d ∷ ds))
      ]
      else none
]

module _ (w : World) where
  -- The join keeps a device only with its group. `auth_token_hash` is unique.
  unfoldable pub authenticate : Server → Text → Result AuthContext
  unfolding bearer
  authenticate s header = do
    token ← or_fail (bearer header) unauthorized
    d ←
        or_fail (find (λ (d : Device). str_eq d.auth_token_hash (w.sha256_hex token)) s.devices)
          unauthorized
    g ← or_fail (group_of s d.group_id) unauthorized
    refuse_if (is_some d.revoked_at) device_revoked
    ok (record {
      group_id = d.group_id;
      device_id = d.id;
      role = d.role;
      key_epoch = d.key_epoch;
      group_key_epoch = g.key_epoch;
      rotation_pending = g.rotation_pending;
      has_signing_key = is_some d.signing_public_key;
      vault_seq = g.vault_seq;
    })

  unfoldable pub rate_limit : Result (Unit {0})
  rate_limit = refuse_if (not w.within_limit) rate_limited

abbrev pub is_owner : DeviceRole → Bool
is_owner owner = true
is_owner _ = false

abbrev pub is_admin : DeviceRole → Bool
is_admin admin = true
is_admin _ = false

unfoldable pub require_admin : AuthContext → Result (Unit {0})
require_admin auth = refuse_if (not (is_owner auth.role) && not (is_admin auth.role)) forbidden

unfoldable pub require_owner : AuthContext → Result (Unit {0})
require_owner auth = refuse_if (not (is_owner auth.role)) forbidden
