-- ===== src/Worker/Spaces/Examples.antt =====
-- The theorem on a new space, at an empty server.
use sendself.Base.{true, false, none, some, [], ◌∷◌, ◌≡◌, refl, Text, txt, str_eq}
use sendself.Errors.{ok}
use sendself.Http.{
  undefined, str, require_id, require_string, optional_string, require_sha256_hex, is_id_char,
  is_lower_hex,
}
use sendself.Worker.Tables.{Server, World}
use sendself.Worker.Auth.{
  authenticate, bearer, rate_limit, is_space, is_line_end, trim_start, trim_end, strip_prefix,
  last_matches,
}
use sendself.Worker.Attestation.{absent, optional_attestation}
use sendself.Worker.Spaces.{
  Challenge, CreateGroupRequest, NewSpace, unavailable, check_new_space, create_group, insert_space,
  parse_new_space, parse_device, verify_space_challenge, founded_group, founding_device,
}
use sendself.Worker.Spaces.Founding.{create_group-authenticate, founder}

abbrev digest : Text
digest = txt "0123456789abcdef0123456789abcdef0123456789abcdef0123456789abcdef"

-- A world in which every token has the same hash.
abbrev small_world : World
small_world = record { now = 1000; sha256_hex = λ t. digest; within_limit = true; bucket_up = true }

abbrev empty_server : Server
empty_server = record {
  groups = [];
  devices = [];
  messages = [];
  deliveries = [];
  keys = [];
  slots = [];
  uploads = [];
  files = [];
  pushes = [];
}

abbrev no_challenge : Challenge
no_challenge = record { is_configured = false; verify = λ t. unavailable }

abbrev founding_body : CreateGroupRequest
founding_body = record {
  group_id = str (txt "g");
  device_auth_token_hash = str digest;
  device =
      some (record {
        id = str (txt "d");
        public_key = str (txt "key");
        signing_public_key = undefined;
      });
  encrypted_name = str (txt "name");
  name_iv = str (txt "iv");
  attestation = absent;
  challenge_token = undefined;
}

abbrev founding_space : NewSpace
founding_space = record {
  group_id = txt "g";
  token_hash = digest;
  device_id = txt "d";
  public_key = txt "key";
  signing_public_key = none;
  name_enc = txt "name";
  name_iv = txt "iv";
  attestation = none;
}

abbrev founded_server : Server
founded_server = record empty_server {
  groups = founded_group 1000 founding_space ∷ [];
  devices = founding_device 1000 founding_space ∷ [];
}

create_group-authenticate_example :
    authenticate small_world founded_server (txt "Bearer t") ≡ ok (founder founding_space)
unfolding create_group check_new_space insert_space parse_new_space parse_device
    verify_space_challenge rate_limit require_id require_string optional_string require_sha256_hex
    is_id_char str_eq bearer is_space is_line_end trim_start trim_end strip_prefix last_matches
    optional_attestation is_lower_hex
create_group-authenticate_example =
    create_group-authenticate small_world no_challenge founding_body empty_server founded_server
      founding_space (txt "Bearer t") (txt "t") refl refl refl refl
