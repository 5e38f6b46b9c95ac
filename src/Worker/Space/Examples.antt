-- ===== src/Worker/Space/Examples.antt =====
-- The theorem on names at a concrete input.
use sendself.Base.{◌≡◌, refl, some, txt, str_eq}
use sendself.Http.{nat, str, require_string, optional_string, require_int}
use sendself.Worker.Tables.{SpaceName}
use sendself.Worker.Auth.{
  authenticate, rate_limit, bearer, is_space, is_line_end, trim_start, trim_end, strip_prefix,
  last_matches,
}
use sendself.Worker.Messages.{space_name_record}
use sendself.Worker.Space.{UpdateSpaceNameRequest, check_space_name, update_space_name}
use sendself.Worker.Space.Naming.{IsName, update_space_name-record}
use sendself.Worker.Sample.{sample_world, sample_server, sample_auth, owner_header}

abbrev sample_rename : UpdateSpaceNameRequest
sample_rename = record {
  encrypted_name = str (txt "n");
  name_iv = str (txt "i");
  name_key_epoch = nat 1;
}

abbrev sample_name : SpaceName
sample_name = record {
  encrypted_name = some (txt "n");
  name_iv = some (txt "i");
  name_key_epoch = 1;
  updated_at = 1000;
}

update_space_name-record_example :
    IsName sample_world sample_server owner_header sample_auth sample_name
    × (space_name_record
          (update_space_name sample_world owner_header sample_rename sample_server).1
          (txt "g")
        ≡ some sample_name)
unfolding check_space_name require_string optional_string require_int authenticate rate_limit bearer
    is_space is_line_end trim_start trim_end strip_prefix last_matches str_eq
update_space_name-record_example =
    update_space_name-record sample_world owner_header sample_rename sample_server sample_auth
      sample_name refl
