-- ===== src/Shared/Tests.antt =====
-- Operation keys of a retry.
use autopilot_console.Prelude.{◌≡◌, refl, some, none}
use autopilot_console.Shared.OperationKey.{
  KeyParts, codes, key_segments, create_operation_key, assign, read_segments, parse_segments,
  parse_operation_key,
}
use autopilot_console.Shared.OperationKey.RoundTrip.{
  IsPlain, NoColon-of, parse_operation_key-create,
}

abbrev parts : KeyParts
parts = record {
  operation = codes "retry";
  project_id = codes "p1";
  feature_id = some (codes "f=2");
  job_attempt_id = none;
  checksum = none;
  subject = some (codes "x");
}

parts-IsPlain : IsPlain parts
parts-IsPlain = record {
  operation = NoColon-of (codes "retry") refl;
  project_id = NoColon-of (codes "p1") refl;
  feature_id = NoColon-of (codes "f=2") refl;
  job_attempt_id = tt;
  checksum = tt;
  subject = NoColon-of (codes "x") refl;
  has_operation = λ e. cc;
  has_project = λ e. cc;
}

parse_operation_key-create_example : parse_operation_key (create_operation_key parts) ≡ some parts
parse_operation_key-create_example = parse_operation_key-create parts parts-IsPlain

-- A subject with a `:` is cut there.
cut_subject :
    parse_operation_key (create_operation_key (record parts { subject = some (codes "a:b") }))
    ≡ some (record parts { subject = some (codes "a") })
unfolding parse_operation_key create_operation_key key_segments assign read_segments parse_segments
cut_subject = refl
