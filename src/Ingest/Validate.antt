-- ===== src/Ingest/Validate.antt =====
-- ingest/handler.go: the checks of a decoded payload. `none` is a payload that passes.
pub mod Identity
use yukon_collector.Base.{
  ◌≡◌, Bool, ◌||◌, Option, none, some, Bytes, codes, bytes_eq, is_empty, if◌then◌else◌, ℤ, pos,
  lt_int, le_int,
}
use yukon_collector.Text.Space.{trim_space}
use yukon_collector.Payload.{Resource, DeltaBatch, ProbeManifest, StaticBaseline}

pub data Invalid : Type 0 where
  missing_resource service_name_empty service_name_dots service_namespace_dots : Invalid
  service_instance_id_empty run_id_empty : Invalid
  scanned_at_unset chunk_count_low chunk_index_negative chunk_index_out_of_range : Invalid

unfoldable pub is_dot_segment : Bytes → Bool
is_dot_segment v = bytes_eq v (codes ".") || bytes_eq v (codes "..")

unfoldable pub validate_resource : Option Resource → Option Invalid
validate_resource none = some missing_resource
validate_resource (some res) =
    if is_empty (trim_space res.service_name)
    then some service_name_empty
    else if is_dot_segment (trim_space res.service_name)
    then some service_name_dots
    else if is_dot_segment (trim_space res.service_namespace)
    then some service_namespace_dots
    else if is_empty res.service_instance_id
    then some service_instance_id_empty
    else if is_empty res.run_id
    then some run_id_empty
    else none

unfoldable pub validate_delta_batch : DeltaBatch → Option Invalid
validate_delta_batch batch = validate_resource batch.resource

unfoldable pub validate_manifest : ProbeManifest → Option Invalid
validate_manifest manifest = validate_resource manifest.resource

check_chunks : ℤ → ℤ → ℤ → Option Invalid
check_chunks scanned_at count index =
    if le_int scanned_at (pos 0)
    then some scanned_at_unset
    else if lt_int count (pos 1)
    then some chunk_count_low
    else if lt_int index (pos 0)
    then some chunk_index_negative
    else if le_int count index
    then some chunk_index_out_of_range
    else none

or_else : Option Invalid → Option Invalid → Option Invalid
or_else (some e) next = some e
or_else none next = next

unfoldable pub validate_static_baseline : StaticBaseline → Option Invalid
unfolding check_chunks or_else
validate_static_baseline b =
    or_else (validate_resource b.resource) (check_chunks b.scanned_at b.chunk_count b.chunk_index)
