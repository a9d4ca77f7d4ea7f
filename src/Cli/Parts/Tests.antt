-- ===== src/Cli/Parts/Tests.antt =====
-- Runs of `crates/blobyard-cli/src/runner/transfers/{upload_math,resume}.rs` on a file of three
-- parts.
use blobyard_core.Sqlite.Transfers.Multipart.{expected_part_size}
use blobyard_core.Cli.Parts.{
  min_part_size, total_parts, part_range, ResumeState, is_completed, one_to, pending, put_etag,
  record_etag, completed_bytes, new_state,
}
use blobyard_core.Cli.Parts.Tiling.{Tiles, total_parts-Tiles, expected_part_size-part_range}
use blobyard_core.Cli.Parts.Progress.{IsWithin, sum_parts, part_length, completed_bytes-pending}
use blobyard_core.Base.{ℕ, ◌+◌, ◌≡◌, refl, [], ◌∷◌, arith, lit, ok}

abbrev part_size : ℕ
part_size = min_part_size

abbrev size : ℕ
size = min_part_size + min_part_size + 5

three : total_parts size part_size ≡ ok 3
unfolding total_parts
three = refl

abbrev halfway : ResumeState
halfway = record {
  upload_id = lit "upload";
  source_fingerprint = lit "fingerprint";
  part_size_bytes = part_size;
  completed_etags = (1, lit "one") ∷ (3, lit "three") ∷ [];
}

recorded :
    record_etag 1
      (lit "one")
      (record_etag 3 (lit "three") (new_state (lit "upload") (lit "fingerprint") part_size))
    ≡ halfway
unfolding record_etag put_etag
recorded = refl

left : pending 3 halfway ≡ 2 ∷ []
unfolding pending one_to is_completed
left = refl

halfway-IsWithin : IsWithin 3 halfway.completed_etags
unfolding is_completed
halfway-IsWithin = (omega arith, omega arith, refl, (omega arith, omega arith, refl, tt))

total_parts-Tiles_example : Tiles size part_size 3
total_parts-Tiles_example = total_parts-Tiles size part_size 3 three

expected_part_size-part_range_example :
    expected_part_size size 3 part_size ≡ (part_range 3 part_size size).1
expected_part_size-part_range_example =
    expected_part_size-part_range size part_size 3 3 (omega arith) three (omega arith) (omega arith)

completed_bytes-pending_example :
    completed_bytes size halfway + sum_parts (part_length size part_size) (pending 3 halfway) ≡ size
completed_bytes-pending_example =
    completed_bytes-pending size 3 halfway (omega arith) three halfway-IsWithin
