-- ===== src/Tests/Storage.antt =====
-- A file that is indexed, indexed again and deleted.
use repomesh.Prelude.{◌≡◌, refl, true, false, Option, none, some, [], All}
use repomesh.Chunking.Texts.{with_slashes, suffix, decimal, split_lines}
use repomesh.Chunking.Chunker.{fallback_chunks, chunk}
use repomesh.Storage.Files.{Index, is_of, replace_file_chunks, delete_file}
use repomesh.Storage.Lookup.{Replaced, replace_file_chunks-Replaced, Deleted, delete_file-Deleted}
use repomesh.Storage.Chunks.{chunk_rows}
use repomesh.Tests.Chunking.{tools, chunker, file}

abbrev nothing : Index
nothing = record {
  repositories = [];
  keys = [];
  files = λ r p. none;
  chunks = [];
  pending = λ r p. false;
}

abbrev get : Option Index → Index
get none = nothing
get (some index) = index

abbrev indexed : Index
indexed = get (
    replace_file_chunks 1 file.repository_id file.file_path [] [] (chunk tools chunker file) true
      nothing)

run_replace :
    replace_file_chunks 1 file.repository_id file.file_path [] []
      (chunk tools chunker file)
      true
      nothing
    ≡ some indexed
unfolding replace_file_chunks chunk is_of suffix with_slashes decimal fallback_chunks split_lines
run_replace = refl

file_rows : All (λ x. is_of file.repository_id file.file_path x ≡ true) (chunk tools chunker file)
unfolding with_slashes
file_rows = chunk_rows tools chunker file

chunk_rows_example :
    All
      (λ x. is_of file.repository_id (with_slashes file.file_path) x ≡ true)
      (chunk tools chunker file)
chunk_rows_example = chunk_rows tools chunker file

replace_file_chunks-Replaced_example :
    Replaced file.repository_id file.file_path true (chunk tools chunker file) nothing indexed
replace_file_chunks-Replaced_example =
    replace_file_chunks-Replaced 1 file.repository_id file.file_path [] []
      (chunk tools chunker file) true nothing indexed file_rows run_replace

delete_file-Deleted_example :
    Deleted file.repository_id file.file_path indexed
      (delete_file file.repository_id file.file_path indexed)
delete_file-Deleted_example = delete_file-Deleted file.repository_id file.file_path indexed
