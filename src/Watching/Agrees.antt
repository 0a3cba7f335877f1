-- ===== src/Watching/Agrees.antt =====
-- What a fingerprint's text tells of the files, and when that of the index can be that of the files.
use repomesh.Prelude.{
  ℕ, ◌≡◌, ◌↔◌, refl, sym, ap, ◌∙◌, subst, false, Option, some, List, [], ◌∷◌, ◌++◌, map, sort_by,
  arith, All, IsSortedBy, IsOrder, sort_by-IsSortedBy, append_nil, Option-cases, inl, inr, ◌==◌,
}
use repomesh.Chunking.Texts.{Text}
use repomesh.Storage.Files.{FileRow, Index, manifest_paths}
use repomesh.Indexing.Paths.{text_before}
use repomesh.Discovery.Filters.{Parts}
use repomesh.Discovery.Files.{Host, split_at, has_nul, current_commit, discover_files}
use repomesh.Discovery.Accepted.{text_before_asym, text_before_negative}
use repomesh.Watching.Fingerprint.{
  Entry, entries_text, fingerprint_text, relative_text, hashed, repository_fingerprint,
  manifest_entries, stored_fingerprint,
}

split_at_nul : (xs ys : Text) → has_nul xs ≡ false → split_at 0 (xs ++ 0 ∷ ys) ≡ xs ∷ split_at 0 ys
unfolding split_at has_nul
split_at_nul [] ys h = refl
split_at_nul (x ∷ xs) ys h =
    let x_ok : (x == 0) ≡ false = ground arith in rw (x_ok, split_at_nul xs ys (ground arith)) refl

split_at_all : (xs : Text) → has_nul xs ≡ false → split_at 0 xs ≡ xs ∷ []
unfolding split_at has_nul
split_at_all [] h = refl
split_at_all (x ∷ xs) h =
    let x_ok : (x == 0) ≡ false = ground arith in rw (x_ok, split_at_all xs (ground arith)) refl

-- No text has a NUL.
abbrev NoNul : Entry → Type 0
NoNul (path, digest) = (has_nul path ≡ false) × (has_nul digest ≡ false)

pub record IsPlain (commit : Text) (entries : List Entry) : Type 0 where
  pub commit_plain : has_nul commit ≡ false
  pub entries_plain : All NoNul entries

fields : Text → List Entry → List Text
fields t [] = t ∷ []
fields t ((path, digest) ∷ rest) = t ∷ path ∷ fields digest rest

split_at-text :
    (t : Text) (entries : List Entry)
    → has_nul t ≡ false
    → All NoNul entries
    → split_at 0 (t ++ entries_text entries) ≡ fields t entries
unfolding entries_text fields
split_at-text t [] h all = rw (append_nil t) (split_at_all t h)
split_at-text t ((path, digest) ∷ rest) h all =
    split_at_nul t (path ++ 0 ∷ (digest ++ entries_text rest)) h
    ∙ ap (λ l. t ∷ l)
        (split_at_nul path (digest ++ entries_text rest) all.0.0
          ∙ ap (λ l. path ∷ l) (split_at-text digest rest all.0.1 all.1))

fields_unique : (t u : Text) (a b : List Entry) → fields t a ≡ fields u b → (t ≡ u) × (a ≡ b)
unfolding fields
fields_unique t u [] [] h = ground arith
fields_unique t u [] ((p, d) ∷ b) h = absurd (ground arith)
fields_unique t u ((p, d) ∷ a) [] h = absurd (ground arith)
fields_unique t u ((p, d) ∷ a) ((q, c) ∷ b) h =
    let k : fields d a ≡ fields c b = ground arith in ground (arith, fields_unique d c a b k)

-- Two fingerprints are of the same text exactly if the commits, the paths in their order and the
-- digests are the same, where no commit, path or digest has a NUL. A change of any of them, or of
-- the order, changes the text that is hashed.
pub fingerprint_text_unique :
    (c d : Text) (a b : List Entry)
    → IsPlain c a
    → IsPlain d b
    → (fingerprint_text c a ≡ fingerprint_text d b) ↔ ((c ≡ d) × (a ≡ b))
unfolding fingerprint_text
fingerprint_text_unique c d a b p q = (
  (λ h. fields_unique c d a b (
      sym (split_at-text c a p.commit_plain p.entries_plain)
      ∙ ap (split_at 0) h
      ∙ split_at-text d b q.commit_plain q.entries_plain)),
  (λ (h, k). ap (λ t. t ++ entries_text a) h ∙ ap (λ l. d ++ entries_text l) k),
)

abbrev path_of : Entry → Text
path_of (path, digest) = path

hashed-paths :
    (sha256 : Parts → Option Text) (root : Parts) (files : List Parts) (entries : List Entry)
    → hashed sha256 root files ≡ some entries
    → map path_of entries ≡ map (relative_text root) files
unfolding hashed
hashed-paths sha256 root [] entries h =
    let e : entries ≡ [] = ground (arith, h) in ap (map path_of) e
hashed-paths sha256 root (file ∷ files) entries h = elim (Option-cases (sha256 file)) [
  | inl gone ↦ absurd (ground arith)
  | inr (digest, there) ↦ elim (Option-cases (hashed sha256 root files)) [
    | inl gone ↦ absurd (ground arith)
    | inr (rest, found) ↦
        let e : (relative_text root file, digest) ∷ rest ≡ entries = ground arith in
        ap (map path_of) (sym e)
        ∙ ap (λ l. relative_text root file ∷ l) (hashed-paths sha256 root files rest found)
  ]
]

module _ (files : Text → Option FileRow) where
  All-manifest_entries :
      (P : Text → Type 0) (xs : List Text)
      → All P xs
      → All P (map path_of (manifest_entries files xs))
  unfolding manifest_entries
  All-manifest_entries P [] all = tt
  All-manifest_entries P (x ∷ xs) all = elim (Option-cases (files x)) [
    | inl gone ↦ rw gone (All-manifest_entries P xs all.1)
    | inr (row, there) ↦ rw there (all.0, All-manifest_entries P xs all.1)
  ]

  manifest_entries-IsSortedBy :
      (xs : List Text)
      → IsSortedBy text_before xs
      → IsSortedBy text_before (map path_of (manifest_entries files xs))
  unfolding manifest_entries
  manifest_entries-IsSortedBy [] v = tt
  manifest_entries-IsSortedBy (x ∷ xs) v = elim (Option-cases (files x)) [
    | inl gone ↦ rw gone (manifest_entries-IsSortedBy xs v.1)
    | inr (row, there) ↦ rw there (
      All-manifest_entries (λ y. text_before y x ≡ false) xs v.0,
      manifest_entries-IsSortedBy xs v.1,
    )
  ]

text-IsOrder : IsOrder text_before
text-IsOrder = record { asym = text_before_asym; negative = text_before_negative }

abbrev pub stored_entries : Text → Index → List Entry
stored_entries id index =
    manifest_entries (index.files id) (sort_by text_before (manifest_paths id index))

-- What the fingerprint of a repository is made of.
pub record Scanned (host : Host) (sha256 : Parts → Option Text) (root : Parts) (max_bytes : ℕ)
    (commit : Text) (files : List Parts) (entries : List Entry) : Type 0 where
  pub at_commit : current_commit host root ≡ some commit
  pub found : discover_files host root max_bytes ≡ some files
  pub digests : hashed sha256 root files ≡ some entries

repository_fingerprint-Scanned :
    {host : Host} {sha256 : Parts → Option Text} {root : Parts} {max_bytes : ℕ} {commit : Text}
    {files : List Parts} {entries : List Entry}
    → Scanned host sha256 root max_bytes commit files entries
    → repository_fingerprint host sha256 root max_bytes ≡ some (fingerprint_text commit entries)
unfolding repository_fingerprint
repository_fingerprint-Scanned v = rw (v.at_commit, repository_fingerprint, v.found, v.digests) refl

-- Where the fingerprint of the stored manifest is that of the files, the manifest has the commit, and
-- the order in which discover_files gives the files is the order of their relative paths as texts. So
-- where these orders differ the fingerprints differ, and also after a run that has indexed every file.
pub repository_fingerprint-IsSortedBy :
    (host : Host) (sha256 : Parts → Option Text) (root : Parts) (max_bytes : ℕ) (commit : Text)
    (files : List Parts) (entries : List Entry) (id commit_sha : Text) (index : Index)
    → Scanned host sha256 root max_bytes commit files entries
    → IsPlain commit entries
    → IsPlain commit_sha (stored_entries id index)
    → repository_fingerprint host sha256 root max_bytes
      ≡ some (stored_fingerprint id commit_sha index)
    → (commit ≡ commit_sha) × IsSortedBy text_before (map (relative_text root) files)
unfolding stored_fingerprint
repository_fingerprint-IsSortedBy host sha256 root max_bytes commit files entries id commit_sha
      index v p q e =
    let e' : some (fingerprint_text commit entries)
        ≡ some (fingerprint_text commit_sha (stored_entries id index)) =
      sym (repository_fingerprint-Scanned v) ∙ e in
    let (same, listed) =
      (fingerprint_text_unique commit commit_sha entries (stored_entries id index) p q).0
        (ground (arith, e')) in
    (
      same,
      subst (IsSortedBy text_before)
          (ap (map path_of) (sym listed) ∙ hashed-paths sha256 root files entries v.digests)
          (manifest_entries-IsSortedBy (index.files id)
            (sort_by text_before (manifest_paths id index))
            (sort_by-IsSortedBy text_before text-IsOrder (manifest_paths id index))),
    )
