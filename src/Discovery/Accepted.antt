-- ===== src/Discovery/Accepted.antt =====
-- What validate_repository_path accepts, and which files discover_files gives.
use repomesh.Prelude.{
  ℕ, ◌≤◌, ◌≡◌, refl, sym, subst, Bool, true, false, not, ◌&&◌, ◌||◌, Option, none, some, List, [],
  ◌∷◌, map, take, filter, sort_by, arith, All, All-sort_by, IsSortedBy, IsOrder, sort_by-IsSortedBy,
  Occurs, Occurs-sort_by, Occurs-map, Occurs-filter, All-Occurs, All-filter_both, All-map,
  Bool-cases, inl, inr, if◌then◌else◌,
}
use repomesh.Chunking.Texts.{Text, lower, same_text, suffix}
use repomesh.Storage.Lookup.{same_text_sound}
use repomesh.Indexing.Paths.{has_path, text_before}
use repomesh.Discovery.Filters.{
  Parts, default_ignored_parts, secret_names, binary_extensions, generated_suffixes, is_relative_to,
  name_of, parts_before, has_ignored_part, has_generated_suffix, is_indexable,
}
use repomesh.Discovery.Files.{
  printed, Host, has_nul, fits, is_text, candidate_of, is_taken, relative_paths, discover_files,
}

pub text_before_asym : (a b : Text) → text_before a b ≡ true → text_before b a ≡ false
unfolding text_before
text_before_asym [] [] h = absurd (ground arith)
text_before_asym [] (d ∷ ds) h = refl
text_before_asym (c ∷ cs) [] h = absurd (ground arith)
text_before_asym (c ∷ cs) (d ∷ ds) h = ground (arith, text_before_asym cs ds)

pub text_before_negative :
    (a b c : Text) → text_before a b ≡ false → text_before b c ≡ false → text_before a c ≡ false
unfolding text_before
text_before_negative [] [] c h k = k
text_before_negative [] (y ∷ ys) c h k = absurd (ground arith)
text_before_negative (x ∷ xs) [] [] h k = refl
text_before_negative (x ∷ xs) [] (z ∷ zs) h k = absurd (ground arith)
text_before_negative (x ∷ xs) (y ∷ ys) [] h k = refl
text_before_negative (x ∷ xs) (y ∷ ys) (z ∷ zs) h k = ground (arith, text_before_negative xs ys zs)

text_before_total :
    (a b : Text) → text_before a b ≡ false → text_before b a ≡ false → same_text a b ≡ true
unfolding text_before same_text
text_before_total [] [] h k = refl
text_before_total [] (d ∷ ds) h k = absurd (ground arith)
text_before_total (c ∷ cs) [] h k = absurd (ground arith)
text_before_total (c ∷ cs) (d ∷ ds) h k = ground (arith, text_before_total cs ds)

pub same_text_refl : (a : Text) → same_text a a ≡ true
unfolding same_text
same_text_refl [] = refl
same_text_refl (c ∷ cs) = ground (arith, same_text_refl cs)

same_text_sym : (a b : Text) → same_text a b ≡ same_text b a
unfolding same_text
same_text_sym [] [] = refl
same_text_sym [] (d ∷ ds) = refl
same_text_sym (c ∷ cs) [] = refl
same_text_sym (c ∷ cs) (d ∷ ds) = ground (arith, same_text_sym cs ds)

parts_before_asym : (a b : Parts) → parts_before a b ≡ true → parts_before b a ≡ false
unfolding parts_before
parts_before_asym [] [] h = absurd (ground arith)
parts_before_asym [] (q ∷ qs) h = refl
parts_before_asym (p ∷ ps) [] h = absurd (ground arith)
parts_before_asym (p ∷ ps) (q ∷ qs) h =
    ground (arith, parts_before_asym ps qs, text_before_asym p q, same_text_sym p q)

parts_before_negative :
    (a b c : Parts) → parts_before a b ≡ false → parts_before b c ≡ false → parts_before a c ≡ false
unfolding parts_before
parts_before_negative [] [] c h k = k
parts_before_negative [] (y ∷ ys) c h k = absurd (ground arith)
parts_before_negative (x ∷ xs) [] [] h k = refl
parts_before_negative (x ∷ xs) [] (z ∷ zs) h k = absurd (ground arith)
parts_before_negative (x ∷ xs) (y ∷ ys) [] h k = refl
parts_before_negative (x ∷ xs) (y ∷ ys) (z ∷ zs) h k = elim (Bool-cases (same_text x y)) [
  | inl xy ↦
      subst (λ t. (if same_text t z then parts_before xs zs else text_before t z) ≡ false)
        (sym (same_text_sound x y xy)) (ground (arith, parts_before_negative xs ys zs))
  | inr xy ↦ elim (Bool-cases (same_text y z)) [
    | inl yz ↦
        subst (λ t. (if same_text x t then parts_before xs zs else text_before x t) ≡ false)
          (same_text_sound y z yz) (ground arith)
    | inr yz ↦ elim (Bool-cases (same_text x z)) [
      | inl xz ↦
          let k' : text_before y x ≡ false =
            subst (λ t. text_before y t ≡ false) (sym (same_text_sound x z xz)) (ground arith) in
          absurd (ground (arith, text_before_total x y))
      | inr xz ↦ ground (arith, text_before_negative x y z)
    ]
  ]
]

parts-IsOrder : IsOrder parts_before
parts-IsOrder = record { asym = parts_before_asym; negative = parts_before_negative }

-- A file that a listed path leads to, which none of the filters leaves out.
pub record IsDiscovered (host : Host) (path : Parts) (max_bytes : ℕ) (listed : List Parts)
    (file : Parts) : Type 0 where
  pub relative : Parts
  pub is_listed : Occurs relative listed
  pub leads : file ≡ candidate_of host path relative
  pub is_regular : host.is_file file ≡ true
  pub is_inside : is_relative_to file path ≡ true
  pub no_ignored_part : All (λ part. has_path (lower part) default_ignored_parts ≡ false) relative
  pub not_secret : has_path (lower (name_of relative)) secret_names ≡ false
  pub not_binary : has_path (lower (suffix (name_of relative))) binary_extensions ≡ false
  pub not_generated : has_generated_suffix generated_suffixes (lower (name_of relative)) ≡ false
  pub size : ℕ
  pub measured : host.size file ≡ some size
  pub small : size ≤ max_bytes
  pub bytes : List ℕ
  pub read : host.bytes file ≡ some bytes
  pub no_nul : has_nul (take 8192 bytes) ≡ false

pub record Discovered (host : Host) (path : Parts) (max_bytes : ℕ) (output : List ℕ)
    (files : List Parts) : Type 0 where
  pub sound : All (IsDiscovered host path max_bytes (relative_paths host output)) files
  pub complete :
      (relative : Parts)
      → Occurs relative (relative_paths host output)
      → is_taken host path max_bytes relative ≡ true
      → Occurs (candidate_of host path relative) files
  pub sorted : IsSortedBy parts_before files

none_ignored :
    (relative : Parts)
    → has_ignored_part relative ≡ false
    → All (λ part. has_path (lower part) default_ignored_parts ≡ false) relative
unfolding has_ignored_part
none_ignored [] h = tt
none_ignored (p ∷ ps) h = (ground arith, none_ignored ps (ground arith))

both : (a b : Bool) → (a && b) ≡ true → (a ≡ true) × (b ≡ true)
both a b h = ground arith

neither : (a b : Bool) → not (a || b) ≡ true → (a ≡ false) × (b ≡ false)
neither a b h = ground arith

not-true : (a : Bool) → not a ≡ true → a ≡ false
not-true a h = ground arith

fits_measured :
    {max_bytes : ℕ} (size : Option ℕ)
    → fits max_bytes size ≡ true
    → (n : ℕ) × (size ≡ some n) × (n ≤ max_bytes)
fits_measured none h = absurd (ground arith)
fits_measured (some n) h = (n, refl, ground arith)

text_read :
    (bytes : Option (List ℕ))
    → is_text bytes ≡ true
    → (b : List ℕ) × (bytes ≡ some b) × (has_nul (take 8192 b) ≡ false)
text_read none h = absurd (ground arith)
text_read (some b) h = (b, refl, not-true (has_nul (take 8192 b)) h)

module _ (host : Host) (path : Parts) (max_bytes : ℕ) where
  taken-IsDiscovered :
      (listed : List Parts) (relative : Parts)
      → Occurs relative listed × (is_taken host path max_bytes relative ≡ true)
      → IsDiscovered host path max_bytes listed (candidate_of host path relative)
  unfolding is_taken is_indexable
  taken-IsDiscovered listed relative (there, h) =
      let file = candidate_of host path relative in
      let read = both _ (is_text (host.bytes file)) h in
      let fit = both _ (fits max_bytes (host.size file)) read.0 in
      let named = both _ (is_indexable relative) fit.0 in
      let inside = both (host.is_file file) (is_relative_to file path) named.0 in
      let ends =
        both _ (not (has_generated_suffix generated_suffixes (lower (name_of relative)))) named.1 in
      let names =
        both _ (not (has_path (lower (suffix (name_of relative))) binary_extensions)) ends.0 in
      let parts = neither (has_ignored_part relative) _ names.0 in
      let size = fits_measured (host.size file) fit.1 in
      let bytes = text_read (host.bytes file) read.1 in
      record {
        relative = relative;
        is_listed = there;
        leads = refl;
        is_regular = inside.0;
        is_inside = inside.1;
        no_ignored_part = none_ignored relative parts.0;
        not_secret = parts.1;
        not_binary = not-true _ names.1;
        not_generated = not-true _ ends.1;
        size = size.0;
        measured = size.1;
        small = size.2;
        bytes = bytes.0;
        read = bytes.1;
        no_nul = bytes.2;
      }

  discovered : (output : List ℕ) → List Parts
  discovered output = sort_by parts_before (
      map (candidate_of host path)
        (filter (is_taken host path max_bytes) (relative_paths host output)))

  discovered-Discovered :
      (output : List ℕ) → Discovered host path max_bytes output (discovered output)
  unfolding discovered
  discovered-Discovered output =
      let listed = relative_paths host output in
      let taken = filter (is_taken host path max_bytes) listed in
      record {
        sound =
            All-sort_by (IsDiscovered host path max_bytes listed) parts_before
              (map (candidate_of host path) taken)
              (All-map (candidate_of host path)
                (λ r. Occurs r listed × (is_taken host path max_bytes r ≡ true))
                (IsDiscovered host path max_bytes listed) (taken-IsDiscovered listed) taken
                (All-filter_both (λ r. Occurs r listed) (is_taken host path max_bytes) listed
                  (All-Occurs listed)));
        complete = λ r there taken_h.
            Occurs-sort_by parts_before (candidate_of host path r)
              (map (candidate_of host path) taken)
              (Occurs-map (candidate_of host path) r taken
                (Occurs-filter (is_taken host path max_bytes) r listed taken_h there));
        sorted = sort_by-IsSortedBy parts_before parts-IsOrder (map (candidate_of host path) taken);
      }

  -- Where git lists the files, discover_files gives, in the order of pathlib, the files that listed
  -- paths lead to, and only these: regular files inside the repository, of at most `max_bytes` bytes
  -- with no NUL in the first 8192, where the listed path has no ignored part, no secret name, no
  -- binary extension and no suffix of generated files. Each listed path that the filters let pass has its file there.
  pub discover_files-Discovered :
      (output : List ℕ) (files : List Parts)
      → host.ls_files path ≡ printed output
      → discover_files host path max_bytes ≡ some files
      → Discovered host path max_bytes output files
  unfolding discover_files discovered
  discover_files-Discovered output files h e =
      let e' : some (discovered output) ≡ some files = rw (h, discover_files) at e in
      subst (Discovered host path max_bytes output) (ground (arith, e'))
        (discovered-Discovered output)
