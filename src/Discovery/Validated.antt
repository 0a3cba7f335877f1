-- ===== src/Discovery/Validated.antt =====
-- What validate_repository_path accepts.
use repomesh.Prelude.{
  ◌≡◌, refl, sym, subst, ◌↔◌, true, List, [], ◌∷◌, ℕ, arith, Occurs, Bool-cases, inl, inr,
}
use repomesh.Chunking.Texts.{Text}
use repomesh.Storage.Lookup.{same_text_sound}
use repomesh.Discovery.Filters.{Parts, same_parts, is_relative_to}
use repomesh.Discovery.Accepted.{same_text_refl}
use repomesh.Discovery.Files.{
  Git, printed, subprocess_error, os_error, Host, strip, parts_of, accepted, is_top, is_allowed,
  validate_path, validate_repository_path,
}

same_parts-is_relative_to : (p q : Parts) → same_parts p q ≡ true → is_relative_to p q ≡ true
unfolding same_parts is_relative_to
same_parts-is_relative_to [] [] h = refl
same_parts-is_relative_to [] (q ∷ qs) h = absurd (ground arith)
same_parts-is_relative_to (p ∷ ps) [] h = refl
same_parts-is_relative_to (p ∷ ps) (q ∷ qs) h = ground (arith, same_parts-is_relative_to ps qs)

same_parts_sound : (p q : Parts) → same_parts p q ≡ true → p ≡ q
unfolding same_parts
same_parts_sound [] [] h = refl
same_parts_sound [] (q ∷ qs) h = absurd (ground arith)
same_parts_sound (p ∷ ps) [] h = absurd (ground arith)
same_parts_sound (p ∷ ps) (q ∷ qs) h = ground (arith, same_parts_sound ps qs, same_text_sound p q)

same_parts_refl : (p : Parts) → same_parts p p ≡ true
unfolding same_parts
same_parts_refl [] = refl
same_parts_refl (p ∷ ps) = ground (arith, same_parts_refl ps, same_text_refl p)

-- A root of the list that the path is or lies under.
abbrev pub IsBelow : Parts → List Parts → Type 0
IsBelow path roots = (root : Parts) × Occurs root roots × (is_relative_to path root ≡ true)

allowed_sound :
    (path : Parts) (roots : List Parts) → is_allowed path roots ≡ true → IsBelow path roots
unfolding is_allowed
allowed_sound path [] h = absurd (ground arith)
allowed_sound path (root ∷ roots) h = elim (Bool-cases (is_relative_to path root)) [
  | inl below ↦ (root, inl refl, below)
  | inr not_below ↦
      let (r, there, below) =
        allowed_sound path roots (ground (arith, same_parts-is_relative_to path root)) in
      (r, inr there, below)
]

allowed_complete :
    (path : Parts) (roots : List Parts) → IsBelow path roots → is_allowed path roots ≡ true
unfolding is_allowed
allowed_complete path [] (r, there, below) = absurd there
allowed_complete path (root ∷ roots) (r, inl here, below) =
    let b : is_relative_to path root ≡ true = rw here at below in ground arith
allowed_complete path (root ∷ roots) (r, inr there, below) =
    ground (arith, allowed_complete path roots (r, there, below))

-- A directory below a root at which git prints the directory itself as the top level.
pub record IsRepository (host : Host) (roots : List Parts) (path : Parts) : Type 0 where
  pub directory : host.is_dir path ≡ true
  pub below : IsBelow path roots
  pub output : List ℕ
  pub top : host.show_toplevel path ≡ printed output
  pub itself : host.resolve (parts_of (strip (host.decode output))) ≡ path

module _ (host : Host) (roots : List Parts) where
  accepted_same : (p q : Parts) (h : accepted p ≡ accepted q) → p ≡ q
  accepted_same p q h = ground (arith, h)

  top_sound :
      (path p : Parts) (git : Git)
      → is_top host path git ≡ accepted p
      → (output : List ℕ) × (git ≡ printed output)
        × (host.resolve (parts_of (strip (host.decode output))) ≡ path)
        × (path ≡ p)
  top_sound path p subprocess_error h = absurd (ground arith)
  top_sound path p os_error h = absurd (ground arith)
  top_sound path p (printed output) h =
      elim (Bool-cases (same_parts (host.resolve (parts_of (strip (host.decode output)))) path)) [
        | inl same ↦ (output, refl, same_parts_sound _ path same, ground arith)
        | inr other ↦ absurd (ground arith)
      ]

  path_sound :
      (path p : Parts)
      → validate_path host path roots ≡ accepted p
      → IsRepository host roots path × (path ≡ p)
  unfolding validate_path
  path_sound path p h = elim (Bool-cases (host.is_dir path)) [
    | inr off ↦ absurd (ground arith)
    | inl directory ↦ elim (Bool-cases (is_allowed path roots)) [
      | inr off ↦ absurd (ground arith)
      | inl allowed ↦
          let (output, top, itself, same) =
            top_sound path p (host.show_toplevel path) (rw (directory, allowed) at h) in
          (
            record {
              directory = directory;
              below = allowed_sound path roots allowed;
              output = output;
              top = top;
              itself = itself;
            },
            same,
          )
    ]
  ]

  path_complete :
      (path : Parts) → IsRepository host roots path → validate_path host path roots ≡ accepted path
  unfolding validate_path
  path_complete path r =
      rw (r.directory, allowed_complete path roots r.below, r.top, r.itself, same_parts_refl path)
        refl

  -- A path is accepted exactly if, resolved, it is a directory that is a configured root or lies
  -- below one and that git reports as the top level of its own repository. What is accepted is the
  -- resolved path.
  pub validate_repository_path-IsRepository :
      (text : Text) (p : Parts)
      → (validate_repository_path host text roots ≡ accepted p)
        ↔ (IsRepository host roots p × (host.resolve (host.expanduser (parts_of text)) ≡ p))
  unfolding validate_repository_path
  validate_repository_path-IsRepository text p =
      let path = host.resolve (host.expanduser (parts_of text)) in
      (
        (λ h.
            let (r, same) = path_sound path p h in (subst (IsRepository host roots) same r, same)),
        (λ (r, same).
            subst (λ q. validate_path host q roots ≡ accepted p) (sym same) (path_complete p r)),
      )
