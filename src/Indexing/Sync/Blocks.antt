-- ===== src/Indexing/Sync/Blocks.antt =====
-- The guarded blocks of the indexer keep the marks, whatever the callbacks and the services answer.
use repomesh.Indexing.Paths.{has_path}
use repomesh.Storage.Lookup.{same_text_sound, same_key_refl}
use repomesh.Prelude.{
  ◌≡◌, refl, subst, Bool, true, false, Option, none, some, List, [], arith, All, sym, ap, ◌∙◌, ◌||◌,
  map, ◌∷◌, Bool-cases, inl, inr,
}
use repomesh.Chunking.Texts.{Text, same_text}
use repomesh.Chunking.Chunker.{CodeChunk}
use repomesh.Storage.Files.{
  Index, is_of, replace_file_chunks, delete_file, mark_vector_dirty, finish_vector_deletion,
  update_file_commit, same_key,
}
use repomesh.Indexing.Exec.{Exec, pure, modify, ◌>>=◌}
use repomesh.Indexing.Services.{
  VectorStore, IsLawful, Reply, done, unavailable, left_by, Setup, id_of,
}
use repomesh.Indexing.Indexer.{
  Run, State, ask, on_index, guarded, count_deleted, count_skipped, replied, delete_vectors,
  upsert_vectors, delete_points, delete_one, sync_points, stored, store_chunks, finish_if,
  write_file, skip_file,
}
use repomesh.Indexing.Ensures.{
  Post, Ensures, Ensures-pure, Ensures-weaken, Ensures-modify, Ensures-defer, Ensures-bind,
}
use repomesh.Indexing.Frame.{On, Ensures-ask, Ensures-guarded}
use repomesh.Indexing.Sync.{Synced, Between}
use repomesh.Indexing.Sync.Steps.{
  delete_file-Between, mark_vector_dirty-Between, finish_vector_deletion-Between,
  finish_vector_deletion-Synced, vectors-Between, Uploaded, replace_file_chunks-Synced,
  update_file_commit-Synced,
}

module _ {V : Type 0} (J X : Index → V → Type 0)
    (weaker : (i : Index) (v : V) → J i v → X i v) where
  pub Ensures-ask_to : Ensures (On J) ask (λ _. On J) (On X)
  Ensures-ask_to =
      Ensures-weaken (On J) (On J) (On X) (λ _. On J) ask (λ s h. h) (λ _ t h. h)
        (λ t h. weaker t.index t.vectors h) (Ensures-ask J)

-- A callback before more code.
pub Ensures-ask_then :
    {V A : Type 0} (J X : Index → V → Type 0) (Q : A → Run V → Type 0) (m : Exec (Run V) A)
    → ((i : Index) (v : V) → J i v → X i v)
    → Ensures (On J) m Q (On X)
    → Ensures (On J) (ask >>= λ _. m) Q (On X)
Ensures-ask_then J X Q m weaker e =
    Ensures-bind (On J) (λ _. On J) Q ask (λ _. m) (Ensures-ask_to J X weaker) (λ _. e)

or_false : (b : Bool) → (b || false) ≡ b
or_false true = refl
or_false false = refl

-- An id that names another file is none of a file's chunks.
foreign :
    (home : Text → Text × Text) (r p r' p' id : Text)
    → same_key r' p' r p ≡ false
    → home id ≡ (r', p')
    → (chunks : List CodeChunk) → All (λ x. home x.id ≡ (r, p)) chunks
    → has_path id (map id_of chunks) ≡ false
unfolding has_path
foreign home r p r' p' id other k [] all = refl
foreign home r p r' p' id other k (x ∷ xs) all = elim (Bool-cases (same_text x.id id)) [
  | inr other_id ↦ rw other_id (foreign home r p r' p' id other k xs all.1)
  | inl same ↦
      let q : (r', p') ≡ (r, p) = sym k ∙ ap home (sym (same_text_sound x.id id same)) ∙ all.0 in
      absurd (
        let z : false ≡ true = sym other ∙ ap (λ k. same_key k.0 k.1 r p) q ∙ same_key_refl r p in
        ground arith)
]

module _ (V : VectorStore) (home : Text → Text × Text) (u : Setup) (lawful : IsLawful V)
    (path : Text) where
  abbrev Mid : Index → V.State → Type 0
  Mid = Between V home u.repository_id path

  abbrev Emptied : Index → V.State → Type 0
  Emptied i v = Mid i v × ((id : Text) → V.holds v u.repository_id path id ≡ false)

  abbrev Filled : List CodeChunk → Bool → Index → V.State → Type 0
  Filled chunks b i v = Mid i v × Uploaded V home u.repository_id path b chunks v

  emptied :
      (i : Index) (v : V.State) (o : Reply V.State)
      → V.delete_file u.repository_id path v ≡ o
      → Mid i v
      → Mid i (left_by o)
  emptied i v o e h =
      vectors-Between V home u.repository_id path i v (left_by o)
        (λ r' p' id other k.
          subst (λ x. V.holds (left_by x) r' p' id ≡ V.holds v r' p' id) e
            (lawful.delete_others u.repository_id path r' p' id v other))
        h

  Post-replied :
      (o : Reply V.State) (s : State V u) (J X : Index → V.State → Type 0)
      → ((w : V.State) → o ≡ done w → J s.index w)
      → ((w : V.State) → o ≡ unavailable w → X s.index w)
      → Post (λ _. On J) (On X) (replied V u o s).0 (replied V u o s).1
  Post-replied (done w) s J X h k = h w refl
  Post-replied (unavailable w) s J X h k = k w refl

  Ensures-delete_vectors : Ensures (On Mid) (delete_vectors V u path) (λ _. On Emptied) (On Mid)
  unfolding delete_vectors
  Ensures-delete_vectors = record {
    at = λ s h.
        Post-replied (V.delete_file u.repository_id path s.vectors) s Emptied Mid
          (λ w e. (
            emptied s.index s.vectors (done w) e h,
            λ id. lawful.deletes u.repository_id path id s.vectors w e,
          ))
          (λ w e. emptied s.index s.vectors (unavailable w) e h);
  }

  module _ (chunks : List CodeChunk) (own : All (λ x. is_of u.repository_id path x ≡ true) chunks)
      (named : All (λ x. home x.id ≡ (u.repository_id, path)) chunks) where
    upserted :
        (i : Index) (v : V.State) (o : Reply V.State)
        → V.upsert chunks v ≡ o
        → Mid i v
        → Mid i (left_by o)
    upserted i v o e h =
        vectors-Between V home u.repository_id path i v (left_by o)
          (λ r' p' id other k.
            subst (λ x. V.holds (left_by x) r' p' id ≡ V.holds v r' p' id) e
              (lawful.upsert_others u.repository_id path r' p' id chunks v own other
                (foreign home u.repository_id path r' p' id other k chunks named)))
          h

    Ensures-upsert_vectors :
        Ensures (On Emptied) (upsert_vectors V u chunks) (λ _. On (Filled chunks true)) (On Mid)
    unfolding upsert_vectors
    Ensures-upsert_vectors = record {
      at = λ s h.
          Post-replied (V.upsert chunks s.vectors) s (Filled chunks true) Mid
            (λ w e. (
              upserted s.index s.vectors (done w) e h.0,
              λ _ id k.
                  lawful.upserts u.repository_id path id chunks s.vectors w own e
                  ∙ ap (λ b. has_path id (map id_of chunks) || b) (h.1 id)
                  ∙ or_false (has_path id (map id_of chunks)),
            ))
            (λ w e. upserted s.index s.vectors (unavailable w) e h.0);
    }

    Ensures-sync_points :
        Ensures (On Mid) (sync_points V u path chunks) (λ b. On (Filled chunks b)) (On Mid)
    unfolding sync_points
    Ensures-sync_points =
        Ensures-defer (On Mid) (λ b. On (Filled chunks b))
          (ask
            >>= (λ _. delete_vectors V u path)
            >>= (λ _. ask)
            >>= (λ _. upsert_vectors V u chunks)
            >>= (λ _. pure true))
          (pure false)
          (Ensures-bind (On Mid) (λ _. On (Filled chunks true)) (λ b. On (Filled chunks b))
            (ask
              >>= (λ _. delete_vectors V u path)
              >>= (λ _. ask)
              >>= (λ _. upsert_vectors V u chunks))
            (λ _. pure true)
            (Ensures-bind (On Mid) (λ _. On Emptied) (λ _. On (Filled chunks true))
              (ask >>= (λ _. delete_vectors V u path) >>= (λ _. ask))
              (λ _. upsert_vectors V u chunks)
              (Ensures-bind (On Mid) (λ _. On Emptied) (λ _. On Emptied)
                (ask >>= (λ _. delete_vectors V u path)) (λ _. ask)
                (Ensures-ask_then Mid Mid (λ _. On Emptied) (delete_vectors V u path) (λ i v h. h)
                  Ensures-delete_vectors)
                (λ _. Ensures-ask_to Emptied Mid (λ i v h. h.0)))
              (λ _. Ensures-upsert_vectors))
            (λ _. Ensures-pure (On (Filled chunks true)) true (λ s h. h)))
          (Ensures-pure (On Mid) false (λ s h. (h, λ t. absurd (ground arith))))

    Post-stored :
        (b : Bool) (digest : Text) (o : Option Index) (s : State V u)
        → replace_file_chunks u.now u.repository_id path digest u.disk.commit chunks b s.index ≡ o
        → Filled chunks b s.index s.vectors
        → Post (λ _. On (Synced V home)) (On (Synced V home)) (stored V u o s).0 (stored V u o s).1
    Post-stored b digest none s e h = h.0.synced
    Post-stored b digest (some index) s e h =
        replace_file_chunks-Synced V home u.repository_id path u.now digest u.disk.commit chunks b
          s.index index s.vectors own e h.0.synced h.1

    Ensures-store_chunks :
        (digest : Text) (b : Bool)
        → Ensures
            (On (Filled chunks b))
            (store_chunks V u path digest chunks b)
            (λ _. On (Synced V home))
            (On (Synced V home))
    unfolding store_chunks
    Ensures-store_chunks digest b = record {
      at = λ s h.
          Post-stored b digest
            (replace_file_chunks u.now u.repository_id path digest u.disk.commit chunks b s.index) s
            refl h;
    }

    Ensures-finish_if :
        (b : Bool)
        → Ensures
            (On (Synced V home))
            (finish_if V u b path)
            (λ _. On (Synced V home))
            (On (Synced V home))
    unfolding finish_if on_index
    Ensures-finish_if false = Ensures-pure (On (Synced V home)) tt (λ s h. h)
    Ensures-finish_if true =
        Ensures-ask_then (Synced V home) (Synced V home) (λ _. On (Synced V home))
          (modify (on_index (finish_vector_deletion u.repository_id path))) (λ i v h. h)
          (Ensures-modify (On (Synced V home)) (On (Synced V home))
            (on_index (finish_vector_deletion u.repository_id path))
            (λ s h. finish_vector_deletion-Synced V home u.repository_id path s.index s.vectors h))

    -- The block that writes a file, from the mark of its vectors as out of sync.
    written :
        (digest : Text) (b : Bool)
        → Ensures
            (On (Filled chunks b))
            (ask >>= (λ _. store_chunks V u path digest chunks b) >>= (λ _. finish_if V u b path))
            (λ _. On (Synced V home))
            (On (Synced V home))
    written digest b =
        Ensures-bind (On (Filled chunks b)) (λ _. On (Synced V home)) (λ _. On (Synced V home))
          (ask >>= (λ _. store_chunks V u path digest chunks b)) (λ _. finish_if V u b path)
          (Ensures-ask_then (Filled chunks b) (Synced V home) (λ _. On (Synced V home))
            (store_chunks V u path digest chunks b) (λ i v h. h.0.synced)
            (Ensures-store_chunks digest b))
          (λ _. Ensures-finish_if b)

    pub Ensures-write_file :
        (digest : Text)
        → Ensures
            (On (Synced V home))
            (write_file V u path digest chunks)
            (λ _. On (Synced V home))
            (On (Synced V home))
    unfolding write_file on_index
    Ensures-write_file digest =
        Ensures-guarded (Synced V home) (Synced V home) (λ i v h. h)
          (ask
            >>= (λ _. modify (on_index (mark_vector_dirty u.repository_id path)))
            >>= (λ _. sync_points V u path chunks)
            >>= (λ b.
                ask
                >>= (λ _. store_chunks V u path digest chunks b)
                >>= (λ _. finish_if V u b path)))
          (Ensures-bind (On (Synced V home)) (λ b. On (Filled chunks b)) (λ _. On (Synced V home))
            (ask
              >>= (λ _. modify (on_index (mark_vector_dirty u.repository_id path)))
              >>= (λ _. sync_points V u path chunks))
            (λ b.
              ask >>= (λ _. store_chunks V u path digest chunks b) >>= (λ _. finish_if V u b path))
            (Ensures-bind (On (Synced V home)) (λ _. On Mid) (λ b. On (Filled chunks b))
              (ask >>= (λ _. modify (on_index (mark_vector_dirty u.repository_id path))))
              (λ _. sync_points V u path chunks)
              (Ensures-ask_then (Synced V home) (Synced V home) (λ _. On Mid)
                (modify (on_index (mark_vector_dirty u.repository_id path))) (λ i v h. h)
                (Ensures-modify (On (Synced V home)) (On Mid)
                  (on_index (mark_vector_dirty u.repository_id path))
                  (λ s h.
                    mark_vector_dirty-Between V home u.repository_id path s.index s.vectors h)))
              (λ _.
                Ensures-weaken (On Mid) (On Mid) (On (Synced V home)) (λ b. On (Filled chunks b))
                  (sync_points V u path chunks) (λ s h. h) (λ b t h. h) (λ t h. h.synced)
                  Ensures-sync_points))
            (written digest))

  Ensures-delete_points : Ensures (On Mid) (delete_points V u path) (λ _. On Mid) (On Mid)
  unfolding delete_points on_index
  Ensures-delete_points =
      Ensures-defer (On Mid) (λ _. On Mid)
        (ask
          >>= (λ _. delete_vectors V u path)
          >>= (λ _. ask)
          >>= (λ _. modify (on_index (finish_vector_deletion u.repository_id path))))
        (pure tt)
        (Ensures-bind (On Mid) (λ _. On Mid) (λ _. On Mid)
          (ask >>= (λ _. delete_vectors V u path) >>= (λ _. ask))
          (λ _. modify (on_index (finish_vector_deletion u.repository_id path)))
          (Ensures-bind (On Mid) (λ _. On Mid) (λ _. On Mid)
            (ask >>= (λ _. delete_vectors V u path)) (λ _. ask)
            (Ensures-ask_then Mid Mid (λ _. On Mid) (delete_vectors V u path) (λ i v h. h)
              (Ensures-weaken (On Mid) (On Mid) (On Mid) (λ _. On Mid) (delete_vectors V u path)
                (λ s h. h) (λ _ t h. h.0) (λ t h. h) Ensures-delete_vectors))
            (λ _. Ensures-ask Mid))
          (λ _.
            Ensures-modify (On Mid) (On Mid)
              (on_index (finish_vector_deletion u.repository_id path))
              (λ s h.
                finish_vector_deletion-Between V home u.repository_id path s.index s.vectors h)))
        (Ensures-pure (On Mid) tt (λ s h. h))

  pub Ensures-delete_one :
      Ensures
        (On (Synced V home))
        (delete_one V u path)
        (λ _. On (Synced V home))
        (On (Synced V home))
  unfolding delete_one on_index
  Ensures-delete_one =
      Ensures-bind (On (Synced V home)) (λ _. On (Synced V home)) (λ _. On (Synced V home))
        (guarded (
          ask
          >>= (λ _. modify (on_index (delete_file u.repository_id path)))
          >>= (λ _. delete_points V u path)))
        (λ _. modify count_deleted)
        (Ensures-guarded (Synced V home) (Synced V home) (λ i v h. h)
          (ask
            >>= (λ _. modify (on_index (delete_file u.repository_id path)))
            >>= (λ _. delete_points V u path))
          (Ensures-bind (On (Synced V home)) (λ _. On Mid) (λ _. On (Synced V home))
            (ask >>= (λ _. modify (on_index (delete_file u.repository_id path))))
            (λ _. delete_points V u path)
            (Ensures-ask_then (Synced V home) (Synced V home) (λ _. On Mid)
              (modify (on_index (delete_file u.repository_id path))) (λ i v h. h)
              (Ensures-modify (On (Synced V home)) (On Mid)
                (on_index (delete_file u.repository_id path))
                (λ s h. delete_file-Between V home u.repository_id path s.index s.vectors h)))
            (λ _.
              Ensures-weaken (On Mid) (On Mid) (On (Synced V home)) (λ _. On (Synced V home))
                (delete_points V u path) (λ s h. h) (λ _ t h. h.synced) (λ t h. h.synced)
                Ensures-delete_points)))
        (λ _. Ensures-modify (On (Synced V home)) (On (Synced V home)) count_deleted (λ s h. h))

  pub Ensures-skip_file :
      Ensures
        (On (Synced V home))
        (skip_file V u path)
        (λ _. On (Synced V home))
        (On (Synced V home))
  unfolding skip_file on_index
  Ensures-skip_file =
      Ensures-bind (On (Synced V home)) (λ _. On (Synced V home)) (λ _. On (Synced V home))
        (guarded (
          ask >>= (λ _. modify (on_index (update_file_commit u.repository_id path u.disk.commit)))))
        (λ _. modify count_skipped)
        (Ensures-guarded (Synced V home) (Synced V home) (λ i v h. h)
          (ask >>= (λ _. modify (on_index (update_file_commit u.repository_id path u.disk.commit))))
          (Ensures-ask_then (Synced V home) (Synced V home) (λ _. On (Synced V home))
            (modify (on_index (update_file_commit u.repository_id path u.disk.commit))) (λ i v h. h)
            (Ensures-modify (On (Synced V home)) (On (Synced V home))
              (on_index (update_file_commit u.repository_id path u.disk.commit))
              (λ s h.
                update_file_commit-Synced V home u.repository_id path u.disk.commit s.index
                  s.vectors h))))
        (λ _. Ensures-modify (On (Synced V home)) (On (Synced V home)) count_skipped (λ s h. h))
