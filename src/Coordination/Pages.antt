-- ===== src/Coordination/Pages.antt =====
-- What the pages of list_jobs hold.
use repomesh.Prelude.{
  ℕ, ◌+◌, ◌-◌, ◌≡◌, sym, ap, ◌∙◌, subst, min, true, false, Option, List, ◌++◌, take, drop, filter,
  sort_by, length, length-sort_by, take-drop, drop_add, length-take, length-drop, All, All-sort_by,
  All-take, All-drop, All-filter, IsSortedBy, IsOrder, sort_by-IsSortedBy, IsSortedBy-take,
  IsSortedBy-drop, take-length, Occurs, Occurs-sort_by, Occurs-filter, arith,
}
use repomesh.Coordination.Schema.{Db, Job}
use repomesh.Coordination.Reports.{
  all_jobs, is_newer, StatusFilter, is_listed, listed_jobs, list_jobs, Page,
}

is_newer_asym : (a b : Job) → is_newer a b ≡ true → is_newer b a ≡ false
unfolding is_newer
is_newer_asym a b h = ground arith

is_newer_negative :
    (a b c : Job) → is_newer a b ≡ false → is_newer b c ≡ false → is_newer a c ≡ false
unfolding is_newer
is_newer_negative a b c h k = ground arith

newest-IsOrder : IsOrder is_newer
newest-IsOrder = record { asym = is_newer_asym; negative = is_newer_negative }

-- The whole answer, of which a page shows a part.
abbrev newest : Option ℕ → StatusFilter → Db → List Job
newest repository status db = sort_by is_newer (listed_jobs repository status db)

pub record IsPage (repository : Option ℕ) (status : StatusFilter) (limit offset : ℕ) (db : Db)
    (page : Page) : Type 0 where
  pub listed : All (λ j. is_listed repository status j ≡ true) page.jobs
  pub ordered : IsSortedBy is_newer page.jobs
  pub filled : length page.jobs ≡ min limit (page.total - offset)
  pub joins :
      (next : ℕ)
      → page.jobs ++ (list_jobs repository status next (offset + limit) db).jobs
        ≡ (list_jobs repository status (limit + next) offset db).jobs
  pub whole :
      (j : Job)
      → Occurs j (all_jobs db)
      → is_listed repository status j ≡ true
      → Occurs j (list_jobs repository status page.total 0 db).jobs

-- A page has only jobs that pass the filters, the newest first and of equally new ones those with
-- larger ids, and as many as are left from its offset on, up to its limit. The page that follows
-- joins it without a gap or an overlap, and every job that passes is on the page of all.
pub list_jobs-IsPage :
    (repository : Option ℕ) (status : StatusFilter) (limit offset : ℕ) (db : Db)
    → IsPage repository status limit offset db (list_jobs repository status limit offset db)
unfolding list_jobs listed_jobs drop sort_by
list_jobs-IsPage repository status limit offset db =
    let passes = is_listed repository status in
    let found = filter passes (all_jobs db) in
    let sorted = sort_by is_newer found in
    record {
      listed =
          All-take (λ j. passes j ≡ true) limit (drop offset sorted)
            (All-drop (λ j. passes j ≡ true) offset sorted
              (All-sort_by (λ j. passes j ≡ true) is_newer found
                (All-filter passes (all_jobs db))));
      ordered = IsSortedBy-take is_newer limit (drop offset sorted) (
          IsSortedBy-drop is_newer offset sorted
            (sort_by-IsSortedBy is_newer newest-IsOrder found));
      filled = omega (
        arith,
        length-take limit (drop offset sorted),
        length-drop offset sorted,
        length-sort_by is_newer found,
      );
      joins = λ next.
          ap (λ l. take limit (drop offset sorted) ++ take next l)
            (sym (drop_add limit offset sorted))
          ∙ take-drop limit next (drop offset sorted);
      whole = λ j there h.
          subst (Occurs j)
            (sym (take-length sorted) ∙ ap (λ n. take n sorted) (length-sort_by is_newer found))
            (Occurs-sort_by is_newer j found (Occurs-filter passes j (all_jobs db) h there));
    }
