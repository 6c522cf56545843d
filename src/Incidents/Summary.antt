-- ===== src/Incidents/Summary.antt =====
-- What `build_summary` of services/incident-manager counts.
use brasaland_digital.Base.{
  ℕ, suc, ◌+◌, ◌≡◌, refl, true, List, [], ◌∷◌, String, ◌==◌, eq_refl, eq_iff, arith, if◌then◌else◌,
  length, select, ok, ◌&&◌,
}
use brasaland_digital.Incidents.Store.{IncidentRecord, Env, list_with_filters}
use brasaland_digital.Incidents.Service.{
  Counts, IncidentSummary, count_one, tally, summary_of, build_summary,
}

-- `counts.get(key, 0)`
abbrev pub count_of : String → Counts → ℕ
count_of key [] = 0
count_of key ((k, n) ∷ rest) = let later = count_of key rest in if k == key then n else later

abbrev pub sum_of : Counts → ℕ
sum_of [] = 0
sum_of ((k, n) ∷ rest) = n + sum_of rest

-- The rows that have the value in the column.
abbrev pub having : (IncidentRecord → String) → String → List IncidentRecord → ℕ
having column value rows = length (select (λ r. column r == value) rows)

count_one_lem :
    (key value : String) (counts : Counts)
    → count_of value (count_one key counts)
      ≡ (if key == value then 1 else 0) + count_of value counts
unfolding count_one
count_one_lem key value [] = ground arith
count_one_lem key value ((k, n) ∷ rest) = ground (
  arith,
  count_one_lem key value rest,
  eq_iff k key,
  eq_iff k value,
  eq_iff key value,
  eq_refl key,
)

sum_of-count_one :
    (key : String) (counts : Counts) → sum_of (count_one key counts) ≡ suc (sum_of counts)
unfolding count_one
sum_of-count_one key [] = refl
sum_of-count_one key ((k, n) ∷ rest) = ground (arith, sum_of-count_one key rest)

count_of-tally :
    (column : IncidentRecord → String) (value : String) (counts : Counts)
    (rows : List IncidentRecord)
    → count_of value (tally column counts rows) ≡ count_of value counts + having column value rows
unfolding tally
count_of-tally column value counts [] = ground arith
count_of-tally column value counts (r ∷ rs) = ground (
  arith,
  count_of-tally column value (count_one (column r) counts) rs,
  count_one_lem (column r) value counts,
)

sum_of-tally :
    (column : IncidentRecord → String) (counts : Counts) (rows : List IncidentRecord)
    → sum_of (tally column counts rows) ≡ sum_of counts + length rows
unfolding tally
sum_of-tally column counts [] = ground arith
sum_of-tally column counts (r ∷ rs) = ground (
  arith,
  sum_of-tally column (count_one (column r) counts) rs,
  sum_of-count_one (column r) counts,
)

-- The dict has for each value the number of rows with it, and its numbers add up to all the rows.
abbrev pub IsTally : (IncidentRecord → String) → Counts → List IncidentRecord → Type 0
IsTally column counts rows =
    ((value : String) → count_of value counts ≡ having column value rows)
    × (sum_of counts ≡ length rows)

tally_lem :
    (column : IncidentRecord → String) (rows : List IncidentRecord)
    → IsTally column (tally column [] rows) rows
tally_lem column rows = (
  λ value. omega (arith, count_of-tally column value [] rows),
  omega (arith, sum_of-tally column [] rows),
)

abbrev IsSummary : IncidentSummary → List IncidentRecord → Type 0
IsSummary s rows =
    (s.total ≡ length rows)
    × IsTally (λ r. r.status) s.by_status rows
    × IsTally (λ r. r.category) s.by_category rows
    × IsTally (λ r. r.origin) s.by_origin rows
    × IsTally (λ r. r.branch) s.by_branch rows

summary_of_lem : (rows : List IncidentRecord) → IsSummary (summary_of rows) rows
unfolding summary_of
summary_of_lem [] =
    (refl, (λ v. refl, refl), (λ v. refl, refl), (λ v. refl, refl), (λ v. refl, refl))
summary_of_lem (r ∷ rs) = (
  refl,
  tally_lem (λ x. x.status) (r ∷ rs),
  tally_lem (λ x. x.category) (r ∷ rs),
  tally_lem (λ x. x.origin) (r ∷ rs),
  tally_lem (λ x. x.branch) (r ∷ rs),
)

select_all : (rows : List IncidentRecord) → select (λ r. true && true && true && true) rows ≡ rows
select_all [] = refl
select_all (r ∷ rs) = ground (arith, select_all rs)

-- The summary returns, and counts the incidents of the database: their number, and in each of the
-- four dicts, for each value, the incidents that have it, which add up to that number.
pub build_summary_lem :
    (env : Env) (t : env.incidents.Tab)
    → (s : IncidentSummary) × (build_summary env t ≡ (ok s, t))
      × (s.total ≡ length (env.incidents.rows t))
      × IsTally (λ r. r.status) s.by_status (env.incidents.rows t)
      × IsTally (λ r. r.category) s.by_category (env.incidents.rows t)
      × IsTally (λ r. r.origin) s.by_origin (env.incidents.rows t)
      × IsTally (λ r. r.branch) s.by_branch (env.incidents.rows t)
unfolding build_summary list_with_filters
build_summary_lem env t =
    let (total, status, category, origin, branch) = summary_of_lem (env.incidents.rows t) in
    (
      summary_of (env.incidents.rows t),
      rw (select_all (env.incidents.rows t)) refl,
      total,
      status,
      category,
      origin,
      branch,
    )
