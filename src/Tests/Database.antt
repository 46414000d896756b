-- ===== src/Tests/Database.antt =====
-- A database for the tests: it sorts the pending rows and takes the first, as SQL is asked to.
use mathlib.Core.Option.{some-injective}
use team_c_edr.Base.{
  Bool, false, Option, none, some, List, [], ◌∷◌, ◌≡◌, In, here, Bool-cases, In-cons, inl, inr,
  str_lt, select, select-In, In-select, sort_by, sort_by-In, In-sort_by, sort_by-IsSorted, IsSorted,
  All-In, str_lt_asym, str_lt_trans,
}
use team_c_edr.Service.{TaskRow}
use team_c_edr.Service.Rows.{RunTables}
use team_c_edr.Service.Tasks.{Pick, IsOldestPending, is_pending}

abbrev older : TaskRow → TaskRow → Bool
older r s = str_lt r.created_at s.created_at

abbrev head_of : List TaskRow → Option TaskRow
head_of [] = none
head_of (r ∷ rs) = some r

abbrev pub sorted_pick : Pick
sorted_pick rows = head_of (sort_by older (select is_pending rows))

head_of-In : (rows : List TaskRow) (r : TaskRow) → head_of rows ≡ some r → In r rows
head_of-In [] r e = cc
head_of-In (x ∷ rows) r e = rw (← some-injective x r e) here

irreflexive : (r : TaskRow) → older r r ≡ false
irreflexive r = elim (Bool-cases (older r r)) [
  | inl less ↦ str_lt_asym r.created_at r.created_at less
  | inr not_less ↦ not_less
]

head_of-oldest :
    (rows : List TaskRow) (r x : TaskRow)
    → IsSorted older rows
    → head_of rows ≡ some r
    → In x rows
    → older x r ≡ false
head_of-oldest [] r x s e m = elim m [ ]
head_of-oldest (y ∷ rows) r x s e m = rw (← some-injective y r e) (elim (In-cons m) [
  | inl same ↦ rw same (irreflexive y)
  | inr later ↦ All-In (λ z. older z y ≡ false) rows s.0 later
])

head_of-none : (rows : List TaskRow) (x : TaskRow) → head_of rows ≡ none → In x rows → ⊥
head_of-none [] x e m = elim m [ ]
head_of-none (y ∷ rows) x e m = cc

pub sorted_pick-IsOldestPending : IsOldestPending sorted_pick
sorted_pick-IsOldestPending = record {
  stands = λ rows r e. (select-In is_pending rows (sort_by-In older _ (head_of-In _ r e))).0;
  waits = λ rows r e. (select-In is_pending rows (sort_by-In older _ (head_of-In _ r e))).1;
  oldest = λ rows r x e m p.
      head_of-oldest _ r x
        (sort_by-IsSorted older (λ a b. str_lt_asym a.created_at b.created_at)
          (λ a b c. str_lt_trans a.created_at b.created_at c.created_at) (select is_pending rows))
        e (In-sort_by older _ (In-select is_pending rows m p));
  complete = λ rows x e m. elim (Bool-cases (is_pending x)) [
    | inl p ↦ absurd (head_of-none _ x e (In-sort_by older _ (In-select is_pending rows m p)))
    | inr q ↦ q
  ];
}

abbrev pub no_runs : RunTables
no_runs = record {
  runs = [];
  events = [];
  alerts = [];
  incidents = [];
  alert_events = [];
  incident_alerts = [];
  dlq_events = [];
}
