-- ===== src/Service/Table.antt =====
-- A table with a primary key: `session.get`, an update of the row with a key, and what they leave
-- alone.
use mathlib.Core.Option.{some-injective}
use team_c_edr.Base.{
  String, Bool, Option, none, some, List, [], ◌∷◌, ◌≡◌, refl, ◌⊎◌, inl, inr, arith, In, here, there,
  In-cons, Bool-cases, str_eq, if◌then◌else◌, eq_iff, eq_refl, count_if, ◌+◌, ◌++◌, ap, sym,
}

module _ {ℓ} {R : Type ℓ} (key : R → String) where
  -- `session.get(Row, k)`
  unfoldable pub find : String → List R → Option R
  find k [] = none
  find k (r ∷ rs) = if str_eq (key r) k then some r else find k rs

  -- The assignments to the columns of the row with key `k`.
  unfoldable pub update : String → (R → R) → List R → List R
  update k f [] = []
  update k f (r ∷ rs) = if str_eq (key r) k then f r ∷ rs else r ∷ update k f rs

  pub find-In : (k : String) (rs : List R) (r : R) → find k rs ≡ some r → In r rs
  unfolding find
  find-In k [] r h = cc
  find-In k (x ∷ rs) r h = elim (Bool-cases (str_eq (key x) k)) [
    | inl same ↦ rw (some-injective _ _ (rw same at h)) here
    | inr other ↦ there (find-In k rs r (rw other at h))
  ]

  pub find-key : (k : String) (rs : List R) (r : R) → find k rs ≡ some r → key r ≡ k
  unfolding find
  find-key k [] r h = cc
  find-key k (x ∷ rs) r h = ground (arith, find-key k rs r, eq_iff (key x) k)

  pub find-update :
      (k j : String) (f : R → R) (rs : List R)
      → ((r : R) → key (f r) ≡ key r)
      → find j (update k f rs)
        ≡ (if str_eq k j then elim (find k rs) [ none ↦ none | some r ↦ some (f r) ] else find j rs)
  unfolding find update
  find-update k j f [] keeps = ground arith
  find-update k j f (x ∷ rs) keeps =
      ground
        (arith, find-update k j f rs keeps, keeps x, eq_iff (key x) k, eq_iff (key x) j, eq_iff k j)

  -- An update changes how many rows pass a test by what it does to the one row.
  pub count-update :
      (p : R → Bool) (k : String) (f : R → R) (rs : List R) (r : R)
      → find k rs ≡ some r
      → count_if p (update k f rs) + (if p r then 1 else 0)
        ≡ count_if p rs + (if p (f r) then 1 else 0)
  unfolding find update
  count-update p k f [] r h = cc
  count-update p k f (x ∷ rs) r h = elim (Bool-cases (str_eq (key x) k)) [
    | inl same ↦ let e = some-injective x r (rw same at h) in rw same (rw (← e) (omega arith))
    | inr other ↦ rw other (omega (arith, count-update p k f rs r (rw other at h)))
  ]

  -- A row of the table after an update stood there before, or is the updated one.
  pub In-update :
      (k : String) (f : R → R) (rs : List R) (x : R)
      → In x (update k f rs)
      → In x rs ⊎ ((r : R) × (find k rs ≡ some r) × (x ≡ f r))
  unfolding find update
  In-update k f [] x m = elim m [ ]
  In-update k f (y ∷ rs) x m = elim (Bool-cases (str_eq (key y) k)) [
    | inl same ↦ elim (In-cons (rw same at m)) [
      | inl e ↦ inr (y, rw same, e)
      | inr later ↦ inl (there later)
    ]
    | inr other ↦ elim (In-cons (rw other at m)) [
      | inl e ↦ inl (rw e here)
      | inr later ↦ elim (In-update k f rs x later) [
        | inl old ↦ inl (there old)
        | inr (r, h, e) ↦ inr (r, rw other h, e)
      ]
    ]
  ]

  -- No two rows have one key.
  abbrev pub IsKeyed : List R → Type ℓ
  IsKeyed [] = Unit
  IsKeyed (r ∷ rs) = (find (key r) rs ≡ none) × IsKeyed rs

  find-none : (k : String) (rs : List R) (r : R) → find k rs ≡ none → In r rs → key r ≡ k → ⊥
  unfolding find
  find-none k [] r h m e = elim m [ ]
  find-none k (x ∷ rs) r h m e = elim (Bool-cases (str_eq (key x) k)) [
    | inl same ↦ cc (rw same at h)
    | inr other ↦ elim (In-cons m) [
      | inl q ↦ ground (arith, eq_iff (key x) k, ap key q)
      | inr later ↦ find-none k rs r (rw other at h) later e
    ]
  ]

  -- In a table a row is found by its key.
  pub IsKeyed-find : (rs : List R) (r : R) → IsKeyed rs → In r rs → find (key r) rs ≡ some r
  unfolding find
  IsKeyed-find [] r u m = elim m [ ]
  IsKeyed-find (x ∷ rs) r u m = elim (In-cons m) [
    | inl e ↦ rw (e, eq_refl (key x)) refl
    | inr later ↦ elim (Bool-cases (str_eq (key x) (key r))) [
      | inl same ↦ absurd (find-none (key x) rs r u.0 later (sym ((eq_iff _ _).0 same)))
      | inr other ↦ rw other (IsKeyed-find rs r u.1 later)
    ]
  ]

  pub update-IsKeyed :
      (k : String) (f : R → R) (rs : List R)
      → ((r : R) → key (f r) ≡ key r)
      → IsKeyed rs
      → IsKeyed (update k f rs)
  unfolding update
  update-IsKeyed k f [] keeps u = tt
  update-IsKeyed k f (x ∷ rs) keeps u = elim (Bool-cases (str_eq (key x) k)) [
    | inl same ↦ rw same (rw (keeps x) u.0, u.1)
    | inr other ↦ rw other (
      ground (arith, find-update k (key x) f rs keeps, u.0, eq_iff (key x) k, eq_iff k (key x)),
      update-IsKeyed k f rs keeps u.1,
    )
  ]

  pub find-append :
      (k : String) (rs : List R) (x : R)
      → find k (rs ++ (x ∷ []))
        ≡ elim (find k rs) [ some r ↦ some r | none ↦ if str_eq (key x) k then some x else none ]
  unfolding find
  find-append k [] x = ground arith
  find-append k (y ∷ rs) x = ground (arith, find-append k rs x)

  pub append-IsKeyed :
      (rs : List R) (x : R) → find (key x) rs ≡ none → IsKeyed rs → IsKeyed (rs ++ (x ∷ []))
  unfolding find
  append-IsKeyed [] x fresh u = (refl, tt)
  append-IsKeyed (y ∷ rs) x fresh u = elim (Bool-cases (str_eq (key y) (key x))) [
    | inl same ↦ cc (rw same at fresh)
    | inr other ↦ (
      ground (arith, find-append (key y) rs x, u.0, eq_iff (key y) (key x), eq_iff (key x) (key y)),
      append-IsKeyed rs x (rw other at fresh) u.1,
    )
  ]
