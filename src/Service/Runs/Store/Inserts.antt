-- ===== src/Service/Runs/Store/Inserts.antt =====
-- What the inserts of one table do when no constraint is broken.
use team_c_edr.Base.{
  ◌⊎◌, Bool-cases, String, Bool, true, false, ◌&&◌, List, [], ◌∷◌, ◌++◌, ◌≡◌, refl, arith, any, All,
  Apart, any-append, append-nil, append_assoc, str_eq, inl, inr,
}
use team_c_edr.Service.{Result, ok, err, ◌>>=◌, Fault, integrity_error}
use team_c_edr.Service.Runs.Store.{insert_all}

-- The rows `rs` can follow `rows`: their keys are new and apart, their foreign keys are there.
pub record Fits {ℓ} {R : Type ℓ} (same : R → R → Bool) (valid : R → Bool) (rs rows : List R)
    : Type ℓ where
  pub apart : Apart same rs
  pub new : All (λ s. any (λ x. same x s) rows ≡ false) rs
  pub linked : All (λ r. valid r ≡ true) rs

module _ {ℓ} {R : Type ℓ} (table : String) (same : R → R → Bool) (valid : R → Bool) where
  still_new :
      (r s : R) (rows : List R)
      → any (λ x. same x s) rows ≡ false
      → same r s ≡ false
      → any (λ x. same x s) (rows ++ (r ∷ [])) ≡ false
  still_new r s rows h k = rw (any-append (λ x. same x s) rows (r ∷ []), h, k) refl

  all_still_new :
      (r : R) (rows rs : List R)
      → All (λ s. any (λ x. same x s) rows ≡ false) rs
      → All (λ s. same r s ≡ false) rs
      → All (λ s. any (λ x. same x s) (rows ++ (r ∷ [])) ≡ false) rs
  all_still_new r rows [] h k = tt
  all_still_new r rows (s ∷ rs) h k = (still_new r s rows h.0 k.0, all_still_new r rows rs h.1 k.1)

  pub insert_all-Fits :
      (rs rows : List R)
      → Fits same valid rs rows
      → insert_all table same valid rs rows ≡ ok (rows ++ rs)
  unfolding insert_all
  insert_all-Fits [] rows f = rw (append-nil rows) refl
  insert_all-Fits (r ∷ rs) rows f =
      rw
        (
          f.new.0,
          f.linked.0,
          insert_all-Fits rs (rows ++ (r ∷ [])) (record {
            apart = f.apart.1;
            new = all_still_new r rows rs f.new.1 f.apart.0;
            linked = f.linked.1;
          }),
        )
        (rw (append_assoc rows (r ∷ []) rs) refl)

-- No row is of the run, so none has a key of it.
pub any_other {ℓ} :
    {R : Type ℓ} (run : R → String) (rest : R → Bool) (a : String) (rows : List R)
    → All (λ r. str_eq (run r) a ≡ false) rows
    → any (λ r. str_eq (run r) a && rest r) rows ≡ false
any_other run rest a [] h = refl
any_other run rest a (r ∷ rows) h = rw (h.0, any_other run rest a rows h.1) refl

pub any_later {ℓ} :
    {R : Type ℓ} (p : R → Bool) (rows rs : List R) → any p rs ≡ true → any p (rows ++ rs) ≡ true
any_later p rows rs h = ground (arith, any-append p rows rs, h)

-- A computation that returns `a` or raises.
abbrev pub ReturnsOrRaises {ℓ} : {A : Type ℓ} → A → Result A → Type ℓ
ReturnsOrRaises a r = (r ≡ ok a) ⊎ ((e : Fault) × (r ≡ err e))

-- The inserts put all the rows behind the others, or raise.
pub insert_all-ReturnsOrRaises {ℓ} :
    {R : Type ℓ} (table : String) (same : R → R → Bool) (valid : R → Bool) (rs rows : List R)
    → ReturnsOrRaises (rows ++ rs) (insert_all table same valid rs rows)
unfolding insert_all
insert_all-ReturnsOrRaises table same valid [] rows = inl (rw (append-nil rows) refl)
insert_all-ReturnsOrRaises table same valid (r ∷ rs) rows =
    elim (Bool-cases (any (λ x. same x r) rows)) [
      | inl old ↦ inr (integrity_error table, rw old refl)
      | inr new ↦ elim (Bool-cases (valid r)) [
        | inl linked ↦
            rw (new, linked, ← append_assoc rows (r ∷ []) rs)
              (insert_all-ReturnsOrRaises table same valid rs (rows ++ (r ∷ [])))
        | inr dangling ↦ inr (integrity_error table, rw (new, dangling) refl)
      ]
    ]

pub insert_then {ℓ κ} :
    {R : Type ℓ} {B : Type κ} (table : String) (same : R → R → Bool) (valid : R → Bool)
    (rs rows : List R) (f : List R → Result B) (b : B)
    → ReturnsOrRaises b (f (rows ++ rs))
    → ReturnsOrRaises b (insert_all table same valid rs rows >>= f)
insert_then table same valid rs rows f b h =
    elim (insert_all-ReturnsOrRaises table same valid rs rows) [
      | inl inserted ↦ rw inserted h
      | inr (e, raised) ↦ rw raised (inr (e, refl))
    ]
