-- ===== src/Service/Runs/Store/Keys.antt =====
-- The rows made of the objects of a list, and the numbers of the dead letters.
use text.Mathlib.TextLemmas.{append_cancel_left}
use team_c_edr.Base.{
  ℕ, suc, ◌<◌, String, ◌<>◌, Bool, true, false, Option, none, some, List, [], ◌∷◌, ◌≡◌, refl, arith,
  any, All, Apart, In, here, there, Bool-cases, inl, inr, str_eq, str_mem, eq_iff, eq_refl,
  show_padded, show_padded_injective,
}
use team_c_edr.Json.{Fields}
use team_c_edr.Service.Runs.Ids.{text_at, ids_at}
use team_c_edr.Service.Runs.{numbered, dlq_row}
use team_c_edr.Service.Runs.Store.{none_or, same_dlq}
use team_c_edr.Service.Runs.Store.Known.{Holds, ids_at-Holds, NamesKnown}

module _ {R : Type 0} (f : ℕ → Fields → R) where
  numbered-any :
      (p : R → Bool) (i : ℕ) (ds : List Fields) {d : Fields}
      → In d ds
      → ((j : ℕ) → p (f j d) ≡ true)
      → any p (numbered f i ds) ≡ true
  unfolding numbered
  numbered-any p i [] m h = elim m [ ]
  numbered-any p i (d ∷ ds) here h = rw (h i) refl
  numbered-any p i (d' ∷ ds) (there m) h = ground (arith, numbered-any p (suc i) ds m h)

  pub numbered-All :
      (P : R → Type 0)
      → ((j : ℕ) (d : Fields) → P (f j d))
      → (i : ℕ) (ds : List Fields) → All P (numbered f i ds)
  unfolding numbered
  numbered-All P h i [] = tt
  numbered-All P h i (d ∷ ds) = (h i d, numbered-All P h (suc i) ds)

  -- The rows of the objects with an id have it.
  pub numbered-known :
      (key : R → Bool) (k : String) (x : String) (ds : List Fields)
      → ((j : ℕ) (d : Fields) → text_at k d ≡ x → str_eq x "" ≡ false → key (f j d) ≡ true)
      → str_mem x (ids_at k ds) ≡ true
      → any key (numbered f 0 ds) ≡ true
  numbered-known key k x ds h m =
      let o : Holds k ds x = ids_at-Holds k ds x m in
      numbered-any key 0 ds o.listed (λ j. h j o.object o.named o.given)

pub none_or-NamesKnown :
    (p : String → Bool) (known : List String)
    → ((x : String) → str_mem x known ≡ true → p x ≡ true)
    → (o : Option String) → NamesKnown known o
    → none_or p o ≡ true
none_or-NamesKnown p known h none k = refl
none_or-NamesKnown p known h (some x) k = h x k

-- The numbers of two dead letters differ, so their ids do.
dlq_ids_differ :
    (run_id : String) (i j : ℕ)
    → i < j
    → str_eq (run_id <> ("-dlq-" <> show_padded i)) (run_id <> ("-dlq-" <> show_padded j)) ≡ false
dlq_ids_differ run_id i j h = elim (Bool-cases (str_eq _ _)) [
  | inl same ↦
      let e = append_cancel_left run_id _ _ ((eq_iff _ _).0 same) in
      let n = show_padded_injective i j (append_cancel_left "-dlq-" _ _ e) in ground (arith, n, h)
  | inr differ ↦ differ
]

dlq_later :
    (run_id : String) (i k : ℕ) (d : Fields) (ds : List Fields)
    → i < k
    → All (λ r. same_dlq (dlq_row run_id i d) r ≡ false) (numbered (dlq_row run_id) k ds)
unfolding numbered dlq_row
dlq_later run_id i k d [] h = tt
dlq_later run_id i k d (d' ∷ ds) h = (
  rw (eq_refl run_id) (dlq_ids_differ run_id i k h),
  dlq_later run_id i (suc k) d ds (omega (arith, h)),
)

pub dlq-Apart :
    (run_id : String) (k : ℕ) (ds : List Fields) → Apart same_dlq (numbered (dlq_row run_id) k ds)
unfolding numbered
dlq-Apart run_id k [] = tt
dlq-Apart run_id k (d ∷ ds) =
    (dlq_later run_id k (suc k) d ds (omega arith), dlq-Apart run_id (suc k) ds)
