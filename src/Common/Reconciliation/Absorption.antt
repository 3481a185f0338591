-- ===== src/Common/Reconciliation/Absorption.antt =====
-- Which committed entries a snapshot absorbs (common/reconciliation-math.ts): the matching by a set
-- of ids beside the matching by version.
use text.Mathlib.TextPositions.{eq_refl}
use hcm.Prelude.{
  ℕ, ◌≡◌, refl, ◌∙◌, ap, false, not, List, [], ◌∷◌, map, String, ◌==◌, eq_iff, ℤ, ◌+ℤ◌, filter,
  sum_by, reduce_sum-eq-sum_by, sum_by-filter, All, All-mono, All-mono₂, filter_ext, has,
  has-to_set, arith,
}
use hcm.Common.Reconciliation.{CommittedEntry, is_absorbed, pending_sum, unmatched}

abbrev pub ids : List CommittedEntry → List String
ids = map (λ e. e.id)

-- No id is listed twice, as the ids are primary keys.
abbrev pub HasDistinctIds : List CommittedEntry → Type 0
HasDistinctIds [] = Unit
HasDistinctIds (e ∷ es) = (has e.id (ids es) ≡ false) × HasDistinctIds es

-- The amounts that the snapshot of this version has not absorbed, and those that it has.
abbrev pub unabsorbed_sum : ℕ → List CommittedEntry → ℤ
unabsorbed_sum v es = sum_by (λ e. e.amount) (filter (λ e. not (is_absorbed v e)) es)

abbrev pub absorbed_sum : ℕ → List CommittedEntry → ℤ
absorbed_sum v es = sum_by (λ e. e.amount) (filter (is_absorbed v) es)

module _ (v : ℕ) where
  filtered_out :
      (x : String) (es : List CommittedEntry)
      → has x (ids es) ≡ false
      → has x (ids (filter (is_absorbed v) es)) ≡ false
  filtered_out x [] h = refl
  filtered_out x (e ∷ es) h = ground (arith, filtered_out x es)

  others_differ :
      (x : String) (es : List CommittedEntry)
      → has x (ids es) ≡ false
      → All (λ (e : CommittedEntry). (e.id == x) ≡ false) es
  others_differ x [] h = tt
  others_differ x (e ∷ es) h = (ground arith, others_differ x es (ground arith))

  abbrev Agrees : List String → CommittedEntry → Type 0
  Agrees s e = has e.id s ≡ is_absorbed v e

  matched_agree :
      (es : List CommittedEntry)
      → HasDistinctIds es
      → All (Agrees (ids (filter (is_absorbed v) es))) es
  matched_agree [] d = tt
  matched_agree (e ∷ es) d = (
    ground (arith, filtered_out e.id es d.0, eq_refl e.id),
    All-mono₂ es
        (λ (f : CommittedEntry) differs same. ground (arith, eq_iff e.id f.id, eq_iff f.id e.id))
        (others_differ e.id es d.0) (matched_agree es d.1),
  )

  -- The entries that stay are those that the snapshot has not absorbed.
  pub unmatched-eq-filter :
      (es : List CommittedEntry)
      → HasDistinctIds es
      → unmatched v es ≡ filter (λ e. not (is_absorbed v e)) es
  unfolding unmatched
  unmatched-eq-filter es d =
      filter_ext _ (λ e. not (is_absorbed v e)) es
        (All-mono es
          (λ (e : CommittedEntry) agrees.
            ap not (has-to_set e.id (ids (filter (is_absorbed v) es)) ∙ agrees))
          (matched_agree es d))

  pub pending_sum-unmatched :
      (es : List CommittedEntry)
      → HasDistinctIds es
      → pending_sum (unmatched v es) ≡ unabsorbed_sum v es
  unfolding pending_sum
  pending_sum-unmatched es d =
      ap pending_sum (unmatched-eq-filter es d) ∙ reduce_sum-eq-sum_by (λ e. e.amount) _

  pub pending_sum_splits :
      (es : List CommittedEntry) → pending_sum es ≡ absorbed_sum v es +ℤ unabsorbed_sum v es
  unfolding pending_sum
  pending_sum_splits es =
      reduce_sum-eq-sum_by (λ e. e.amount) es
      ∙ sum_by-filter (λ (e : CommittedEntry). e.amount) (is_absorbed v) es
