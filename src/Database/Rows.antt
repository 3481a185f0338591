-- ===== src/Database/Rows.antt =====
-- Finding a row after a write, over the rows that Orm.antt describes.
use hcm.Prelude.{
  All, ◌⊎◌, subst, ◌≡◌, Bool, true, false, List, [], ◌∷◌, ◌++◌, some, find, any, arith, Bool-cases,
  inl, inr, none, refl, length, ap, suc,
}
use hcm.Database.Orm.{update_rows, save_row}

module _ {Row : Type 0} where
  pub find-passes : (p : Row → Bool) (rows : List Row) (r : Row) → find p rows ≡ some r → p r ≡ true
  find-passes p [] r e = absurd (ground arith)
  find-passes p (x ∷ rows) r e = elim (Bool-cases (p x)) [
    | inl yes_x ↦ let same : x ≡ r = ground arith in rw same at yes_x
    | inr no_x ↦ find-passes p rows r (ground arith)
  ]

  find-replaced :
      (p : Row → Bool) (r : Row) (rows : List Row)
      → p r ≡ true
      → any p rows ≡ true
      → find p (update_rows p (λ _. r) rows) ≡ some r
  find-replaced p r [] e h = absurd (ground arith)
  find-replaced p r (x ∷ rows) e h = ground (arith, find-replaced p r rows e)

  find-appended :
      (p : Row → Bool) (r : Row) (rows : List Row)
      → p r ≡ true
      → any p rows ≡ false
      → find p (rows ++ r ∷ []) ≡ some r
  find-appended p r [] e h = ground arith
  find-appended p r (x ∷ rows) e h = ground (arith, find-appended p r rows e)

  -- A row that was saved is the one found by its key.
  pub find-save_row :
      (same : Row → Row → Bool) (r : Row) (rows : List Row)
      → same r r ≡ true
      → find (same r) (save_row same r rows) ≡ some r
  find-save_row same r rows e =
      ground (arith, find-replaced (same r) r rows e, find-appended (same r) r rows e)

  pub unseen : (p : Row → Bool) (rows : List Row) → find p rows ≡ none → any p rows ≡ false
  unseen p [] h = refl
  unseen p (x ∷ rows) h = elim (Bool-cases (p x)) [
    | inl yes_x ↦ absurd (ground arith)
    | inr no_x ↦ let rest = unseen p rows (ground arith) in ground arith
  ]

  -- A new row is found by any test that it is the first to pass.
  pub find-save_new :
      (p : Row → Bool) (same : Row → Row → Bool) (r : Row) (rows : List Row)
      → p r ≡ true
      → find p rows ≡ none
      → any (same r) rows ≡ false
      → find p (save_row same r rows) ≡ some r
  find-save_new p same r rows passes none_before new =
      rw new (find-appended p r rows passes (unseen p rows none_before))

  seen_by :
      (p q : Row → Bool) (old : Row) (rows : List Row)
      → find p rows ≡ some old
      → q old ≡ true
      → any q rows ≡ true
  seen_by p q old [] found h = absurd (ground arith)
  seen_by p q old (x ∷ rows) found h = ground (arith, seen_by p q old rows)

  find-updated :
      (p q : Row → Bool) (old r : Row) (rows : List Row)
      → find p rows ≡ some old
      → q old ≡ true
      → p r ≡ true
      → find p (update_rows q (λ _. r) rows) ≡ some r
  find-updated p q old r [] found h passes = absurd (ground arith)
  find-updated p q old r (x ∷ rows) found h passes = ground (arith, find-updated p q old r rows)

  -- The row that a test finds, when that row is overwritten with one that passes.
  pub find-overwritten :
      (p : Row → Bool) (same : Row → Row → Bool) (old r : Row) (rows : List Row)
      → find p rows ≡ some old
      → same r old ≡ true
      → p r ≡ true
      → find p (save_row same r rows) ≡ some r
  find-overwritten p same old r rows found overwritten passes =
      rw (seen_by p (same r) old rows found overwritten)
        (find-updated p (same r) old r rows found overwritten passes)

  -- An update after which no touched row passes leaves none that does.
  pub none_left :
      (p : Row → Bool) (f : Row → Row)
      → ((r : Row) → p (f r) ≡ false)
      → (rows : List Row) → any p (update_rows p f rows) ≡ false
  none_left p f out [] = refl
  none_left p f out (r ∷ rows) = elim (Bool-cases (p r)) [
    | inl hit ↦ rw (hit, out r) (none_left p f out rows)
    | inr missed ↦ rw (missed, missed) (none_left p f out rows)
  ]

  pub length-update_rows :
      (p : Row → Bool) (f : Row → Row) (rows : List Row)
      → length (update_rows p f rows) ≡ length rows
  length-update_rows p f [] = refl
  length-update_rows p f (r ∷ rows) = ap suc (length-update_rows p f rows)

  find-update_other :
      (p q : Row → Bool) (r : Row) (rows : List Row)
      → p r ≡ false
      → ((x : Row) → q x ≡ true → p x ≡ false)
      → find p (update_rows q (λ _. r) rows) ≡ find p rows
  find-update_other p q r [] fails apart = refl
  find-update_other p q r (x ∷ rows) fails apart = elim (Bool-cases (q x)) [
    | inl hit ↦ rw (hit, fails, apart x hit) (find-update_other p q r rows fails apart)
    | inr missed ↦ ground (arith, missed, find-update_other p q r rows fails apart)
  ]

  find-append_other :
      (p : Row → Bool) (r : Row) (rows : List Row)
      → p r ≡ false
      → find p (rows ++ r ∷ []) ≡ find p rows
  find-append_other p r [] fails = rw fails refl
  find-append_other p r (x ∷ rows) fails = ground (arith, find-append_other p r rows fails)

  -- What a test finds when a row is saved that fails it and replaces none that passes.
  pub find-save_row_other :
      (p : Row → Bool) (same : Row → Row → Bool) (r : Row) (rows : List Row)
      → p r ≡ false
      → ((x : Row) → same r x ≡ true → p x ≡ false)
      → find p (save_row same r rows) ≡ find p rows
  find-save_row_other p same r rows fails apart =
      ground
        (arith, find-update_other p (same r) r rows fails apart, find-append_other p r rows fails)

module _ {Row : Type 0} (P : Row → Type 0) where
  -- What holds of every row holds of the row that is found.
  pub All-found :
      (p : Row → Bool) (rows : List Row) (r : Row) → find p rows ≡ some r → All P rows → P r
  All-found p [] r found h = absurd (cc found)
  All-found p (x ∷ rows) r found h = elim (Bool-cases (p x)) [
    | inl hit ↦ let same : x ≡ r = ground arith in subst P same h.0
    | inr missed ↦ All-found p rows r (ground arith) h.1
  ]

  module _ (same : Row → Row → Bool) (r : Row) (mine : P r) where
    -- The rows that a save of `r` leaves.
    abbrev pub OrReplaced : Row → Type 0
    OrReplaced x = (same r x ≡ true) ⊎ P x

    All-replaced :
        (rows : List Row) → All OrReplaced rows → All P (update_rows (same r) (λ _. r) rows)
    All-replaced [] h = tt
    All-replaced (x ∷ rows) h = (
      elim (Bool-cases (same r x)) [
        | inl hit ↦ rw hit mine
        | inr missed ↦ elim h.0 [ inl hit ↦ absurd (ground arith) | inr kept ↦ rw missed kept ]
      ],
      All-replaced rows h.1,
    )

    All-appended :
        (rows : List Row) → any (same r) rows ≡ false → All OrReplaced rows → All P (rows ++ r ∷ [])
    All-appended [] new h = (mine, tt)
    All-appended (x ∷ rows) new h = (
      elim h.0 [ inl hit ↦ absurd (ground arith) | inr kept ↦ kept ],
      All-appended rows (ground arith) h.1,
    )

    -- What holds of `r` and of every row that it does not replace holds once `r` is saved.
    pub All-save_row : (rows : List Row) → All OrReplaced rows → All P (save_row same r rows)
    All-save_row rows h = elim (Bool-cases (any (same r) rows)) [
      | inl there ↦ rw there (All-replaced rows h)
      | inr new ↦ rw new (All-appended rows new h)
    ]
