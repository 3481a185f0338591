-- ===== src/Common/KeyedMutex/Entering.antt =====
-- A call of common/keyed-mutex.ts that enters, and every history of calls.
use hcm.Prelude.{
  sym, ◌≤◌, lookup-insert, if◌then◌else◌, ◌==◌, ◌⊎◌, eq_iff, ◌∙◌, ap, suc, Bool-cases, inl, inr,
  ltb, ℕ, suc, ◌<◌, ◌≡◌, ◌≢◌, none, some, String, lookup, arith, refl,
}
use hcm.Common.KeyedMutex.{
  Step, enters, starts, ends, Reach, begin, later, System, Stage, Step, Reach, run_exclusive,
}
use hcm.Common.KeyedMutex.Invariant.{
  Inv, IsLatest, EarlierDone, later-IsLatest, idle-Inv, start-Inv, finish-Inv,
}

module _ (key : String) (s : System) where
  abbrev entered : System
  entered = run_exclusive key s

  -- What a new call leaves of the old ones, and where it stands itself.
  stage_old : (k : ℕ) → k < s.count → entered.stage k ≡ s.stage k
  unfolding run_exclusive
  stage_old k h = ground arith

  key_old : (k : ℕ) → k < s.count → entered.key_of k ≡ s.key_of k
  unfolding run_exclusive
  key_old k h = ground arith

  previous_old : (k : ℕ) → k < s.count → entered.previous k ≡ s.previous k
  unfolding run_exclusive
  previous_old k h = ground arith

  new_call :
      (entered.stage s.count ≡ Stage.waiting)
      × (entered.key_of s.count ≡ key)
      × (entered.previous s.count ≡ lookup key s.tails)
  unfolding run_exclusive
  new_call = (ground arith, ground arith, ground arith)

  place : (j : ℕ) → j < entered.count → (j < s.count) ⊎ (j ≡ s.count)
  unfolding run_exclusive
  place j h = elim (Bool-cases (ltb j s.count)) [
    | inl old ↦ inl (ground arith)
    | inr new ↦ inr (ground arith)
  ]

  looked_up :
      (k : String) → lookup k entered.tails ≡ (if key == k then some s.count else lookup k s.tails)
  unfolding run_exclusive
  looked_up k = lookup-insert key k s.count s.tails

  entered-IsLatest :
      (k k' : String) (n p : ℕ) → n ≤ s.count → k' ≡ k → IsLatest s k n p → IsLatest entered k' n p
  entered-IsLatest k k' n p h e l = record {
    below = l.below;
    same_key = key_old p (omega (arith, l.below)) ∙ l.same_key ∙ sym e;
    none_between = λ j above below same.
        l.none_between j above below (sym (key_old j (omega arith)) ∙ same ∙ e);
  }

  entered-EarlierDone : (j : ℕ) → j < s.count → EarlierDone s j → EarlierDone entered j
  entered-EarlierDone j h d k earlier same =
      stage_old k (omega arith) ∙ d k earlier (sym (key_old k (omega arith)) ∙ same ∙ key_old j h)

  -- The entry of a key that is found after the call has entered.
  tail_found :
      (k : String) (p : ℕ)
      → lookup k entered.tails ≡ some p
      → ((k ≡ key) × (p ≡ s.count)) ⊎ ((k ≢ key) × (lookup k s.tails ≡ some p))
  tail_found k p at =
      let at' = sym (looked_up k) ∙ at in
      elim (Bool-cases (key == k)) [
        | inl same ↦ inl (ground (arith, eq_iff key k, at', same))
        | inr other ↦ inr (ground (arith, eq_iff key k, at', other))
      ]

  entered-EarlierDone_self : Inv s → lookup key s.tails ≡ none → EarlierDone entered s.count
  entered-EarlierDone_self inv gone k earlier same =
      let own : s.key_of k ≡ key = sym (key_old k earlier) ∙ same ∙ new_call.1 in
      stage_old k earlier ∙ inv.untracked k earlier (rw own gone)

  entered-untracked :
      Inv s
      → (j : ℕ) → j < entered.count
      → lookup (entered.key_of j) entered.tails ≡ none
      → entered.stage j ≡ Stage.done
  entered-untracked inv j below gone =
      let gone' = sym (looked_up (entered.key_of j)) ∙ gone in
      let same = eq_iff key (entered.key_of j) in
      elim (place j below) [
        | inl old ↦ ground (arith, gone', same, key_old j old, stage_old j old, inv.untracked j old)
        | inr new ↦ ground (arith, gone', same, ap entered.key_of new, new_call.1)
      ]

  entered-tracked :
      Inv s
      → (k : String) (p : ℕ) → lookup k entered.tails ≡ some p
      → IsLatest entered k (suc s.count) p
  entered-tracked inv k p at = elim (tail_found k p at) [
    | inl (e, last) ↦ record {
      below = omega (arith, last);
      same_key = ap entered.key_of last ∙ new_call.1 ∙ sym e;
      none_between = λ j above below. absurd (omega (arith, last));
    }
    | inr (other, found) ↦
        later-IsLatest entered s.count k p
          (entered-IsLatest k k s.count p (omega arith) refl (inv.tracked k p found))
          (λ e. other (sym e ∙ new_call.1))
  ]

  entered-live :
      Inv s → (k : String) (p : ℕ) → lookup k entered.tails ≡ some p → entered.stage p ≢ Stage.done
  entered-live inv k p at d = elim (tail_found k p at) [
    | inl (e, last) ↦ cc (ap entered.stage last, new_call.0, d)
    | inr (other, found) ↦ inv.live k p found (sym (stage_old p (inv.tracked k p found).below) ∙ d)
  ]

  run_exclusive-Inv : Inv s → Inv entered
  unfolding run_exclusive
  run_exclusive-Inv inv = record {
    in_order = λ j below moved. elim (place j below) [
      | inl old ↦ entered-EarlierDone j old (inv.in_order j old (λ w. moved (stage_old j old ∙ w)))
      | inr new ↦ absurd (moved (ap entered.stage new ∙ new_call.0))
    ];
    first = λ j below none_before. elim (place j below) [
      | inl old ↦
          entered-EarlierDone j old (inv.first j old (sym (previous_old j old) ∙ none_before))
      | inr new ↦
          let gone = sym new_call.2 ∙ ap entered.previous (sym new) ∙ none_before in
          rw new (entered-EarlierDone_self inv gone)
    ];
    linked = λ j p below from. elim (place j below) [
      | inl old ↦
          entered-IsLatest (s.key_of j) (entered.key_of j) j p (omega arith) (key_old j old)
            (inv.linked j p old (sym (previous_old j old) ∙ from))
      | inr new ↦
          let found = sym new_call.2 ∙ ap entered.previous (sym new) ∙ from in
          rw new (
            entered-IsLatest key (entered.key_of s.count) s.count p (omega arith) new_call.1
              (inv.tracked key p found))
    ];
    untracked = entered-untracked inv;
    tracked = entered-tracked inv;
    live = entered-live inv;
  }

Step-Inv : {s t : System} → Step s t → Inv s → Inv t
Step-Inv {s} (enters key) inv = run_exclusive-Inv key s inv
Step-Inv {s} (starts i lt e r) inv = start-Inv s i lt e r inv
Step-Inv {s} (ends i lt e) inv = finish-Inv s i lt e inv

pub Reach-Inv : {s : System} → Reach s → Inv s
Reach-Inv begin = idle-Inv
Reach-Inv (later r step) = Step-Inv step (Reach-Inv r)
