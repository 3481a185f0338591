-- ===== src/Common/KeyedMutex/Invariant.antt =====
-- What ties the map of tails to the calls of common/keyed-mutex.ts.
use hcm.Prelude.{
  lookup-remove, eq_iff, ◌∙◌, ap, eqb, suc, Option-cases, Bool-cases, inl, inr, ltb, true, ℕ, suc,
  ◌<◌, ◌≡◌, ◌≢◌, none, some, String, lookup, arith, true,
}
use hcm.Common.KeyedMutex.{
  is_tail, is_tail, finish, System, Stage, start, finish, idle, is_resolved,
}

-- All earlier calls of the key of call `i` are done.
abbrev pub EarlierDone : System → ℕ → Type 0
EarlierDone s i = (j : ℕ) → j < i → s.key_of j ≡ s.key_of i → s.stage j ≡ Stage.done

-- Call `p` is the latest one of key `k` below `n`.
pub record IsLatest (s : System) (k : String) (n p : ℕ) : Type 0 where
  pub below : p < n
  pub same_key : s.key_of p ≡ k
  pub none_between : (j : ℕ) → p < j → j < n → s.key_of j ≢ k

pub record Inv (s : System) : Type 0 where
  pub in_order : (i : ℕ) → i < s.count → s.stage i ≢ Stage.waiting → EarlierDone s i
  pub first : (i : ℕ) → i < s.count → s.previous i ≡ none → EarlierDone s i
  pub linked : (i p : ℕ) → i < s.count → s.previous i ≡ some p → IsLatest s (s.key_of i) i p
  pub untracked :
      (i : ℕ) → i < s.count → lookup (s.key_of i) s.tails ≡ none → s.stage i ≡ Stage.done
  pub tracked : (k : String) (p : ℕ) → lookup k s.tails ≡ some p → IsLatest s k s.count p
  pub live : (k : String) (p : ℕ) → lookup k s.tails ≡ some p → s.stage p ≢ Stage.done

pub idle-Inv : Inv idle
idle-Inv = record {
  in_order = λ i lt. absurd (omega arith);
  first = λ i lt. absurd (omega arith);
  linked = λ i p lt. absurd (omega arith);
  untracked = λ i lt. absurd (omega arith);
  tracked = λ k p e. absurd (cc e);
  live = λ k p e. absurd (cc e);
}

-- A call whose promise is resolved has none before it that is not done.
resolved-EarlierDone :
    (s : System) (i : ℕ)
    → Inv s
    → i < s.count
    → is_resolved s (s.previous i) ≡ true
    → EarlierDone s i
resolved-EarlierDone s i inv lt r = elim (Option-cases (s.previous i)) [
  | inl e ↦ inv.first i lt e
  | inr (p, e) ↦
      let latest = inv.linked i p lt e in
      let over : s.stage p ≡ Stage.done = ground (arith, r, e) in
      λ j below same. elim (Bool-cases (ltb j p)) [
        | inl before ↦
            inv.in_order p (omega (arith, latest.below)) (λ w. cc (w, over)) j (ground arith)
              (cc (same, latest.same_key))
        | inr after ↦ ground (arith, latest.none_between j, over)
      ]
]

pub start-Inv :
    (s : System) (i : ℕ)
    → i < s.count
    → s.stage i ≡ Stage.waiting
    → is_resolved s (s.previous i) ≡ true
    → Inv s
    → Inv (start i s)
unfolding start
start-Inv s i lt e r inv = record {
  in_order = λ j below moved k earlier same. stays k (earlier_done j below moved k earlier same);
  first =
      λ j below none_before k earlier same. stays k (inv.first j below none_before k earlier same);
  linked = λ j p below from.
      let l = inv.linked j p below from in
      record { below = l.below; same_key = l.same_key; none_between = l.none_between };
  untracked = λ j below gone. stays j (inv.untracked j below gone);
  tracked = λ k p at.
      let l = inv.tracked k p at in
      record { below = l.below; same_key = l.same_key; none_between = l.none_between };
  live = λ k p at d. ground (arith, inv.live k p at);
}
  where
    stays : (k : ℕ) → s.stage k ≡ Stage.done → (start i s).stage k ≡ Stage.done
    stays k d = ground arith

    earlier_done : (j : ℕ) → j < s.count → (start i s).stage j ≢ Stage.waiting → EarlierDone s j
    earlier_done j below moved k earlier same = elim (Bool-cases (eqb j i)) [
      | inl self ↦
          let j-eq : j ≡ i = ground arith in
          resolved-EarlierDone s i inv lt r k (omega arith) (same ∙ ap s.key_of j-eq)
      | inr other ↦ inv.in_order j below (λ w. moved (rw other w)) k earlier same
    ]

-- The last call of its key below `suc n`, unless the key is that of call `n`.
pub later-IsLatest :
    (s : System) (n : ℕ) (k : String) (p : ℕ)
    → IsLatest s k n p
    → s.key_of n ≢ k
    → IsLatest s k (suc n) p
later-IsLatest s n k p l other = record {
  below = omega (arith, l.below);
  same_key = l.same_key;
  none_between = λ j above below. elim (Bool-cases (eqb j n)) [
    | inl self ↦ let j-eq : j ≡ n = ground arith in rw j-eq other
    | inr elsewhere ↦ l.none_between j above (ground arith)
  ];
}

pub finish-Inv :
    (s : System) (i : ℕ) → i < s.count → s.stage i ≡ Stage.running → Inv s → Inv (finish i s)
unfolding finish
finish-Inv s i lt e inv = record {
  in_order = λ j below moved k earlier same.
      stays k (inv.in_order j below (λ w. moved (still j w)) k earlier same);
  first =
      λ j below none_before k earlier same. stays k (inv.first j below none_before k earlier same);
  linked = λ j p below from.
      let l = inv.linked j p below from in
      record { below = l.below; same_key = l.same_key; none_between = l.none_between };
  untracked = λ j below gone. over j below gone;
  tracked = λ k p at.
      let l = inv.tracked k p (kept k p at).0 in
      record { below = l.below; same_key = l.same_key; none_between = l.none_between };
  live = λ k p at d. let (at', other) = kept k p at in inv.live k p at' (was_done p other d);
}
  where
    stays : (k : ℕ) → s.stage k ≡ Stage.done → (finish i s).stage k ≡ Stage.done
    stays k d = ground arith

    still : (k : ℕ) → s.stage k ≡ Stage.waiting → (finish i s).stage k ≡ Stage.waiting
    still k w = ground arith

    kept :
        (k : String) (p : ℕ)
        → lookup k (finish i s).tails ≡ some p
        → (lookup k s.tails ≡ some p) × (p ≢ i)
    kept k p at = elim (Bool-cases (is_tail i (lookup (s.key_of i) s.tails))) [
      | inl own ↦
          let at' = rw (own, lookup-remove) at at in
          ground (arith, eq_iff (s.key_of i) k, at', inv.tracked k p)
      | inr other ↦ let at' = rw other at at in ground (arith, other, at', inv.tracked k p)
    ]

    was_done : (p : ℕ) → p ≢ i → (finish i s).stage p ≡ Stage.done → s.stage p ≡ Stage.done
    was_done p other d = ground arith

    over :
        (j : ℕ)
        → j < s.count
        → lookup (s.key_of j) (finish i s).tails ≡ none
        → (finish i s).stage j ≡ Stage.done
    over j below gone = elim (Bool-cases (is_tail i (lookup (s.key_of i) s.tails))) [
      | inl own ↦
          let found : lookup (s.key_of i) s.tails ≡ some i = ground (arith, own) in
          let latest = inv.tracked (s.key_of i) i found in
          let gone' = rw (own, lookup-remove) at gone in
          ground (
            arith,
            eq_iff (s.key_of i) (s.key_of j),
            gone',
            latest.none_between j,
            inv.in_order i lt (λ w. cc (w, e)) j,
            inv.untracked j below,
          )
      | inr other ↦ let gone' = rw other at gone in stays j (inv.untracked j below gone')
    ]
