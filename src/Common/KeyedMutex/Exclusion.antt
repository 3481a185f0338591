-- ===== src/Common/KeyedMutex/Exclusion.antt =====
-- What common/keyed-mutex.ts promises of the calls for one key.
use hcm.Prelude.{
  ℕ, zero, suc, ◌<◌, ◌≡◌, ◌≢◌, ◌⊎◌, inl, inr, sym, none, true, String, lookup, Option-cases,
  Bool-cases, ltb, arith, refl, ◌↔◌, ◌∙◌,
}
use hcm.Common.KeyedMutex.{System, Stage, Reach, is_resolved}
use hcm.Common.KeyedMutex.Invariant.{Inv}
use hcm.Common.KeyedMutex.Entering.{Reach-Inv}

-- Two calls for the same key never run at the same time.
pub mutual_exclusion :
    (s : System)
    → Reach s
    → (i j : ℕ) → i < s.count
    → j < s.count
    → s.key_of i ≡ s.key_of j
    → s.stage i ≡ Stage.running
    → s.stage j ≡ Stage.running
    → i ≡ j
mutual_exclusion s r i j hi hj same runs_i runs_j =
    let inv = Reach-Inv r in
    elim (Bool-cases (ltb i j)) [
      | inl before ↦ cc (inv.in_order j hj (λ w. cc (w, runs_j)) i (ground arith) same, runs_i)
      | inr after ↦ elim (Bool-cases (ltb j i)) [
        | inl later ↦
            cc (inv.in_order i hi (λ w. cc (w, runs_i)) j (ground arith) (sym same), runs_j)
        | inr equal ↦ ground arith
      ]
    ]

-- The calls for one key run in the order in which they were made: one that runs or has run had every
-- earlier one done.
pub first_in_first_out :
    (s : System)
    → Reach s
    → (i j : ℕ) → i < j
    → j < s.count
    → s.key_of i ≡ s.key_of j
    → s.stage j ≢ Stage.waiting
    → s.stage i ≡ Stage.done
first_in_first_out s r i j before hj same moved = (Reach-Inv r).in_order j hj moved i before same

-- A call for this key that is running, or one that waits for nothing.
abbrev pub CanMove : System → String → Type 0
CanMove s k =
    (i : ℕ) × (i < s.count)
    × (s.key_of i ≡ k)
    × ((s.stage i ≡ Stage.running)
        ⊎ ((s.stage i ≡ Stage.waiting) × (is_resolved s (s.previous i) ≡ true)))

Stage-cases : (t : Stage) → (t ≡ Stage.waiting) ⊎ ((t ≡ Stage.running) ⊎ (t ≡ Stage.done))
Stage-cases Stage.waiting = inl refl
Stage-cases Stage.running = inr (inl refl)
Stage-cases Stage.done = inr (inr refl)

unblocked :
    (s : System) (k : String)
    → Inv s
    → (fuel i : ℕ) → i < fuel
    → i < s.count
    → s.key_of i ≡ k
    → s.stage i ≢ Stage.done
    → CanMove s k
unblocked s k inv zero i h lt e unfinished = absurd (omega arith)
unblocked s k inv (suc fuel) i h lt e unfinished = elim (Stage-cases (s.stage i)) [
  | inr (inr over) ↦ absurd (unfinished over)
  | inr (inl runs) ↦ (i, lt, e, inl runs)
  | inl waits ↦ elim (Option-cases (s.previous i)) [
    | inl none_before ↦ (i, lt, e, inr (waits, rw none_before refl))
    | inr (p, from) ↦ elim (Stage-cases (s.stage p)) [
      | inr (inr over) ↦ (i, lt, e, inr (waits, ground (arith, from, over)))
      | inr (inl runs) ↦
          let l = inv.linked i p lt from in
          unblocked s k inv fuel p (omega (arith, l.below)) (omega (arith, l.below))
            (l.same_key ∙ e) (λ over. cc (runs, over))
      | inl waits' ↦
          let l = inv.linked i p lt from in
          unblocked s k inv fuel p (omega (arith, l.below)) (omega (arith, l.below))
            (l.same_key ∙ e) (λ over. cc (waits', over))
    ]
  ]
]

-- No deadlock and no waiting for another key: as long as a call for a key is not done, some call for
-- the same key runs or can start at once.
pub unfinished-CanMove :
    (s : System) → Reach s → (i : ℕ) → i < s.count → s.stage i ≢ Stage.done → CanMove s (s.key_of i)
unfinished-CanMove s r i lt unfinished =
    unblocked s (s.key_of i) (Reach-Inv r) (suc i) i (omega arith) lt refl unfinished

-- No entry of `tails` is left behind: a key has one exactly while a call for it is not done.
tails_iff :
    (s : System)
    → Reach s
    → (k : String)
    → (lookup k s.tails ≡ none) ↔ ((i : ℕ) → i < s.count → s.key_of i ≡ k → s.stage i ≡ Stage.done)
tails_iff s r k = (
  λ gone i lt e. (Reach-Inv r).untracked i lt (rw e gone),
  λ all_done. elim (Option-cases (lookup k s.tails)) [
    | inl gone ↦ gone
    | inr (p, at) ↦
        let l = (Reach-Inv r).tracked k p at in
        absurd ((Reach-Inv r).live k p at (all_done p l.below l.same_key))
  ],
)
