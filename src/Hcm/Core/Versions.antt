-- ===== src/Hcm/Core/Versions.antt =====
-- The version stamps of hcm/hcm-core.ts over any history of calls.
use text.Mathlib.TextPositions.{eq_refl}
use hcm.Prelude.{
  ◌<◌, ◌≡◌, refl, ◌⊎◌, inl, inr, Option, none, some, List, [], ◌∷◌, String, ◌==◌, eq_iff, ℤ, pos,
  arith, Dict, lookup, insert, lookup-insert, Option-cases, Bool-cases,
}
use hcm.Hcm.Core
use hcm.Hcm.Core.{
  HcmBalanceRow, HcmCore, ApplyDeltaCommand, ApplyDeltaAck, Answer, PartialFaultConfig, key, bump,
  acknowledge, settle, signed,
}

-- A call that can change the object, other than `reset`, with its arguments and its time.
pub data Op : Type 0 where
  configure_faults : PartialFaultConfig → Op
  seed : String → String → ℤ → String → Op
  adjust : String → String → ℤ → String → Op
  get_balance : String → String → String → Op
  apply_delta : ApplyDeltaCommand → String → Op

unfoldable pub perform : Op → HcmCore → HcmCore
perform (Op.configure_faults p) core = Core.configure_faults p core
perform (Op.seed e l b now) core = (Core.seed e l b now core).1
perform (Op.adjust e l d now) core = (Core.adjust e l d now core).1
perform (Op.get_balance e l now) core = (Core.get_balance e l now core).1
perform (Op.apply_delta cmd now) core = (Core.apply_delta cmd now core).1

unfoldable pub perform_all : List Op → HcmCore → HcmCore
perform_all [] core = core
perform_all (op ∷ ops) core = perform_all ops (perform op core)

-- What may become of a row: it stays as it is, or its version has grown.
abbrev pub Grows : Option HcmBalanceRow → Option HcmBalanceRow → Type 0
Grows none new = Unit
Grows (some row) none = ⊥
Grows (some row) (some row') = (row.version < row'.version) ⊎ (row' ≡ row)

Grows-refl : (o : Option HcmBalanceRow) → Grows o o
Grows-refl none = tt
Grows-refl (some row) = inr refl

Grows-trans : (a b c : Option HcmBalanceRow) → Grows a b → Grows b c → Grows a c
Grows-trans none b c h k = tt
Grows-trans (some x) none c h k = absurd h
Grows-trans (some x) (some y) none h k = absurd k
Grows-trans (some x) (some y) (some z) (inl p) (inl q) = inl (omega arith)
Grows-trans (some x) (some y) (some z) (inl p) (inr q) = inl (ground arith)
Grows-trans (some x) (some y) (some z) (inr p) (inl q) = inl (ground arith)
Grows-trans (some x) (some y) (some z) (inr p) (inr q) = inr (cc)

module _ (j : String) where
  insert-Grows :
      (k : String) (row : HcmBalanceRow) (m : Dict HcmBalanceRow)
      → Grows (lookup k m) (some row)
      → Grows (lookup j m) (lookup j (insert k row m))
  insert-Grows k row m h = rw lookup-insert (elim (Bool-cases (k == j)) [
    | inl e ↦ rw (e, ← (eq_iff k j).0 e) h
    | inr e ↦ rw e (Grows-refl (lookup j m))
  ])

  -- What a call may make of the rows.
  abbrev KeepsRow : HcmCore → HcmCore → Type 0
  KeepsRow core core' = Grows (lookup j core.balances) (lookup j core'.balances)

  seed-Grows :
      (e l : String) (b : ℤ) (now : String) (core : HcmCore)
      → KeepsRow core (Core.seed e l b now core).1
  unfolding Core.seed
  seed-Grows e l b now core =
      insert-Grows (key e l) _ core.balances (elim (Option-cases (lookup (key e l) core.balances)) [
        | inl unseen ↦ rw unseen tt
        | inr (row, seen) ↦ rw seen (inl (omega arith))
      ])

  bump-Grows :
      (k : String) (row row' : HcmBalanceRow) (core : HcmCore)
      → lookup k core.balances ≡ some row
      → row.version < row'.version
      → Grows (lookup j core.balances) (lookup j (insert k row' core.balances))
  bump-Grows k row row' core found newer = insert-Grows k row' core.balances (rw found (inl newer))

  adjust-Grows :
      (e l : String) (d : ℤ) (now : String) (core : HcmCore)
      → KeepsRow core (Core.adjust e l d now core).1
  unfolding Core.adjust
  adjust-Grows e l d now core = elim (Option-cases (lookup (key e l) core.balances)) [
    | inl unseen ↦ rw (unseen, Core.adjust) (Grows-refl _)
    | inr (row, seen) ↦ rw (seen, Core.adjust) (bump-Grows (key e l) row _ core seen (omega arith))
  ]

  get_balance-Grows :
      (e l now : String) (core : HcmCore) → KeepsRow core (Core.get_balance e l now core).1
  unfolding Core.get_balance
  get_balance-Grows e l now core =
      ground (arith, Grows-refl (lookup j core.balances), seed-Grows e l (pos 0) now core)

  settle-Grows :
      (cmd : ApplyDeltaCommand) (now : String) (row : HcmBalanceRow) (core : HcmCore)
      → lookup (key cmd.employee_id cmd.location_id) core.balances ≡ some row
      → KeepsRow core (settle cmd now row core).1
  unfolding settle acknowledge
  settle-Grows cmd now row core seen = ground (
    arith,
    Grows-refl (lookup j core.balances),
    bump-Grows (key cmd.employee_id cmd.location_id) row (bump row (signed cmd) now) core seen
        (omega arith),
  )

  -- The row that `seed` returns is the row that it stores.
  seed_stored :
      (e l : String) (b : ℤ) (now : String) (core : HcmCore)
      → lookup (key e l) (Core.seed e l b now core).1.balances ≡ some (Core.seed e l b now core).0
  unfolding Core.seed
  seed_stored e l b now core = rw (lookup-insert, eq_refl)

  apply_delta-Grows :
      (cmd : ApplyDeltaCommand) (now : String) (core : HcmCore)
      → KeepsRow core (Core.apply_delta cmd now core).1
  unfolding Core.apply_delta
  apply_delta-Grows cmd now core =
      let e = cmd.employee_id in
      let l = cmd.location_id in
      let created = Core.seed e l (pos 0) now core in
      elim (Option-cases (lookup cmd.idempotency_key core.applied)) [
        | inr (prior, done) ↦ rw (done, Core.apply_delta) (Grows-refl _)
        | inl fresh ↦ elim (Option-cases (lookup (key e l) core.balances)) [
          | inl unseen ↦ ground (
            arith,
            Grows-refl (lookup j core.balances),
            Grows-trans (lookup j core.balances) (lookup j created.1.balances)
                (lookup j (settle cmd now created.0 created.1).1.balances)
                (seed-Grows e l (pos 0) now core)
                (settle-Grows cmd now created.0 created.1 (seed_stored e l (pos 0) now core)),
          )
          | inr (row, seen) ↦
              ground
                (arith, Grows-refl (lookup j core.balances), settle-Grows cmd now row core seen)
        ]
      ]

  perform-Grows : (op : Op) (core : HcmCore) → KeepsRow core (perform op core)
  unfolding perform Core.configure_faults
  perform-Grows (Op.configure_faults p) core = Grows-refl (lookup j core.balances)
  perform-Grows (Op.seed e l b now) core = seed-Grows e l b now core
  perform-Grows (Op.adjust e l d now) core = adjust-Grows e l d now core
  perform-Grows (Op.get_balance e l now) core = get_balance-Grows e l now core
  perform-Grows (Op.apply_delta cmd now) core = apply_delta-Grows cmd now core

  -- After any calls but `reset` the row at any key is the row that it was, or has a higher version:
  -- no row is lost, no version falls, and no change goes without a new version.
  pub perform_all-Grows :
      (ops : List Op) (core : HcmCore)
      → Grows (lookup j core.balances) (lookup j (perform_all ops core).balances)
  unfolding perform_all
  perform_all-Grows [] core = Grows-refl (lookup j core.balances)
  perform_all-Grows (op ∷ ops) core =
      Grows-trans _ (lookup j (perform op core).balances) _ (perform-Grows op core)
        (perform_all-Grows ops (perform op core))
