-- ===== src/Hcm/Core/Keys.antt =====
-- The keys that hcm/hcm-core.ts joins from two ids.
use text.Mathlib.TextPositions.{eq_refl}
use text.Mathlib.TextLemmas.{append_assoc}
use hcm.Prelude.{
  subst, insert, refl, some, ◌≡◌, ap, ◌∙◌, String, ◌<>◌, ℤ, false, has, lookup, lookup-insert,
}
use hcm.Hcm.Core
use hcm.Hcm.Core.{HcmBalanceRow, HcmCore, Answer, key, get_balance}

-- A bar may stand in either id.
key_shared : (a b c : String) → key (a <> ("|" <> b)) c ≡ key a (b <> ("|" <> c))
unfolding key
key_shared a b c =
    append_assoc a ("|" <> b) ("|" <> c) ∙ ap (λ t. a <> t) (append_assoc "|" b ("|" <> c))

-- Two employees share one balance where a bar stands in their ids: what is seeded for the employee
-- `a|b` at the location `c` is read for the employee `a` at the location `b|c`, unless the key is
-- configured as invalid.
pub get_balance-seed_shared :
    (a b c : String) (balance : ℤ) (now later : String) (core : HcmCore)
    → has (key (a <> ("|" <> b)) c) core.faults.invalid_dimensions ≡ false
    → let (row, core') = Core.seed (a <> ("|" <> b)) c balance now core in
      get_balance a (b <> ("|" <> c)) later core' ≡ (Answer.returns row, core')
unfolding get_balance Core.seed
get_balance-seed_shared a b c balance now later core valid =
    let k = key (a <> ("|" <> b)) c in
    let row = (Core.seed (a <> ("|" <> b)) c balance now core).0 in
    let rows = insert k row core.balances in
    let seen : lookup k rows ≡ some row = rw (lookup-insert, eq_refl) refl in
    let shared = key_shared a b c in
    let found = subst (λ j. lookup j rows ≡ some row) shared seen in
    let allowed = subst (λ j. has j core.faults.invalid_dimensions ≡ false) shared valid in
    rw (allowed, found) refl
