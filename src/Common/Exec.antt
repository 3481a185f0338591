-- ===== src/Common/Exec.antt =====
-- Methods that change a state and may throw. What was written before a throw stays written, except
-- in a transaction, which is rolled back.
use hcm.Prelude.{◌≡◌, refl}

pub data Result {ℓ} (E A : Type ℓ) : Type ℓ where
  ok : A → Result E A
  err : E → Result E A

abbrev pub Exec : Type 0 → Type 0 → Type 0 → Type 0
Exec E S A = S → Result E A × S

module _ {E S A : Type 0} where
  abbrev pub pure : A → Exec E S A
  pure a s = (ok a, s)

  abbrev pub throw : E → Exec E S A
  throw e s = (err e, s)

  abbrev pub gets : (S → A) → Exec E S A
  gets f s = (ok (f s), s)

abbrev pub modify : {E S : Type 0} → (S → S) → Exec E S (Unit {0})
modify f s = (ok tt, f s)

infixl 5 ◌>>=◌ ◌>>◌
abbrev pub ◌>>=◌ : {E S A B : Type 0} → Exec E S A → (A → Exec E S B) → Exec E S B
◌>>=◌ m f s = let (r, s') = m s in elim r [ ok a ↦ f a s' | err e ↦ (err e, s') ]

abbrev pub ◌>>◌ : {E S A B : Type 0} → Exec E S A → Exec E S B → Exec E S B
m >> k = m >>= λ _. k

abbrev pub end_transaction : {E S A : Type 0} → S → Result E A × S → Result E A × S
end_transaction s (ok a, s') = (ok a, s')
end_transaction s (err e, s') = (err e, s)

-- `dataSource.transaction(body)`: a throw leaves the state as it was.
abbrev pub transaction : {E S A : Type 0} → Exec E S A → Exec E S A
transaction m s = end_transaction s (m s)

-- What holds before a transaction and after every successful end of its body holds after it.
pub transaction_keeps :
    {E S A : Type 0} (P : S → Type 0) (s : S) (res : Result E A × S)
    → P s
    → ((a : A) (s' : S) → res ≡ (ok a, s') → P s')
    → P (end_transaction s res).1
transaction_keeps P s (ok a, s') before after = after a s' refl
transaction_keeps P s (err e, s') before after = before
