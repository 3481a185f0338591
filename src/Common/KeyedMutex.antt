-- ===== src/Common/KeyedMutex.antt =====
-- common/keyed-mutex.ts: the mutex of a key. Every call of `runExclusive` has a number, which also
-- names its promise `mine`; the promise is resolved once the call is done. The code between two
-- `await`s runs without interruption, so a call takes three steps: up to `await previous`, the start
-- of `fn` once that is resolved, and the `finally` block when `fn` returns or throws.
pub mod Invariant
pub mod Entering
pub mod Exclusion
use hcm.Prelude.{
  ℕ, suc, ◌<◌, ◌≡◌, Bool, true, false, Option, none, some, String, [], Dict, lookup, insert, remove,
  eqb, if◌then◌else◌,
}

-- Where a call stands: at `await previous`, in `fn`, or past `finally`.
pub data Stage : Type 0 where
  waiting running done : Stage

-- `tails`, and the calls made so far with their keys and the promise each waits for, `none` for
-- `Promise.resolve()`. Numbers from `count` on name no call.
pub record System : Type 0 where
  pub tails : Dict ℕ
  pub count : ℕ
  pub key_of : ℕ → String
  pub previous : ℕ → Option ℕ
  pub stage : ℕ → Stage

abbrev pub idle : System
idle = record {
  tails = [];
  count = 0;
  key_of = λ i. "";
  previous = λ i. none;
  stage = λ i. Stage.waiting;
}

abbrev pub update : {A : Type 0} → (ℕ → A) → ℕ → A → ℕ → A
update f i a j = if eqb j i then a else f j

abbrev pub is_done : Stage → Bool
is_done Stage.done = true
is_done _ = false

-- Whether the promise that a call waits for is resolved.
abbrev pub is_resolved : System → Option ℕ → Bool
is_resolved s none = true
is_resolved s (some p) = is_done (s.stage p)

-- `runExclusive` up to `await previous`.
unfoldable pub run_exclusive : String → System → System
run_exclusive key s = record {
  tails = insert key s.count s.tails;
  count = suc s.count;
  key_of = update s.key_of s.count key;
  previous = update s.previous s.count (lookup key s.tails);
  stage = update s.stage s.count Stage.waiting;
}

unfoldable pub start : ℕ → System → System
start mine s = record s { stage = update s.stage mine Stage.running }

-- `this.tails.get(key) === mine`
abbrev pub is_tail : ℕ → Option ℕ → Bool
is_tail mine none = false
is_tail mine (some p) = eqb p mine

unfoldable pub finish : ℕ → System → System
finish mine s =
    let key = s.key_of mine in
    record s {
      stage = update s.stage mine Stage.done;
      tails = if is_tail mine (lookup key s.tails) then remove key s.tails else s.tails;
    }

-- One step of some call.
pub data Step (s : System) : System → Type 0 where
  enters : (key : String) → Step s (run_exclusive key s)
  starts :
      (i : ℕ)
      → i < s.count
      → s.stage i ≡ Stage.waiting
      → is_resolved s (s.previous i) ≡ true
      → Step s (start i s)
  ends : (i : ℕ) → i < s.count → s.stage i ≡ Stage.running → Step s (finish i s)

-- What the calls can have done from the empty mutex on, in any order.
pub data Reach : System → Type 0 where
  begin : Reach idle
  later : {s t : System} → Reach s → Step s t → Reach t
