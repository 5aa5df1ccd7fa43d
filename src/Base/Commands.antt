-- ===== src/Base/Commands.antt =====
-- Runs of stateful code: a command takes the state it works on, and returns its result with the
-- new state, or stops.
use mathlib.Core.Path.{◌≡◌}

pub data Run {ℓ} (A : Type ℓ) : Type ℓ where
  ok : A → Run A
  -- `panic(...)`, which does not return
  panic : Run A
  -- an access through NULL or out of an object's bounds
  fault : Run A
  -- the fuel of a loop is used up
  hang : Run A

abbrev pub Cmd : Type 0 → Type 0 → Type 0
Cmd S A = S → Run (A × S)

abbrev pub bind {ℓ κ} : {A : Type ℓ} {B : Type κ} → Run A → (A → Run B) → Run B
bind (ok a) f = f a
bind panic f = panic
bind fault f = fault
bind hang f = hang

abbrev pub pure : {S A : Type 0} → A → Cmd S A
pure a s = ok (a, s)

abbrev pub continue : {S A B : Type 0} → (A → Cmd S B) → A × S → Run (B × S)
continue k (a, s) = k a s

infixl 5 ◌>>=◌ ◌>>◌
abbrev pub ◌>>=◌ : {S A B : Type 0} → Cmd S A → (A → Cmd S B) → Cmd S B
◌>>=◌ m k s = bind (m s) (continue k)

abbrev pub ◌>>◌ : {S A B : Type 0} → Cmd S A → Cmd S B → Cmd S B
◌>>◌ m n s = bind (m s) (continue (λ _. n))

abbrev pub stop : {S A : Type 0} → Cmd S A
stop s = panic

-- The run ends with a result and a state that satisfy `P`.
pub data Returns {S A : Type 0} (P : A → S → Type 0) (r : Run (A × S)) : Type 0 where
  returns : (a : A) (s : S) → r ≡ ok (a, s) → P a s → Returns P r

pub bind-Returns :
    {S A B : Type 0} {P : A → S → Type 0} {Q : B → S → Type 0} {r : Run (A × S)} {k : A → Cmd S B}
    → Returns P r
    → ((a : A) (s : S) → P a s → Returns Q (k a s))
    → Returns Q (bind r (continue k))
bind-Returns (returns a s e p) next = rw e (next a s p)
