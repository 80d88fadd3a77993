-- ===== src/Prelude/Outcomes.antt =====
-- What a piece of code comes to where it may also fail an assertion or do what C++ leaves undefined.

pub data Outcome (A : Type 0) : Type 0 where
  ok : A → Outcome A
  asserted undefined : Outcome A

infixl 5 ◌>>=◌
abbrev pub ◌>>=◌ : {A B : Type 0} → Outcome A → (A → Outcome B) → Outcome B
ok a >>= k = k a
asserted >>= k = asserted
undefined >>= k = undefined
