-- ===== src/Translation/Emit.antt =====
-- A part of a generator's body: the variables it leaves, and what it yields on the way.
use local_llms.Base.{List, ◌++◌}

module _ {S E : Type 0} where
  infixl 5 ◌then_run◌
  abbrev pub ◌then_run◌ : S × List E → (S → S × List E) → S × List E
  p then_run f = ((f p.0).0, p.1 ++ (f p.0).1)
