-- ===== src/Mm/Checked.antt =====
-- Code that may panic (an index out of an array, a failed `assert!`): none is the panic.
use theory_os.Base.{Option, none, some}

infixl 5 ◌>>=◌
abbrev pub ◌>>=◌ : {A B : Type 0} → Option A → (A → Option B) → Option B
none >>= f = none
some a >>= f = f a
