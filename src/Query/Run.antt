-- ===== src/Query/Run.antt =====
-- Go code that may panic.
use xuandb.Prelude.Text.{Text}

pub data Run {ℓ} (A : Type ℓ) : Type ℓ where
  returned : A → Run A
  panicked : Text → Run A

unfoldable pub and_then {ℓ κ} : {A : Type ℓ} {B : Type κ} → Run A → (A → Run B) → Run B
and_then (returned a) f = f a
and_then (panicked t) f = panicked t
