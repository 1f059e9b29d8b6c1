-- ===== src/GoContext.antt =====
-- A context.Context argument: the code only asks whether it is nil.
use billingrse_backend.Prelude.{Bool, true, false}

pub data Context : Type 0 where
  nil_context live : Context

abbrev pub is_nil_context : Context → Bool
is_nil_context nil_context = true
is_nil_context live = false
