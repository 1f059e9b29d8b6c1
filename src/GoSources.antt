-- ===== src/GoSources.antt =====
-- What the program takes from its surroundings: uuid.NewString of github.com/google/uuid and the
-- clock's Now, on a state `S`.
use billingrse_backend.GoText.{Text}
use billingrse_backend.GoTime.{Time}

pub record Sources (S : Type 0) : Type 0 where
  pub new_string : S → Text × S
  pub now : S → Time × S
