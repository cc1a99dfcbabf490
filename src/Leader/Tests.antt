-- ===== src/Leader/Tests.antt =====
-- Runs of the election at concrete rounds.
use easy_cron.Prelude.{true, false, List, [], ◌∷◌}
use easy_cron.Leader.{Round, ping_ok, ping_failed, acquired, not_acquired}

abbrev lost_then_won : List Round
lost_then_won =
    record { conn = true; lock = not_acquired; beats = []; demote_panics = false }
    ∷ record {
      conn = true;
      lock = acquired;
      beats = ping_ok ∷ ping_failed false ∷ [];
      demote_panics = true;
    }
    ∷ record { conn = true; lock = acquired; beats = ping_ok ∷ []; demote_panics = false }
    ∷ []
