-- ===== src/Middleware/Concurrency/Tests.antt =====
-- Runs of src/middleware/concurrency_limit_middleware.cpp.
use novaboot.Base.{◌≡◌, refl, [], ◌∷◌, arith, Text, text, same}
use novaboot.Middleware.Paths.{path_allowed}
use novaboot.Middleware.Concurrency.{Config, try_acquire, release, rejected, handle}
use novaboot.Middleware.Concurrency.Permits.{
  Server, arrives, ends, starts, then_step, Balanced, Runs-Balanced,
}

abbrev config : Config
config = record {
  max_concurrent = 1;
  max_keys = 10;
  allowlist_paths = text "/health*" ∷ [];
  max_key_length = 16;
}

abbrev alice : Text
alice = text "alice"

abbrev busy : Server
busy = record { active = (alice, 1) ∷ []; permits = alice ∷ [] }

-- The one request of a key, while the next is rejected.
second_rejected : (handle config (text "/orders") alice busy.active).1 ≡ rejected
unfolding handle try_acquire path_allowed same
second_rejected = refl

idle_again : release alice busy.active ≡ []
unfolding release same
idle_again = refl

abbrev after_end : Server
after_end = record { active = release alice ((alice, 1) ∷ []); permits = [] }

Runs-Balanced_example : Balanced config after_end
unfolding handle try_acquire path_allowed same
Runs-Balanced_example = Runs-Balanced config after_end (omega arith) (
    then_step {s = busy} (then_step starts (arrives (text "/orders") alice _))
      (ends ((alice, 1) ∷ []) [] alice []))
