-- ===== src/Tests/Models.antt =====
-- Inputs for the routing of models.
use plugin_baselithbot.Dict.{get, retain, keys}
use plugin_baselithbot.Routing.AuthRotation.Rounds.{
  Reading, acquire_each, IsCalm, acquire_each-order,
}
use plugin_baselithbot.Routing.Failover.{
  ProviderState, Action, returns, provider_error, answered, resting, provider_at, change_at,
  positions, call,
}
use plugin_baselithbot.Routing.Failover.Order.{Explained, call-Explained}
use plugin_baselithbot.Routing.AuthRotation.{
  AuthProfile, AuthProfilePool, ProfileStats, round_robin, eligible,
}
use plugin_baselithbot.Common.{
  ℕ, ◌≡◌, refl, suc, String, ◌≢◌, none, some, List, [], ◌∷◌, ◌==◌, if◌then◌else◌,
}

abbrev profile : String → AuthProfile
profile n = record { name = n; api_key = "k" }

abbrev unused : ProfileStats
unused = record { uses = 0; last_used_at = 0; last_error_at = none }

-- Two keys without errors.
abbrev pair : AuthProfilePool
pair = record {
  profiles = ("a", profile "a") ∷ ("b", profile "b") ∷ [];
  stats = ("a", unused) ∷ ("b", unused) ∷ [];
  policy = round_robin;
  cooldown = 60000;
  order = "a" ∷ "b" ∷ [];
}

abbrev pair_calm : IsCalm pair
unfolding get
pair_calm = record {
  robin = refl;
  distinct = (refl, (refl, tt));
  calm = ((unused, refl, refl), ((unused, refl, refl), tt));
}

abbrev two_readings : List Reading
two_readings =
    record { draw = 0; now = 1; later = 2 } ∷ record { draw = 0; now = 3; later = 4 } ∷ []

acquire_each-order_example :
    acquire_each pair two_readings ≡ some (profile "a") ∷ some (profile "b") ∷ []
unfolding get
acquire_each-order_example = acquire_each-order pair two_readings pair_calm refl

-- The first key had an error a second ago.
abbrev tired : AuthProfilePool
tired = record pair {
  stats = ("a", record unused { last_error_at = some 9000 }) ∷ ("b", unused) ∷ [];
}

tired-eligible : eligible tired 10000 ≡ "b" ∷ []
unfolding eligible retain keys
tired-eligible = refl

tired_some : eligible tired 10000 ≢ []
unfolding eligible retain keys
tired_some e = cc

abbrev provider : String → ProviderState
provider n = record {
  config = record { name = n; model = "m"; weight = 1; cooldown_seconds = 30000 };
  last_failure_at = 0;
  failures = 0;
  successes = 0;
}

-- The first provider fails, the others return the number of calls so far.
abbrev flaky : Action ℕ ℕ
flaky c (n, sts) = ((suc n, sts), if c.name == "p" then provider_error "quota" 500 else returns n)

abbrev three : List ProviderState
three = provider "p" ∷ provider "q" ∷ provider "r" ∷ []

flaky_answer : (call flaky 100 (0, three)).1 ≡ answered "q" 1
unfolding call resting provider_at change_at positions
flaky_answer = refl

call-Explained_example :
    Explained flaky 100 (0, three) (positions 0 three) (call flaky 100 (0, three))
call-Explained_example = call-Explained flaky 100 (0, three)
