-- ===== src/Tests/Engine.antt =====
-- A candidate that is probed: runs of the theorems on an engine.
use nostmesh.Base.{ℕ, String, List, [], ◌∷◌, none, some, ◌≡◌, refl, In}
use nostmesh.Base.Outcome.{value}
use nostmesh.Net.{AddrPort, v4, unset}
use nostmesh.Engine.Candidate.{Candidate, host, unverified, is_safe_address}
use nostmesh.Engine.Operations.{
  Engine, default_limits, new_engine, FoundationText, Event, adding, attempting, succeeding, run,
  attempt, add_candidate, record_attempt, record_success, endpoint,
}
use nostmesh.Engine.Nomination.{address_at, endpoint-run}
use nostmesh.Engine.Probed.{Within, run-new_engine-Within}

abbrev foundation_text : FoundationText
foundation_text kind ip = "foundation"

-- 10.0.0.5:51820
abbrev at_home : AddrPort
at_home = record { addr = record { family = v4; value = 167_772_165 }; port = 51820 }

abbrev at_host : Candidate
at_host = record {
  id = "c1";
  kind = host;
  address = at_home;
  related = record { addr = record { family = unset; value = 0 }; port = 0 };
  foundation = "";
  priority = 1;
  status = unverified;
  source = "interface";
  attempts = 0;
  failure_reason = "";
  discovered_at = 0;
  verified_at = none;
  expires_at = 0;
}

abbrev empty : Engine
empty = record {
  session_id = "s";
  limits = default_limits;
  candidates = [];
  third_party_count = 0;
  nominated = none;
  started_at = 7;
}

new_empty : new_engine "s" default_limits 7 ≡ value empty
unfolding new_engine
new_empty = refl

abbrev probed : List Event
probed = adding at_host 10 ∷ attempting "c1" ∷ succeeding "c1" 12 ∷ []

found : endpoint (run foundation_text probed empty) ≡ some at_home
unfolding run attempt add_candidate is_safe_address record_attempt record_success endpoint
found = refl

endpoint-run_example :
    (id : String) × (at : ℕ) × In (succeeding id at) probed
    × (address_at id (run foundation_text probed empty) ≡ some at_home)
endpoint-run_example =
    endpoint-run foundation_text "s" default_limits 7 empty probed at_home new_empty found

run-new_engine-Within_example : Within (run foundation_text probed empty)
run-new_engine-Within_example =
    run-new_engine-Within foundation_text "s" default_limits 7 empty probed new_empty
