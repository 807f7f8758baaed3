-- ===== src/Examples/Polling.antt =====
-- A tick over the household's two controllers, the sync of their configurations, and a device
-- removal that the cloud does not hear of yet.
use poolpilot_relay.Prelude.{
  All, List, Map, Option, String, [], any, arith, false, inl, length, lookup, map, none, refl, some,
  suc, true, zero, ℕ, ◌==◌, ◌∷◌, ◌≡◌, ◌⊎◌,
}
use poolpilot_relay.Cloud.Calls.{is_2xx, no_answer, status, update_result}
use poolpilot_relay.Cloud.Flight.{lock_taken, runs_pass}
use poolpilot_relay.Cloud.Outbox.{Round, http_status}
use poolpilot_relay.Cloud.Outbox.Turns.{IsQuiet}
use poolpilot_relay.Cloud.Removals.Owed.{Done, Owes}
use poolpilot_relay.Cloud.Removals.Pass.{Attempt, every_due, removal_pass}
use poolpilot_relay.Cloud.Removals.Reported.{removal_pass-Owes}
use poolpilot_relay.Cloud.Sync.{Push, sync_pass}
use poolpilot_relay.Cloud.Sync.Cleared.{Accepts, Ready, flag_cleared}
use poolpilot_relay.Cloud.Sync.Settled.{sync_pass_clears}
use poolpilot_relay.Examples.Data.{
  clock, home, hour, household, lower, ph_reading, ph_rule, pool, spa, stale_rule_1h, upper,
}
use poolpilot_relay.Go.Time.{Time, zero_time}
use poolpilot_relay.Poller.{Ending, Polling, Snapshot, no_reader, polled, tick}
use poolpilot_relay.Poller.Configured.{config}
use poolpilot_relay.Poller.Ends.{Enough, tick_ends}
use poolpilot_relay.Poller.Frame.{KeepsRounds}
use poolpilot_relay.Poller.Synced.{KeepsSyncs}
use poolpilot_relay.Poller.Whole.{tick_keeps}
use poolpilot_relay.Prelude.Int.{pos}
use poolpilot_relay.State.Document.{Controller}
use poolpilot_relay.State.Household.{enrolled, tunnel_parked}
use poolpilot_relay.State.Removals.{cloud_identity}
use poolpilot_relay.Store.{Store}

abbrev resting : Round
resting = record { now = hour 3; answer = http_status 200; persists = true; meanwhile = λ st. st }

abbrev repeated : ℕ → List Round
repeated zero = []
repeated (suc n) = resting ∷ repeated n

repeated-IsQuiet : (n : ℕ) → All IsQuiet (repeated n)
repeated-IsQuiet zero = tt
repeated-IsQuiet (suc n) = (λ st. refl, repeated-IsQuiet n)

repeated-KeepsRounds : (n : ℕ) → KeepsRounds (repeated n)
repeated-KeepsRounds zero = tt
repeated-KeepsRounds (suc n) = (λ st. refl, repeated-KeepsRounds n)

repeated-length : (n : ℕ) → length (repeated n) ≡ n
repeated-length zero = refl
repeated-length (suc n) = omega (arith, repeated-length n)

abbrev polling : ℕ → Polling
polling _ = record {
  fetch = polled (ph_reading ∷ []) no_reader;
  now = hour 3;
  meanwhile = λ st. st;
  persists = true;
  sending = λ _. record { queues = true; rounds = repeated 51 };
}

abbrev accepting : ℕ → ℕ → Push
accepting _ _ = record { answer = status 200 "" tt; persists = true; meanwhile = λ st. st }

abbrev unreached : ℕ → Attempt
unreached _ = record {
  cut_off = false;
  now = hour 3;
  answer = no_answer;
  after = hour 3;
  persists = true;
  meanwhile = λ st. st;
}

-- Somebody asks for one more pass of the sync, and then nobody does; a flag is left from before the
-- report of removals, and another caller then holds its lock.
abbrev ending : Ending
ending = record {
  rounds = repeated 51;
  syncs = runs_pass accepting (λ _. true) ∷ runs_pass accepting (λ asked. asked) ∷ [];
  sync_asked = false;
  removals = runs_pass unreached (λ asked. asked) ∷ lock_taken ∷ [];
  removal_asked = true;
}

abbrev parsed : String → Option Time
parsed _ = some (hour 3)

abbrev same_hash : String → String
same_hash s = s

Enough-rounds : Enough (repeated 51)
Enough-rounds = (repeated-IsQuiet 51, omega (arith, repeated-length 51))

tick_ends_example :
    (st' : Store) × (snaps' : Map Snapshot) × (tick clock parsed upper lower same_hash polling
        ending home []
      ≡ some (st', snaps'))
tick_ends_example =
    tick_ends clock parsed upper lower same_hash polling ending home []
      (λ j. (λ st h. h, λ i. Enough-rounds)) Enough-rounds (inl refl) (inl tt) (omega arith)

ended :
    (st' : Store) × (snaps' : Map Snapshot) × (tick clock parsed upper lower same_hash polling
        ending home []
      ≡ some (st', snaps'))
ended =
    tick_ends clock parsed upper lower same_hash polling ending home []
      (λ j. (λ st h. h, λ i. Enough-rounds)) Enough-rounds (inl refl) (inl tt) (omega arith)

kept_syncs : KeepsSyncs ending.syncs
kept_syncs = (λ i j st. refl, (λ i j st. refl, tt))

tick_keeps_example :
    (config ended.0.doc ≡ config home.doc)
    × ((lookup "g1" ended.1 ≡ none) ⊎ (any (λ c. c.guid == "g1") home.doc.controllers ≡ true))
tick_keeps_example =
    tick_keeps clock parsed upper lower same_hash polling ending home ended.0 [] ended.1 "g1"
      (λ j. (λ st. refl, λ i. repeated-KeepsRounds 51))
      (repeated-KeepsRounds 51, kept_syncs, (λ j st. refl, (tt, tt))) ended.2

abbrev ruled_pool : Controller
ruled_pool = record pool { alert_rules = ph_rule ∷ stale_rule_1h ∷ []; last_success_at = hour 0 }

-- Both controllers wait for the sync, and the cloud takes them.
abbrev unsynced : Store
unsynced = record home {
  doc = record household {
    controllers =
        record pool { cloud_sync_pending = true } ∷ record spa { cloud_sync_pending = true } ∷ [];
  };
}

accepting-Accepts : Accepts (accepting 0 0)
unfolding update_result is_2xx
accepting-Accepts = (refl, refl, λ st. refl)

unsynced-Ready : Ready unsynced
unfolding enrolled tunnel_parked
unsynced-Ready = (refl, refl, refl)

sync_pass_clears_example :
    ((sync_pass accepting 4 unsynced).1 ≡ none)
    × ((sync_pass accepting 4 unsynced).0.doc.controllers
        ≡ map flag_cleared unsynced.doc.controllers)
sync_pass_clears_example =
    sync_pass_clears accepting 3 unsynced (λ i j. accepting-Accepts) unsynced-Ready
      ((refl, tt), (tt, tt))

-- The guest was removed an hour ago, and the cloud is out of reach.
abbrev owing : Store
owing = record home {
  doc = record household {
    pending_device_removals =
        record {
          device_id = "d2";
          created_at = hour 2;
          attempts = pos 0;
          next_attempt_at = zero_time;
          cloud_identity = "t1";
        }
        ∷ [];
  };
}

removal_pass-Owes_example :
    Owes "d2" (removal_pass same_hash every_due unreached owing).0
    ⊎ Done every_due
        (cloud_identity same_hash owing.doc)
        unreached
        "d2"
        0
        owing.doc.pending_device_removals
removal_pass-Owes_example =
    removal_pass-Owes same_hash every_due unreached "d2" owing (λ i st o. o) (refl, omega arith)
