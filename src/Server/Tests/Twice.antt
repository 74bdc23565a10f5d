-- ===== src/Server/Tests/Twice.antt =====
-- A client and a server that read the same command twice: the theorem at an input where its hypotheses
-- hold.
use so.Base.{ℕ, ◌≡◌, refl, inr, true, some, [], ◌∷◌, arith, take, drop, Ensures}
use so.Files.{sent}
use so.TaskVec
use so.Server.{Round, read_failed, goes_on, fork_failed, run}
use so.Server.Dispatch.{IsSane}
use so.Server.Loop.{start-IsServer}
use so.Server.Ledger.{ledger_of}
use so.Client.{Command, success, arg_str}
use so.Client.Options.{Setup, send}
use so.Client.Twice.{reads_for, send-starts_twice}
use so.Server.Tests.{zeros, place, task}
use so.Server.Tests.Start.{setup, started, start_run}

abbrev round : Round
round = record {
  reading = read_failed;
  forking = fork_failed;
  alloc = λ k n. some (λ i. task 0);
  kills = true;
  answers = λ i. some 100000;
}

abbrev sends : Setup
sends = record { opened = some 3; grant = some zeros; answers = λ i. some 10000 }

listing-IsSane : (pid : ℕ) → IsSane (reads_for (b'e' ∷ 32 ∷ b'l' ∷ b's' ∷ 10 ∷ []) pid round)
listing-IsSane pid = record {
  sized = (omega arith, omega arith);
  grants = λ n. (0, omega arith, (λ i. task 0), refl);
  whole = λ i. inr (100000, refl, omega arith);
}

send-starts_twice_example :
    Ensures (send sends Command.exec_task (b'l' ∷ b's' ∷ [])) (λ (result, log).
      (result ≡ success)
      × Ensures
          (run place
            (reads_for (take 5 (sent 3 log)) 71 round
              ∷ reads_for (drop 5 (sent 3 log)) 72 round
              ∷ [])
            started)
          (λ (how, s').
            (how ≡ goes_on)
            × (ledger_of s' ≡ record { jobs = (0, 71) ∷ (1, 72) ∷ []; count = 2; signalled = [] })))
unfolding arg_str TaskVec.new
send-starts_twice_example =
    send-starts_twice sends 3 10000 10000 zeros place round round 71 72 started (b'l' ∷ b's' ∷ [])
      refl refl refl refl (omega arith) (omega arith) (omega arith)
      (start-IsServer setup place started start_run).0 (listing-IsSane 71) (listing-IsSane 72)
      (omega arith)
