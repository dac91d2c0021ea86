-- ===== src/Cloud/Process/Ending.antt =====
-- How the inner loop of `pyrinas_cloud_process` ends.
use pyrinas_zephyr.Common.{ℕ, ◌≡◌, ◌⊎◌, List, [], ◌∷◌, length}
use pyrinas_zephyr.Cloud.Client.{Cloud, CloudState, cloud_state_disconnected}
use pyrinas_zephyr.Cloud.Process.{Round, Next, go_on, poll_failed, live_failed, aborted, Served}
use pyrinas_zephyr.Cloud.Process.Rounds.{feeds, Leaves}

-- One of the rounds ended so.
abbrev pub Among : List Round → Next → CloudState → Type 0
Among [] n s = ⊥
Among (r ∷ rs) n s = Leaves r n s ⊎ Among rs n s

-- The end of the loop: it broke, in one of the rounds, or it did not, and then the client is
-- disconnected or every round has fed the watchdog once.
abbrev pub LoopEnd : List Round → Next → CloudState → ℕ → Type 0
LoopEnd rs go_on s n = (s ≡ cloud_state_disconnected) ⊎ (n ≡ length rs)
LoopEnd rs aborted s n = Among rs aborted s
LoopEnd rs poll_failed s n = Among rs poll_failed s
LoopEnd rs live_failed s n = Among rs live_failed s

abbrev pub IsLoopEnd : List Round → Served → Type 0
IsLoopEnd rs s = LoopEnd rs s.next s.cloud.cloud_state (feeds s.steps)
