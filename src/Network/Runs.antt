-- ===== src/Network/Runs.antt =====
-- src/network/mod.rs: `Network::run`, which serves commands and events until one of its two sources
-- ends.
use dse.Base.{ℕ, ◌+◌, ◌≡◌, List, [], ◌∷◌, ◌++◌, Option, ◌==◌, arith}
use dse.Base.Bytes.{Bytes}
use dse.Base.Maps.{one_if}
use dse.Types.Messages.{GossipsubMessage}
use dse.Network.{Network, Output, answer, Command, Swarm, command_handler}
use dse.Network.Events.{SwarmEvent, swarm_event_handler}
use dse.Network.Senders.{waiting, answered, sender_of, HasFreshIds, command_handler-senders}
use dse.Network.Answers.{swarm_event_handler-senders}

-- What `select!` takes: a command, with what the swarm answers to its call; an event of the swarm;
-- or the end of either source.
pub data Input : Type 0 where
  command : Swarm → Command → Input
  event : SwarmEvent → Input
  closed : Input

module _ (parse : Bytes → Option GossipsubMessage) where
  unfoldable pub run : Network → List Input → Network × List Output
  run n [] = (n, [])
  run n (command w c ∷ inputs) =
      let (n', now) = command_handler w n c in
      let (n'', later) = run n' inputs in (n'', now ++ later)
  run n (event ev ∷ inputs) =
      let (n', now) = swarm_event_handler parse n ev in
      let (n'', later) = run n' inputs in (n'', now ++ later)
  run n (closed ∷ inputs) = (n, [])

  -- No command of the run is given an id that is in use.
  abbrev pub AllFresh : Network → List Input → Type 0
  AllFresh n [] = Unit {0}
  AllFresh n (command w c ∷ inputs) = HasFreshIds w n c × AllFresh (command_handler w n c).0 inputs
  AllFresh n (event ev ∷ inputs) = AllFresh (swarm_event_handler parse n ev).0 inputs
  AllFresh n (closed ∷ inputs) = Unit

  -- How many of the commands that are served bring a sender.
  abbrev pub asked : ℕ → List Input → ℕ
  asked x [] = 0
  asked x (command w c ∷ inputs) = one_if (sender_of c == x) + asked x inputs
  asked x (event ev ∷ inputs) = asked x inputs
  asked x (closed ∷ inputs) = 0

  answered-append :
      (x : ℕ) (xs ys : List Output) → answered x (xs ++ ys) ≡ answered x xs + answered x ys
  answered-append x [] ys = omega arith
  answered-append x (answer s a ∷ xs) ys = omega (arith, answered-append x xs ys)
  answered-append x (_ ∷ xs) ys = answered-append x xs ys

  -- In a whole run with fresh ids, each sender is answered as often as commands brought it, less
  -- the times that it still waits: none is dropped and none is answered twice.
  pub run-senders :
      (n : Network) (inputs : List Input) (x : ℕ)
      → AllFresh n inputs
      → let (n', out) = run n inputs in waiting x n' + answered x out ≡ waiting x n + asked x inputs
  unfolding run
  run-senders n [] x h = omega arith
  run-senders n (command w c ∷ inputs) x (h, hs) =
      let n' = (command_handler w n c).0 in
      omega (
        arith,
        command_handler-senders w n c x h,
        run-senders n' inputs x hs,
        answered-append x (command_handler w n c).1 (run n' inputs).1,
      )
  run-senders n (event ev ∷ inputs) x h =
      let n' = (swarm_event_handler parse n ev).0 in
      omega (
        arith,
        swarm_event_handler-senders parse n ev x,
        run-senders n' inputs x h,
        answered-append x (swarm_event_handler parse n ev).1 (run n' inputs).1,
      )
  run-senders n (closed ∷ inputs) x h = omega arith
