-- ===== src/Client/Invariant/Loops.antt =====
-- The loops around cycle: MQTTYield and waitfor end, and keep the client in shape.
use mbed_mqtt.Common.{ℕ, zero, suc, ◌<◌, ◌||◌, ℤ, arith}
use mbed_mqtt.Client.Cycle.{is_type, cycle, yield_loop, yield, wait_loop, waitfor}
use mbed_mqtt.Client.Invariant.{Runs, Runs-Good, Runs-if, Runs-bind, Good, Good-pure, Good-bind}
use mbed_mqtt.Client.Invariant.Network.{Runs-is_expired}
use mbed_mqtt.Client.Network.{is_negative}
use mbed_mqtt.Client.Platform.{Platform, Expires}
use mbed_mqtt.Client.State.{State, Abi, success, failure}
use mbed_mqtt.Client.Invariant.Cycle.{Good-new_timer, cycle_ends}

module _ (p : Platform) (rounds : ℕ) (e : Expires p rounds) where
  Runs-yield_loop :
      (abi : Abi) (left : ℕ) (timer : p.Timer) (s : State p)
      → e.checks timer s.world < left
      → Runs p rounds e (yield_loop p abi rounds left timer) s
  unfolding yield_loop
  Runs-yield_loop abi zero timer s h = absurd (omega arith)
  Runs-yield_loop abi (suc left) timer s h =
      Runs-bind p rounds e (cycle p abi rounds timer) _ s (cycle_ends p rounds e abi timer)
        (λ rc u g.
          Runs-if p rounds e (is_negative rc) _ _ u
            (Runs-Good p rounds e _ u (Good-pure p rounds e failure))
            (Runs-is_expired p rounds e timer _ _ u
              (λ s'. Runs-Good p rounds e _ s' (Good-pure p rounds e success))
              (λ s' less. Runs-yield_loop abi left timer s' (omega (arith, g.later timer)))))

  -- MQTTYield ends for every timeout, whatever comes in: it returns, or it reads or writes outside of a buffer, and no loop
  -- runs on once the timers that bound it have expired. If it returns, the buffers have their sizes,
  -- the handler table has its length and no filter twice if it had none twice, a packet identifier
  -- in 1 .. 65535 is still in that range, and no timer was put off.
  pub yield_ends : (abi : Abi) (timeout_ms : ℕ) → Good p rounds e (yield p abi rounds timeout_ms)
  unfolding yield
  yield_ends abi timeout_ms =
      Good-bind p rounds e _ _ (Good-new_timer p rounds e timeout_ms) (λ timer. record {
        at = λ s. (Runs-yield_loop abi rounds timer s (e.bounded timer s.world)).at;
      })

  Runs-wait_loop :
      (abi : Abi) (left type : ℕ) (timer : p.Timer) (rc : ℤ) (s : State p)
      → e.checks timer s.world < left
      → Runs p rounds e (wait_loop p abi rounds left type timer rc) s
  unfolding wait_loop
  Runs-wait_loop abi zero type timer rc s h = absurd (omega arith)
  Runs-wait_loop abi (suc left) type timer rc s h =
      Runs-is_expired p rounds e timer _ _ s
        (λ s'. Runs-Good p rounds e _ s' (Good-pure p rounds e rc))
        (λ s' less.
          Runs-bind p rounds e (cycle p abi rounds timer) _ s' (cycle_ends p rounds e abi timer)
            (λ rc' u g.
              Runs-if p rounds e (is_type rc' type || is_negative rc') _ _ u
                (Runs-Good p rounds e _ u (Good-pure p rounds e rc'))
                (Runs-wait_loop abi left type timer rc' u (omega (arith, g.later timer)))))

  pub Good-waitfor :
      (abi : Abi) (type : ℕ) (timer : p.Timer) → Good p rounds e (waitfor p abi rounds type timer)
  unfolding waitfor
  Good-waitfor abi type timer = record {
    at = λ s. (Runs-wait_loop abi rounds type timer failure s (e.bounded timer s.world)).at;
  }
