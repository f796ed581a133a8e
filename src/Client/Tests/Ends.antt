-- ===== src/Client/Tests/Ends.antt =====
-- The theorems on how calls end, at a concrete client.
use mbed_mqtt.Common.{true, none, some, pos, ◌≡◌}
use mbed_mqtt.Client.Closed.{
  ClosedOnFailure, IsClosed, publish_closes, disconnect_closes, cycle_closes,
}
use mbed_mqtt.Client.Commands.{publish, subscribe, connect, disconnect}
use mbed_mqtt.Client.Cycle.{cycle, yield}
use mbed_mqtt.Client.Invariant.{Good}
use mbed_mqtt.Client.Invariant.Commands.{publish_ends}
use mbed_mqtt.Client.Invariant.Sessions.{subscribe_ends, connect_ends}
use mbed_mqtt.Client.Invariant.Cycle.{cycle_ends}
use mbed_mqtt.Client.Invariant.Loops.{yield_ends}
use mbed_mqtt.Client.Network.{is_negative}
use mbed_mqtt.Client.Run.Ensures.{Returns}
use mbed_mqtt.Client.Tests.{platform, expires, abi, start, message, topic}

cycle_ends_example : Good platform 11 expires (cycle platform abi 11 5)
cycle_ends_example = cycle_ends platform 11 expires abi 5

yield_ends_example : Good platform 11 expires (yield platform abi 11 8)
yield_ends_example = yield_ends platform 11 expires abi 8

connect_ends_example :
    Good platform 11 expires
      (connect platform abi 11 none (record { session_present = 0; connack_rc = 0 }))
connect_ends_example =
    connect_ends platform abi 11 expires none (record { session_present = 0; connack_rc = 0 })

subscribe_ends_example :
    Good platform 11 expires (subscribe platform abi 11 topic 1 (some 3) (pos 0))
subscribe_ends_example = subscribe_ends platform abi 11 expires topic 1 (some 3) (pos 0)

publish_ends_example : Good platform 11 expires (publish platform abi 11 topic message)
publish_ends_example = publish_ends platform abi 11 expires topic message

publish_closes_example : ClosedOnFailure platform (publish platform abi 11 topic message start)
publish_closes_example = publish_closes platform abi 11 expires topic message start

cycle_closes_example :
    Returns
      (λ rc s'. is_negative rc ≡ true → s'.client.isconnected ≡ 0)
      (cycle platform abi 11 5 start)
cycle_closes_example = cycle_closes platform abi 11 expires 5 start

disconnect_closes_example : Returns (λ rc s'. IsClosed s'.client) (disconnect platform abi 11 start)
disconnect_closes_example = disconnect_closes platform abi 11 expires start
