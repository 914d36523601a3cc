-- ===== src/Tests/ErrorRuns.antt =====
-- Calls behind an error, in a transaction of a client on an empty card.
use linux_mqtt_sn_gateway.Base.{◌≡◌, refl, true, none, some, List, [], ◌∷◌}
use linux_mqtt_sn_gateway.Persistent.State.{Persistent}
use linux_mqtt_sn_gateway.Persistent.Clients.{apply_transaction}
use linux_mqtt_sn_gateway.Persistent.Errors.{
  Operation, start_for_id, add, register_topic, subscribe, unsubscribe, increment, mqtt_off,
  performs, HasFailed, apply_transaction-performs,
}
use linux_mqtt_sn_gateway.Tests.Board.{board}
use linux_mqtt_sn_gateway.Tests.Samples.{bob, home, door, ann_on}

abbrev state : Persistent board
state = record (ann_on (λ _. none)) { error = true }

state-HasFailed : HasFailed state
state-HasFailed = record { started = refl; failed = refl }

abbrev operations : List Operation
operations =
    start_for_id bob
    ∷ add bob home 60
    ∷ register_topic door
    ∷ subscribe (some door) 1 1
    ∷ unsubscribe 1
    ∷ increment (some door)
    ∷ mqtt_off
    ∷ []

apply_transaction-performs_example :
    ((performs operations state).card ≡ state.card)
    × ((performs operations state).error ≡ true)
    × ((apply_transaction (performs operations state)).1 ≡ 0)
apply_transaction-performs_example = apply_transaction-performs operations state state-HasFailed
