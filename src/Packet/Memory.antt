-- ===== src/Packet/Memory.antt =====
-- The caller's memory as a whole: reads and writes at an offset, and the remaining length put back
-- behind the first byte, as the packet readers do.
pub mod Laws
use mbed_mqtt.Common.{
  ℕ, ◌+◌, Bytes, [], ◌++◌, Option, none, some, and_then, length, take, drop, leb, if◌then◌else◌,
}
use mbed_mqtt.Packet.Length.{packet_encode}

-- `mem[at ..] = bs`; a fault if it does not fit.
unfoldable pub overwrite : ℕ → Bytes → Bytes → Option Bytes
overwrite at bs mem =
    if leb (at + length bs) (length mem)
    then some (take at mem ++ (bs ++ drop (at + length bs) mem))
    else none

-- The memory of `n` bytes from `at` on; a fault if it does not reach so far.
unfoldable pub readable : ℕ → ℕ → Bytes → Option Bytes
readable at n mem = if leb (at + n) (length mem) then some (take n (drop at mem)) else none

-- `buf + 1`: MQTTPacket_encode writes there and returns the number of bytes.
unfoldable pub encode_at_1 : ℕ → Bytes → Option (ℕ × Bytes)
encode_at_1 rem_len mem = and_then (readable 0 1 mem) (λ header.
    and_then (packet_encode rem_len (record { done = []; room = drop 1 mem }))
      (λ o. some (length o.done, header ++ (o.done ++ o.room))))
