-- ===== src/Examples/Holding.antt =====
-- Runs of the holder of waiting callers.
use edge_q.Prelude.{◌≡◌, refl, arith, true}
use edge_q.Holder.{
  Holder, Response, status_ok, timeout, new, wait, expire, notify, cancel, starts, waits, expires,
  notified, cancels,
}
use edge_q.Holder.Channels.{IsHeld}
use edge_q.Holder.Room.{Runs-IsHeld, reused_id_is_dropped}

abbrev response : Response
response = record { id = "r"; status = status_ok; err_message = "" }

-- A waiter that is canceled, then too late, and then notified.
abbrev late : Holder
late = notify response (expire 0 timeout (cancel (wait "r" new)))

Runs-IsHeld_example : IsHeld 1 late
unfolding cancel wait new
Runs-IsHeld_example =
    Runs-IsHeld 1 late (notified response (expires 0 timeout refl (cancels (waits "r" starts))))

reused_id_is_dropped_example :
    (notify response (expire 0 timeout (wait "r" (wait "r" new)))
      ≡ expire 0 timeout (wait "r" (wait "r" new)))
    × ((expire 0 timeout (wait "r" (wait "r" new))).armed 1 ≡ true)
unfolding wait new
reused_id_is_dropped_example =
    reused_id_is_dropped (wait "r" new) 0 "r" "" timeout status_ok (omega arith) refl
