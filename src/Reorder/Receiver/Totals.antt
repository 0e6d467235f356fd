-- ===== src/Reorder/Receiver/Totals.antt =====
-- The lifetime statistics of the receiver: they add up, and no flow's part is lost when the flow goes.
use mqcpn.Reorder.Flow.{Flow}
use mqcpn.Reorder.Receiver.Tidy.{Tidy}
