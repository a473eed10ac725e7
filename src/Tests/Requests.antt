-- ===== src/Tests/Requests.antt =====
-- The theorems on plan changes and fault tickets, at the sample database.
use getupnet.Prelude.{arith}
use getupnet.Prelude.Rows.{browse}
use getupnet.Database.Core.{TicketState}
use getupnet.Samples.{office, db}
use getupnet.Core.FaultTicket.{write_state}
use getupnet.Core.FaultTicket.Closing.{AllStamped, write_state-AllStamped}

tickets-stamped : AllStamped db
unfolding browse
tickets-stamped i rec found done = ground arith

write_state-AllStamped_example : AllStamped (write_state 1 TicketState.resolved db).1
write_state-AllStamped_example = write_state-AllStamped 1 TicketState.resolved db tickets-stamped
