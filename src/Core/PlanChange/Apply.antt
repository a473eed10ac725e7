-- ===== src/Core/PlanChange/Apply.antt =====
-- What the application of a request does: the plan of the line is written, and that is all.
use getupnet.Database.{Database}
use getupnet.Platform.{Platform}
