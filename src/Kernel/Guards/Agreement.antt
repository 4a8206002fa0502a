-- ===== src/Kernel/Guards/Agreement.antt =====
-- `_Parser` evaluates what it parses: it agrees with reading an expression first, by the grammar
-- alone, and taking its meaning then.
use nilscript.Kernel.Value.{Value}
