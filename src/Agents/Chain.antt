-- ===== src/Agents/Chain.antt =====
-- `EscalationChain` has every agent of the tiers it covers, and none twice.
use mathlib.Core.List.Memᴰ
use chum.Base.{List, Memᴰ}
use chum.Text.{Text}
