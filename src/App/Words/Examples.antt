-- ===== src/App/Words/Examples.antt =====
-- Sentences of the interface.
use loadbear.Prelude.{true, ◌≡◌, refl}
use loadbear.Core.Types.{Resource}
use loadbear.Core.Tier.{Tier, TierReason, Assessment}
use loadbear.App.Words.{reason_text, describe, driver_word}

abbrev waiting : Assessment
waiting = record { tier = Tier.braced; reason = TierReason.stall Resource.io }

reason_text-rising :
    reason_text (record waiting { tier = Tier.easy; reason = TierReason.clear }) waiting true
    ≡ "Work is waiting on the disk. Watching to see whether it holds."
unfolding reason_text describe
reason_text-rising = refl

driver_word-disk : driver_word waiting ≡ "disk"
driver_word-disk = refl
