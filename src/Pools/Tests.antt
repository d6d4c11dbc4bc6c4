-- ===== src/Pools/Tests.antt =====
-- Runs of the pool selection, and instances of its theorems: pool 0 is disabled, pool 1 is usable.
use primo_arm_miner.Prelude.{◌<◌, ◌≡◌, refl, true, codes, ◌==◌, if◌then◌else◌}
use primo_arm_miner.Prelude.Int.{pos}
use primo_arm_miner.Pools.{
  PoolInfos, PoolTable, zero_pool, miner_get_pool_timeout, find_first_usable_pool_index,
  first_usable_from, miner_pool_is_usable,
}
use primo_arm_miner.Pools.Usable.{miner_get_pool_timeout_pos}

abbrev pool : PoolInfos
pool = record zero_pool { configured = true; url = codes "pool" }

abbrev table : PoolTable
table = record {
  pools = λ i. if i == 0 then record pool { disabled = true } else pool;
  num_pools = 2;
}

skips_disabled : find_first_usable_pool_index table ≡ pos 1
unfolding find_first_usable_pool_index first_usable_from miner_pool_is_usable
skips_disabled = refl

miner_get_pool_timeout_pos_example : 0 < miner_get_pool_timeout 0 table 1
miner_get_pool_timeout_pos_example = miner_get_pool_timeout_pos 0 table 1
