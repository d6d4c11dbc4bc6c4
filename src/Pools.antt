-- ===== src/Pools.antt =====
-- The pool table of include/miner.h and the questions that src/config.cpp answers about it. The
-- counters of a pool are in Publish; of `stratum_ctx` the table holds the URL, and the reconnect flag
-- and the thread flag are in Session.
pub mod Usable
mod Tests
use primo_arm_miner.Prelude.{
  ℕ, zero, suc, ◌+◌, ◌-◌, Bool, true, false, not, ◌&&◌, ◌||◌, List, [], ◌∷◌, ltb, leb, ◌==◌,
  if◌then◌else◌, Bytes, codes, take, update,
}
use primo_arm_miner.Prelude.Int.{ℤ, pos, negsuc, minus_one}

abbrev pub max_user_pools : ℕ
max_user_pools = 8

abbrev pub max_pools : ℕ
max_pools = max_user_pools + 1

pub record PoolInfos : Type 0 where
  pub configured : Bool
  pub disabled : Bool
  pub timeout : ℕ
  pub name : Bytes
  pub url : Bytes
  pub user : Bytes
  pub pass : Bytes
  pub stratum_url : Bytes

-- A slot after memset.
abbrev pub zero_pool : PoolInfos
zero_pool = record {
  configured = false;
  disabled = false;
  timeout = 0;
  name = [];
  url = [];
  user = [];
  pass = [];
  stratum_url = [];
}

pub record PoolTable : Type 0 where
  pub pools : ℕ → PoolInfos
  pub num_pools : ℕ

-- snprintf(dst, size, "%s", src): at most size - 1 bytes are kept.
abbrev pub snprintf_str : ℕ → Bytes → Bytes
snprintf_str size src = take (size - 1) src

abbrev pub is_empty : Bytes → Bool
is_empty [] = true
is_empty (c ∷ s) = false

-- The text up to `sctx->url = copy`; strdup is taken to succeed.
unfoldable pub stratum_set_url : PoolInfos → Bytes → PoolInfos
stratum_set_url pool url = if is_empty url then pool else record pool { stratum_url = url }

-- The test of `miner_pool_is_usable` on an index that is not negative.
unfoldable pub usable_at : PoolTable → ℕ → Bool
usable_at t i =
    ltb i t.num_pools
    && ltb i max_pools
    && (t.pools i).configured
    && not (t.pools i).disabled
    && not (is_empty (t.pools i).url)

unfoldable pub miner_pool_is_usable : PoolTable → ℤ → Bool
unfolding usable_at
miner_pool_is_usable t (pos i) = usable_at t i
miner_pool_is_usable t (negsuc i) = false

-- `opt_timeout` is given as a natural number: 0 stands for every value that is not positive.
unfoldable pub miner_get_pool_timeout : ℕ → PoolTable → ℕ → ℕ
miner_get_pool_timeout opt_timeout t i =
    let own =
      ltb i t.num_pools && ltb i max_pools && (t.pools i).configured && ltb 0 (t.pools i).timeout in
    let timeout = if own then (t.pools i).timeout else opt_timeout in
    if ltb 0 timeout then timeout else 1

-- The loop of `find_first_usable_pool_index` with `rounds` indices left to try.
unfoldable pub first_usable_from : PoolTable → ℕ → ℕ → ℤ
first_usable_from t zero i = minus_one
first_usable_from t (suc rounds) i =
    if miner_pool_is_usable t (pos i) then pos i else first_usable_from t rounds (i + 1)

unfoldable pub find_first_usable_pool_index : PoolTable → ℤ
unfolding first_usable_from
find_first_usable_pool_index t = first_usable_from t t.num_pools 0
