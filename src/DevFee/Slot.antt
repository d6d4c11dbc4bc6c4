-- ===== src/DevFee/Slot.antt =====
-- The hidden slot of src/dev_fee.cpp: it stays disabled, and its two URLs never part.
use primo_arm_miner.Prelude.{
  ℕ, zero, suc, ◌+◌, ◌*◌, ◌<◌, ◌≡◌, ◌/◌, refl, ◌≢◌, true, false, some, arith, Bytes, codes,
  if◌then◌else◌,
}
use primo_arm_miner.Prelude.Int.{ℤ, pos}
use primo_arm_miner.Pools.{PoolInfos, snprintf_str, is_empty, stratum_set_url}
use primo_arm_miner.DevFee.Targets.{Algo, verus, sha256d, scrypt, randomx, k_dev_fee_targets}
use primo_arm_miner.DevFee.{
  Settings, Globals, devfee_client_tag, devfee_count_targets, dev_fee_target_for_algo, retarget,
  devfee_set_pool_target, devfee_take_transition, devfee_advance_target, devfee_abort_slice,
}

target_url_kept :
    (a : Algo) (t : ℕ) → is_empty (snprintf_str 512 (k_dev_fee_targets a t).url) ≡ false
unfolding k_dev_fee_targets
target_url_kept verus zero = refl
target_url_kept verus (suc _) = refl
target_url_kept sha256d zero = refl
target_url_kept sha256d (suc _) = refl
target_url_kept scrypt zero = refl
target_url_kept scrypt (suc _) = refl
target_url_kept randomx zero = refl
target_url_kept randomx (suc _) = refl

pub count_targets : (a : Algo) → devfee_count_targets a ≡ 2
unfolding devfee_count_targets k_dev_fee_targets
count_targets verus = refl
count_targets sha256d = refl
count_targets scrypt = refl
count_targets randomx = refl

pub first_target : (a : Algo) → dev_fee_target_for_algo a ≡ some (k_dev_fee_targets a 0)
unfolding dev_fee_target_for_algo k_dev_fee_targets
first_target verus = refl
first_target sha256d = refl
first_target scrypt = refl
first_target randomx = refl

pub percent_bounds :
    (a : Algo) → let p = (k_dev_fee_targets a 0).percent in (0 < p) × (6000 / p * p ≡ 6000)
unfolding k_dev_fee_targets
percent_bounds verus = (omega arith, refl)
percent_bounds sha256d = (omega arith, refl)
percent_bounds scrypt = (omega arith, refl)
percent_bounds randomx = (omega arith, refl)

-- The login of a target: its user, or the tag of the client where it has none, and its password, or "x".
abbrev pub user_of : Settings → ℕ → Bytes
user_of cfg t =
    let target = k_dev_fee_targets cfg.opt_algo t in
    if is_empty target.user then devfee_client_tag cfg.platform else target.user

abbrev pub pass_of : Settings → ℕ → Bytes
pass_of cfg t =
    let target = k_dev_fee_targets cfg.opt_algo t in
    if is_empty target.pass then codes "x" else target.pass

-- The slot holds the URL and the login of the current target, cut to the sizes of their buffers, and the
-- session's URL follows the pool's.
pub record HoldsTarget (cfg : Settings) (t : ℕ) (pool : PoolInfos) : Type 0 where
  pub url_eq : pool.url ≡ snprintf_str 512 (k_dev_fee_targets cfg.opt_algo t).url
  pub user_eq : pool.user ≡ snprintf_str 192 (user_of cfg t)
  pub pass_eq : pool.pass ≡ snprintf_str 384 (pass_of cfg t)
  pub followed : pool.stratum_url ≡ pool.url

pub retarget-HoldsTarget :
    (cfg : Settings) (t : ℕ) (pool : PoolInfos)
    → HoldsTarget cfg t (retarget cfg.platform (k_dev_fee_targets cfg.opt_algo t) pool)
unfolding retarget stratum_set_url
retarget-HoldsTarget cfg t pool = ground (arith, target_url_kept cfg.opt_algo t)

-- The state of the scheduler and of its slot `k` from the installation on.
pub record Armed (cfg : Settings) (k : ℕ) (g : Globals) : Type 0 where
  pub is_enabled : g.devfee.enabled ≡ true
  pub index_eq : g.devfee.dev_pool_index ≡ pos k
  pub below : g.devfee.cur_target < g.devfee.num_targets
  pub targets : g.devfee.num_targets ≡ 2
  pub hidden : (g.table.pools k).disabled ≡ true
  pub present : k < g.table.num_pools
  pub held : HoldsTarget cfg g.devfee.cur_target (g.table.pools k)

retarget-disabled :
    (cfg : Settings) (t : ℕ) (pool : PoolInfos)
    → (retarget cfg.platform (k_dev_fee_targets cfg.opt_algo t) pool).disabled ≡ pool.disabled
unfolding retarget stratum_set_url
retarget-disabled cfg t pool = ground arith

pub set_pool_target-Armed :
    (cfg : Settings) (k t : ℕ) (g : Globals)
    → t < 2
    → Armed cfg k g
    → Armed cfg k (devfee_set_pool_target cfg t g)
unfolding devfee_set_pool_target
set_pool_target-Armed cfg k t g h v =
    ground (
      arith,
      retarget-HoldsTarget cfg t (g.table.pools k),
      retarget-disabled cfg t (g.table.pools k),
    )

pub set_pool_target_others :
    (cfg : Settings) (k t j : ℕ) (g : Globals)
    → g.devfee.dev_pool_index ≡ pos k
    → j ≢ k
    → (devfee_set_pool_target cfg t g).table.pools j ≡ g.table.pools j
unfolding devfee_set_pool_target
set_pool_target_others cfg k t j g e h = ground arith

-- Every operation of the scheduler keeps the slot armed.
pub take_transition-Armed :
    (cfg : Settings) (k now : ℕ) (current : ℤ) (g : Globals)
    → Armed cfg k g
    → Armed cfg k (devfee_take_transition cfg now current g).0
unfolding devfee_take_transition
take_transition-Armed cfg k now current g v = ground (
  arith,
  set_pool_target-Armed cfg k 0
      (record g {
        devfee = record g.devfee {
          in_slice = true;
          user_pool_index = current;
          next_transition = now + g.devfee.slice_seconds;
        };
      })
      (omega arith),
)

pub advance_target-Armed :
    (cfg : Settings) (k now : ℕ) (g : Globals)
    → Armed cfg k g
    → Armed cfg k (devfee_advance_target cfg now g).0
unfolding devfee_advance_target
advance_target-Armed cfg k now g v =
    ground (arith, set_pool_target-Armed cfg k (g.devfee.cur_target + 1) g)

pub abort_slice-Armed :
    (cfg : Settings) (k now : ℕ) (g : Globals)
    → Armed cfg k g
    → Armed cfg k (devfee_abort_slice now g).0
unfolding devfee_abort_slice
abort_slice-Armed cfg k now g v = ground arith

-- From an installed slot on, whatever the scheduler is asked, at any time: the slot stays the disabled one that it was installed
-- as, and holds the URL, the user and the password of the target that the scheduler counts as current, each
-- cut to its buffer, and its session has the same URL.
pub operations-Armed :
    (cfg : Settings) (k now : ℕ) (current : ℤ) (g : Globals)
    → Armed cfg k g
    → Armed cfg k (devfee_take_transition cfg now current g).0
      × Armed cfg k (devfee_advance_target cfg now g).0
      × Armed cfg k (devfee_abort_slice now g).0
operations-Armed cfg k now current g a = (
  take_transition-Armed cfg k now current g a,
  advance_target-Armed cfg k now g a,
  abort_slice-Armed cfg k now g a,
)
