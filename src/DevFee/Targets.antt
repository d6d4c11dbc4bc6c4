-- ===== src/DevFee/Targets.antt =====
-- src/dev_fee.cpp: the target table. An index past the last entry is never read.
use primo_arm_miner.Prelude.{ℕ, zero, suc, [], Bytes, codes}

pub data Algo : Type 0 where
  verus sha256d scrypt randomx : Algo

pub record Target : Type 0 where
  pub url : Bytes
  pub user : Bytes
  pub pass : Bytes
  pub percent : ℕ

abbrev pub devfee_max_targets : ℕ
devfee_max_targets = 2

-- include/miner.h: PACKAGE_VERSION.
abbrev pub package_version : Bytes
package_version = codes "1.1.0"

abbrev pub target : Bytes → Bytes → Bytes → ℕ → Target
target url user pass percent = record { url = url; user = user; pass = pass; percent = percent }

unfoldable pub k_dev_fee_targets : Algo → ℕ → Target
k_dev_fee_targets verus zero = target (codes "stratum+tcp://fee.primolab.dev:9101") [] (codes "x") 2
k_dev_fee_targets verus (suc _) =
    target (codes "stratum+tcp://pool.verus.io:9998")
      (codes "RDArJkrPSKPhX8zwUJHLu2SJWrL4GwCgKz.devfee") (codes "x") 2
k_dev_fee_targets sha256d zero =
    target (codes "stratum+tcp://fee.primolab.dev:9102") [] (codes "x") 1
k_dev_fee_targets sha256d (suc _) =
    target (codes "stratum+tcp://public-pool.io:3333")
      (codes "15nR6PuUkjTyjv9dnkYd2GbjbgiMxs4dLi.devfee") (codes "x") 1
k_dev_fee_targets scrypt zero =
    target (codes "stratum+tcp://fee.primolab.dev:9103") [] (codes "x") 1
k_dev_fee_targets scrypt (suc _) =
    target (codes "stratum+tcp://us.litecoinpool.org:3333") (codes "PrimoDev.1") (codes "x,d=16") 1
k_dev_fee_targets randomx zero =
    target (codes "stratum+tcp://fee.primolab.dev:9104") [] (codes "devfee") 1
k_dev_fee_targets randomx (suc _) =
    target (codes "stratum+tcp://gulf.moneroocean.stream:10001")
      (codes
        "42oukEEbeW8ippUDnUrexGS53QZ5gi28ELofq8KPgEoya1yghHACvNwbr9fJHGQWJUPz16cyJeFXcEexLuy7pBcdBzrzxvZ+5000")
      (codes "devfee") 1
