-- ===== src/Redirect/Tests.antt =====
-- An instance: a redirect with its port as a text.
use primo_arm_miner.Prelude.{◌≡◌, ◌⊎◌, false, none, some, [], ◌∷◌, Bytes, codes}
use primo_arm_miner.Json.Sample.{Value, text, array, items, sample_json}
use primo_arm_miner.Redirect.{redirect_of}
use primo_arm_miner.Redirect.Port.{NoTarget, ValidRedirect, redirect_of_lem}

abbrev params : Value
params = array (items (text (codes "pool.example") ∷ text (codes "3333") ∷ []))

redirect_of_lem_example :
    ((redirect_of sample_json false (some params) ≡ none) × NoTarget sample_json (some params))
    ⊎ ((url : Bytes) × (redirect_of sample_json false (some params) ≡ some url)
        × ValidRedirect sample_json false (some params) url)
redirect_of_lem_example = redirect_of_lem sample_json false (some params)
