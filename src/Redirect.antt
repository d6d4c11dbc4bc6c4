-- ===== src/Redirect.antt =====
-- The target of client.reconnect: stratum_reconnect of src/stratum_rpc.cpp up to the assembled URL, which
-- the service thread then follows (Service.follow_redirect). And the height in client.show_message, which
-- sscanf reads there.
pub mod Spelled
pub mod Port
mod Tests
use primo_arm_miner.Prelude.{
  ℕ, zero, suc, ◌+◌, ◌-◌, ◌/◌, ◌%◌, Bool, true, false, not, ◌&&◌, ◌||◌, Option, none, some, [], ◌∷◌,
  ◌++◌, ltb, leb, ◌==◌, if◌then◌else◌, Bytes, codes,
}
use primo_arm_miner.Prelude.Int.{ℤ, pos, negsuc}
use primo_arm_miner.Prelude.Options.{◌>>=◌, ◌>>◌, guard}
use primo_arm_miner.Json.{Jansson, string_at}
use primo_arm_miner.Numeral.{is_space, skip_spaces, strtol, strtoul}
use primo_arm_miner.Pools.{is_empty}

-- A port from 1 to 65535; 0 stands for what is refused.
abbrev pub port_within : ℤ → ℕ
port_within (pos n) = if ltb 0 n && leb n 65535 then n else 0
port_within (negsuc n) = 0

-- The number must end the text.
unfoldable pub port_of_number : Option (ℤ × Bool × Bytes) → ℕ
port_of_number none = 0
port_of_number (some (parsed, erange, [])) = port_within parsed
port_of_number (some (parsed, erange, c ∷ rest)) = 0

-- A text first, then an integer.
unfoldable pub port_of : Option Bytes → Option ℤ → ℕ
unfolding port_of_number
port_of (some text) number = port_of_number (strtol text)
port_of none (some n) = port_within n
port_of none none = 0

-- %d of a number that is not negative, with at most `digits` digits.
unfoldable pub print_from : (digits n : ℕ) → Bytes → Bytes
print_from zero n out = out
print_from (suc digits) n out =
    let more = print_from digits (n / 10) ((b'0' + n % 10) ∷ out) in
    if n / 10 == 0 then (b'0' + n % 10) ∷ out else more

unfoldable pub print_port : ℕ → Bytes
unfolding print_from
print_port n = print_from 5 n []

abbrev pub scheme : Bool → Bytes
scheme use_tls = if use_tls then codes "stratum+ssl" else codes "stratum+tcp"

unfoldable pub redirect_url : (use_tls : Bool) → (host : Bytes) → (port : ℕ) → Bytes
redirect_url use_tls host port =
    scheme use_tls ++ (codes "://" ++ (host ++ (codes ":" ++ print_port port)))

-- The URL of a valid redirect.
unfoldable pub redirect_of : (j : Jansson) → (use_tls : Bool) → Option j.Value → Option Bytes
redirect_of j use_tls params = do
  host ← string_at j params 0
  let port_val = j.json_array_get params 1
  let port = port_of (j.json_string_value port_val) (j.json_integer port_val)
  guard (not (is_empty host) && ltb 0 port)
  some (redirect_url use_tls host port)

-- sscanf: the rest behind a literal, and behind a word of at most `left` characters.
unfoldable pub match_literal : Bytes → Bytes → Option Bytes
match_literal [] text = some text
match_literal (c ∷ literal) [] = none
match_literal (c ∷ literal) (d ∷ text) = if c == d then match_literal literal text else none

unfoldable pub rest_of_word : (left : ℕ) → Bytes → Bytes
rest_of_word zero text = text
rest_of_word (suc left) [] = []
rest_of_word (suc left) (c ∷ text) = if is_space c then c ∷ text else rest_of_word left text

abbrev pub word_of : Bytes → Option Bytes
word_of [] = none
word_of (c ∷ text) = some (rest_of_word 31 (c ∷ text))

-- "equihash %31s block %u", with both conversions made; the number is cut to 32 bits.
unfoldable pub announced_height : Bytes → Option ℕ
announced_height text = do
  symbol ← match_literal (codes "equihash") text
  rest ← word_of (skip_spaces symbol)
  number ← match_literal (codes "block") (skip_spaces rest)
  (value, end) ← strtoul (skip_spaces number)
  some (value % 4294967296)
