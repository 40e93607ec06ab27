-- ===== src/Cli/Report.antt =====
-- cli.rs: what a command writes, and the code that the process exits with. A write that fails is
-- ignored there, so the texts are what was to be written.
use vaultcrdt_server.Base.{
  Text, codes, ℕ, zero, suc, ◌+◌, ◌-◌, length, [], ◌∷◌, ◌++◌, Option, none, some,
}
use vaultcrdt_server.Base.Int.{ℤ, pos, negsuc}
use vaultcrdt_server.Base.Decimal.{u64_to_string}

pub record Report : Type 0 where
  pub code : ℕ
  pub out : Text
  pub err : Text

abbrev pub newline : Text
newline = 10 ∷ []

unfoldable pub usage_text : Text
usage_text =
    codes "usage: vaultcrdt-server                      run the server\n"
    ++ (codes "       vaultcrdt-server vault create NAME [--server-url URL] [--json]\n"
        ++ (codes "       vaultcrdt-server vault list [--json]\n"
            ++ (codes "       vaultcrdt-server vault quota NAME BYTES\n"
                ++ codes
                    "       vaultcrdt-server invite mint VAULT [--server-url URL] [--json]\n")))

abbrev pub success : Text → Report
success out = record { code = 0; out = out; err = [] }

abbrev pub failure : ℕ → Text → Report
failure code err = record { code = code; out = []; err = err }

unfoldable pub usage : Report
usage = failure 2 usage_text

unfoldable pub spaces : ℕ → Text
spaces zero = []
spaces (suc n) = b' ' ∷ spaces n

-- `{:<width$}` of a text in ASCII
unfoldable pub padded : ℕ → Text → Text
unfolding spaces
padded width s = s ++ spaces (width - length s)

unfoldable pub kv : ℕ → Text → Text → Text
unfolding padded
kv width key value = padded (width + 3) (key ++ codes ":") ++ (value ++ newline)

unfoldable pub i64_to_string : ℤ → Text
i64_to_string (pos n) = u64_to_string n
i64_to_string (negsuc n) = b'-' ∷ u64_to_string (suc n)

-- A stored quota in words
unfoldable pub quota_text : Option ℤ → Text
unfolding i64_to_string
quota_text none = codes "default"
quota_text (some n) = i64_to_string n

-- The values of the fields of a JSON object
pub data Json : Type 0 where
  null : Json
  string : Text → Json
  number : ℤ → Json

abbrev pub quota_json : Option ℤ → Json
quota_json none = null
quota_json (some n) = number n
