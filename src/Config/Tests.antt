-- ===== src/Config/Tests.antt =====
-- Runs of the configuration manager, and the theorems of this part at them.
use Prim.Native.String.{String}
use text.Mathlib.Text.{◌==◌ as str_eq}
use flagfish.Prelude.{
  ◌≡◌, ◌≢◌, refl, arith, true, false, Option, none, some, List, [], ◌∷◌, if◌then◌else◌,
}
use flagfish.Prelude.Int.{ℤ, pos, negsuc}
use flagfish.Account.{users}
use flagfish.Config.{Library}
use flagfish.Config.Registry.{is_secret}
use flagfish.Config.Build.{Row, coherence_rules}
use flagfish.Config.Manager.{
  Manager, stored, rejected, boot, has, keys_of, touches_any, broken_before, set, writes,
}
use flagfish.Config.Coherent.{set-Ratchet}
use flagfish.Config.Bootable.{writes-boot}

abbrev numeral : String → Option ℤ
numeral s =
    if str_eq s "587"
    then some (pos 587)
    else if str_eq s "100"
    then some (pos 100)
    else if str_eq s "-1"
    then some (negsuc 0)
    else none

-- a library that reads the values below
abbrev lib : Library
lib = record {
  trim_space = λ s. s;
  split = λ s. s ∷ [];
  atoi = numeral;
  parse_int = numeral;
  is_address = λ s. true;
  parse_url = λ s. some (record { scheme = "https"; host = "hooks.example.org" });
  is_tokens = λ s. true;
}

abbrev row : String → String → Row
row k v = record { key = k; value = v }

-- verify_emails was seeded without a mail server
abbrev seeded : Manager
seeded = record {
  rows = row "verify_emails" "true" ∷ [];
  instance_mode = some users;
  snap = none;
  problems = [];
}

abbrev renamed : List Row
renamed = row "ctf_name" "Flagfish" ∷ []

abbrev paused : List Row
paused = row "paused" "yes" ∷ []

abbrev mail : List Row
mail = row "mail_server" "smtp.example.org" ∷ []

abbrev whole_mail : List Row
whole_mail =
    row "mail_server" "smtp.example.org"
    ∷ row "mail_port" "587"
    ∷ row "mailfrom_addr" "ctf@example.org"
    ∷ []

tolerated : (set lib coherence_rules renamed seeded).1 ≡ stored
unfolding set coherence_rules
tolerated = refl

half_mail_refused : (set lib coherence_rules mail seeded).1 ≡ rejected
unfolding set coherence_rules
half_mail_refused = refl

repaired : (set lib coherence_rules whole_mail seeded).0.problems ≡ []
unfolding set coherence_rules
repaired = refl

mlc_refused :
    (set lib coherence_rules (row "registration_visibility" "mlc" ∷ []) seeded).1 ≡ rejected
unfolding set coherence_rules
mlc_refused = refl

unknown_key_secret : is_secret lib "smtp_api_key" ≡ true
unfolding is_secret
unknown_key_secret = refl

set-Ratchet_example :
    (has 7 (broken_before lib coherence_rules seeded) ≡ true)
    × (touches_any (keys_of 7 coherence_rules) renamed ≡ false)
unfolding set has coherence_rules
set-Ratchet_example = set-Ratchet lib coherence_rules renamed seeded 7 refl refl

paused-refused : (set lib coherence_rules paused seeded).1 ≢ stored
unfolding set coherence_rules
paused-refused = λ e. ground (arith, e)

abbrev live : Manager
unfolding set
live = (set lib coherence_rules whole_mail seeded).0

writes-boot_example :
    boot lib coherence_rules
      (writes lib coherence_rules (renamed ∷ mail ∷ paused ∷ []) live).rows
      (writes lib coherence_rules (renamed ∷ mail ∷ paused ∷ []) live).instance_mode
    ≡ some (writes lib coherence_rules (renamed ∷ mail ∷ paused ∷ []) live)
unfolding boot set coherence_rules
writes-boot_example = writes-boot lib coherence_rules (renamed ∷ mail ∷ paused ∷ []) live refl
