-- ===== src/AppDefaults.antt =====
-- web/static/js/connections.js: `appDefaults`, and the name and the address that the dialog for a
-- new instance suggests.
use Prim.Native.String
use huntarr.Base.{
  ℕ, suc, String, List, [], ◌∷◌, Option, none, some, if◌then◌else◌, ◌==◌, decimal, lookup,
}

pub record AppDefault : Type 0 where
  pub label : String
  pub port : ℕ
  pub host : String

abbrev app_default : String → ℕ → String → AppDefault
app_default label port host = record { label = label; port = port; host = host }

abbrev app_defaults : List (String × AppDefault)
app_defaults =
    ("sonarr", app_default "Sonarr" 8989 "sonarr")
    ∷ ("radarr", app_default "Radarr" 7878 "radarr")
    ∷ ("lidarr", app_default "Lidarr" 8686 "lidarr")
    ∷ ("whisparr-v2", app_default "Whisparr V2" 6969 "whisparr")
    ∷ ("whisparr-v3", app_default "Whisparr V3" 6969 "whisparr")
    ∷ []

abbrev placeholder_of : Option AppDefault → String
placeholder_of none = ""
placeholder_of (some d) =
    String.◌++◌ "http://" (String.◌++◌ d.host (String.◌++◌ ":" (decimal d.port)))

unfoldable pub default_placeholder : String → String
unfolding lookup
default_placeholder app_type = placeholder_of (lookup app_type app_defaults)

abbrev name_of : ℕ → Option AppDefault → String
name_of count none = ""
name_of count (some d) =
    if count == 0 then d.label else String.◌++◌ d.label (String.◌++◌ " " (decimal (suc count)))

-- `defaultName`, with the number of instances that the page shows in the type's section.
unfoldable pub default_name : String → ℕ → String
unfolding lookup
default_name app_type count = name_of count (lookup app_type app_defaults)
