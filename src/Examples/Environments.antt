-- ===== src/Examples/Environments.antt =====
-- A file of variables and an environment, for cmd/agent/dotenv.go.
use agent_go.Prelude.{◌≡◌, refl, [], ◌∷◌, none, some, List, Option}
use agent_go.Text.{Text, codes, is_space, is_nil, text_eq, trim_space}
use agent_go.Text.Table.{Table, lookup}
use agent_go.Errors.{Error}
use agent_go.DotEnv.{getenv, opened, load_dot_env, parse_line}
use agent_go.DotEnv.Kept.{load_dot_env-Keeps}
use agent_go.DotEnv.Written.{exported, first_value, load_dot_env-exported}

abbrev shell : Table Text
shell = (codes "A", codes "0") ∷ []

abbrev accepts : Text → Text → Option Error
accepts key value = none

abbrev file : List Text
file = codes "# keys" ∷ codes "A=1" ∷ codes "B = two # two" ∷ codes "broken" ∷ []

load_dot_env-Keeps_example :
    getenv (codes "A") (load_dot_env (codes ".env") (λ t. t) accepts (opened file none) shell).1
    ≡ codes "0"
unfolding getenv is_nil lookup text_eq
load_dot_env-Keeps_example =
    load_dot_env-Keeps (codes ".env") (λ t. t) accepts (opened file none) shell (codes "A") refl

comment_cut : parse_line (codes "B = two # two") ≡ some (codes "B", codes "two")
unfolding parse_line trim_space is_space is_nil
comment_cut = refl

abbrev pairs : List (Text × Text)
pairs = (codes "A", codes "1") ∷ (codes "B", codes "x # \"y\"") ∷ []

load_dot_env-exported_example :
    ((load_dot_env (codes ".env") (λ t. t) accepts (opened (exported pairs) none) shell).0.1 ≡ none)
    × ((key : Text)
        → getenv key
            (load_dot_env (codes ".env") (λ t. t) accepts (opened (exported pairs) none) shell).1
          ≡ first_value key pairs (getenv key shell))
unfolding is_space
load_dot_env-exported_example =
    load_dot_env-exported (codes ".env") (λ t. t) accepts pairs shell
      ((((refl, tt), (refl, tt)), refl), ((((refl, tt), (refl, tt)), refl), tt))
