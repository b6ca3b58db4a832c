-- ===== src/Agent/Handoff.antt =====
-- agent/handoff.go: a goal is handed to a specialist, an agent of its own with fewer tools.
use agent_go.Prelude.{
  ◌≡◌, ◌≢◌, refl, ◌∙◌, ap, Bool, true, false, ◌&&◌, ◌||◌, not, List, [], ◌∷◌, ◌++◌, map, filter,
  Option, none, some, if◌then◌else◌, ◌⊎◌, inl, inr, Option-cases, Bool-cases, arith,
}
use agent_go.Text.{
  Text, codes, trim_space, is_empty, is_nil, text_eq, text_eq_iff, text_eq_refl, join,
}
use agent_go.Text.Table.{Table, lookup, insert, mem}
use agent_go.Errors.{Error, new_error}
use agent_go.Llm.{zero_usage}
use agent_go.Tool.{Tool, execute_detail, find_tool, ok, canceled_result}
use agent_go.Agent.Settings.{Settings}
use agent_go.Agent.Loop.{Env, Session, Outcome, answered}
use agent_go.Agent.Run.{run}

-- Empty `tools` are all of the parent's but the handoff.
pub record Specialist : Type 0 where
  pub name : Text
  pub description : Text
  pub prompt : Text
  pub tools : List Text

-- NewRoster: names are trimmed, blank ones left out, and the last of a name counts
unfoldable pub new_roster : Table Specialist → List Specialist → Table Specialist
unfolding trim_space is_empty insert
new_roster out [] = out
new_roster out (s ∷ ss) =
    let name = trim_space s.name in new_roster (if is_empty name then out else insert name s out) ss

abbrev pub handoff_name : Text
handoff_name = codes "handoff"

-- The two tests of filterTools.
abbrev pub is_kept : List Text → Text → Bool
is_kept allow name =
    not (text_eq name handoff_name) && not (not (is_nil allow) && not (mem name allow))

abbrev pub fresh_session : Session
fresh_session = record {
  history = [];
  last_usage = zero_usage;
  session_usage = zero_usage;
  running = false;
}

is_kept-handoff : (allow : List Text) → is_kept allow handoff_name ≡ false
is_kept-handoff allow = rw (text_eq_refl handoff_name) refl

is_kept-other :
    (allow : List Text) (name : Text)
    → is_nil allow ≡ false
    → mem name allow ≡ false
    → is_kept allow name ≡ false
is_kept-other allow name h g = rw h (rw g (ground arith))

not_kept :
    (allow : List Text) (name : Text)
    → (name ≡ handoff_name) ⊎ ((is_nil allow ≡ false) × (mem name allow ≡ false))
    → is_kept allow name ≡ false
not_kept allow name (inl e) = ap (is_kept allow) e ∙ is_kept-handoff allow
not_kept allow name (inr (h, g)) = is_kept-other allow name h g

canceled-ne-ok : (name : Text) (e : Error) → (canceled_result name e).code ≢ ok
unfolding canceled_result
canceled-ne-ok name e h = ground arith

module _ {W : Type 0} where
  -- filterTools
  unfoldable pub filter_tools : List (Tool W) → List Text → List (Tool W)
  unfolding text_eq is_nil mem
  filter_tools all allow = filter (λ (t : Tool W). is_kept allow t.name) all

  -- The child agent: it has the parent's settings, its own prompt, and no store of sessions.
  abbrev pub child_settings : Settings W → List (Tool W) → Specialist → Settings W
  child_settings c tools spec = record c {
    tool_names = map (λ (t : Tool W). t.name) (filter_tools tools spec.tools);
    system_prompt = if is_empty spec.prompt then c.system_prompt else spec.prompt;
    session_id = [];
  }

  abbrev pub child_env : Env W → Specialist → Env W
  child_env env spec = record env {
    tools = filter_tools env.tools spec.tools;
    save = λ id msgs w. w;
    forget = λ id w. w;
    load = λ id w. none;
  }

  abbrev pub handoff_result : Outcome × Session × W → Text × Option Error × W
  handoff_result (answered t, s, w) = (t, none, w)
  handoff_result (Outcome.failed e, s, w) = ([], some e, w)

  -- (*Roster).run of a roster with a parent; `names` is the order in which the map is visited.
  unfoldable pub run_specialist :
      Settings W
      → Env W
      → Table Specialist
      → List Text
      → Text
      → Text
      → Text
      → W
      → Text × Option Error × W
  unfolding lookup run filter_tools join is_empty
  run_specialist c env roster names default_prompt name goal w = elim (lookup name roster) [
    | none ↦ (
      [],
      some (
          new_error (
            codes "handoff: unknown agent "
            ++ (env.policy.quote name
                ++ (codes " (have " ++ (join (codes ", ") names ++ codes ")"))))),
      w,
    )
    | some spec ↦ handoff_result (
        run (child_settings c env.tools spec) (child_env env spec) default_prompt goal fresh_session
          w)
  ]

  -- (rosterTool).Run, for ParseArgs of the two arguments
  unfoldable pub run_handoff :
      (Text → (Text × Text) ⊎ Error)
      → Settings W
      → Env W
      → Table Specialist
      → List Text
      → Text
      → Text
      → W
      → Text × Option Error × W
  unfolding run_specialist trim_space is_empty
  run_handoff parse c env roster names default_prompt args w = elim (parse args) [
    | inr e ↦ ([], some e, w)
    | inl (agent, given) ↦
        let name = trim_space agent in
        let goal = trim_space given in
        if is_empty name || is_empty goal
        then ([], some (new_error (codes "agent and goal are required")), w)
        else run_specialist c env roster names default_prompt name goal w
  ]

  -- A name that is not kept is not found.
  find_tool-filter :
      (all : List (Tool W)) (keep : Text → Bool) (name : Text)
      → keep name ≡ false
      → find_tool name (filter (λ (t : Tool W). keep t.name) all) ≡ none
  unfolding find_tool
  find_tool-filter [] keep name h = refl
  find_tool-filter (t ∷ all) keep name h = elim (Bool-cases (keep t.name)) [
    | inr e ↦ rw e (find_tool-filter all keep name h)
    | inl e ↦ elim (Bool-cases (text_eq t.name name)) [
      | inr d ↦ rw e (rw (find_tool-filter all keep name h) (rw d refl))
      | inl d ↦
          let same : t.name ≡ name = (text_eq_iff t.name name).0 d in
          absurd (kept_not (keep t.name) e (ap keep same ∙ h))
    ]
  ]
    where
      kept_not : (b : Bool) → b ≡ true → b ≡ false → ⊥
      kept_not b e d = ground arith

  -- If a name is "handoff", or is not among the tools that a specialist lists (it lists some),
  -- then a call of this name by the specialist that handoff starts ends with a code other than ok
  -- and leaves the world as it was: no tool runs.
  pub handoff-keeps_out :
      (env : Env W) (spec : Specialist) (name args : Text) (w : W)
      → (name ≡ handoff_name) ⊎ ((is_nil spec.tools ≡ false) × (mem name spec.tools ≡ false))
      → let r = execute_detail env.policy (child_env env spec).tools name args w in
        (r.0.code ≢ ok) × (r.1 ≡ w)
  unfolding filter_tools execute_detail
  handoff-keeps_out env spec name args w h =
      let gone =
        find_tool-filter env.tools (is_kept spec.tools) name (not_kept spec.tools name h) in
      elim (Option-cases (env.policy.ctx_err w)) [
        | inr (e, d) ↦ rw (execute_detail, d) (canceled-ne-ok name e, refl)
        | inl d ↦ rw (execute_detail, d) (rw gone ((λ q. cc), refl))
      ]
