-- ===== src/Examples/Servers.antt =====
-- A specialist, a server of tools, a client and parked calls, for agent/handoff.go,
-- mcp/bridge.go, mcp/client.go and httpapi/approve.go.
use agent_go.Prelude.{ℕ, true, List, ◌≡◌, ◌≢◌, refl, [], ◌∷◌, none, All, inr}
use agent_go.Text.{Text, codes, is_nil, trim_space, is_space, text_eq, is_blank}
use agent_go.Tool.{Approval, ok, execute_detail}
use agent_go.Agent.Handoff.{Specialist, child_env, handoff-keeps_out}
use agent_go.Mcp.Bridge.{
  ServerConfig, Schema, McpTool, Dialed, listed, connect, IsBridged, connect-IsBridged, allowed,
  bridge_tools,
}
use agent_go.Mcp.Calls.{
  result, new_client, begin_call, dispatch, Response, called, received, stay, go,
}
use agent_go.Mcp.Answers.{IsAnswering, Reach-IsAnswering}
use agent_go.Httpapi.Park.{asks, decides, Event}
use agent_go.Text.Table.{mem}
use agent_go.Examples.Data.{env, no_hints}

abbrev poet : Specialist
poet = record { name = codes "poet"; description = []; prompt = []; tools = codes "rhyme" ∷ [] }

handoff-keeps_out_example :
    ((execute_detail env.policy (child_env env poet).tools (codes "echo") [] 0).0.code ≢ ok)
    × ((execute_detail env.policy (child_env env poet).tools (codes "echo") [] 0).1 ≡ 0)
unfolding is_nil mem text_eq
handoff-keeps_out_example = handoff-keeps_out env poet (codes "echo") [] 0 (inr (refl, refl))

abbrev server : ServerConfig
server = record { name = codes "s"; command = codes "run"; allow = codes " a " ∷ [] }

abbrev schema_named : Text → Schema
schema_named n = record { name = n; hints = none }

abbrev dial : ServerConfig → ℕ → Dialed × ℕ
dial c n = (listed (schema_named (codes "a") ∷ schema_named (codes "b") ∷ []), n)

abbrev bridged : McpTool
bridged = record { prefix = codes "s"; schema = schema_named (codes "a") }

connect-IsBridged_example : All (IsBridged (server ∷ [])) (bridged ∷ [])
unfolding connect bridge_tools allowed text_eq trim_space is_space is_nil is_blank
connect-IsBridged_example =
    connect-IsBridged dial (λ c n. n) (server ∷ [])
      (record { clients = codes "s" ∷ []; tools = bridged ∷ [] }) 0 0 refl

new-IsAnswering : IsAnswering new_client
new-IsAnswering = record { distinct = tt; old = tt }

abbrev reply : Response
reply = record { id = codes "1"; method = []; reply = result (codes "{}") }

Reach-IsAnswering_example : IsAnswering (dispatch reply (begin_call new_client))
Reach-IsAnswering_example =
    Reach-IsAnswering (go (called refl) (go (received reply refl) stay)) new-IsAnswering

abbrev request : Approval
request = record { name = codes "echo"; args = []; meta = no_hints }

abbrev parked : List Event
parked = decides (codes "a") true 5 ∷ asks (codes "a") request [] 0 ∷ []
