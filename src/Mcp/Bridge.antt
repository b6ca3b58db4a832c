-- ===== src/Mcp/Bridge.antt =====
-- mcp/bridge.go: which tools of the servers the agent gets, and under which annotations.
use agent_go.Prelude.{
  ◌≡◌, refl, subst, Bool, true, false, ◌&&◌, ◌||◌, not, List, [], ◌∷◌, ◌++◌, Option, none, some,
  if◌then◌else◌, ◌⊎◌, inl, inr, any, All, All-append, Bool-cases, ◌↔◌,
}
use agent_go.Text.{Text, codes, trim_space, is_blank, is_nil, text_eq}
use agent_go.Errors.{Error, wrap}
use agent_go.Tool.{Annotations}

-- ServerConfig; the command line is passed on.
pub record ServerConfig : Type 0 where
  pub name : Text
  pub command : Text
  pub allow : List Text

-- toolAnnot, where a server sends it
pub record Hints : Type 0 where
  pub title : Text
  pub read_only : Bool
  pub destructive : Bool
  pub open_world : Bool

pub record Schema : Type 0 where
  pub name : Text
  pub hints : Option Hints

-- mcpTool
pub record McpTool : Type 0 where
  pub prefix : Text
  pub schema : Schema

abbrev pub prefixed : Text → Text → Text
prefixed server tool = server ++ (codes "__" ++ tool)

-- allowed
unfoldable pub allowed : ServerConfig → Text → Bool
unfolding text_eq trim_space is_nil
allowed cfg tool =
    if is_nil cfg.allow
    then false
    else any
        (λ a.
          let entry = trim_space a in
          text_eq entry (codes "*") || text_eq entry tool || text_eq entry (prefixed cfg.name tool))
        cfg.allow

-- (mcpTool).Name
abbrev pub tool_name : McpTool → Text
tool_name t = prefixed t.prefix t.schema.name

-- (mcpTool).Annotations
abbrev pub hinted : Option Hints → Annotations
hinted none = record {
  title = [];
  read_only = false;
  destructive = false;
  open_world = true;
  needs_approval = true;
}
hinted (some h) = record {
  title = h.title;
  read_only = h.read_only;
  destructive = h.destructive;
  open_world = h.open_world;
  needs_approval = not (h.read_only && not h.destructive);
}

unfoldable pub bridge_tools : ServerConfig → List Schema → List McpTool
unfolding allowed
bridge_tools cfg [] = []
bridge_tools cfg (s ∷ ss) =
    let rest = bridge_tools cfg ss in
    if not (allowed cfg s.name) then rest else record { prefix = cfg.name; schema = s } ∷ rest

-- What Dial and ListTools come to: no client, a client with no list, or a client and its tools.
pub data Dialed : Type 0 where
  undialed : Error → Dialed
  unlisted : Error → Dialed
  listed : List Schema → Dialed

pub record Bridge : Type 0 where
  pub clients : List Text
  pub tools : List McpTool

module _ {W : Type 0} (dial : ServerConfig → W → Dialed × W) (close : Text → W → W) where
  -- (*Bridge).Close
  unfoldable pub close_all : List Text → W → W
  close_all [] w = w
  close_all (c ∷ cs) w = close_all cs (close c w)

  abbrev pub is_skipped : ServerConfig → Bool
  is_skipped cfg = is_blank cfg.name || is_blank cfg.command

  -- What follows Dial and ListTools.
  abbrev pub after_dial :
      ServerConfig
      → Bridge
      → (Bridge → W → (Bridge ⊎ Error) × W)
      → Dialed × W
      → (Bridge ⊎ Error) × W
  after_dial cfg b next (undialed e, w) =
      (inr (wrap (codes "mcp " ++ (cfg.name ++ codes ": ")) e), close_all b.clients w)
  after_dial cfg b next (unlisted e, w) = (
    inr (wrap (codes "mcp " ++ (cfg.name ++ codes " tools/list: ")) e),
    close_all b.clients (close cfg.name w),
  )
  after_dial cfg b next (listed schemas, w) =
      next
        (record {
          clients = b.clients ++ (cfg.name ∷ []);
          tools = b.tools ++ bridge_tools cfg schemas;
        })
        w

  -- The loop of Connect; clients are named by their servers.
  unfoldable pub connect : List ServerConfig → Bridge → W → (Bridge ⊎ Error) × W
  unfolding bridge_tools close_all is_blank
  connect [] b w = (inl b, w)
  connect (cfg ∷ cfgs) b w =
      let next = connect cfgs in
      elim (is_skipped cfg) [ true ↦ next b w | false ↦ after_dial cfg b next (dial cfg w) ]

abbrev pub AmongServers : ServerConfig → List ServerConfig → Type 0
AmongServers c [] = ⊥
AmongServers c (d ∷ ds) = (c ≡ d) ⊎ AmongServers c ds

-- The server sent hints, and in them that the tool only reads and destroys nothing.
abbrev pub SaysSafe : Option Hints → Type 0
SaysSafe none = ⊥
SaysSafe (some h) = (h.read_only ≡ true) × (h.destructive ≡ false)

said_safe : (r d : Bool) → not (r && not d) ≡ false ↔ ((r ≡ true) × (d ≡ false))
said_safe true false = (λ e. (refl, refl), λ e. refl)
said_safe true true = (λ e. cc, λ e. e.1)
said_safe false d = (λ e. cc, λ e. cc)

-- A tool that its server's list lets through, and that needs no approval exactly if the server
-- sent that it only reads and destroys nothing.
pub record IsBridged (servers : List ServerConfig) (t : McpTool) : Type 0 where
  pub server : ServerConfig
  pub among : AmongServers server servers
  pub name : tool_name t ≡ prefixed server.name t.schema.name
  pub allows : allowed server t.schema.name ≡ true
  pub gated : (hinted t.schema.hints).needs_approval ≡ false ↔ SaysSafe t.schema.hints

gated_hints : (h : Option Hints) → (hinted h).needs_approval ≡ false ↔ SaysSafe h
gated_hints none = (λ e. true_is_not_false e, λ e. elim e [ ])
  where
    true_is_not_false : true ≡ false → ⊥
    true_is_not_false e = cc
gated_hints (some h) = said_safe h.read_only h.destructive

bridge_tools-IsBridged :
    (servers : List ServerConfig) (cfg : ServerConfig) (ss : List Schema)
    → AmongServers cfg servers
    → All (IsBridged servers) (bridge_tools cfg ss)
unfolding bridge_tools
bridge_tools-IsBridged servers cfg [] h = tt
bridge_tools-IsBridged servers cfg (s ∷ ss) h = elim (Bool-cases (allowed cfg s.name)) [
  | inr e ↦ rw e (bridge_tools-IsBridged servers cfg ss h)
  | inl e ↦ rw e (
    record { server = cfg; among = h; name = refl; allows = e; gated = gated_hints s.hints },
    bridge_tools-IsBridged servers cfg ss h,
  )
]

module _ {W : Type 0} (dial : ServerConfig → W → Dialed × W) (close : Text → W → W)
    (all : List ServerConfig) where
  abbrev Bridged : (Bridge ⊎ Error) × W → Type 0
  Bridged (inl b, w) = All (IsBridged all) b.tools
  Bridged (inr e, w) = Unit

  after_dial-Bridged :
      (cfg : ServerConfig) (b : Bridge) (next : Bridge → W → (Bridge ⊎ Error) × W) (d : Dialed × W)
      → AmongServers cfg all
      → All (IsBridged all) b.tools
      → ((c : Bridge) (v : W) → All (IsBridged all) c.tools → Bridged (next c v))
      → Bridged (after_dial dial close cfg b next d)
  after_dial-Bridged cfg b next (undialed e, w) q h g = tt
  after_dial-Bridged cfg b next (unlisted e, w) q h g = tt
  after_dial-Bridged cfg b next (listed schemas, w) q h g =
      g
        (record {
          clients = b.clients ++ (cfg.name ∷ []);
          tools = b.tools ++ bridge_tools cfg schemas;
        })
        w
        (All-append (IsBridged all) b.tools (bridge_tools cfg schemas) h
          (bridge_tools-IsBridged all cfg schemas q))

  connect-Bridged :
      (cfgs : List ServerConfig) (b : Bridge) (w : W)
      → ((c : ServerConfig) → AmongServers c cfgs → AmongServers c all)
      → All (IsBridged all) b.tools
      → Bridged (connect dial close cfgs b w)
  unfolding connect
  connect-Bridged [] b w sub h = h
  connect-Bridged (cfg ∷ cfgs) b w sub h =
      let rest : (d : ServerConfig) → AmongServers d cfgs → AmongServers d all =
        λ d q. sub d (inr q) in
      elim (Bool-cases (is_skipped dial close cfg)) [
        | inl e ↦ rw (connect, e) (connect-Bridged cfgs b w rest h)
        | inr e ↦
            rw (connect, e)
              (after_dial-Bridged cfg b (connect dial close cfgs) (dial cfg w) (sub cfg (inl refl))
                h (λ c v g. connect-Bridged cfgs c v rest g))
      ]

abbrev pub no_bridge : Bridge
no_bridge = record { clients = []; tools = [] }

module _ {W : Type 0} (dial : ServerConfig → W → Dialed × W) (close : Text → W → W) where
  -- If Connect succeeds on some servers, then each tool of the bridge belongs to one of them whose
  -- allowlist lets its name through, is named by the server and its own name, and needs no
  -- approval exactly if the server sent hints that say that it only reads and is not destructive.
  pub connect-IsBridged :
      (servers : List ServerConfig) (b : Bridge) (w w1 : W)
      → connect dial close servers no_bridge w ≡ (inl b, w1)
      → All (IsBridged servers) b.tools
  connect-IsBridged servers b w w1 e =
      subst (Bridged dial close servers) e
        (connect-Bridged dial close servers servers no_bridge w (λ c q. q) tt)
