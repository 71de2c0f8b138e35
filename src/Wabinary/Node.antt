-- ===== src/Wabinary/Node.antt =====
-- wassupweb/wabinary/types.py and the tags of wassupweb/wabinary/constants.py.
use wassupweb.Prelude.{ℕ, Option, List, Bytes}
use wassupweb.Text.{Text}

-- `BinaryNode`, its content (`None`, `str`, `bytes` or a list of nodes) and lists of nodes.
mutual
  pub data BinaryNode : Type 0 where
    node : Text → List (Text × Option Text) → Content → BinaryNode

  pub data Content : Type 0 where
    nothing : Content
    text : Text → Content
    bytes : Bytes → Content
    children : Nodes → Content

  pub data Nodes : Type 0 where
    nil : Nodes
    cons : BinaryNode → Nodes → Nodes

-- An attribute is a text; `None` stands for a value that the encoder skips.
abbrev pub Attrs : Type 0
Attrs = List (Text × Option Text)

-- An entry of `TOKEN_MAP`.
pub data Token : Type 0 where
  single : ℕ → Token
  double : ℕ → ℕ → Token

-- The tables that encoder and decoder take as options. The tags are the same everywhere and are
-- constants below.
pub record Tables : Type 0 where
  pub single_tokens : List Text
  pub double_tokens : List (List Text)
  pub token_map : Text → Option Token
