-- ===== src/Graph.antt =====
-- db/models/node.py and db/models/edge.py: the rows of the derived graph, and the two tables that
-- graph/drivers/postgres.py works on. Row ids are numbers that a counter gives, where the program
-- draws a UUID. An embedding is the list of its floats' bit patterns: no operation here computes
-- with them. `confidence` and `ontology_version` are left out: the driver never writes them.
pub mod Edges
pub mod Nodes
pub mod Reads
pub mod Views
pub mod Register
pub mod Ledger
use mlpal_memory.Prelude.{ℕ, String, Option, List}
use mlpal_memory.Json.{Props}
use mlpal_memory.Scope.{Owner, Classification}

-- The lifecycle of a memory.
pub data Status : Type 0 where
  working committed published superseded ended expired retracted : Status

abbrev pub Embedding : Type 0
Embedding = List ℕ

pub record Node : Type 0 where
  pub id : ℕ
  pub owner : Owner
  pub type : String
  pub key : String
  pub name : String
  pub summary : Option String
  pub classification : Classification
  pub owner_user_id : Option String
  pub source : Option String
  pub derived_from : List String
  pub props : Props
  pub embedding : Option Embedding
  pub embedding_model : Option String
  pub embedding_dim : Option ℕ
  pub workspace : Option String
  pub status : Status
  pub expires_at : Option ℕ
  pub observed_count : ℕ
  pub created_at : ℕ

-- A relation between two nodes. `valid_at` and `invalid_at` say when the fact holds in the world,
-- `ingested_at` and `expired_at` when it was believed.
pub record Edge : Type 0 where
  pub id : ℕ
  pub owner : Owner
  pub type : String
  pub src_id : ℕ
  pub dst_id : ℕ
  pub fact : Option String
  pub classification : Classification
  pub source : Option String
  pub derived_from : List String
  pub fact_embedding : Option Embedding
  pub embedding_model : Option String
  pub embedding_dim : Option ℕ
  pub props : Props
  pub valid_at : ℕ
  pub invalid_at : Option ℕ
  pub ingested_at : ℕ
  pub expired_at : Option ℕ
  pub workspace : Option String
  pub status : Status
  pub expires_at : Option ℕ

-- The tables, and the ids given out so far.
pub record Store : Type 0 where
  pub nodes : List Node
  pub edges : List Edge
  pub next_id : ℕ
