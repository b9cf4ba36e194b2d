-- ===== src/Parallel/Types.antt =====
-- The state of the engine. `Arc<RwLock<..>>` is a cell: clones of a transaction share the cells of
-- its read set and its write set, whose contents the engine's `reads` and `writes` hold.
use slura_chain.Base.{ℕ, String, Bool, Option, List}
use slura_chain.Base.Map.{Map}
use slura_chain.Base.Outcome.{Result}

-- What the engine reads of `SlurachainVm`; `rest` is what it passes on to `execute_module`.
pub record Vm (Value Rest Db Bytes : Type 0) : Type 0 where
  pub accounts : Map String (Map String Value)
  pub world_storage : Map String (Map String Bytes)
  pub storage_manager : Option Db
  pub rest : Rest

-- `execute_module`, the storage manager, and the functions of `str`, serde_json and hex.
pub record Machine : Type 1 where
  pub Value : Type 0
  pub Rest : Type 0
  pub Db : Type 0
  pub Bytes : Type 0
  pub execute_module :
      Vm Value Rest Db Bytes
      → String
      → String
      → List Value
      → Option String
      → Option Bytes
      → Result Value String × Vm Value Rest Db Bytes
  pub scan_prefix : Db → String → Result (List (String × Bytes)) String
  pub write : Db → String → Bytes → Result Db String
  pub starts_with : String → String → Bool
  pub trim_start_matches : String → String → String
  pub storage_of : Value → Option (List (String × Value))
  pub as_str : Value → Option String
  pub string_value : String → Value
  pub skip_two : String → String
  pub hex_decode : String → Option Bytes
  pub hex_encode : Bytes → String
  pub one_be_bytes : Bytes

pub record ParallelTransaction (M : Machine) : Type 0 where
  pub id : ℕ
  pub contract_address : String
  pub function_name : String
  pub args : List M.Value
  pub sender : String
  pub version : ℕ
  pub read_set : ℕ
  pub write_set : ℕ
  pub calldata : Option M.Bytes

-- `OptimisticParallelEngine`, with the contents of the cells and the next free cell.
pub record Engine (M : Machine) : Type 0 where
  pub storage_versions : Map String ℕ
  pub active_transactions : Map ℕ (ParallelTransaction M)
  pub transaction_queue : List (ParallelTransaction M)
  pub vm : Vm M.Value M.Rest M.Db M.Bytes
  pub reads : ℕ → Map String ℕ
  pub writes : ℕ → Map String M.Bytes
  pub next_cell : ℕ
